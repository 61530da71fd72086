-- ===== src/Security/Examples.antt =====
-- Concrete runs of the token service, with a cryptography of two lines.
use Prim.Native.String.{count}
use capd.Prelude.{
  ℕ, zero, suc, ◌+◌, String, Bool, true, Option, none, some, ◌≡◌, refl, sym, subst, ◌⊎◌, inl, inr,
  Bool-cases, arith, ◌||◌, str_eq,
}
use capd.Security.Token.{Crypto, is_scope, mint_scoped_token, verify_scoped_token, signed_token}
use capd.Security.Minting.{
  NoDot, CryptoLaws, Signed, str_eq-≡, verify_scoped_token-mint, verify_scoped_token-Signed,
}

unfoldable unary : ℕ → String
unary zero = String.[]
unary (suc n) = String.◌∷◌ "1" (unary n)

abbrev next : Option ℕ → Option ℕ
next none = none
next (some n) = some (suc n)

unfoldable from_unary : String → Option ℕ
from_unary String.[] = some 0
from_unary (String.◌∷◌ c s) = next (from_unary s)

abbrev toy : Crypto
toy = record {
  encode = λ s. s;
  decode = some;
  sign = λ root payload. unary (count root + count payload);
  format_int = unary;
  parse_int = from_unary;
  trim = λ s. s;
}

from_unary-unary : (n : ℕ) → from_unary (unary n) ≡ some n
unfolding from_unary unary
from_unary-unary zero = refl
from_unary-unary (suc n) = rw (from_unary-unary n) refl

unary-NoDot : (n : ℕ) → NoDot (unary n)
unfolding unary
unary-NoDot zero = tt
unary-NoDot (suc n) = (refl, unary-NoDot n)

either-NoDot :
    (s name : String) (rest : Bool)
    → NoDot name
    → (rest ≡ true → NoDot s)
    → (str_eq s name || rest) ≡ true
    → NoDot s
either-NoDot s name rest h k e = elim (Bool-cases (str_eq s name)) [
  | inl same ↦ subst NoDot (sym (str_eq-≡ s name same)) h
  | inr other ↦ k (ground (arith, other, e))
]

is_scope-NoDot : (s : String) → is_scope s ≡ true → NoDot s
is_scope-NoDot s =
    either-NoDot s "full" _ (refl, (refl, (refl, (refl, tt))))
      (either-NoDot s "console" _ (refl, (refl, (refl, (refl, (refl, (refl, (refl, tt)))))))
        (either-NoDot s "console:read" _
          (
            refl,
            (
              refl,
              (refl, (refl, (refl, (refl, (refl, (refl, (refl, (refl, (refl, (refl, tt)))))))))),
            ),
          )
          (λ h.
            subst NoDot (sym (str_eq-≡ s "probe:read" h))
              (refl, (refl, (refl, (refl, (refl, (refl, (refl, (refl, (refl, (refl, tt)))))))))))))

toy-CryptoLaws : CryptoLaws toy
toy-CryptoLaws = record {
  decode-encode = λ s known. refl;
  parse-format = λ n small. from_unary-unary n;
  encode-NoDot = is_scope-NoDot;
  format-NoDot = unary-NoDot;
  sign-NoDot = λ root payload. unary-NoDot (count root + count payload);
}

abbrev console : String
console = "console"

abbrev toy_token : String
toy_token = signed_token toy "root" "console" 2

verify_scoped_token-mint_example :
    verify_scoped_token toy "root" toy_token 1500000000 ≡ some "console"
unfolding mint_scoped_token unary
verify_scoped_token-mint_example =
    verify_scoped_token-mint toy toy-CryptoLaws "root" "console" toy_token 1000000000 1000000000
      1500000000 refl (omega arith) (omega arith) (omega arith) refl

verify_scoped_token-Signed_example :
    ((toy_token ≡ "root") × (console ≡ "full")) ⊎ Signed toy "root" toy_token console 1500000000
verify_scoped_token-Signed_example =
    verify_scoped_token-Signed toy "root" toy_token console 1500000000
      verify_scoped_token-mint_example
