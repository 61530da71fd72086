-- ===== src/Security/Minting.antt =====
-- internal/security/scoped_token.go: what minting promises to verifying, and the reverse.
use Prim.Native.Char.{Char, code}
use text.Mathlib.TextLemmas.{nil-append, cons-append, append-nil, append_assoc}
use capd.Prelude.{
  ℕ, ◌+◌, ◌/◌, ◌^◌, ◌≤◌, ◌<◌, String, append, Bool, true, false, Option, none, some, List, [], ◌∷◌,
  ok, str_eq, if◌then◌else◌, ◌==◌, ◌≡◌, refl, ap, ◌∙◌, sym, subst, arith, eq_iff, eq_refl,
  Bool-cases, inl, inr, ◌⊎◌,
}
use capd.Security.Token.{
  Crypto, is_scope, split_from, split_dot, join_four, scoped_token_payload, signed_token,
  mint_scoped_token, live, verify_signature, verify_scope, verify_parts, verify_scoped_token,
}

abbrev pub NoDot : String → Type 0
NoDot String.[] = Unit
NoDot (String.◌∷◌ c s) = ((code c == b'.') ≡ false) × NoDot s

-- What is relied on of base64 (its alphabet has no dot, and decoding undoes encoding) for the four
-- scopes, and of strconv: FormatInt writes no dot, and ParseInt reads back what it wrote of an int64.
pub record CryptoLaws (crypto : Crypto) : Type 0 where
  pub decode-encode : (s : String) → is_scope s ≡ true → crypto.decode (crypto.encode s) ≡ some s
  pub parse-format : (n : ℕ) → n < 2 ^ 63 → crypto.parse_int (crypto.format_int n) ≡ some n
  pub encode-NoDot : (s : String) → is_scope s ≡ true → NoDot (crypto.encode s)
  pub format-NoDot : (n : ℕ) → NoDot (crypto.format_int n)
  pub sign-NoDot : (root payload : String) → NoDot (crypto.sign root payload)

append-char :
    (cur : String) (c : Char) (s : String)
    → append (append cur (String.◌∷◌ c "")) s ≡ append cur (String.◌∷◌ c s)
append-char cur c s =
    append_assoc cur (String.◌∷◌ c "") s
    ∙ ap (append cur) (cons-append c "" s ∙ ap (λ t. String.◌∷◌ c t) (nil-append s))

split_from-char :
    (cur s : String) (c : Char)
    → (code c == b'.') ≡ false
    → split_from cur (String.◌∷◌ c s) ≡ split_from (append cur (String.◌∷◌ c "")) s
unfolding split_from
split_from-char cur s c no_dot = rw no_dot refl

split_from-dot : (cur rest : String) → split_from cur (append "." rest) ≡ cur ∷ split_from "" rest
unfolding split_from
split_from-dot cur rest =
    ap (split_from cur) (cons-append "." "" rest ∙ ap (λ t. String.◌∷◌ "." t) (nil-append rest))

-- A part without a dot is read whole, up to the dot behind it or to the end.
split_from-part :
    (cur part rest : String)
    → NoDot part
    → split_from cur (append part (append "." rest)) ≡ append cur part ∷ split_from "" rest
split_from-part cur String.[] rest h =
    ap (split_from cur) (nil-append (append "." rest))
    ∙ split_from-dot cur rest
    ∙ ap (λ s. s ∷ split_from "" rest) (sym (append-nil cur))
split_from-part cur (String.◌∷◌ c part) rest h =
    let (no_dot, later) = h in
    ap (split_from cur) (cons-append c part (append "." rest))
    ∙ split_from-char cur (append part (append "." rest)) c no_dot
    ∙ split_from-part (append cur (String.◌∷◌ c "")) part rest later
    ∙ ap (λ s. s ∷ split_from "" rest) (append-char cur c part)

split_from-end : (cur part : String) → NoDot part → split_from cur part ≡ append cur part ∷ []
unfolding split_from
split_from-end cur String.[] h = ap (λ s. s ∷ []) (sym (append-nil cur))
split_from-end cur (String.◌∷◌ c part) h =
    let (no_dot, later) = h in
    split_from-char cur part c no_dot
    ∙ split_from-end (append cur (String.◌∷◌ c "")) part later
    ∙ ap (λ s. s ∷ []) (append-char cur c part)

split-join :
    (a b c d : String)
    → NoDot a
    → NoDot b
    → NoDot c
    → NoDot d
    → split_dot (join_four a b c d) ≡ a ∷ b ∷ c ∷ d ∷ []
split-join a b c d ha hb hc hd =
    split_first a (append b (append "." (append c (append "." d)))) ha
    ∙ ap (λ l. a ∷ l) (split_first b (append c (append "." d)) hb)
    ∙ ap (λ l. a ∷ b ∷ l) (split_first c d hc)
    ∙ ap (λ l. a ∷ b ∷ c ∷ l) (split_from-end "" d hd ∙ ap (λ s. s ∷ []) (nil-append d))
  where
    split_first :
        (part rest : String)
        → NoDot part
        → split_dot (append part (append "." rest)) ≡ part ∷ split_dot rest
    split_first part rest h =
        split_from-part "" part rest h ∙ ap (λ s. s ∷ split_dot rest) (nil-append part)

minted-is_scope :
    (crypto : Crypto) (root scope token : String) (ttl now : ℕ)
    → mint_scoped_token crypto root scope ttl now ≡ ok token
    → (is_scope (crypto.trim scope) ≡ true)
      × (token ≡ signed_token crypto root (crypto.trim scope) ((now + ttl) / 1000000000))
unfolding mint_scoped_token
minted-is_scope crypto root scope token ttl now h = ground (arith, h)

live-within :
    (crypto : Crypto) (end later : ℕ)
    → 1000000000 ≤ end
    → later ≤ end
    → live crypto later (some (end / 1000000000)) ≡ some (end / 1000000000)
live-within crypto end later h k = ground arith

verify-signed_token :
    (crypto : Crypto)
    → CryptoLaws crypto
    → (root scope : String) (exp later : ℕ) → is_scope scope ≡ true
    → exp < 2 ^ 63
    → live crypto later (some exp) ≡ some exp
    → verify_parts crypto root later (split_dot (signed_token crypto root scope exp)) ≡ some scope
verify-signed_token crypto laws root scope exp later known small alive =
    let part = crypto.encode scope in
    let payload = scoped_token_payload crypto part exp in
    ap (verify_parts crypto root later) (
      split-join "capd1" part (crypto.format_int exp) (crypto.sign root payload)
        (refl, (refl, (refl, (refl, (refl, tt))))) (laws.encode-NoDot scope known)
        (laws.format-NoDot exp) (laws.sign-NoDot root payload))
    ∙ rw
        (
          laws.decode-encode scope known,
          known,
          laws.parse-format exp small,
          alive,
          eq_refl (crypto.sign root payload),
        )
        refl

-- What the token service mints for a scope, with an end that is a positive int64 of seconds, is
-- accepted as that scope until the time to live is over, unless the token happens to be the daemon's
-- own.
pub verify_scoped_token-mint :
    (crypto : Crypto)
    → CryptoLaws crypto
    → (root scope token : String) (ttl now later : ℕ)
    → mint_scoped_token crypto root scope ttl now ≡ ok token
    → 1000000000 ≤ now + ttl
    → (now + ttl) / 1000000000 < 2 ^ 63
    → later ≤ now + ttl
    → str_eq token root ≡ false
    → verify_scoped_token crypto root token later ≡ some (crypto.trim scope)
unfolding verify_scoped_token
verify_scoped_token-mint crypto laws root scope token ttl now later h positive small alive other =
    let (known, signed) = minted-is_scope crypto root scope token ttl now h in
    rw other (
      ap (λ t. verify_parts crypto root later (split_dot t)) signed
      ∙ verify-signed_token crypto laws root (crypto.trim scope) ((now + ttl) / 1000000000) later
          known small (live-within crypto (now + ttl) later positive alive))

pub record Signed (crypto : Crypto) (root token scope : String) (now : ℕ) : Type 0 where
  pub part : String
  pub exp_text : String
  pub exp : ℕ
  pub splits :
      split_dot token
      ≡ "capd1" ∷ part ∷ exp_text ∷ crypto.sign root (scoped_token_payload crypto part exp) ∷ []
  pub decodes : crypto.decode part ≡ some scope
  pub parses : crypto.parse_int exp_text ≡ some exp
  pub known : is_scope scope ≡ true
  pub positive : 0 < exp
  pub alive : now / 1000000000 ≤ exp

live-some :
    (crypto : Crypto) (now : ℕ) (parsed : Option ℕ) (exp : ℕ)
    → live crypto now parsed ≡ some exp
    → (parsed ≡ some exp) × ((0 < exp) × (now / 1000000000 ≤ exp))
live-some crypto now none exp h = absurd (ground (arith, h))
live-some crypto now (some n) exp h = ground (arith, h)

pub str_eq-≡ : (a b : String) → str_eq a b ≡ true → a ≡ b
str_eq-≡ a b h = let (to, _) = eq_iff a b in to h

if-some :
    {A : Type 0}
    → (b : Bool) (x : Option A) (a : A) → (if b then x else none) ≡ some a
    → (b ≡ true) × (x ≡ some a)
if-some true x a h = (refl, h)
if-some false x a h = absurd (ground (arith, h))

verify_signature-some :
    (crypto : Crypto) (root scope part sig found : String) (alive : Option ℕ)
    → verify_signature crypto root scope part sig alive ≡ some found
    → (exp : ℕ) × ((alive ≡ some exp)
        × ((sig ≡ crypto.sign root (scoped_token_payload crypto part exp)) × (scope ≡ found)))
verify_signature-some crypto root scope part sig found none h = absurd (ground (arith, h))
verify_signature-some crypto root scope part sig found (some exp) h =
    let (equal, scope_found) =
      if-some (str_eq sig (crypto.sign root (scoped_token_payload crypto part exp))) (some scope)
        found h in
    (exp, (refl, (str_eq-≡ sig _ equal, ground (arith, scope_found))))

verify_scope-some :
    (crypto : Crypto) (root part exp_text sig scope : String) (now : ℕ) (decoded : Option String)
    → verify_scope crypto root part exp_text sig now decoded ≡ some scope
    → (decoded ≡ some scope)
      × ((is_scope scope ≡ true)
          × (verify_signature crypto root scope part sig
                (live crypto now (crypto.parse_int exp_text))
              ≡ some scope))
verify_scope-some crypto root part exp_text sig scope now none h = absurd (ground (arith, h))
verify_scope-some crypto root part exp_text sig scope now (some read) h =
    let (known, signed) = if-some (is_scope read) _ scope h in
    let (exp, (alive, (equal, same))) =
      verify_signature-some crypto root read part sig scope
        (live crypto now (crypto.parse_int exp_text)) signed in
    (
      ap some same,
      (
        subst (λ s. is_scope s ≡ true) same known,
        subst
            (λ s.
              verify_signature crypto root s part sig (live crypto now (crypto.parse_int exp_text))
              ≡ some scope)
            same signed,
      ),
    )

verify_parts-Signed :
    (crypto : Crypto) (root token scope : String) (now : ℕ) (parts : List String)
    → split_dot token ≡ parts
    → verify_parts crypto root now parts ≡ some scope
    → Signed crypto root token scope now
verify_parts-Signed crypto root token scope now (version ∷ part ∷ exp_text ∷ sig ∷ []) split h =
    let (current, scoped) = if-some (str_eq version "capd1") _ scope h in
    let (decodes, (known, signed)) =
      verify_scope-some crypto root part exp_text sig scope now (crypto.decode part) scoped in
    let (exp, (alive, (equal, _))) =
      verify_signature-some crypto root scope part sig scope
        (live crypto now (crypto.parse_int exp_text)) signed in
    let (parses, (positive, late)) = live-some crypto now (crypto.parse_int exp_text) exp alive in
    record {
      part = part;
      exp_text = exp_text;
      exp = exp;
      splits =
          split
          ∙ ap (λ v. v ∷ part ∷ exp_text ∷ sig ∷ []) (str_eq-≡ version "capd1" current)
          ∙ ap (λ s. "capd1" ∷ part ∷ exp_text ∷ s ∷ []) equal;
      decodes = decodes;
      parses = parses;
      known = known;
      positive = positive;
      alive = late;
    }
verify_parts-Signed crypto root token scope now _ split h = absurd (ground (arith, h))

-- An accepted token is the daemon's own, with every scope, or it has four parts whose last is the
-- signature under the daemon's token of the second and of the number that the third stands for;
-- the scope is the second part's, a known one, and the number is a time that is not past.
pub verify_scoped_token-Signed :
    (crypto : Crypto) (root token scope : String) (now : ℕ)
    → verify_scoped_token crypto root token now ≡ some scope
    → ((token ≡ root) × (scope ≡ "full")) ⊎ Signed crypto root token scope now
unfolding verify_scoped_token
verify_scoped_token-Signed crypto root token scope now h = elim (Bool-cases (str_eq token root)) [
  | inl own ↦ inl (str_eq-≡ token root own, ground (arith, own, h))
  | inr other ↦ inr (
      verify_parts-Signed crypto root token scope now (split_dot token) refl
        (ground (arith, other, h)))
]
