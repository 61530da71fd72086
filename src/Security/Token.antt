-- ===== src/Security/Token.antt =====
-- internal/security/scoped_token.go: minting and verifying scoped tokens. Times are in nanoseconds.
-- crypto/hmac, encoding/base64, strconv and strings.TrimSpace are the parameter `Crypto`.
use Prim.Native.Char.{code}
use capd.Prelude.{
  ℕ, ◌+◌, ◌/◌, String, append, Bool, not, ◌||◌, Option, none, some, List, [], ◌∷◌, Result, ok, ◌>>◌,
  guard, str_eq, if◌then◌else◌, ◌==◌, ltb,
}

pub record Crypto : Type 0 where
  pub encode : String → String
  pub decode : String → Option String
  pub sign : String → String → String
  pub format_int : ℕ → String
  -- ParseInt in base 10 with 64 bits: none where it fails, from 2 ^ 63 on among others. A negative number
  -- is none too, which the code refuses as well.
  pub parse_int : String → Option ℕ
  pub trim : String → String

pub data TokenError : Type 0 where
  unknown_scope : String → TokenError
  empty_root bad_ttl : TokenError

abbrev pub is_scope : String → Bool
is_scope scope =
    str_eq scope "full"
    || (str_eq scope "console" || (str_eq scope "console:read" || str_eq scope "probe:read"))

-- strings.Split(s, ".") behind what was read of the first part.
unfoldable pub split_from : String → String → List String
split_from cur String.[] = cur ∷ []
split_from cur (String.◌∷◌ c s) =
    let closed = cur ∷ split_from "" s in
    let longer = split_from (append cur (String.◌∷◌ c String.[])) s in
    if code c == b'.' then closed else longer

abbrev pub split_dot : String → List String
split_dot s = split_from "" s

-- strings.Join of four parts with ".".
abbrev pub join_four : String → String → String → String → String
join_four a b c d = append a (append "." (append b (append "." (append c (append "." d)))))

module _ (crypto : Crypto) where
  abbrev pub scoped_token_payload : String → ℕ → String
  scoped_token_payload scope_part exp =
      append "capd1" (append "\n" (append scope_part (append "\n" (crypto.format_int exp))))

  abbrev pub signed_token : String → String → ℕ → String
  signed_token root scope exp =
      let part = crypto.encode scope in
      join_four "capd1" part (crypto.format_int exp)
        (crypto.sign root (scoped_token_payload part exp))

  unfoldable pub mint_scoped_token : String → String → ℕ → ℕ → Result TokenError String
  mint_scoped_token root scope ttl now =
      let trimmed = crypto.trim scope in
      guard (is_scope trimmed) (unknown_scope trimmed)
      >> guard (not (str_eq (crypto.trim root) "")) empty_root
      >> guard (not (ttl == 0)) bad_ttl
      >> ok (signed_token root trimmed ((now + ttl) / 1000000000))

  -- The number, if it is positive and not before `now`.
  abbrev pub live : ℕ → Option ℕ → Option ℕ
  live now none = none
  live now (some exp) = if (exp == 0) || ltb exp (now / 1000000000) then none else some exp

  abbrev pub verify_signature : String → String → String → String → Option ℕ → Option String
  verify_signature root scope part sig none = none
  verify_signature root scope part sig (some exp) =
      if str_eq sig (crypto.sign root (scoped_token_payload part exp)) then some scope else none

  abbrev pub verify_scope : String → String → String → String → ℕ → Option String → Option String
  verify_scope root part exp_text sig now none = none
  verify_scope root part exp_text sig now (some scope) =
      if is_scope scope
      then verify_signature root scope part sig (live now (crypto.parse_int exp_text))
      else none

  -- Four parts, the first of them the version.
  abbrev pub verify_parts : String → ℕ → List String → Option String
  verify_parts root now (version ∷ part ∷ exp_text ∷ sig ∷ []) =
      if str_eq version "capd1"
      then verify_scope root part exp_text sig now (crypto.decode part)
      else none
  verify_parts root now _ = none

  -- The scope, or none where the token is refused. The daemon's own token has every scope.
  unfoldable pub verify_scoped_token : String → String → ℕ → Option String
  unfolding split_from
  verify_scoped_token root token now =
      if str_eq token root then some "full" else verify_parts root now (split_dot token)
