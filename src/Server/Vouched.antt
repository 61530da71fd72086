-- ===== src/Server/Vouched.antt =====
-- internal/server/auth.go on internal/security: what a granted request carried.
use capd.Prelude.{
  ℕ, String, true, false, Option, none, some, List, Result, ok, err, str_eq, ◌≡◌, refl, ap, arith,
  Bool-cases, ◌⊎◌, inl, inr,
}
use capd.Security.Token.{Crypto, verify_scoped_token}
use capd.Security.Headers.{HeaderError, validate_header_value}
use capd.Security.Minting.{Signed, str_eq-≡, verify_scoped_token-Signed}
use capd.Server.Scopes.{one_of}
use capd.Server.Auth.{
  Strings, HttpRequest, AuthInfo, bearer_token, request_token, authorized, authorized_bearer_for,
  with_scope, checked_token, token_scope, allows, checked_bearer,
}

-- The token is the daemon's own, or it is signed under it; it is not empty and fit for a header.
abbrev pub Vouched : Crypto → String → ℕ → String → String → Type 0
Vouched crypto root now token scope =
    (str_eq token "" ≡ false)
    × ((validate_header_value token ≡ ok tt)
        × (((token ≡ root) × (scope ≡ "full")) ⊎ Signed crypto root token scope now))

abbrev scope_of : Option AuthInfo → Option String
scope_of none = none
scope_of (some info) = some info.scope

abbrev subprotocol_of : String → Option AuthInfo → String
subprotocol_of text none = text
subprotocol_of text (some info) = info.subprotocol

module _ (strings : Strings) (crypto : Crypto) where
  checked_token-ok :
      (root token scope : String) (now : ℕ) (checked : Result HeaderError (Unit {0}))
      → checked_token strings crypto root now token checked ≡ some scope
      → (checked ≡ ok tt) × (verify_scoped_token crypto root token now ≡ some scope)
  checked_token-ok root token scope now (ok u) h = (refl, h)
  checked_token-ok root token scope now (err e) h = absurd (ground (arith, h))

  token_scope-Vouched :
      (root token scope : String) (now : ℕ)
      → token_scope strings crypto root now token ≡ some scope
      → Vouched crypto root now token scope
  token_scope-Vouched root token scope now h = elim (Bool-cases (str_eq token "")) [
    | inl blank ↦ absurd (ground (arith, blank, h))
    | inr filled ↦
        let (fit, verified) =
          checked_token-ok root token scope now (validate_header_value token)
            (ground (arith, filled, h)) in
        (filled, (fit, verify_scoped_token-Signed crypto root token scope now verified))
  ]

  with_scope-some :
      (subprotocol : String) (scope : Option String) (info : AuthInfo)
      → with_scope strings crypto subprotocol scope ≡ some info
      → (scope ≡ some info.scope) × (subprotocol ≡ info.subprotocol)
  with_scope-some subprotocol none info h = absurd (ground (arith, h))
  with_scope-some subprotocol (some scope) info h = (ap scope_of h, ap (subprotocol_of "") h)

  -- A handshake is granted a scope only for a token that it carries (the query's, or else the
  -- bearer's, or else that of the first subprotocol for it), which is fit for a header and either
  -- the daemon's own, for the scope "full", or signed under it for that scope and not expired.
  pub authorized-Vouched :
      (root : String) (now : ℕ) (r : HttpRequest) (info : AuthInfo)
      → authorized strings crypto root now r ≡ some info
      → Vouched crypto root now (request_token strings crypto r).0 info.scope
        × ((request_token strings crypto r).1 ≡ info.subprotocol)
  unfolding authorized
  authorized-Vouched root now r info h =
      let (token, subprotocol) = request_token strings crypto r in
      let (granted, same) =
        with_scope-some subprotocol (token_scope strings crypto root now token) info h in
      (token_scope-Vouched root token info.scope now granted, same)

  allows-some :
      (allowed : List String) (scope : Option String)
      → allows strings crypto allowed scope ≡ true
      → (s : String) × ((scope ≡ some s) × (one_of s allowed ≡ true))
  allows-some allowed none h = absurd (ground (arith, h))
  allows-some allowed (some s) h = (s, (refl, h))

  checked_bearer-ok :
      (root token : String) (now : ℕ) (allowed : List String)
      (checked : Result HeaderError (Unit {0}))
      → checked_bearer strings crypto root now allowed token checked ≡ true
      → (checked ≡ ok tt)
        × ((token ≡ root)
            ⊎ ((s : String) × ((verify_scoped_token crypto root token now ≡ some s)
                  × (one_of s allowed ≡ true))))
  checked_bearer-ok root token now allowed (err e) h = absurd (ground (arith, h))
  checked_bearer-ok root token now allowed (ok u) h = elim (Bool-cases (str_eq token root)) [
    | inl own ↦ (refl, inl (str_eq-≡ token root own))
    | inr other ↦ (
      refl,
      inr (
          allows-some allowed (verify_scoped_token crypto root token now)
            (ground (arith, other, h))),
    )
  ]

  -- An HTTP request passes only with a bearer that is fit for a header and is the daemon's own token
  -- or a token signed under it, not expired, of a scope that the endpoint allows.
  pub authorized_bearer_for-Signed :
      (root : String) (now : ℕ) (allowed : List String) (r : HttpRequest)
      → authorized_bearer_for strings crypto root now allowed r ≡ true
      → (scope : String) × (((bearer_token strings crypto r ≡ root) ⊎ (one_of scope allowed ≡ true))
          × Vouched crypto root now (bearer_token strings crypto r) scope)
  unfolding authorized_bearer_for
  authorized_bearer_for-Signed root now allowed r h =
      let token = bearer_token strings crypto r in
      elim (Bool-cases (str_eq token "")) [
        | inl blank ↦ absurd (ground (arith, blank, h))
        | inr filled ↦
            let (fit, granted) =
              checked_bearer-ok root token now allowed (validate_header_value token)
                (ground (arith, filled, h)) in
            elim granted [
              | inl own ↦ ("full", (inl own, (filled, (fit, inl (own, refl)))))
              | inr (scope, (verified, allowed_scope)) ↦ (
                scope,
                (
                  inr allowed_scope,
                  (filled, (fit, verify_scoped_token-Signed crypto root token scope now verified)),
                ),
              )
            ]
      ]
