-- ===== src/Server/Auth.antt =====
-- internal/server/auth.go: the token that a handshake or a request carries, and the scope it is given.
use capd.Prelude.{
  ℕ, String, Bool, true, false, Option, none, some, List, [], ◌∷◌, Result, ok, err, str_eq,
  if◌then◌else◌,
}
use capd.Security.Token.{Crypto, verify_scoped_token}
use capd.Security.Headers.{HeaderError, validate_header_value}
use capd.Server.Scopes.{one_of}

-- Package strings: a prefix taken off, if it is there, and the parts between commas.
pub record Strings : Type 0 where
  pub strip_prefix : String → String → Option String
  pub split_comma : String → List String

-- Of the HTTP request: the query's `token`, and the headers Authorization and Sec-WebSocket-Protocol.
pub record HttpRequest : Type 0 where
  pub query_token : String
  pub authorization : String
  pub subprotocols : List String

pub record AuthInfo : Type 0 where
  pub scope : String
  pub subprotocol : String

abbrev pub text_or_empty : Option String → String
text_or_empty none = ""
text_or_empty (some text) = text

module _ (strings : Strings) (crypto : Crypto) where
  unfoldable pub bearer_token : HttpRequest → String
  bearer_token r = text_or_empty (strings.strip_prefix "Bearer " r.authorization)

  abbrev pub decoded_or_empty : String → Option String → String × String
  decoded_or_empty protocol none = ("", "")
  decoded_or_empty protocol (some token) = (token, protocol)

  abbrev pub candidate : String → Option String → String × String → String × String
  candidate protocol none rest = rest
  candidate protocol (some raw) rest = decoded_or_empty protocol (crypto.decode raw)

  -- The first candidate with the prefix decides, decodable or not.
  unfoldable pub token_of_candidates : List String → String × String → String × String
  token_of_candidates [] rest = rest
  token_of_candidates (c ∷ cs) rest =
      let protocol = crypto.trim c in
      candidate protocol (strings.strip_prefix "capd.auth." protocol) (token_of_candidates cs rest)

  unfoldable pub web_socket_token_from_subprotocols : List String → String × String
  unfolding token_of_candidates
  web_socket_token_from_subprotocols [] = ("", "")
  web_socket_token_from_subprotocols (value ∷ values) =
      token_of_candidates (strings.split_comma value) (web_socket_token_from_subprotocols values)

  -- The token and the subprotocol it came by: the query first, then the bearer, then the subprotocols.
  unfoldable pub request_token : HttpRequest → String × String
  unfolding bearer_token web_socket_token_from_subprotocols
  request_token r =
      if not_empty r.query_token
      then (r.query_token, "")
      else if not_empty (bearer_token r)
      then (bearer_token r, "")
      else web_socket_token_from_subprotocols r.subprotocols
    where
      not_empty : String → Bool
      not_empty s = if str_eq s "" then false else true

  abbrev pub with_scope : String → Option String → Option AuthInfo
  with_scope subprotocol none = none
  with_scope subprotocol (some scope) = some (record { scope = scope; subprotocol = subprotocol })

  abbrev pub checked_token : String → ℕ → String → Result HeaderError (Unit {0}) → Option String
  checked_token root now token (err e) = none
  checked_token root now token (ok u) = verify_scoped_token crypto root token now

  abbrev pub token_scope : String → ℕ → String → Option String
  token_scope root now token =
      if str_eq token "" then none else checked_token root now token (validate_header_value token)

  unfoldable pub authorized : String → ℕ → HttpRequest → Option AuthInfo
  unfolding request_token validate_header_value verify_scoped_token
  authorized root now r =
      let (token, subprotocol) = request_token r in
      with_scope subprotocol (token_scope root now token)

  abbrev pub allows : List String → Option String → Bool
  allows allowed none = false
  allows allowed (some scope) = one_of scope allowed

  abbrev pub checked_bearer :
      String → ℕ → List String → String → Result HeaderError (Unit {0}) → Bool
  checked_bearer root now allowed token (err e) = false
  checked_bearer root now allowed token (ok u) =
      if str_eq token root then true else allows allowed (verify_scoped_token crypto root token now)

  unfoldable pub authorized_bearer_for : String → ℕ → List String → HttpRequest → Bool
  unfolding bearer_token validate_header_value verify_scoped_token
  authorized_bearer_for root now allowed r =
      let token = bearer_token r in
      if str_eq token ""
      then false
      else checked_bearer root now allowed token (validate_header_value token)

  unfoldable pub authorized_bearer : String → ℕ → HttpRequest → Bool
  unfolding authorized_bearer_for
  authorized_bearer root now r = authorized_bearer_for root now ("full" ∷ []) r
