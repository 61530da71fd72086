-- ===== src/Security/Headers.antt =====
-- internal/security/headers.go: which header values and names are accepted. A header map is the list
-- of its fields in the order of the walk; textproto.CanonicalMIMEHeaderKey behind TrimSpace is `canonical`.
use Prim.Native.Char.{code}
use Prim.Native.String.{len}
use capd.Prelude.{
  String, Bool, false, List, [], ◌∷◌, Result, ok, err, ◌>>◌, guard, not, ◌||◌, str_eq, ◌==◌, leb,
}

pub data HeaderError : Type 0 where
  too_long has_newline name_empty : HeaderError
  not_accepted : String → HeaderError
  in_header : String → HeaderError → HeaderError

-- strings.ContainsAny(value, "\r\n")
unfoldable pub contains_newline : String → Bool
contains_newline String.[] = false
contains_newline (String.◌∷◌ c s) = ((code c == 13) || (code c == 10)) || contains_newline s

-- Both of the source's tables have these six names.
unfoldable pub is_secret_name : String → Bool
is_secret_name name =
    str_eq name "Authorization"
    || (str_eq name "Cookie"
        || (str_eq name "Openai-Api-Key"
            || (str_eq name "Proxy-Authorization"
                || (str_eq name "Set-Cookie" || str_eq name "X-Api-Key"))))

unfoldable pub validate_header_value : String → Result HeaderError (Unit {0})
unfolding contains_newline
validate_header_value value =
    guard (leb (len value) 8192) too_long
    >> guard (not (contains_newline value)) has_newline
    >> ok tt

module _ (canonical : String → String) where
  unfoldable pub validate_header : String → String → Result HeaderError (Unit {0})
  unfolding is_secret_name validate_header_value
  validate_header name value =
      guard (not (str_eq (canonical name) "")) name_empty
      >> guard (not (is_secret_name (canonical name))) (not_accepted (canonical name))
      >> validate_header_value value

  unfoldable pub is_sensitive_header : String → Bool
  unfolding is_secret_name
  is_sensitive_header name = is_secret_name (canonical name)

  abbrev pub in_field : String → Result HeaderError (Unit {0}) → Result HeaderError (Unit {0})
  in_field name (ok u) = ok u
  in_field name (err e) = err (in_header name e)

  unfoldable pub validate_values : String → List String → Result HeaderError (Unit {0})
  unfolding validate_header_value
  validate_values name [] = ok tt
  validate_values name (value ∷ values) =
      in_field (canonical name) (validate_header_value value) >> validate_values name values

  unfoldable pub validate_headers : List (String × List String) → Result HeaderError (Unit {0})
  unfolding validate_values is_secret_name
  validate_headers [] = ok tt
  validate_headers ((name, values) ∷ fields) =
      guard (not (is_secret_name (canonical name))) (not_accepted (canonical name))
      >> validate_values name values
      >> validate_headers fields
