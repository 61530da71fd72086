-- ===== src/Account/Quota.antt =====
-- internal/account/quota.go: the quota snapshot that is read from an adapter's usage report, and the
-- redaction of the report. encoding/json, package strings and the reading of a number are `UsageText`.
use capd.Prelude.{
  ℕ, String, Bool, true, false, ◌||◌, Option, none, some, List, [], ◌∷◌, str_eq, if◌then◌else◌, ltb,
}
use capd.Protocol.{
  Members, no_members, member, Values, no_values, value, Value, text, bool, number, null, object,
  list, get_field,
}
use capd.Account.Store.{QuotaSnapshot}
use capd.Account.Routing.{Floats}

-- json.Marshal with its error, len of a text, the float64 of a literal, strings.Contains, and
-- strings.ToLower of a key whose "-" are "_".
pub record UsageText (F : Type 0) : Type 0 where
  pub marshal : Members → Option String
  pub size : String → ℕ
  pub float_of : String → F
  pub contains : String → String → Bool
  pub fold_key : String → String

abbrev pub contains_any : (String → Bool) → List String → Bool
contains_any test [] = false
contains_any test (marker ∷ markers) = if test marker then true else contains_any test markers

-- json.Marshal's error leaves an empty text.
abbrev pub marshaled : Option String → String
marshaled none = ""
marshaled (some raw) = raw

abbrev pub members_of : Option Value → Option Members
members_of (some (object fields)) = some fields
members_of _ = none

abbrev pub text_of_value : Option Value → Option String
text_of_value (some (text s)) = some s
text_of_value _ = none

abbrev pub first_text : Option String → String → String
first_text none rest = rest
first_text (some s) rest = s

-- stringFrom: the first of the keys that holds a text.
unfoldable pub string_from : Members → List String → String
string_from fields [] = ""
string_from fields (key ∷ keys) =
    first_text (text_of_value (get_field key fields)) (string_from fields keys)

abbrev pub or_text : String → String → String
or_text s old = if str_eq s "" then old else s

module _ {F : Type 0} (fl : Floats F) (go : UsageText F) where
  -- The keys that redactQuotaRawValue blots out.
  unfoldable pub quota_raw_key_sensitive : String → Bool
  quota_raw_key_sensitive key = contains_any (go.contains (go.fold_key key)) (
      "token" ∷ "secret" ∷ "authorization" ∷ "api_key" ∷ "apikey" ∷ "cookie" ∷ "credential"
      ∷ "password" ∷ [])

  unfoldable mutual
    pub redact_members : Members → Members
    redact_members no_members = no_members
    redact_members (member key v fields) =
        member key
          (if quota_raw_key_sensitive key then text "<redacted>" else redact_quota_raw_value v)
          (redact_members fields)

    pub redact_values : Values → Values
    redact_values no_values = no_values
    redact_values (value v vs) = value (redact_quota_raw_value v) (redact_values vs)

    pub redact_quota_raw_value : Value → Value
    redact_quota_raw_value (object fields) = object (redact_members fields)
    redact_quota_raw_value (list vs) = list (redact_values vs)
    redact_quota_raw_value (text s) = text s
    redact_quota_raw_value (bool b) = bool b
    redact_quota_raw_value (number s) = number s
    redact_quota_raw_value null = null

  unfoldable pub conservative_percent : F → F
  conservative_percent n =
      if fl.is_nan n || (fl.is_inf n || (fl.lt n (fl.from_nat 0) || fl.lt (fl.from_nat 100) n))
      then fl.from_nat 100
      else n

  abbrev pub number_of_value : Option Value → Option F
  number_of_value (some (number s)) = some (go.float_of s)
  number_of_value _ = none

  abbrev pub first_number : Option F → Option F → Option F
  first_number none rest = rest
  first_number (some n) rest = some n

  -- numberFrom: the first of the keys that holds a number.
  unfoldable pub number_from : Members → List String → Option F
  number_from fields [] = none
  number_from fields (key ∷ keys) =
      first_number (number_of_value (get_field key fields)) (number_from fields keys)

  abbrev pub percent_or : Option F → F → F
  percent_or none old = old
  percent_or (some n) old = conservative_percent n

  -- readWindow: the used percentage and the time of the reset.
  unfoldable pub read_window : Option Members → F × String → F × String
  read_window none window = window
  read_window (some fields) window = (
    percent_or (number_from fields ("usedPercent" ∷ "used_percent" ∷ [])) window.0,
    or_text (string_from fields ("resetsAt" ∷ "resetAt" ∷ "reset_at" ∷ [])) window.1,
  )

  unfoldable pub read_code_review : Option Members → F → F
  read_code_review none used = used
  read_code_review (some fields) used =
      percent_or (number_from fields ("usedPercent" ∷ "used_percent" ∷ [])) used

  -- The windows under the keys, in order, each over what was read before.
  unfoldable pub read_windows : Members → List String → F × String → F × String
  read_windows fields [] window = window
  read_windows fields (key ∷ keys) window =
      read_windows fields keys (read_window (members_of (get_field key fields)) window)

  unfoldable pub read_code_reviews : Members → List String → F → F
  read_code_reviews fields [] used = used
  read_code_reviews fields (key ∷ keys) used =
      read_code_reviews fields keys (read_code_review (members_of (get_field key fields)) used)

  pub record Windows : Type 0 where
    pub primary : F × String
    pub secondary : F × String
    pub code_review : F

  abbrev pub no_windows : Windows
  no_windows = record {
    primary = (fl.from_nat 0, "");
    secondary = (fl.from_nat 0, "");
    code_review = fl.from_nat 0;
  }

  unfoldable pub read_rate_limits : Option Members → Windows → Windows
  read_rate_limits none w = w
  read_rate_limits (some rl) w = record {
    primary = read_windows rl ("primary" ∷ "primaryWindow" ∷ "primary_window" ∷ []) w.primary;
    secondary =
        read_windows rl ("secondary" ∷ "secondaryWindow" ∷ "secondary_window" ∷ []) w.secondary;
    code_review = read_code_reviews rl ("codeReview" ∷ "code_review" ∷ []) w.code_review;
  }

  unfoldable pub read_rate_limit : Option Members → Windows → Windows
  read_rate_limit none w = w
  read_rate_limit (some rl) w = record {
    primary = read_windows rl ("primary_window" ∷ []) w.primary;
    secondary = read_windows rl ("secondary_window" ∷ []) w.secondary;
    code_review = read_code_reviews rl ("code_review_rate_limit" ∷ []) w.code_review;
  }

  -- The redacted report as JSON, or nothing where that is longer than 1 MiB.
  unfoldable pub raw_of : Members → String
  raw_of usage =
      let raw = marshaled (go.marshal (redact_members usage)) in
      if ltb 1048576 (go.size raw) then "" else raw

  unfoldable pub quota_from_usage : String → Members → ℕ → QuotaSnapshot F
  unfolding raw_of
  quota_from_usage account_id usage now =
      let w =
        read_rate_limit (members_of (get_field "rate_limit" usage))
          (read_rate_limits (members_of (get_field "rateLimits" usage)) no_windows) in
      record {
        account_id = account_id;
        plan = string_from usage ("planType" ∷ "plan_type" ∷ "plan" ∷ []);
        primary_used_percent = w.primary.0;
        primary_reset_at = w.primary.1;
        secondary_used_percent = w.secondary.0;
        secondary_reset_at = w.secondary.1;
        code_review_used_percent = w.code_review;
        checked_at = now;
        raw_json = raw_of usage;
      }
