-- ===== src/Account/Evidence.antt =====
-- internal/account/routing.go and secret/store.go: how a choice of an account is explained.
-- strings.ToLower, fmt's %.0f and %d are the parameters `lower`, `percent` and `decimal`; the text of an
-- error of ParseRef is not modelled.
use Prim.Native.Char.{code}
use capd.Prelude.{
  ℕ, ◌/◌, String, append, Bool, true, false, ◌||◌, Option, none, some, List, [], ◌∷◌, str_eq,
  if◌then◌else◌, trim_space, contains, decimal, ◌==◌,
}
use capd.Protocol.{AgentCapabilities, Attachment}
use capd.Account.Store.{Account, AccountHealth, QuotaSnapshot}
use capd.Account.Routing.{
  Floats, RoutePolicy, normalized, normalize_route_task_class, quota_percent_usable,
  quota_route_pressure, quota_snapshot_fresh,
}

-- secret.Ref
pub record Ref : Type 0 where
  pub backend : String
  pub id : String

-- What stands in front of the first colon and behind it.
unfoldable pub cut_colon : String → Option (String × String)
cut_colon String.[] = none
cut_colon (String.◌∷◌ c s) =
    let rest = cut_colon s in
    if code c == 58
    then some (String.[], s)
    else elim rest [ none ↦ none | some parts ↦ some (String.◌∷◌ c (parts.0), parts.1) ]

abbrev pub ref_of : String → Option (String × String) → Option Ref
ref_of value none =
    if str_eq (trim_space value) ""
    then none
    else some (record { backend = ""; id = trim_space value })
ref_of value (some parts) =
    if str_eq (trim_space parts.0) "" || str_eq (trim_space parts.1) ""
    then none
    else some (record { backend = trim_space parts.0; id = trim_space parts.1 })

unfoldable pub parse_ref : String → Option Ref
unfolding trim_space cut_colon
parse_ref value =
    if str_eq (trim_space value) ""
    then none
    else ref_of (trim_space value) (cut_colon (trim_space value))

abbrev pub backend_of : Option Ref → String
backend_of none = ""
backend_of (some ref) = ref.backend

unfoldable pub route_secret_backend : Account → String
unfolding parse_ref
route_secret_backend acc =
    if str_eq acc.secret_ref "" then "" else backend_of (parse_ref acc.secret_ref)

abbrev pub mentions : String → List String → Bool
mentions text [] = false
mentions text (token ∷ tokens) = if contains text token then true else mentions text tokens

unfoldable pub infer_route_task_class :
    (String → String) → String → AgentCapabilities → List Attachment → String
unfolding contains
infer_route_task_class lower prompt capabilities attachments =
    let words = lower prompt in
    if capabilities.review
    then "review"
    else if capabilities.images || elim attachments [ [] ↦ false | _ ∷ _ ↦ true ]
    then "vision"
    else if mentions words
        ("code review" ∷ "review this" ∷ "review" ∷ "pull request" ∷ "pr " ∷ "diff" ∷ [])
    then "review"
    else if mentions words (
        "long task" ∷ "long-running" ∷ "deep" ∷ "thorough" ∷ "全面" ∷ "深度" ∷ "长任务" ∷ "完整测试" ∷ "性能"
        ∷ "安全" ∷ [])
    then "long-running"
    else if mentions words ("today" ∷ "weather" ∷ "quick" ∷ "status" ∷ "现在" ∷ "今天" ∷ "状态" ∷ [])
    then "interactive"
    else ""

pub record AccountRouteEvidence (F : Type 0) : Type 0 where
  pub account_id : String
  pub secret_backend : String
  pub task_class : String
  pub score : F
  pub quota_state : String
  pub fresh : Bool
  pub checked_at : ℕ
  pub primary_used_percent : Option F
  pub secondary_used_percent : Option F
  pub code_review_used_percent : Option F
  pub limiting_used_percent : Option F
  pub limiting_quota_dimension : String
  pub recent_failures : ℕ
  pub last_failure_at : ℕ
  pub health_penalty : F
  pub reason : String

pub record AccountRoutePolicy (F : Type 0) : Type 0 where
  pub name : String
  pub scoring : String
  pub task_class : String
  pub task_class_scoring : String
  pub quota_windows : List String
  pub fresh_ttl_seconds : ℕ
  pub unknown_score : F
  pub current_account_tie_break : F
  pub recent_failure_penalty : F
  pub recent_failure_ttl_seconds : ℕ

-- strings.Join(parts, sep)
unfoldable pub join : String → List String → String
join sep [] = ""
join sep (part ∷ []) = part
join sep (part ∷ next ∷ parts) = append part (append sep (join sep (next ∷ parts)))

unfoldable pub route_reason_suffix : List String → String
unfolding join
route_reason_suffix [] = ""
route_reason_suffix (part ∷ parts) = append "; " (join "; " (part ∷ parts))

abbrev pub concat : List String → String
concat [] = ""
concat (part ∷ parts) = append part (concat parts)

module _ {F : Type 0} (fl : Floats F) (fold : String → String) (percent : F → String) where
  unfoldable pub route_task_class_scoring : String → String
  unfolding normalize_route_task_class
  route_task_class_scoring text =
      let class = normalize_route_task_class fl fold text in
      if str_eq class "review"
      then "review tasks add pressure to accounts with high code_review quota usage and penalize unknown quota"
      else if str_eq class "long-running"
      then "long-running tasks penalize stale or missing quota to prefer accounts with fresh evidence"
      else if str_eq class "interactive"
      then "interactive tasks double recent-failure penalty to prefer stable accounts"
      else if str_eq class "vision"
      then "vision tasks keep conservative quota pressure while exposing task intent"
      else ""

  unfoldable pub evidence_summary : RoutePolicy F → AccountRoutePolicy F
  unfolding normalized route_task_class_scoring
  evidence_summary policy =
      let p = normalized fl fold policy in
      record {
        name = "conservative-quota-pressure";
        scoring =
            "lowest fresh limiting quota pressure plus recent-failure health penalty; stale or missing quota uses unknownScore; current account receives a small tie-break";
        task_class = p.task_class;
        task_class_scoring = route_task_class_scoring p.task_class;
        quota_windows = "primary" ∷ "secondary" ∷ "code_review" ∷ [];
        fresh_ttl_seconds = p.fresh_ttl / 1000000000;
        unknown_score = p.unknown_score;
        current_account_tie_break = p.current_account_tie_break;
        recent_failure_penalty = p.recent_failure_penalty;
        recent_failure_ttl_seconds = p.recent_failure_ttl / 1000000000;
      }

  abbrev pub is_positive : F → Bool
  is_positive x = fl.lt (fl.from_nat 0) x

  abbrev pub usable_percent : F → Option F
  usable_percent n = if quota_percent_usable fl fold n then some n else none

  abbrev pub limiting_of : Option (F × String) → Option F
  limiting_of none = none
  limiting_of (some pressure) = some pressure.0

  abbrev pub dimension_of : Option (F × String) → String
  dimension_of none = ""
  dimension_of (some pressure) = pressure.1

  abbrev pub pressure_of : Option (F × String) → F
  pressure_of none = fl.from_nat 0
  pressure_of (some pressure) = pressure.0

  abbrev pub fresh_reason : Account → QuotaSnapshot F → Option (F × String) → String → String
  fresh_reason acc q pressure suffix =
      if str_eq (dimension_of pressure) "primary"
      then concat (
          "auto account "
          ∷ acc.id
          ∷ " primary "
          ∷ percent (pressure_of pressure)
          ∷ "%"
          ∷ suffix
          ∷ [])
      else concat (
          "auto account "
          ∷ acc.id
          ∷ " limiting "
          ∷ dimension_of pressure
          ∷ " "
          ∷ percent (pressure_of pressure)
          ∷ "% (primary "
          ∷ percent q.primary_used_percent
          ∷ "%, secondary "
          ∷ percent q.secondary_used_percent
          ∷ "%, code_review "
          ∷ percent q.code_review_used_percent
          ∷ "%)"
          ∷ suffix
          ∷ [])

  abbrev pub stale_reason : Account → String → String
  stale_reason acc suffix =
      concat ("auto account " ∷ acc.id ∷ " without fresh cached quota" ∷ suffix ∷ [])

  abbrev pub reason_of : RoutePolicy F → ℕ → Account → String → Option (QuotaSnapshot F) → String
  reason_of p now acc suffix none = stale_reason acc suffix
  reason_of p now acc suffix (some q) =
      if quota_snapshot_fresh fl fold p q now
      then fresh_reason acc q (quota_route_pressure fl fold q) suffix
      else stale_reason acc suffix

  abbrev pub failure_suffix : AccountHealth × F → List String
  failure_suffix (health, penalty) =
      if is_positive penalty
      then concat (
          "recent failures " ∷ decimal health.recent_failures ∷ " penalty +" ∷ percent penalty ∷ [])
        ∷ []
      else []
