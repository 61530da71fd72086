-- ===== src/Account/Routing.antt =====
-- internal/account/routing.go: the route policy, the score of an account and the choice of the lowest.
-- float64 and the folding of letters and spaces are the parameters `Floats` and `fold`. A duration is a
-- number of nanoseconds; one that is not positive is 0.
use Prim.Native.String.{compare}
use text.Mathlib.Text.{is_lt}
use capd.Prelude.{
  ℕ, ◌-◌, ◌*◌, ◌%◌, ◌^◌, String, Bool, true, false, not, ◌&&◌, ◌||◌, Option, none, some, List, [],
  ◌∷◌, Result, ok, err, ◌>>=◌, str_eq, if◌then◌else◌, leb, ◌==◌,
}
use capd.Session.Store.{Io}
use capd.Account.Store.{
  AccountError, required, unknown_account, Account, QuotaSnapshot, AccountHealth, no_health, Store,
  load_quota, load_account_health, current_account,
}
use capd.Account.Delete.{list_accounts}

-- float64, as the machine has it: its order, its arithmetic, its tests and the constant 0.01.
pub record Floats (F : Type 0) : Type 0 where
  pub lt : F → F → Bool
  pub eq : F → F → Bool
  pub add : F → F → F
  pub subtract : F → F → F
  pub multiply : F → F → F
  pub from_nat : ℕ → F
  pub hundredth : F
  pub is_nan : F → Bool
  pub is_inf : F → Bool

pub record RoutePolicy (F : Type 0) : Type 0 where
  pub fresh_ttl : ℕ
  pub unknown_score : F
  pub current_account_tie_break : F
  pub recent_failure_ttl : ℕ
  pub recent_failure_penalty : F
  pub task_class : String

-- The answers of the store to the reads of one decision, by account, and the time of it.
pub record Reads : Type 0 where
  pub accounts : Io
  pub current : Io
  pub quota : String → Io
  pub health : String → Io
  pub now : ℕ

abbrev pub one_of : String → List String → Bool
one_of text [] = false
one_of text (word ∷ words) = if str_eq text word then true else one_of text words

-- The switch of NormalizeRouteTaskClass on the folded text.
unfoldable pub class_of : String → String
class_of text =
    if one_of text ("" ∷ "default" ∷ [])
    then ""
    else if one_of text ("code-review" ∷ "pr-review" ∷ "review" ∷ [])
    then "review"
    else if one_of text ("long" ∷ "long-running" ∷ "long_task" ∷ "long-task" ∷ [])
    then "long-running"
    else if one_of text ("interactive" ∷ "chat" ∷ "quick" ∷ [])
    then "interactive"
    else if one_of text ("image" ∷ "images" ∷ "vision" ∷ [])
    then "vision"
    else ""

-- time.Duration(age) * time.Second <= ttl, in 64 bits: a product that wraps to a negative one is below.
unfoldable pub within : ℕ → ℕ → Bool
within age ttl =
    let nanos = (age * 1000000000) % 2 ^ 64 in if leb (2 ^ 63) nanos then true else leb nanos ttl

abbrev pub found : {A : Type 0} → Result AccountError A → Option A
found (ok a) = some a
found (err e) = none

abbrev pub text_of : Result AccountError String → String
text_of (ok text) = text
text_of (err e) = ""

unfoldable pub route_tie_beats : Account → Account → String → Bool
route_tie_beats candidate incumbent current =
    if str_eq candidate.id current && not (str_eq incumbent.id current)
    then true
    else if str_eq incumbent.id current && not (str_eq candidate.id current)
    then false
    else is_lt (compare candidate.id incumbent.id)

module _ {F : Type 0} (fl : Floats F) (fold : String → String) where
  unfoldable pub normalize_route_task_class : String → String
  normalize_route_task_class text = class_of (fold text)

  -- x <= 0
  abbrev pub not_positive : F → Bool
  not_positive x = fl.lt x (fl.from_nat 0) || fl.eq x (fl.from_nat 0)

  abbrev pub positive_or : F → F → F
  positive_or x standard = if not_positive x then standard else x

  abbrev pub span_or : ℕ → ℕ → ℕ
  span_or x standard = if x == 0 then standard else x

  unfoldable pub default_policy : RoutePolicy F
  default_policy = record {
    fresh_ttl = 1800000000000;
    unknown_score = fl.from_nat 75;
    current_account_tie_break = fl.hundredth;
    recent_failure_ttl = 86400000000000;
    recent_failure_penalty = fl.from_nat 10;
    task_class = "";
  }

  unfoldable pub normalized : RoutePolicy F → RoutePolicy F
  unfolding normalize_route_task_class
  normalized p = record {
    fresh_ttl = span_or p.fresh_ttl 1800000000000;
    unknown_score = positive_or p.unknown_score (fl.from_nat 75);
    current_account_tie_break = positive_or p.current_account_tie_break fl.hundredth;
    recent_failure_ttl = span_or p.recent_failure_ttl 86400000000000;
    recent_failure_penalty = positive_or p.recent_failure_penalty (fl.from_nat 10);
    task_class = normalize_route_task_class p.task_class;
  }

  unfoldable pub route_policy_for_task_class : String → RoutePolicy F
  unfolding default_policy normalize_route_task_class
  route_policy_for_task_class text = record default_policy {
    task_class = normalize_route_task_class text;
  }

  -- 0 <= n && n <= 100, and neither NaN nor infinite.
  unfoldable pub quota_percent_usable : F → Bool
  quota_percent_usable n =
      not (fl.is_nan n)
      && (not (fl.is_inf n)
          && ((fl.lt (fl.from_nat 0) n || fl.eq n (fl.from_nat 0))
              && (fl.lt n (fl.from_nat 100) || fl.eq n (fl.from_nat 100))))

  unfoldable pub quota_usable : QuotaSnapshot F → Bool
  unfolding quota_percent_usable
  quota_usable q =
      quota_percent_usable q.primary_used_percent
      && (quota_percent_usable q.secondary_used_percent
          && quota_percent_usable q.code_review_used_percent)

  -- The larger of what was seen and one more window, with its name.
  abbrev pub raise_to : F → String → F × String → F × String
  raise_to used dimension seen = if fl.lt seen.0 used then (used, dimension) else seen

  -- The highest of the three windows and its name; none where a window is not usable.
  unfoldable pub quota_route_pressure : QuotaSnapshot F → Option (F × String)
  unfolding quota_usable
  quota_route_pressure q =
      if quota_usable q
      then some (
          raise_to q.code_review_used_percent "code_review"
            (raise_to q.secondary_used_percent "secondary" (q.primary_used_percent, "primary")))
      else none

  -- age >= 0 && time.Duration(age)*time.Second <= ttl
  abbrev pub recent : ℕ → ℕ → ℕ → Bool
  unfolding within
  recent now at ttl = leb at now && within (now - at) ttl

  unfoldable pub quota_snapshot_fresh : RoutePolicy F → QuotaSnapshot F → ℕ → Bool
  unfolding quota_usable normalized
  quota_snapshot_fresh policy q now =
      not (q.checked_at == 0)
      && (quota_usable q && recent now q.checked_at (normalized policy).fresh_ttl)

  abbrev pub penalty_of : RoutePolicy F → AccountHealth → F
  penalty_of policy health =
      let penalty =
        fl.multiply (fl.from_nat health.recent_failures) policy.recent_failure_penalty in
      if str_eq policy.task_class "interactive"
      then fl.multiply penalty (fl.from_nat 2)
      else penalty

  -- The health that was read, and its penalty.
  abbrev pub penalized :
      RoutePolicy F → Account → ℕ → Result AccountError AccountHealth → AccountHealth × F
  penalized policy acc now (err e) = (no_health acc.id, fl.from_nat 0)
  penalized policy acc now (ok health) =
      if (health.recent_failures == 0) || (health.last_failure_at == 0)
      then (no_health acc.id, fl.from_nat 0)
      else if recent now health.last_failure_at policy.recent_failure_ttl
      then (health, penalty_of policy health)
      else (health, fl.from_nat 0)

  unfoldable pub health_penalty : RoutePolicy F → Reads → Store F → Account → AccountHealth × F
  health_penalty policy reads st acc =
      penalized policy acc reads.now (load_account_health (reads.health acc.id) acc.id st)

  abbrev pub route_task_class_unknown_penalty : String → F
  route_task_class_unknown_penalty text =
      if one_of (normalize_route_task_class text) ("review" ∷ "long-running" ∷ [])
      then fl.from_nat 5
      else fl.from_nat 0

  -- A review adds 5 to the code review window.
  abbrev pub review_pressure : RoutePolicy F → QuotaSnapshot F → F → F
  review_pressure policy q score =
      let raised = fl.add q.code_review_used_percent (fl.from_nat 5) in
      if str_eq policy.task_class "review"
        && (quota_percent_usable q.code_review_used_percent && fl.lt score raised)
      then raised
      else score

  abbrev pub pressure_or_zero : Option (F × String) → F
  pressure_or_zero none = fl.from_nat 0
  pressure_or_zero (some pressure) = pressure.0

  abbrev pub unknown_pressure : RoutePolicy F → F
  unknown_pressure policy =
      fl.add policy.unknown_score (route_task_class_unknown_penalty policy.task_class)

  abbrev pub quota_score : RoutePolicy F → ℕ → Option (QuotaSnapshot F) → F
  quota_score policy now none = unknown_pressure policy
  quota_score policy now (some q) =
      if quota_snapshot_fresh policy q now
      then review_pressure policy q (pressure_or_zero (quota_route_pressure q))
      else unknown_pressure policy

  unfoldable pub quota_route_score_at : RoutePolicy F → Reads → Store F → String → Account → F
  quota_route_score_at policy reads st current acc =
      let score =
        fl.add (quota_score policy reads.now (found (load_quota (reads.quota acc.id) acc.id st)))
          (health_penalty policy reads st acc).1 in
      if str_eq acc.id current then fl.subtract score policy.current_account_tie_break else score

  -- The loop of the selection: `score` stands for quotaRouteScoreAt.
  unfoldable pub choose : (Account → F) → String → Account → List Account → Account
  unfolding route_tie_beats
  choose score current best [] = best
  choose score current best (acc ∷ accs) =
      let beats =
        fl.lt (score acc) (score best)
        || (fl.eq (score acc) (score best) && route_tie_beats acc best current) in
      choose score current (if beats then acc else best) accs

  abbrev pub select_from : (Account → F) → String → List Account → Result AccountError Account
  select_from score current [] = err unknown_account
  select_from score current (acc ∷ accs) = ok (choose score current acc accs)

  unfoldable pub select_quota_route_account_with_policy :
      RoutePolicy F → Reads → String → Option (Store F) → Result AccountError Account
  unfolding normalized
  select_quota_route_account_with_policy policy reads provider none = err (required "account store")
  select_quota_route_account_with_policy policy reads provider (some st) =
      list_accounts reads.accounts provider st >>= λ accounts.
      let current = text_of (current_account reads.current provider st) in
      select_from (quota_route_score_at (normalized policy) reads st current) current accounts

  unfoldable pub select_quota_route_account :
      Reads → String → Option (Store F) → Result AccountError Account
  unfolding default_policy
  select_quota_route_account reads provider st =
      select_quota_route_account_with_policy default_policy reads provider st
