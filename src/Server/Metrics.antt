-- ===== src/Server/Metrics.antt =====
-- internal/server/metrics.go: the counters of the daemon, 64-bit integers that wrap around.
use capd.Prelude.{
  ℕ, ◌+◌, ◌%◌, ◌^◌, String, Bool, not, Option, none, some, List, [], lookup, insert, str_eq,
  if◌then◌else◌,
}

pub record RuntimeMetrics : Type 0 where
  pub adapter_starts : ℕ
  pub adapter_start_failures : ℕ
  pub route_failures : ℕ
  pub secret_access_denied : ℕ
  pub route_decisions : List (String × ℕ)

abbrev pub new_runtime_metrics : RuntimeMetrics
new_runtime_metrics = record {
  adapter_starts = 0;
  adapter_start_failures = 0;
  route_failures = 0;
  secret_access_denied = 0;
  route_decisions = [];
}

-- Add(1) on an int64, as its bits.
abbrev pub add_one : ℕ → ℕ
add_one n = (n + 1) % 2 ^ 64

unfoldable pub record_adapter_start : Bool → RuntimeMetrics → RuntimeMetrics
record_adapter_start ok m = record m {
  adapter_starts = add_one m.adapter_starts;
  adapter_start_failures =
      if ok then m.adapter_start_failures else add_one m.adapter_start_failures;
}

abbrev pub count_or_zero : Option ℕ → ℕ
count_or_zero none = 0
count_or_zero (some n) = n

unfoldable pub record_route_decision : String → Bool → RuntimeMetrics → RuntimeMetrics
unfolding lookup insert
record_route_decision agent_id ok m =
    if not ok
    then record m { route_failures = add_one m.route_failures }
    else if str_eq agent_id ""
    then m
    else record m {
      route_decisions =
          insert agent_id (add_one (count_or_zero (lookup agent_id m.route_decisions)))
            m.route_decisions;
    }

unfoldable pub record_secret_access_denied : RuntimeMetrics → RuntimeMetrics
record_secret_access_denied m = record m { secret_access_denied = add_one m.secret_access_denied }
