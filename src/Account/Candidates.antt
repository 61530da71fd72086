-- ===== src/Account/Candidates.antt =====
-- internal/account/routing.go: the evidence for each account, and the accounts in the order of the router.
use capd.Prelude.{
  ℕ, String, Bool, false, not, Option, none, some, List, [], ◌∷◌, ◌++◌, map, Result, ok, err, ◌>>=◌,
  sort_by, str_eq, if◌then◌else◌, decimal,
}
use capd.Account.Store.{
  AccountError, required, unknown_account, Account, AccountHealth, QuotaSnapshot, Store, load_quota,
  current_account,
}
use capd.Account.Delete.{list_accounts}
use capd.Account.Routing.{
  Floats, RoutePolicy, Reads, found, text_of, route_tie_beats, normalized, quota_route_pressure,
  quota_snapshot_fresh, health_penalty, quota_route_score_at,
}
use capd.Account.Evidence.{
  route_secret_backend, AccountRouteEvidence, route_reason_suffix, is_positive, usable_percent,
  limiting_of, dimension_of, reason_of, failure_suffix,
}

module _ {F : Type 0} (fl : Floats F) (fold : String → String) (percent : F → String) where
  abbrev pub quota_of : Reads → Store F → Account → Option (QuotaSnapshot F)
  quota_of reads st acc = found (load_quota (reads.quota acc.id) acc.id st)

  -- RoutePolicy.Reason of a policy that is normalized.
  unfoldable pub reason_at : RoutePolicy F → Reads → Store F → String → Account → String
  unfolding route_reason_suffix decimal
  reason_at p reads st current acc =
      reason_of fl fold percent p reads.now acc
        (route_reason_suffix (
          (if str_eq acc.id current then "current account tie-break" ∷ [] else [])
          ++ failure_suffix fl fold percent (health_penalty fl fold p reads st acc)))
        (quota_of reads st acc)

  unfoldable pub reason : RoutePolicy F → Reads → Store F → String → Account → String
  unfolding reason_at normalized
  reason policy reads st current acc = reason_at (normalized fl fold policy) reads st current acc

  -- RoutePolicy.Score
  unfoldable pub score : RoutePolicy F → Reads → Store F → String → Account → F
  unfolding normalized
  score policy reads st current acc =
      quota_route_score_at fl fold (normalized fl fold policy) reads st current acc

  abbrev pub with_health : AccountHealth × F → AccountRouteEvidence F → AccountRouteEvidence F
  with_health (health, penalty) evidence =
      if is_positive fl fold percent penalty
      then record evidence {
        recent_failures = health.recent_failures;
        last_failure_at = health.last_failure_at;
        health_penalty = penalty;
      }
      else evidence

  abbrev pub with_quota :
      RoutePolicy F → ℕ → Option (QuotaSnapshot F) → AccountRouteEvidence F → AccountRouteEvidence F
  with_quota p now none evidence = evidence
  with_quota p now (some q) evidence =
      let pressure = quota_route_pressure fl fold q in
      let fresh = quota_snapshot_fresh fl fold p q now in
      record evidence {
        checked_at = q.checked_at;
        primary_used_percent = usable_percent fl fold percent q.primary_used_percent;
        secondary_used_percent = usable_percent fl fold percent q.secondary_used_percent;
        code_review_used_percent = usable_percent fl fold percent q.code_review_used_percent;
        limiting_used_percent = limiting_of fl fold percent pressure;
        limiting_quota_dimension = dimension_of fl fold percent pressure;
        quota_state = if fresh then "fresh" else "stale";
        fresh = fresh;
      }

  -- RoutePolicy.Evidence
  unfoldable pub evidence_at :
      RoutePolicy F → Reads → Store F → String → Account → AccountRouteEvidence F
  unfolding normalized reason score route_secret_backend
  evidence_at policy reads st current acc =
      let p = normalized fl fold policy in
      let plain : AccountRouteEvidence F = record {
        account_id = acc.id;
        secret_backend = route_secret_backend acc;
        task_class = p.task_class;
        score = score p reads st current acc;
        quota_state = "missing";
        fresh = false;
        checked_at = 0;
        primary_used_percent = none;
        secondary_used_percent = none;
        code_review_used_percent = none;
        limiting_used_percent = none;
        limiting_quota_dimension = "";
        recent_failures = 0;
        last_failure_at = 0;
        health_penalty = fl.from_nat 0;
        reason = reason p reads st current acc;
      } in
      with_quota p reads.now (quota_of reads st acc)
        (with_health (health_penalty fl fold p reads st acc) plain)

  abbrev pub current_of : Reads → Store F → Account → String
  current_of reads st acc = text_of (current_account reads.current acc.provider st)

  -- QuotaRouteEvidenceWithPolicy and QuotaRouteReasonWithPolicy on a store.
  unfoldable pub quota_route_evidence_with_policy :
      RoutePolicy F → Reads → Store F → Account → AccountRouteEvidence F
  unfolding evidence_at
  quota_route_evidence_with_policy policy reads st acc =
      evidence_at policy reads st (current_of reads st acc) acc

  unfoldable pub quota_route_reason_with_policy : RoutePolicy F → Reads → Store F → Account → String
  unfolding reason
  quota_route_reason_with_policy policy reads st acc =
      reason policy reads st (current_of reads st acc) acc

  -- The comparison by which the candidates are sorted.
  abbrev pub candidate_before : (Account → F) → String → Account → Account → Bool
  candidate_before value current left right =
      if not (fl.eq (value left) (value right))
      then fl.lt (value left) (value right)
      else route_tie_beats left right current

  abbrev pub candidates_from :
      RoutePolicy F
      → Reads
      → Store F
      → String
      → List Account
      → Result AccountError (List (AccountRouteEvidence F))
  candidates_from policy reads st current [] = err unknown_account
  candidates_from policy reads st current (acc ∷ accounts) =
      let value = quota_route_score_at fl fold policy reads st current in
      ok (
        map (evidence_at policy reads st current)
          (sort_by (candidate_before value current) (acc ∷ accounts)))

  unfoldable pub quota_route_candidates_with_policy :
      RoutePolicy F
      → Reads
      → String
      → Option (Store F)
      → Result AccountError (List (AccountRouteEvidence F))
  unfolding normalized route_tie_beats evidence_at sort_by
  quota_route_candidates_with_policy policy reads provider none = err (required "account store")
  quota_route_candidates_with_policy policy reads provider (some st) =
      list_accounts reads.accounts provider st >>= λ accounts.
      candidates_from (normalized fl fold policy) reads st
        (text_of (current_account reads.current provider st)) accounts
