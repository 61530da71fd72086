-- ===== src/Server/RouteAccount.antt =====
-- internal/server/agent_router.go: the account of a route, its evidence, and the other candidates.
-- `fold` is strings.ToLower of strings.TrimSpace and `percent` fmt's %.0f. The scores of one decision are
-- taken at one time.
use Prim.Native.String.{compare}
use text.Mathlib.Text.{is_lt}
use capd.Prelude.{
  String, append, Bool, false, not, ◌&&◌, Option, none, some, List, [], map, Result, ok, err, ◌>>=◌,
  sort_by, str_eq, if◌then◌else◌, trim_space,
}
use capd.Account.Store.{AccountError, Account, Store, load_quota, current_account}
use capd.Account.Profiles.{profile_accounts}
use capd.Account.Routing.{
  Floats, RoutePolicy, Reads, text_of, select_quota_route_account_with_policy, quota_snapshot_fresh,
}
use capd.Account.Evidence.{AccountRouteEvidence, parse_ref, backend_of, evidence_summary}
use capd.Account.Candidates.{
  score, quota_route_evidence_with_policy, quota_route_reason_with_policy,
  quota_route_candidates_with_policy,
}
use capd.Server.Capabilities.{AgentRouteParams}
use capd.Server.Routing.{
  RouteReads, FreshQuotaData, RouteError, no_account_support, no_accounts, no_accounts_in,
  not_fresh, first_member, load_codex_account_for_route,
}

abbrev pub evidence_or_none : {A E : Type 0} → Result E (List A) → List A
evidence_or_none (ok xs) = xs
evidence_or_none (err e) = []

abbrev pub no_data : {F : Type 0} → FreshQuotaData F
no_data = record {
  account_route = none;
  route_policy = none;
  task_class = "";
  secret_backend = "";
  route_candidates = [];
}

module _ {F : Type 0} (fl : Floats F) (fold : String → String) (percent : F → String)
    (reads : RouteReads) where
  abbrev pub value_of : RoutePolicy F → Reads → Store F → Account → F
  value_of policy r st acc =
      score fl fold percent policy r st (text_of (current_account r.current "codex" st)) acc

  unfoldable pub select_codex_profile_account_for_route :
      String → RoutePolicy F → Store F → Result AccountError Account
  unfolding score
  select_codex_profile_account_for_route profile policy st =
      profile_accounts reads.profile reads.members "codex" profile st >>= λ members.
      first_member fl (value_of policy reads.select st) members

  abbrev pub profile_suffix : String → String
  profile_suffix profile = if str_eq profile "" then "" else append "; profile " profile

  abbrev pub selected :
      String
      → RoutePolicy F
      → Store F
      → Result AccountError Account
      → Result (RouteError F) (Account × String)
  selected profile policy st (ok best) = ok (
    best,
    append (quota_route_reason_with_policy fl fold percent policy reads.reason st best)
        (profile_suffix profile),
  )
  selected profile policy st (err e) =
      err (if str_eq profile "" then no_accounts else no_accounts_in profile)

  -- The account and the reason; every error of the store is one of the two refusals.
  unfoldable pub select_codex_account_for_route :
      String → RoutePolicy F → Option (Store F) → Result (RouteError F) (Account × String)
  unfolding select_codex_profile_account_for_route
  select_codex_account_for_route profile policy none = err no_account_support
  select_codex_account_for_route profile policy (some st) =
      selected (trim_space profile) policy st (
        if str_eq (trim_space profile) ""
        then select_quota_route_account_with_policy fl fold policy reads.select "codex" (some st)
        else select_codex_profile_account_for_route (trim_space profile) policy st)

  abbrev pub profile_before : (Account → F) → Account → Account → Bool
  profile_before value a b =
      if not (fl.eq (value a) (value b))
      then fl.lt (value a) (value b)
      else is_lt (compare a.id b.id)

  unfoldable pub codex_route_candidates :
      String → RoutePolicy F → Store F → Result AccountError (List (AccountRouteEvidence F))
  unfolding score sort_by
  codex_route_candidates profile policy st =
      if str_eq (trim_space profile) ""
      then quota_route_candidates_with_policy fl fold percent policy reads.candidates "codex"
          (some st)
      else (profile_accounts reads.profile reads.members "codex" (trim_space profile) st
          >>= λ members. ok (
              map (quota_route_evidence_with_policy fl fold percent policy reads.candidates st)
                (sort_by (profile_before (value_of policy reads.candidates st)) members)))

  unfoldable pub route_fresh_quota_error : Account → String → RoutePolicy F → Store F → RouteError F
  unfolding codex_route_candidates
  route_fresh_quota_error acc profile policy st = not_fresh (
      if str_eq acc.id "" then no_data else record {
        account_route =
            some (quota_route_evidence_with_policy fl fold percent policy reads.evidence st acc);
        route_policy = some (evidence_summary fl fold percent policy);
        task_class = policy.task_class;
        secret_backend = backend_of (parse_ref acc.secret_ref);
        route_candidates = evidence_or_none (codex_route_candidates profile policy st);
      })

  abbrev pub is_fresh : RoutePolicy F → Store F → Account → Bool
  is_fresh policy st acc = elim (load_quota (reads.freshness.quota acc.id) acc.id st) [
    | ok q ↦ quota_snapshot_fresh fl fold policy q reads.freshness.now
    | err e ↦ false
  ]

  abbrev pub checked_fresh :
      AgentRouteParams
      → RoutePolicy F
      → Option (Store F)
      → Account × String
      → Result (RouteError F) (Account × String)
  checked_fresh params policy none chosen = ok chosen
  checked_fresh params policy (some st) chosen =
      if params.require_fresh_quota && not (is_fresh policy st chosen.0)
      then err (route_fresh_quota_error chosen.0 params.profile policy st)
      else ok chosen

  -- The account of the route and why, `none` where the request names none.
  unfoldable pub route_account :
      AgentRouteParams
      → RoutePolicy F
      → Option (Store F)
      → Result (RouteError F) (Option (Account × String))
  unfolding select_codex_account_for_route route_fresh_quota_error
  route_account params policy st =
      if str_eq params.account_id ""
      then ok none
      else if str_eq params.account_id "auto"
      then (select_codex_account_for_route params.profile policy st >>= λ chosen.
          checked_fresh params policy st chosen >>= λ fresh. ok (some fresh))
      else (load_codex_account_for_route reads.account params.account_id st >>= λ acc.
          ok (some (acc, "explicit accountId")))
