-- ===== src/Server/RouteAgent.antt =====
-- internal/server/agent_router.go: routeAgent. Its audit record goes to a file and is not modelled.
-- `fold` is strings.ToLower of strings.TrimSpace, `lower` strings.ToLower, `percent` fmt's %.0f.
use capd.Prelude.{
  String, append, true, false, not, Option, none, some, List, [], ◌∷◌, Result, ok, err, ◌>>=◌, ◌>>◌,
  str_eq, if◌then◌else◌, trim_space,
}
use capd.Protocol.{AgentCapabilities, AgentInfo}
use capd.Account.Store.{Account, Store}
use capd.Account.Routing.{
  Floats, RoutePolicy, normalize_route_task_class, route_policy_for_task_class,
}
use capd.Account.Evidence.{infer_route_task_class, evidence_summary}
use capd.Account.Candidates.{quota_route_evidence_with_policy}
use capd.Server.Capabilities.{
  AgentRouteParams, default_route_preference, is_empty, route_requirements, trim_route_preference,
  route_reason_suffix,
}
use capd.Server.RouteAccount.{evidence_or_none, codex_route_candidates, route_account}
use capd.Server.Candidate.{best_agent}
use capd.Server.Metrics.{RuntimeMetrics, record_route_decision}
use capd.Server.Routing.{
  RouteReads, RouteError, agent_unavailable, AgentRouteResult, trimmed, check_route_params,
}

module _ {F : Type 0} (fl : Floats F) (fold lower : String → String) (percent : F → String)
    (reads : RouteReads) where
  abbrev pub account_reason : Option (Account × String) → String
  account_reason none = ""
  account_reason (some (acc, why)) =
      append "; accountId requires codex account runtime"
        (if str_eq why "" then "" else append "; " why)

  abbrev pub plain_result :
      AgentInfo
      → String
      → String
      → AgentCapabilities
      → Option (Account × String)
      → AgentRouteResult F
  plain_result agent account_id task_class required chosen = record {
    agent = agent;
    account_id = elim chosen [
      | none ↦ ""
      | some (acc, why) ↦ if str_eq account_id "auto" then acc.id else account_id
    ];
    task_class = task_class;
    account_route = none;
    route_candidates = [];
    route_policy = none;
    reason =
        append "matched capabilities"
          (append (route_reason_suffix required) (account_reason chosen));
  }

  -- The evidence is added where an account with an id was chosen.
  abbrev pub with_evidence :
      String
      → RoutePolicy F
      → Option (Store F)
      → Option (Account × String)
      → AgentRouteResult F
      → AgentRouteResult F
  with_evidence profile policy none chosen result = result
  with_evidence profile policy (some st) none result = result
  with_evidence profile policy (some st) (some (acc, why)) result =
      if str_eq acc.id "" then result else record result {
        account_route =
            some (quota_route_evidence_with_policy fl fold percent policy reads.evidence st acc);
        route_policy = some (evidence_summary fl fold percent policy);
        route_candidates =
            evidence_or_none (codex_route_candidates fl fold percent reads profile policy st);
      }

  abbrev pub task_class_of : AgentRouteParams → AgentCapabilities → String
  task_class_of params required =
      if str_eq params.task_class ""
      then infer_route_task_class lower params.prompt required params.attachments
      else params.task_class

  abbrev pub preference : AgentRouteParams → List String
  preference params =
      if not (str_eq params.account_id "")
      then "codex" ∷ []
      else if is_empty params.prefer
      then default_route_preference
      else params.prefer

  -- With an account the agent must report its usage and resume sessions.
  abbrev pub needed : AgentRouteParams → AgentCapabilities
  needed params =
      let required = route_requirements params in
      if str_eq params.account_id ""
      then required
      else record required { usage = true; resume = true }

  abbrev pub found_agent :
      (AgentInfo → AgentRouteResult F)
      → Option AgentInfo
      → Result (RouteError F) (AgentRouteResult F)
  found_agent result none = err agent_unavailable
  found_agent result (some agent) = ok (result agent)

  abbrev pub routed :
      AgentRouteParams
      → Option (Store F)
      → List AgentInfo
      → Result (RouteError F) (AgentRouteResult F)
  routed params st agents =
      let task_class = task_class_of params (route_requirements params) in
      let policy = route_policy_for_task_class fl fold task_class in
      check_route_params params
      >> (route_account fl fold percent reads params policy st >>= λ chosen.
          found_agent
            (λ agent.
              with_evidence params.profile policy st chosen
                (plain_result agent params.account_id task_class (needed params) chosen))
            (best_agent (not (str_eq params.account_id "")) (needed params) (preference params)
              agents))

  unfoldable pub route_params :
      AgentRouteParams
      → Option (Store F)
      → List AgentInfo
      → Result (RouteError F) (AgentRouteResult F)
  unfolding check_route_params route_account normalize_route_task_class trim_space
      trim_route_preference infer_route_task_class route_policy_for_task_class route_requirements
      route_reason_suffix codex_route_candidates
  route_params params st agents =
      routed (trimmed (normalize_route_task_class fl fold) params) st agents

  abbrev pub counted : RuntimeMetrics → Result (RouteError F) (AgentRouteResult F) → RuntimeMetrics
  counted metrics (ok result) = record_route_decision result.agent.id true metrics
  counted metrics (err e) = record_route_decision "" false metrics

  -- routeAgent, and the counters after it.
  unfoldable pub route_agent :
      AgentRouteParams
      → Option (Store F)
      → List AgentInfo
      → RuntimeMetrics
      → Result (RouteError F) (AgentRouteResult F) × RuntimeMetrics
  unfolding route_params record_route_decision
  route_agent params st agents metrics =
      let result = route_params params st agents in (result, counted metrics result)
