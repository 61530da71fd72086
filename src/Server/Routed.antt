-- ===== src/Server/Routed.antt =====
-- internal/server/agent_router.go: which agent agents/route answers with, and when it finds none.
use capd.Prelude.{
  either, ℤ, ◌≤◌, String, Bool, true, false, not, ◌&&◌, Option, none, some, List, [], ◌∷◌, length,
  Result, ok, err, ◌>>=◌, ◌>>◌, str_eq, if◌then◌else◌, trim_space, ◌≡◌, refl, sym, subst, arith,
}
use capd.Protocol.{AgentInfo}
use capd.Account.Store.{AccountError, Account, Store, load_account}
use capd.Account.Routing.{Floats, RoutePolicy, normalize_route_task_class}
use capd.Server.Capabilities.{AgentRouteParams, is_empty, route_score, trim_route_preference}
use capd.Server.Candidate.{is_candidate, AgentChoice, best_agent-AgentChoice}
use capd.Server.Routing.{
  RouteReads, RouteError, fresh_without_auto, profile_without_auto, account_reserved, no_accounts,
  no_accounts_in, unknown_account_id, not_codex, agent_unavailable, AgentRouteResult, refuse_if,
  load_codex_account_for_route, trimmed, check_route_params,
}
use capd.Server.RouteAccount.{
  route_account, select_codex_account_for_route, selected, checked_fresh, route_fresh_quota_error,
}
use capd.Server.Suitable.{Choice}
use capd.Server.Suits.{suits-Suitable, Suitable-suits, rank-≡, AgentChoice-Choice}
use capd.Server.RouteAgent.{route_params, routed, found_agent, needed, preference, with_evidence}

abbrev is_unavailable : {F : Type 0} → RouteError F → Bool
is_unavailable agent_unavailable = true
is_unavailable _ = false

-- An answer that does not say that no agent is available.
abbrev Other : {F A : Type 0} → Result (RouteError F) A → Type 0
Other (ok a) = Unit
Other (err e) = is_unavailable e ≡ false

refuse_if-Other :
    {F : Type 0} (b : Bool) (e : RouteError F) → is_unavailable e ≡ false → Other (refuse_if b e)
refuse_if-Other true e h = h
refuse_if-Other false e h = tt

Other->> :
    {F A : Type 0} (r : Result (RouteError F) (Unit {0})) (s : Result (RouteError F) A)
    → Other r
    → Other s
    → Other (r >> s)
Other->> (ok u) s h k = k
Other->> (err e) s h k = h

Other->>= :
    {F A B : Type 0} (r : Result (RouteError F) A) (f : A → Result (RouteError F) B)
    → Other r
    → ((a : A) → Other (f a))
    → Other (r >>= f)
Other->>= (ok a) f h k = k a
Other->>= (err e) f h k = h

check_route_params-Other :
    (F : Type 0) (params : AgentRouteParams) → Other {F = F} (check_route_params params)
unfolding check_route_params
check_route_params-Other F params =
    let auto = str_eq params.account_id "auto" in
    Other->> {F = F} {A = Unit {0}} _ _
      (refuse_if-Other (params.require_fresh_quota && not auto) fresh_without_auto refl)
      (Other->> {F = F} {A = Unit {0}} _ _
        (refuse_if-Other (not (str_eq params.profile "") && not auto) profile_without_auto refl)
        (refuse_if-Other (str_eq (trim_space params.account_id) "all") account_reserved refl))

-- What an answer says of the agents: the one that it names is suitable and none that is ranks higher;
-- or none is suitable.
abbrev pub RouteOutcome :
    {F : Type 0}
    → AgentRouteParams
    → List AgentInfo
    → Result (RouteError F) (AgentRouteResult F)
    → Type 0
RouteOutcome params agents (ok result) = Choice params agents (some result.agent)
RouteOutcome params agents (err e) = if is_unavailable e then Choice params agents none else Unit

module _ {F : Type 0} (fl : Floats F) (fold lower : String → String) (percent : F → String)
    (reads : RouteReads) where
  selected-Other :
      (profile : String) (policy : RoutePolicy F) (st : Store F) (r : Result AccountError Account)
      → Other (selected fl fold percent reads profile policy st r)
  selected-Other profile policy st (ok best) = tt
  selected-Other profile policy st (err e) = go (str_eq profile "")
    where
      go :
          (b : Bool)
          → is_unavailable {F = F} (if b then no_accounts else no_accounts_in profile) ≡ false
      go true = refl
      go false = refl

  select-Other :
      (profile : String) (policy : RoutePolicy F) (st : Option (Store F))
      → Other (select_codex_account_for_route fl fold percent reads profile policy st)
  unfolding select_codex_account_for_route
  select-Other profile policy none = refl
  select-Other profile policy (some st) = selected-Other (trim_space profile) policy st _

  checked_fresh-Other :
      (params : AgentRouteParams) (policy : RoutePolicy F) (st : Option (Store F))
      (chosen : Account × String)
      → Other (checked_fresh fl fold percent reads params policy st chosen)
  unfolding route_fresh_quota_error
  checked_fresh-Other params policy none chosen = tt
  checked_fresh-Other params policy (some st) chosen = go _
    where
      go :
          (b : Bool)
          → Other (
              if b
              then err
                  (route_fresh_quota_error fl fold percent reads chosen.0 params.profile policy st)
              else ok chosen)
      go true = refl
      go false = tt

  load-Other :
      (account_id : String) (st : Option (Store F))
      → Other (load_codex_account_for_route reads.account account_id st)
  unfolding load_codex_account_for_route
  load-Other account_id none = refl
  load-Other account_id (some st) = go (load_account reads.account account_id st)
    where
      kept :
          (b : Bool) (acc : Account)
          → Other {F = F} (if b then ok acc else err (not_codex account_id))
      kept true acc = tt
      kept false acc = refl

      go :
          (r : Result AccountError Account)
          → Other {F = F} (elim r [
            | err e ↦ err (unknown_account_id account_id)
            | ok acc ↦ if str_eq acc.provider "codex" then ok acc else err (not_codex account_id)
          ])
      go (err e) = refl
      go (ok acc) = kept (str_eq acc.provider "codex") acc

  route_account-Other :
      (params : AgentRouteParams) (policy : RoutePolicy F) (st : Option (Store F))
      → Other (route_account fl fold percent reads params policy st)
  unfolding route_account
  route_account-Other params policy st = either Other (str_eq params.account_id "") tt (
      either Other (str_eq params.account_id "auto")
        (Other->>= _ _ (select-Other params.profile policy st)
          (λ chosen. Other->>= _ _ (checked_fresh-Other params policy st chosen) (λ fresh. tt)))
        (Other->>= _ _ (load-Other params.account_id st) (λ acc. tt)))

  -- With an account the agent has to be Codex.
  abbrev pub suits : AgentRouteParams → AgentInfo → Bool
  suits params agent =
      is_candidate (not (str_eq params.account_id "")) (needed fl fold lower percent reads params)
        agent

  abbrev pub value : AgentRouteParams → AgentInfo → ℤ
  value params agent = route_score agent (preference fl fold lower percent reads params)

  chosen-Choice :
      (params : AgentRouteParams) (agents : List AgentInfo) (found : Option AgentInfo)
      → AgentChoice (suits params) (value params) agents found
      → Choice params agents found
  chosen-Choice params =
      AgentChoice-Choice (suits params) (value params) params
        (λ agent. suits-Suitable fl fold lower percent reads params agent)
        (λ agent. Suitable-suits fl fold lower percent reads params agent)
        (λ agent. rank-≡ fl fold lower percent reads params agent)

  other-RouteOutcome :
      (params : AgentRouteParams) (agents : List AgentInfo) (e : RouteError F)
      → is_unavailable e ≡ false
      → RouteOutcome params agents (err e)
  other-RouteOutcome params agents e h =
      subst (λ b. if b then Choice params agents none else Unit) (sym h) tt

  found_agent-RouteOutcome :
      (params : AgentRouteParams) (agents : List AgentInfo)
      (result : AgentInfo → AgentRouteResult F) (found : Option AgentInfo)
      → ((agent : AgentInfo) → (result agent).agent ≡ agent)
      → Choice params agents found
      → RouteOutcome params agents (found_agent fl fold lower percent reads result found)
  found_agent-RouteOutcome params agents result none same h = h
  found_agent-RouteOutcome params agents result (some agent) same h =
      subst (λ a. Choice params agents (some a)) (sym (same agent)) h

  after-RouteOutcome :
      {A : Type 0} (params : AgentRouteParams) (agents : List AgentInfo)
      (r : Result (RouteError F) A) (f : A → Result (RouteError F) (AgentRouteResult F))
      → Other r
      → ((a : A) → RouteOutcome params agents (f a))
      → RouteOutcome params agents (r >>= f)
  after-RouteOutcome params agents (ok a) f h k = k a
  after-RouteOutcome params agents (err e) f h k = other-RouteOutcome params agents e h

  agent-with_evidence :
      (profile : String) (policy : RoutePolicy F) (st : Option (Store F))
      (chosen : Option (Account × String)) (result : AgentRouteResult F)
      → (with_evidence fl fold lower percent reads profile policy st chosen result).agent
        ≡ result.agent
  agent-with_evidence profile policy none chosen result = refl
  agent-with_evidence profile policy (some st) none result = refl
  agent-with_evidence profile policy (some st) (some (acc, why)) result = ground (arith)

  length-preference :
      (params : AgentRouteParams)
      → length params.prefer ≤ 1000
      → length (preference fl fold lower percent reads params) ≤ 1000
  length-preference params h =
      either (λ xs. length xs ≤ 1000) (not (str_eq params.account_id "")) (omega arith)
        (either (λ xs. length xs ≤ 1000) (is_empty params.prefer) (omega arith) h)

  routed-RouteOutcome :
      (params : AgentRouteParams) (st : Option (Store F)) (agents : List AgentInfo)
      → length params.prefer ≤ 1000
      → RouteOutcome params agents (routed fl fold lower percent reads params st agents)
  routed-RouteOutcome params st agents h =
      after-RouteOutcome params agents (check_route_params params) (λ u. _)
        (check_route_params-Other F params)
        (λ u.
          after-RouteOutcome params agents (route_account fl fold percent reads params _ st) _
            (route_account-Other params _ st)
            (λ chosen.
              found_agent-RouteOutcome params agents _ _
                (λ agent. agent-with_evidence params.profile _ st chosen _)
                (chosen-Choice params agents _ (
                  best_agent-AgentChoice (not (str_eq params.account_id ""))
                    (needed fl fold lower percent reads params)
                    (preference fl fold lower percent reads params) agents
                    (length-preference params h)))))

length-trim_route_preference :
    (prefer : List String) → length (trim_route_preference prefer) ≤ length prefer
unfolding trim_route_preference
length-trim_route_preference [] = omega arith
length-trim_route_preference (raw ∷ prefer) = ground (arith, length-trim_route_preference prefer)

-- With at most 1000 preferences in the trimmed request: where agents/route answers with an agent, that
-- is one of those found and is suitable, and no suitable one of them ranks higher; and it answers that
-- no agent is available only where none of them is suitable. Suitable is an available agent with each
-- capability that the request sets or that its model, its effort, its attachments or its account asks
-- for, and, with an account, only Codex. An agent ranks by the number of its capabilities, and one at
-- place `i` of the preferences by 1000 - i more.
pub route_params-RouteOutcome :
    {F : Type 0} (fl : Floats F) (fold lower : String → String) (percent : F → String)
    (reads : RouteReads) (params : AgentRouteParams) (st : Option (Store F))
    (agents : List AgentInfo)
    → length params.prefer ≤ 1000
    → RouteOutcome
        (trimmed (normalize_route_task_class fl fold) params)
        agents
        (route_params fl fold lower percent reads params st agents)
unfolding route_params
route_params-RouteOutcome fl fold lower percent reads params st agents h =
    routed-RouteOutcome fl fold lower percent reads
      (trimmed (normalize_route_task_class fl fold) params) st agents
      (omega (arith, h, length-trim_route_preference params.prefer))
