-- ===== src/Server/Suits.antt =====
-- internal/server/agent_router.go: the tests and the score of the code are those that the request asks
-- for.
use capd.Prelude.{
  ℕ, suc, ◌+◌, String, Bool, true, false, not, ◌&&◌, ◌||◌, Option, none, some, List, [], ◌∷◌,
  str_eq, if◌then◌else◌, ℤ, pos, difference, ◌≡◌, refl, sym, ap, subst, ◌∙◌, ◌⊎◌, inl, inr, arith,
  eq_iff, Bool-cases, ltz, All-map,
}
use capd.Protocol.{AgentCapabilities, AgentInfo}
use capd.Security.Minting.{str_eq-≡}
use capd.Account.Routing.{Floats}
use capd.Server.Capabilities.{
  AgentRouteParams, is_empty, has_capabilities, route_requirements, count_capabilities, index_of,
  scored, route_score, default_route_preference,
}
use capd.Server.Candidate.{is_candidate, AgentOf, AgentChoice}
use capd.Server.Routing.{RouteReads}
use capd.Server.RouteAgent.{needed, preference}
use capd.Server.Suitable.{Asked, Meets, Suitable, points, rank_from, or_usual, rank, Among, Choice}

both : (a b : Bool) → (a && b) ≡ true → (a ≡ true) × (b ≡ true)
both true b h = (refl, h)
both false b h = absurd (ground (arith, h))

join_both : (a b : Bool) → a ≡ true → b ≡ true → (a && b) ≡ true
join_both a b h k = rw (h, k) refl

or_right : (a b : Bool) → b ≡ true → (a || b) ≡ true
or_right true b h = refl
or_right false b h = h

to-Asked : (want got : Bool) → (not want || got) ≡ true → Asked want got
to-Asked true got h = inr h
to-Asked false got h = inl refl

from-Asked : (want got : Bool) → Asked want got → (not want || got) ≡ true
from-Asked want got (inl h) = rw h refl
from-Asked want got (inr h) = or_right (not want) got h

to-Meets :
    (P : Type 0) (absent want got : Bool)
    → (absent ≡ true → P)
    → (not (not absent || want) || got) ≡ true
    → Meets P want got
to-Meets P true false got f h = inl (f refl, refl)
to-Meets P true true got f h = inr h
to-Meets P false want got f h = inr h

from-Meets :
    (P : Type 0) (absent want got : Bool)
    → (P → absent ≡ true)
    → Meets P want got
    → (not (not absent || want) || got) ≡ true
from-Meets P absent want got f (inl (p, h)) = rw (f p, h) refl
from-Meets P absent want got f (inr h) = or_right (not (not absent || want)) got h

to_named : (s t : String) → s ≡ t → str_eq s t ≡ true
to_named s t h = let (_, from) = eq_iff s t in from h

to_none : {A : Type 0} (xs : List A) → is_empty xs ≡ true → xs ≡ []
to_none [] h = refl
to_none (x ∷ xs) h = absurd (ground (arith, h))

from_none : {A : Type 0} (xs : List A) → xs ≡ [] → is_empty xs ≡ true
from_none xs h = ap is_empty h

-- What a request needs, an account included.
abbrev asked : AgentRouteParams → AgentCapabilities
asked params =
    let wants = params.capabilities in
    record wants {
      model = not (str_eq params.model "") || wants.model;
      effort = not (str_eq params.effort "") || wants.effort;
      images = not (is_empty params.attachments) || wants.images;
      usage = not (str_eq params.account_id "") || wants.usage;
      resume = not (str_eq params.account_id "") || wants.resume;
    }

asked_with :
    (required : AgentCapabilities) (blank : Bool)
    → (if blank then required else record required { usage = true; resume = true })
      ≡ record required {
        usage = not blank || required.usage;
        resume = not blank || required.resume;
      }
asked_with required true = refl
asked_with required false = refl

capable-Suitable :
    (params : AgentRouteParams) (agent : AgentInfo)
    → agent.available ≡ true
    → ((params.account_id ≡ "") ⊎ (agent.id ≡ "codex"))
    → has_capabilities agent.capabilities (asked params) ≡ true
    → Suitable params agent
unfolding has_capabilities
capable-Suitable params agent up codex h0 =
    let got = agent.capabilities in
    let (model, h1) = both _ _ h0 in
    let (effort, h2) = both _ _ h1 in
    let (streaming, h3) = both _ _ h2 in
    let (approvals, h4) = both _ _ h3 in
    let (steer, h5) = both _ _ h4 in
    let (fork, h6) = both _ _ h5 in
    let (rollback, h7) = both _ _ h6 in
    let (review, h8) = both _ _ h7 in
    let (images, h9) = both _ _ h8 in
    let (usage, resume) = both _ _ h9 in
    record {
      available = up;
      codex = codex;
      model = to-Meets _ _ _ got.model (str_eq-≡ params.model "") model;
      effort = to-Meets _ _ _ got.effort (str_eq-≡ params.effort "") effort;
      streaming = to-Asked _ _ streaming;
      approvals = to-Asked _ _ approvals;
      steer = to-Asked _ _ steer;
      fork = to-Asked _ _ fork;
      rollback = to-Asked _ _ rollback;
      review = to-Asked _ _ review;
      images = to-Meets _ _ _ got.images (to_none params.attachments) images;
      usage = to-Meets _ _ _ got.usage (str_eq-≡ params.account_id "") usage;
      resume = to-Meets _ _ _ got.resume (str_eq-≡ params.account_id "") resume;
    }

Suitable-capable :
    (params : AgentRouteParams) (agent : AgentInfo)
    → Suitable params agent
    → has_capabilities agent.capabilities (asked params) ≡ true
unfolding has_capabilities
Suitable-capable params agent h =
    join_both _ _ (from-Meets _ _ _ _ (to_named params.model "") h.model) (
      join_both _ _ (from-Meets _ _ _ _ (to_named params.effort "") h.effort) (
        join_both _ _ (from-Asked _ _ h.streaming) (
          join_both _ _ (from-Asked _ _ h.approvals) (
            join_both _ _ (from-Asked _ _ h.steer) (
              join_both _ _ (from-Asked _ _ h.fork) (
                join_both _ _ (from-Asked _ _ h.rollback) (
                  join_both _ _ (from-Asked _ _ h.review) (
                    join_both _ _ (from-Meets _ _ _ _ (from_none params.attachments) h.images) (
                      join_both _ _ (from-Meets _ _ _ _ (to_named params.account_id "") h.usage)
                        (from-Meets _ _ _ _ (to_named params.account_id "") h.resume))))))))))

not-codex :
    (named is_codex : Bool)
    → not (not named && not is_codex) ≡ true
    → (named ≡ true) ⊎ (is_codex ≡ true)
not-codex true b h = inl refl
not-codex false true h = inr refl
not-codex false false h = absurd (ground (arith, h))

codex-not :
    (named is_codex : Bool)
    → (named ≡ true) ⊎ (is_codex ≡ true)
    → not (not named && not is_codex) ≡ true
codex-not named is_codex (inl h) = rw h refl
codex-not true is_codex (inr h) = refl
codex-not false is_codex (inr h) = rw h refl

-- Where the index of a name puts it.
abbrev placed : ℕ → ℕ → Option ℕ → ℤ
placed gained place none = pos gained
placed gained place (some i) = difference (gained + 1000) (place + i)

placed_later :
    (gained place : ℕ) (rest : Option ℕ)
    → placed gained (suc place) rest
      ≡ placed gained place (elim rest [ none ↦ none | some i ↦ some (suc i) ])
placed_later gained place none = refl
placed_later gained place (some i) = ap (difference (gained + 1000)) (omega arith)

rank_from-placed :
    (name : String) (gained place : ℕ) (names : List String)
    → rank_from name gained place names ≡ placed gained place (index_of name names)
unfolding rank_from index_of
rank_from-placed name gained place [] = refl
rank_from-placed name gained place (x ∷ names) = elim (Bool-cases (str_eq x name)) [
  | inl e ↦ rw e (ap (difference (gained + 1000)) (omega arith))
  | inr e ↦ rw e (
      rank_from-placed name gained (suc place) names
      ∙ placed_later gained place (index_of name names))
]

placed_first : (gained : ℕ) (o : Option ℕ) → placed gained 0 o ≡ scored gained o
placed_first gained none = refl
placed_first gained (some i) = ap (difference (gained + 1000)) (omega arith)

points-count_capabilities : (c : AgentCapabilities) → points c ≡ count_capabilities c
unfolding count_capabilities
points-count_capabilities c = omega arith

or_usual-≡ :
    (prefer : List String)
    → or_usual prefer ≡ (if is_empty prefer then default_route_preference else prefer)
or_usual-≡ [] = refl
or_usual-≡ (x ∷ names) = refl

order-≡ :
    (blank : Bool) (prefer : List String)
    → (if blank then or_usual prefer else "codex" ∷ []) ≡ (
        if not blank
        then "codex" ∷ []
        else if is_empty prefer
        then default_route_preference
        else prefer)
order-≡ true prefer = or_usual-≡ prefer
order-≡ false prefer = refl

module _ {F : Type 0} (fl : Floats F) (fold lower : String → String) (percent : F → String)
    (reads : RouteReads) (params : AgentRouteParams) (agent : AgentInfo) where
  needed-≡ : needed fl fold lower percent reads params ≡ asked params
  unfolding route_requirements
  needed-≡ = asked_with (route_requirements params) (str_eq params.account_id "")

  pub suits-Suitable :
      is_candidate
          (not (str_eq params.account_id ""))
          (needed fl fold lower percent reads params)
          agent
        ≡ true
      → Suitable params agent
  suits-Suitable h =
      let (codex, able) = both _ _ h in
      let (up, capable) = both _ _ able in
      capable-Suitable params agent up
        (elim (not-codex (str_eq params.account_id "") (str_eq agent.id "codex") codex) [
          | inl e ↦ inl (str_eq-≡ params.account_id "" e)
          | inr e ↦ inr (str_eq-≡ agent.id "codex" e)
        ])
        (subst (λ c. has_capabilities agent.capabilities c ≡ true) needed-≡ capable)

  pub Suitable-suits :
      Suitable params agent
      → is_candidate
          (not (str_eq params.account_id ""))
          (needed fl fold lower percent reads params)
          agent
        ≡ true
  Suitable-suits h =
      join_both _ _
        (codex-not (str_eq params.account_id "") (str_eq agent.id "codex") (elim (h.codex) [
          | inl e ↦ inl (to_named params.account_id "" e)
          | inr e ↦ inr (to_named agent.id "codex" e)
        ]))
        (join_both _ _ h.available (
          subst (λ c. has_capabilities agent.capabilities c ≡ true) (sym needed-≡)
            (Suitable-capable params agent h)))

  pub rank-≡ : rank params agent ≡ route_score agent (preference fl fold lower percent reads params)
  unfolding route_score
  rank-≡ =
      ap (rank_from agent.id (points agent.capabilities) 0)
        (order-≡ (str_eq params.account_id "") params.prefer)
      ∙ rank_from-placed agent.id (points agent.capabilities) 0
          (preference fl fold lower percent reads params)
      ∙ placed_first (points agent.capabilities)
          (index_of agent.id (preference fl fold lower percent reads params))
      ∙ ap (λ n. scored n (index_of agent.id (preference fl fold lower percent reads params)))
          (points-count_capabilities agent.capabilities)

module _ (s : AgentInfo → Bool) (v : AgentInfo → ℤ) where
  AgentOf-Among :
      (agent : AgentInfo) (agents : List AgentInfo) → AgentOf s v agent agents → Among agent agents
  AgentOf-Among agent [] h = h
  AgentOf-Among agent (x ∷ agents) (inl e) = inl e
  AgentOf-Among agent (x ∷ agents) (inr h) = inr (AgentOf-Among agent agents h)

  -- A choice by a test and a score that are those of the request.
  pub AgentChoice-Choice :
      (params : AgentRouteParams)
      → ((agent : AgentInfo) → s agent ≡ true → Suitable params agent)
      → ((agent : AgentInfo) → Suitable params agent → s agent ≡ true)
      → ((agent : AgentInfo) → rank params agent ≡ v agent)
      → (agents : List AgentInfo) (found : Option AgentInfo) → AgentChoice s v agents found
      → Choice params agents found
  AgentChoice-Choice params to from same agents none h =
      All-map (λ agent e k. absurd (ground (arith, e, from agent k))) agents h
  AgentChoice-Choice params to from same agents (some best) (k, fits, highest) = (
    AgentOf-Among best agents k,
    to best fits,
    All-map
        (λ agent above. elim above [
          | inl e ↦ inl (λ h. absurd (ground (arith, e, from agent h)))
          | inr e ↦
              inr (
                ap (λ x. ltz x (rank params agent)) (same best)
                ∙ ap (ltz (v best)) (same agent)
                ∙ e)
        ])
        agents highest,
  )
