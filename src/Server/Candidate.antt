-- ===== src/Server/Candidate.antt =====
-- internal/server/agent_router.go: the loop over the agents, and which of them it picks.
use capd.Prelude.{
  ℕ, suc, ◌≤◌, String, Bool, true, false, not, ◌&&◌, Option, none, some, List, [], ◌∷◌, str_eq,
  if◌then◌else◌, ℤ, pos, negsuc, ltz, ltz_irrefl, ltz_asym, not_above_trans, ◌≡◌, refl, sym, subst,
  ◌⊎◌, inl, inr, Bool-cases, All, All-map, length, arith,
}
use capd.Protocol.{AgentCapabilities, no_capabilities, AgentInfo}
use capd.Server.Capabilities.{has_capabilities, count_capabilities, route_score, index_of, scored}

-- With an account only Codex is a candidate, and it must be available and able.
abbrev pub is_candidate : Bool → AgentCapabilities → AgentInfo → Bool
is_candidate with_account required agent =
    not (with_account && not (str_eq agent.id "codex"))
    && (agent.available && has_capabilities agent.capabilities required)

-- The loop, from the best agent so far and its score.
unfoldable pub pick :
    (AgentInfo → Bool) → (AgentInfo → ℤ) → AgentInfo × ℤ → List AgentInfo → AgentInfo × ℤ
pick suits value best [] = best
pick suits value best (agent ∷ agents) =
    pick suits value
      (if suits agent && ltz best.1 (value agent) then (agent, value agent) else best) agents

abbrev pub no_agent : AgentInfo
no_agent = record {
  id = "";
  name = "";
  bin = "";
  version = "";
  available = false;
  capabilities = no_capabilities;
}

abbrev pub unless_negative : AgentInfo × ℤ → Option AgentInfo
unless_negative (agent, pos n) = some agent
unless_negative (agent, negsuc n) = none

-- The agent of the highest score, the first of those; none below 0.
unfoldable pub best_agent :
    Bool → AgentCapabilities → List String → List AgentInfo → Option AgentInfo
unfolding pick has_capabilities route_score
best_agent with_account required prefer agents = unless_negative (
    pick (is_candidate with_account required) (λ agent. route_score agent prefer)
      (no_agent, negsuc 0) agents)

module _ (suits : AgentInfo → Bool) (value : AgentInfo → ℤ) where
  -- A candidate does not score above `best`.
  abbrev pub NotAbove : ℤ → AgentInfo → Type 0
  NotAbove best agent = (suits agent ≡ false) ⊎ (ltz best (value agent) ≡ false)

  abbrev pub AgentOf : AgentInfo → List AgentInfo → Type 0
  AgentOf agent [] = ⊥
  AgentOf agent (x ∷ xs) = (agent ≡ x) ⊎ AgentOf agent xs

  -- What the loop leaves of a start and the agents behind it.
  pub record Picked (start best : AgentInfo × ℤ) (agents : List AgentInfo) : Type 0 where
    pub not_below : ltz best.1 start.1 ≡ false
    pub highest : All (NotAbove best.1) agents
    pub source :
        (best ≡ start) ⊎ (AgentOf best.0 agents × (suits best.0 ≡ true) × (best.1 ≡ value best.0))

  -- Where the next agent is taken, and where it is passed over.
  taken-Picked :
      (start best : AgentInfo × ℤ) (agent : AgentInfo) (agents : List AgentInfo)
      → (suits agent && ltz start.1 (value agent)) ≡ true
      → Picked (agent, value agent) best agents
      → Picked start best (agent ∷ agents)
  taken-Picked start best agent agents h p = record {
    not_below =
        not_above_trans best.1 (value agent) start.1 p.not_below
          (ltz_asym start.1 (value agent) (ground (arith, h)));
    highest = (inr p.not_below, p.highest);
    source = elim (p.source) [
      | inl e ↦ inr (inl (ground (arith, e)), ground (arith, e, h), ground (arith, e))
      | inr k ↦ inr (inr k.0, k.1, k.2)
    ];
  }

  passed-Picked :
      (start best : AgentInfo × ℤ) (agent : AgentInfo) (agents : List AgentInfo)
      → (suits agent && ltz start.1 (value agent)) ≡ false
      → Picked start best agents
      → Picked start best (agent ∷ agents)
  passed-Picked start best agent agents h p = record {
    not_below = p.not_below;
    highest = (
      elim (Bool-cases (suits agent)) [
        | inl e ↦
            inr (not_above_trans best.1 start.1 (value agent) p.not_below (ground (arith, e, h)))
        | inr e ↦ inl e
      ],
      p.highest,
    );
    source = elim (p.source) [ inl e ↦ inl e | inr k ↦ inr (inr k.0, k.1, k.2) ];
  }

  pub pick-Picked :
      (start : AgentInfo × ℤ) (agents : List AgentInfo)
      → Picked start (pick suits value start agents) agents
  unfolding pick
  pick-Picked start [] = record { not_below = ltz_irrefl start.1; highest = tt; source = inl refl }
  pick-Picked start (agent ∷ agents) =
      elim (Bool-cases (suits agent && ltz start.1 (value agent))) [
        | inl h ↦
            subst
              (λ b.
                Picked start (pick suits value (if b then (agent, value agent) else start) agents)
                  (agent ∷ agents))
              (sym h)
              (taken-Picked start _ agent agents h (pick-Picked (agent, value agent) agents))
        | inr h ↦
            subst
              (λ b.
                Picked start (pick suits value (if b then (agent, value agent) else start) agents)
                  (agent ∷ agents))
              (sym h) (passed-Picked start _ agent agents h (pick-Picked start agents))
      ]

  -- The answer to a list of agents: none suits, or one that suits and has the highest score of those.
  abbrev pub AgentChoice : List AgentInfo → Option AgentInfo → Type 0
  AgentChoice agents none = All (λ agent. suits agent ≡ false) agents
  AgentChoice agents (some best) =
      AgentOf best agents × (suits best ≡ true) × All (NotAbove (value best)) agents

  unless_negative-AgentChoice :
      (agents : List AgentInfo) (best : AgentInfo × ℤ)
      → ((agent : AgentInfo) → ltz (negsuc 0) (value agent) ≡ true)
      → Picked (no_agent, negsuc 0) best agents
      → AgentChoice agents (unless_negative best)
  unless_negative-AgentChoice agents (agent, pos n) above p = elim (p.source) [
    | inl e ↦ absurd (pos_below n (ground (arith, e)))
    | inr k ↦ (k.0, k.1, subst (λ v. All (NotAbove v) agents) k.2 p.highest)
  ]
    where
      pos_below : (m : ℕ) → pos m ≡ negsuc 0 → ⊥
      pos_below m e = ground (arith, e)
  unless_negative-AgentChoice agents (agent, negsuc n) above p =
      All-map
        (λ a k. elim k [ inl e ↦ e | inr e ↦ absurd (ground (arith, e, above a, p.not_below)) ])
        agents p.highest

index_of-lt :
    (name : String) (xs : List String) (i : ℕ) → index_of name xs ≡ some i → suc i ≤ length xs
unfolding index_of
index_of-lt name [] i h = absurd (ground (arith, h))
index_of-lt name (x ∷ xs) i h =
    found (str_eq x name) (index_of name xs) (λ j. index_of-lt name xs j) h
  where
    found :
        (b : Bool) (rest : Option ℕ)
        → ((j : ℕ) → rest ≡ some j → suc j ≤ length xs)
        → (if b then some 0 else elim rest [ none ↦ none | some j ↦ some (suc j) ]) ≡ some i
        → suc i ≤ suc (length xs)
    found true rest f k = ground (arith, k)
    found false none f k = absurd (ground (arith, k))
    found false (some j) f k = ground (arith, k, f j refl)

route_score-gt :
    (prefer : List String) (agent : AgentInfo)
    → length prefer ≤ 1000
    → ltz (negsuc 0) (route_score agent prefer) ≡ true
unfolding route_score
route_score-gt prefer agent h = go (index_of agent.id prefer) (λ i. index_of-lt agent.id prefer i)
  where
    n : ℕ
    n = count_capabilities agent.capabilities

    go :
        (o : Option ℕ)
        → ((i : ℕ) → o ≡ some i → suc i ≤ length prefer)
        → ltz (negsuc 0) (scored n o) ≡ true
    go none f = ground arith
    go (some i) f = ground (arith, h, f i refl)

-- With at most 1000 preferences, the loop over the agents finds none exactly where none is
-- available with the capabilities (or, with an account, is not Codex); else it returns one of the
-- agents which is, and none of those has a higher score.
pub best_agent-AgentChoice :
    (with_account : Bool) (required : AgentCapabilities) (prefer : List String)
    (agents : List AgentInfo)
    → length prefer ≤ 1000
    → AgentChoice
        (is_candidate with_account required)
        (λ agent. route_score agent prefer)
        agents
        (best_agent with_account required prefer agents)
unfolding best_agent
best_agent-AgentChoice with_account required prefer agents h =
    unless_negative-AgentChoice (is_candidate with_account required)
      (λ agent. route_score agent prefer) agents
      (pick (is_candidate with_account required) (λ agent. route_score agent prefer)
        (no_agent, negsuc 0) agents)
      (λ agent. route_score-gt prefer agent h)
      (pick-Picked (is_candidate with_account required) (λ agent. route_score agent prefer)
        (no_agent, negsuc 0) agents)
