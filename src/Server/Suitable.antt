-- ===== src/Server/Suitable.antt =====
-- internal/server/agent_router.go: which agents a request may be routed to and how they rank, described
-- apart from the code, and that the tests and the score of the code are this.
use capd.Prelude.{
  ℕ, suc, ◌+◌, String, Bool, true, false, Option, none, some, List, [], ◌∷◌, str_eq, if◌then◌else◌,
  ℤ, pos, difference, ◌≡◌, ◌⊎◌, ltz, All,
}
use capd.Protocol.{AgentCapabilities, AgentInfo}
use capd.Server.Capabilities.{AgentRouteParams}

-- A capability that is asked for, or that something in the request asks for, is there.
abbrev pub Asked : Bool → Bool → Type 0
Asked want got = (want ≡ false) ⊎ (got ≡ true)

abbrev pub Meets : Type 0 → Bool → Bool → Type 0
Meets Absent want got = (Absent × (want ≡ false)) ⊎ (got ≡ true)

-- An available agent with each capability that the request asks for: a model, an effort and attachments
-- ask for those, and an account for usage and resuming, and for Codex.
pub record Suitable (params : AgentRouteParams) (agent : AgentInfo) : Type 0 where
  pub available : agent.available ≡ true
  pub codex : (params.account_id ≡ "") ⊎ (agent.id ≡ "codex")
  pub model : Meets (params.model ≡ "") params.capabilities.model agent.capabilities.model
  pub effort : Meets (params.effort ≡ "") params.capabilities.effort agent.capabilities.effort
  pub streaming : Asked params.capabilities.streaming agent.capabilities.streaming
  pub approvals : Asked params.capabilities.approvals agent.capabilities.approvals
  pub steer : Asked params.capabilities.steer agent.capabilities.steer
  pub fork : Asked params.capabilities.fork agent.capabilities.fork
  pub rollback : Asked params.capabilities.rollback agent.capabilities.rollback
  pub review : Asked params.capabilities.review agent.capabilities.review
  pub images : Meets (params.attachments ≡ []) params.capabilities.images agent.capabilities.images
  pub usage : Meets (params.account_id ≡ "") params.capabilities.usage agent.capabilities.usage
  pub resume : Meets (params.account_id ≡ "") params.capabilities.resume agent.capabilities.resume

abbrev flag : Bool → ℕ
flag b = if b then 1 else 0

-- One point for each capability, and 1000 less its place for one of the names in order.
abbrev pub points : AgentCapabilities → ℕ
points c =
    flag c.model
    + flag c.effort
    + flag c.streaming
    + flag c.approvals
    + flag c.steer
    + flag c.fork
    + flag c.rollback
    + flag c.review
    + flag c.images
    + flag c.usage
    + flag c.resume

unfoldable pub rank_from : String → ℕ → ℕ → List String → ℤ
rank_from name gained place [] = pos gained
rank_from name gained place (x ∷ names) =
    let later = rank_from name gained (suc place) names in
    if str_eq x name then difference (gained + 1000) place else later

abbrev pub or_usual : List String → List String
or_usual [] = "codex" ∷ "claude-code" ∷ "opencode" ∷ "gemini" ∷ "cursor-agent" ∷ []
or_usual (x ∷ names) = x ∷ names

abbrev pub rank : AgentRouteParams → AgentInfo → ℤ
rank params agent =
    rank_from agent.id (points agent.capabilities) 0
      (if str_eq params.account_id "" then or_usual params.prefer else "codex" ∷ [])

abbrev pub Among : AgentInfo → List AgentInfo → Type 0
Among agent [] = ⊥
Among agent (x ∷ agents) = (agent ≡ x) ⊎ Among agent agents

-- Of one that ranks highest: an agent is not suitable, or does not rank above it.
abbrev pub NotBetter : AgentRouteParams → AgentInfo → AgentInfo → Type 0
NotBetter params best agent =
    ¬ Suitable params agent ⊎ (ltz (rank params best) (rank params agent) ≡ false)

-- The answer to a list of agents: none is suitable, or a suitable one of them that ranks highest.
abbrev pub Choice : AgentRouteParams → List AgentInfo → Option AgentInfo → Type 0
Choice params agents none = All (λ agent. ¬ Suitable params agent) agents
Choice params agents (some best) =
    Among best agents × Suitable params best × All (NotBetter params best) agents
