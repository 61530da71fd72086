-- ===== src/Server/Capabilities.antt =====
-- internal/server/agent_router.go: what a request needs of an agent, and the score of one.
use capd.Prelude.{
  ℕ, suc, ◌+◌, String, append, Bool, true, false, not, ◌&&◌, ◌||◌, Option, none, some, List, [],
  ◌∷◌, ◌++◌, str_eq, if◌then◌else◌, trim_space, ℤ, pos, difference,
}
use capd.Protocol.{Attachment, AgentCapabilities, AgentInfo}
use capd.Account.Evidence.{join}

pub record AgentRouteParams : Type 0 where
  pub prompt : String
  pub attachments : List Attachment
  pub account_id : String
  pub profile : String
  pub task_class : String
  pub model : String
  pub effort : String
  pub capabilities : AgentCapabilities
  pub prefer : List String
  pub require_fresh_quota : Bool

abbrev pub default_route_preference : List String
default_route_preference = "codex" ∷ "claude-code" ∷ "opencode" ∷ "gemini" ∷ "cursor-agent" ∷ []

abbrev pub is_empty {ℓ} : {A : Type ℓ} → List A → Bool
is_empty [] = true
is_empty (x ∷ xs) = false

unfoldable pub route_requirements : AgentRouteParams → AgentCapabilities
route_requirements params =
    let wants = params.capabilities in
    record wants {
      model = not (str_eq params.model "") || wants.model;
      effort = not (str_eq params.effort "") || wants.effort;
      images = not (is_empty params.attachments) || wants.images;
    }

-- The flags in the order of the struct, with their names.
abbrev pub flags : AgentCapabilities → List (String × Bool)
flags c =
    ("model", c.model)
    ∷ ("effort", c.effort)
    ∷ ("streaming", c.streaming)
    ∷ ("approvals", c.approvals)
    ∷ ("steer", c.steer)
    ∷ ("fork", c.fork)
    ∷ ("rollback", c.rollback)
    ∷ ("review", c.review)
    ∷ ("images", c.images)
    ∷ ("usage", c.usage)
    ∷ ("resume", c.resume)
    ∷ []

unfoldable pub has_capabilities : AgentCapabilities → AgentCapabilities → Bool
has_capabilities got want =
    (not want.model || got.model)
    && ((not want.effort || got.effort)
        && ((not want.streaming || got.streaming)
            && ((not want.approvals || got.approvals)
                && ((not want.steer || got.steer)
                    && ((not want.fork || got.fork)
                        && ((not want.rollback || got.rollback)
                            && ((not want.review || got.review)
                                && ((not want.images || got.images)
                                    && ((not want.usage || got.usage)
                                        && (not want.resume || got.resume))))))))))

abbrev pub count_set : List (String × Bool) → ℕ
count_set [] = 0
count_set ((name, enabled) ∷ fs) = (if enabled then 1 else 0) + count_set fs

unfoldable pub count_capabilities : AgentCapabilities → ℕ
count_capabilities c = count_set (flags c)

-- slices.Index
unfoldable pub index_of : String → List String → Option ℕ
index_of name [] = none
index_of name (x ∷ xs) =
    let rest = index_of name xs in
    if str_eq x name then some 0 else elim rest [ none ↦ none | some i ↦ some (suc i) ]

abbrev pub scored : ℕ → Option ℕ → ℤ
scored n none = pos n
scored n (some i) = difference (n + 1000) i

unfoldable pub route_score : AgentInfo → List String → ℤ
unfolding count_capabilities index_of
route_score agent prefer = scored (count_capabilities agent.capabilities) (index_of agent.id prefer)

unfoldable pub trim_route_preference : List String → List String
unfolding trim_space
trim_route_preference [] = []
trim_route_preference (raw ∷ prefer) =
    let rest = trim_route_preference prefer in
    if str_eq (trim_space raw) "" then rest else trim_space raw ∷ rest

abbrev pub names_set : List (String × Bool) → List String
names_set [] = []
names_set ((name, enabled) ∷ fs) = (if enabled then name ∷ [] else []) ++ names_set fs

abbrev pub listed : List String → String
listed [] = ""
listed (name ∷ names) = append ": " (join ", " (name ∷ names))

unfoldable pub route_reason_suffix : AgentCapabilities → String
unfolding join
route_reason_suffix required = listed (names_set (flags required))
