-- ===== src/Server/Scopes.antt =====
-- internal/server/router.go: what runs before the request's own case, and the scopes' lists of methods.
use capd.Prelude.{String, Bool, true, false, not, ◌&&◌, List, [], ◌∷◌, str_eq, if◌then◌else◌}

abbrev pub one_of : String → List String → Bool
one_of text [] = false
one_of text (word ∷ words) = if str_eq text word then true else one_of text words

abbrev pub probe_methods : List String
probe_methods =
    "initialize" ∷ "agents/list" ∷ "agents/route" ∷ "accounts/list" ∷ "accounts/check" ∷ []

abbrev pub console_read_methods : List String
console_read_methods =
    "initialize" ∷ "agents/list" ∷ "agents/route" ∷ "agents/usage" ∷ "accounts/list"
    ∷ "accounts/import" ∷ "accounts/current" ∷ "accounts/project" ∷ "accounts/check"
    ∷ "accounts/quota" ∷ "accounts/remove" ∷ "profiles/list" ∷ "profiles/update"
    ∷ "profiles/members" ∷ "session/list" ∷ "session/attach" ∷ "session/history" ∷ []

abbrev pub console_methods : List String
console_methods =
    "initialize" ∷ "agents/list" ∷ "agents/route" ∷ "agents/usage" ∷ "accounts/list"
    ∷ "accounts/import" ∷ "accounts/current" ∷ "accounts/project" ∷ "accounts/check"
    ∷ "accounts/quota" ∷ "accounts/remove" ∷ "profiles/list" ∷ "profiles/update"
    ∷ "profiles/members" ∷ "repair/run" ∷ "session/create" ∷ "session/list" ∷ "session/attach"
    ∷ "session/history" ∷ "session/fork" ∷ "session/rollback" ∷ "session/close" ∷ "task/review"
    ∷ "task/reviewMulti" ∷ "task/send" ∷ "task/steer" ∷ "approval/reply" ∷ "task/cancel" ∷ []

unfoldable pub client_scope_allows : String → String → Bool
client_scope_allows scope method =
    if one_of scope ("" ∷ "full" ∷ [])
    then true
    else if str_eq scope "probe:read"
    then one_of method probe_methods
    else if str_eq scope "console:read"
    then one_of method console_read_methods
    else if str_eq scope "console"
    then one_of method console_methods
    else false

-- The connection's state that the router reads and writes.
pub record WsClient : Type 0 where
  pub initialized : Bool
  pub scope : String

-- `version` is read of the parameters of "initialize" only.
pub record Request : Type 0 where
  pub method : String
  pub decodes : Bool
  pub version : String

pub data Refusal : Type 0 where
  not_first : Refusal
  out_of_scope : String → String → Refusal
  undecodable : Refusal
  version_unsupported : String → Refusal
  method_unknown : String → Refusal

-- What the router does of a request: refuse it, greet the client, or run the method's own case.
pub data Routed : Type 0 where
  refused : Refusal → Routed
  greeted : Routed
  runs : String → Routed

unfoldable pub initialize : WsClient → Request → Routed × WsClient
initialize client req =
    if not req.decodes
    then (refused undecodable, client)
    else if not (str_eq req.version "0.1")
    then (refused (version_unsupported req.version), client)
    else (greeted, record client { initialized = true })

-- The methods that have a case; they are those of the widest list.
unfoldable pub is_known : String → Bool
is_known method = one_of method console_methods

unfoldable pub handle : WsClient → Request → Routed × WsClient
handle client req =
    if not client.initialized && not (str_eq req.method "initialize")
    then (refused not_first, client)
    else if not (client_scope_allows client.scope req.method)
    then (refused (out_of_scope client.scope req.method), client)
    else if str_eq req.method "initialize"
    then initialize client req
    else if is_known req.method
    then (runs req.method, client)
    else (refused (method_unknown req.method), client)

-- The requests of one connection, in their order.
unfoldable pub handle_all : WsClient → List Request → List Routed
handle_all client [] = []
handle_all client (req ∷ reqs) =
    let (routed, client') = handle client req in routed ∷ handle_all client' reqs
