-- ===== src/Agents/Discovery.antt =====
-- internal/adapter (registry.go, probe.go, pending.go and the adapters) and internal/discovery: which
-- agents there are, what they can do, and how a session of one starts.
-- What os/exec answers is the parameter `Machine`.
use Prim.Native.String.{compare}
use Prim.Native.Char.{code}
use text.Mathlib.Text.{is_lt}
use capd.Prelude.{
  String, Bool, true, false, Option, none, some, List, [], ◌∷◌, map, Result, ok, err, insert,
  lookup, sort_by, if◌then◌else◌, trim_space, ◌==◌,
}
use capd.Protocol.{AgentCapabilities, no_capabilities, AgentInfo}
use capd.Session.Manager.{SessionOpts}
use capd.Adapter.Turn.{TurnSession, new_turn_session_resumed}

-- exec.LookPath, and the output of a program that is run with some arguments.
pub record Machine : Type 0 where
  pub look_path : String → Option String
  pub output : String → List String → Option String

-- The adapters that are compiled into the daemon; all but Codex take their id, name and program.
pub data Adapter : Type 0 where
  claude_cli gemini_cli opencode_cli cursor_cli : String → String → String → Adapter
  codex_cli : String → Adapter
  pending_cli : String → String → String → List String → Adapter

abbrev pub adapter_id : Adapter → String
adapter_id (claude_cli id name bin) = id
adapter_id (gemini_cli id name bin) = id
adapter_id (opencode_cli id name bin) = id
adapter_id (cursor_cli id name bin) = id
adapter_id (codex_cli bin) = "codex"
adapter_id (pending_cli id name bin version_args) = id

unfoldable pub capabilities_of : Adapter → AgentCapabilities
capabilities_of (claude_cli id name bin) = record no_capabilities { model = true; resume = true }
capabilities_of (gemini_cli id name bin) = record no_capabilities { model = true }
capabilities_of (opencode_cli id name bin) = record no_capabilities {
  model = true;
  images = true;
  resume = true;
}
capabilities_of (cursor_cli id name bin) = record no_capabilities { resume = true }
capabilities_of (codex_cli bin) = record {
  model = true;
  effort = true;
  streaming = true;
  approvals = true;
  steer = true;
  fork = true;
  rollback = true;
  review = true;
  images = true;
  usage = true;
  resume = true;
}
capabilities_of (pending_cli id name bin version_args) = no_capabilities

-- strings.Cut(s, "\n"): what stands in front of the first line feed.
unfoldable pub first_line : String → String
first_line String.[] = String.[]
first_line (String.◌∷◌ c s) =
    let rest = first_line s in if code c == 10 then String.[] else String.◌∷◌ c rest

abbrev pub version_of : Option String → String
version_of none = ""
version_of (some out) = trim_space (first_line (trim_space out))

abbrev pub found_info : Machine → AgentInfo → List String → Option String → AgentInfo
found_info machine info version_args none = info
found_info machine info version_args (some path) = record info {
  bin = path;
  available = true;
  version = version_of (machine.output path version_args);
}

-- ProbeCLI: an agent that is not installed is not an error.
unfoldable pub probe_cli : Machine → String → String → String → List String → AgentInfo
unfolding trim_space first_line
probe_cli machine id name bin version_args =
    found_info machine
      (record {
        id = id;
        name = name;
        bin = "";
        version = "";
        available = false;
        capabilities = no_capabilities;
      })
      version_args (machine.look_path bin)

unfoldable pub probe : Machine → Adapter → AgentInfo
unfolding probe_cli
probe machine (claude_cli id name bin) = probe_cli machine id name bin ("--version" ∷ [])
probe machine (gemini_cli id name bin) = probe_cli machine id name bin ("--version" ∷ [])
probe machine (opencode_cli id name bin) = probe_cli machine id name bin ("--version" ∷ [])
probe machine (cursor_cli id name bin) = probe_cli machine id name bin ("--version" ∷ [])
probe machine (codex_cli bin) = probe_cli machine "codex" "Codex CLI" bin ("--version" ∷ [])
probe machine (pending_cli id name bin version_args) = probe_cli machine id name bin version_args

-- A Registry is the map from the ids; a later adapter replaces one with the same id.
unfoldable pub register : List Adapter → List (String × Adapter) → List (String × Adapter)
unfolding insert
register [] reg = reg
register (a ∷ adapters) reg = register adapters (insert (adapter_id a) a reg)

unfoldable pub new_registry : List Adapter → List (String × Adapter)
unfolding register
new_registry adapters = register adapters []

unfoldable pub get : String → List (String × Adapter) → Option Adapter
unfolding lookup
get id reg = lookup id reg

abbrev pub by_id : Adapter → Adapter → Bool
by_id a b = is_lt (compare (adapter_id a) (adapter_id b))

unfoldable pub all_adapters : List (String × Adapter) → List Adapter
unfolding sort_by
all_adapters reg = sort_by by_id (map (λ entry. entry.1) reg)

abbrev pub described : Machine → Adapter → AgentInfo
described machine a = record (probe machine a) { capabilities = capabilities_of a }

-- Discover. No Probe fails, and each writes its own place, so the order of the goroutines does not matter.
unfoldable pub discover : Machine → List (String × Adapter) → List AgentInfo
unfolding all_adapters probe capabilities_of
discover machine reg = map (described machine) (all_adapters reg)

-- How starting a session answers: RequireBin, an adapter without sessions, a session of turns, or the
-- session of the app-server that codex prefers.
pub data StartError : Type 0 where
  not_installed : String → String → StartError
  discovery_only : String → StartError

pub data Started (S : Type 0) : Type 0 where
  turn_based : TurnSession → Started S
  app_server : S → Started S

unfoldable pub require_bin : {A : Type 0} → Machine → String → String → A → Result StartError A
require_bin machine id bin session = elim (machine.look_path bin) [
  | none ↦ err (not_installed id bin)
  | some path ↦ ok session
]

-- An id to resume is taken by the dialects that have a flag for it.
abbrev pub resumed : {S : Type 0} → Bool → SessionOpts → Started S
resumed images opts = turn_based (new_turn_session_resumed images opts.resume)

-- StartSession; `app` is what startAppSession of codex gives.
unfoldable pub start_session :
    {S : Type 0} → Machine → Option S → SessionOpts → Adapter → Result StartError (Started S)
unfolding require_bin
start_session machine app opts (claude_cli id name bin) =
    require_bin machine id bin (resumed false opts)
start_session machine app opts (gemini_cli id name bin) =
    require_bin machine id bin (turn_based (new_turn_session_resumed false ""))
start_session machine app opts (opencode_cli id name bin) =
    require_bin machine id bin (resumed true opts)
start_session machine app opts (cursor_cli id name bin) =
    require_bin machine id bin (resumed false opts)
start_session machine none opts (codex_cli bin) = ok (resumed true opts)
start_session machine (some s) opts (codex_cli bin) = ok (app_server s)
start_session machine app opts (pending_cli id name bin version_args) = err (discovery_only id)
