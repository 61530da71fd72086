-- ===== src/Agents/StartExamples.antt =====
-- The agents at work: command lines, discovery and the start of a session.
use capd.Prelude.{
  true, ℕ, map, Bool, List, ok, String, append, false, none, some, [], ◌∷◌, str_eq, if◌then◌else◌,
  ◌≡◌, refl,
}
use capd.Protocol.{AgentInfo}
use capd.Session.Manager.{SessionOpts}
use capd.Adapter.Turn.{new_turn_session_resumed}
use capd.Agents.Cli.{Message}
use capd.Agents.Claude
use capd.Agents.Claude.{ClaudeBlock, ClaudeEvent}
use capd.Agents.Opencode
use capd.Agents.Opencode.{OcEvent}
use capd.Agents.Discovery.{
  Machine, Adapter, gemini_cli, codex_cli, claude_cli, new_registry, discover, start_session,
  turn_based,
}

abbrev asked : Message
asked = record {
  prompt = "fix it";
  images = record { type = "image"; path = "a.png"; url = "" } ∷ [];
}

abbrev opts : SessionOpts
opts = record {
  cwd = "/src";
  resume = "";
  model = "m";
  effort = "";
  permission_mode = "full";
  env = [];
}

-- The flags in front of the prompt, and the id that is resumed.
claude_args :
    (Claude.build_spec opts "c_1" asked).args
    ≡ "-p" ∷ "fix it" ∷ "--output-format" ∷ "stream-json" ∷ "--verbose" ∷ "--model" ∷ "m"
      ∷ "--permission-mode" ∷ "bypassPermissions" ∷ "--resume" ∷ "c_1" ∷ []
unfolding Claude.build_spec
claude_args = refl

opencode_args :
    (Opencode.build_spec opts "" asked).args
    ≡ "run" ∷ "fix it" ∷ "--format" ∷ "json" ∷ "-m" ∷ "m" ∷ "-f" ∷ "a.png" ∷ []
unfolding Opencode.build_spec
opencode_args = refl

-- A machine that has Claude Code and Qwen Code, but not Codex.
abbrev machine : Machine
machine = record {
  look_path = λ bin. if str_eq bin "codex" then none else some (append "/bin/" bin);
  output = λ path args. some " 1.2\nmore";
}

abbrev adapters : List (String × Adapter)
adapters = new_registry (
    gemini_cli "qwen" "Qwen Code" "qwen"
    ∷ codex_cli "codex"
    ∷ claude_cli "claude-code" "Claude Code" "claude"
    ∷ [])

abbrev shown : AgentInfo → String × String × Bool
shown info = (info.id, info.version, info.available)

-- The agents are found in the order of their ids.
agents_found :
    map shown (discover machine adapters)
    ≡ ("claude-code", "1.2", true) ∷ ("codex", "", false) ∷ ("qwen", "1.2", true) ∷ []
unfolding discover new_registry
agents_found = refl

-- A session of Gemini's forks takes no id to resume.
qwen_starts :
    start_session {S = ℕ} machine none
      (record opts { resume = "g_1" })
      (gemini_cli "qwen" "Qwen Code" "qwen")
    ≡ ok (turn_based (new_turn_session_resumed false ""))
unfolding start_session
qwen_starts = refl
