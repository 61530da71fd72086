-- ===== src/Agents/Examples.antt =====
-- The agents' lines at work: one line in each dialect, a turn of Claude Code, a turn of OpenCode.
use capd.Prelude.{
  String, append, false, Option, none, some, [], ◌∷◌, str_eq, if◌then◌else◌, ◌≡◌, refl,
  after_prefix,
}
use capd.Protocol.{no_members}
use capd.Session.Store.{Codec, Io, changed, Store}
use capd.Session.Pump.{Session, pump_loop}
use capd.Adapter.Turn.{
  Turn, TurnSession, running, new_turn_session_resumed, emit, emit_all, release, deliver,
}
use capd.Agents.Claude
use capd.Agents.Claude.{ClaudeBlock, ClaudeEvent}
use capd.Agents.Gemini
use capd.Agents.Gemini.{GeminiEvent}
use capd.Agents.Opencode
use capd.Agents.Opencode.{OcEvent}
use capd.Agents.Cursor
use capd.Agents.Cursor.{CursorEvent}
use capd.Agents.CodexExec
use capd.Agents.CodexExec.{CodexEvent}
use capd.Agents.Fits.{Fits}
use capd.Agents.Conformance.{translate-Fits}
use capd.Agents.Turns.{TurnOutcome, run_lines, run_lines-TurnOutcome, last_id}
use capd.Agents.Unrecorded.{incoming, sessions_of, sessions-run_lines}

abbrev said_hello : ClaudeEvent
said_hello = record {
  type = "assistant";
  subtype = "";
  session_id = "c_1";
  model = "";
  cwd = "";
  message = some (
      record {
        type = "text";
        text = "hello";
        thinking = "";
        id = "";
        name = "";
        input = record { source = ""; value = none };
        tool_use_id = "";
        content = record { source = ""; value = none };
      }
      ∷ []);
  result = "";
  is_error = false;
  num_turns = "1";
  total_cost_usd = "0";
  usage = none;
}

abbrev turn_over : ClaudeEvent
turn_over = record said_hello { type = "result"; message = none; result = "hello" }

-- A decoder that knows two lines.
abbrev claude : String → Option ClaudeEvent
claude line =
    if str_eq line "{hello}"
    then some said_hello
    else if str_eq line "{over}"
    then some turn_over
    else none

abbrev gemini : String → Option GeminiEvent
gemini line = some (record {
  type = "init";
  subtype = "";
  session_id = "g_1";
  model = "pro";
  message = none;
  result = "";
  is_error = false;
  usage = none;
})

abbrev stop : OcEvent
stop = record {
  type = "step_finish";
  session_id = "oc_1";
  part = record {
    type = "step-finish";
    text = "";
    reason = "stop";
    cost = "0.5";
    tokens = none;
    tool = "";
    state = none;
  };
}

abbrev opencode : String → Option OcEvent
opencode line = some stop

abbrev cursor : String → Option CursorEvent
cursor line = some (record {
  type = "system";
  subtype = "init";
  session_id = "u_1";
  chat_id = "u_2";
  is_error = false;
  result = "";
  message = none;
})

abbrev codex : String → Option CodexEvent
codex line = some (record {
  type = "turn.failed";
  thread_id = "";
  message = "";
  error = some "no quota";
  usage = none;
  item = none;
})

translate-Fits_example :
    Fits (Claude.translate claude " {over}")
    × Fits (Gemini.translate gemini " {over}")
    × Fits (Opencode.translate opencode " {over}")
    × Fits (Cursor.translate cursor " {over}")
    × Fits (CodexExec.translate codex " {over}")
translate-Fits_example = translate-Fits claude gemini opencode cursor codex " {over}"

abbrev turn : Turn
turn = record { native_id = ""; phase = running; canceled = false; done = none }

abbrev session : TurnSession
session = new_turn_session_resumed false ""

run_lines-TurnOutcome_example :
    TurnOutcome
      (Claude.translate claude)
      ("{hello}" ∷ "warning" ∷ "{over}" ∷ [])
      none
      session
      (run_lines
        (Claude.translate claude)
        false
        ("{hello}" ∷ "warning" ∷ "{over}" ∷ [])
        none
        (turn, session)).1
unfolding new_turn_session_resumed
run_lines-TurnOutcome_example =
    run_lines-TurnOutcome (Claude.translate claude) false ("{hello}" ∷ "warning" ∷ "{over}" ∷ [])
      none turn session refl refl refl

-- The id of the result and what the turn sent.
claude_resumes :
    (last_id (Claude.translate claude) ("{hello}" ∷ "warning" ∷ "{over}" ∷ []) "" ≡ "c_1")
    × ((run_lines
          (Claude.translate claude)
          false
          ("{hello}" ∷ "{over}" ∷ [])
          none
          (turn, session)).1.native_id
        ≡ "c_1")
unfolding run_lines last_id Claude.translate new_turn_session_resumed after_prefix deliver release
    emit_all emit
claude_resumes = (refl, refl)

abbrev json : Codec
json = record {
  marshal = λ obj. some "{}";
  unmarshal = λ line. no_members;
  marshal_list = λ env. some "[]";
  unmarshal_list = λ line. some [];
  quote = λ line. append "'" (append line "'");
}

abbrev fine : Io
fine = record { fault = none; chmod = λ path. changed; now = 1 }

abbrev registered : Session
registered = record {
  id = "s_1";
  agent_id = "opencode";
  inner = record {
    handle = 0;
    forker = false;
    rollbacker = false;
    reviewer = false;
    steerer = false;
    approver = false;
  };
  buf = [];
  next_seq = 0;
  subs = [];
  next_sub = 0;
  ended = false;
}

abbrev store : Store
store = record {
  path = "";
  sessions =
      record {
        id = "s_1";
        agent_id = "opencode";
        native_id = "";
        cwd = "/";
        env_json = "[]";
        ended = false;
        created_at = 1;
      }
      ∷ [];
  events = [];
}

sessions-run_lines_example :
    ((run_lines (Opencode.translate opencode) false ("{}" ∷ []) none (turn, session)).1.native_id
      ≡ last_id (Opencode.translate opencode) ("{}" ∷ []) session.native_id)
    × (sessions_of
          (pump_loop json
            (incoming
              (λ n. record { insert = fine; update = fine })
              0
              (run_lines
                (Opencode.translate opencode)
                false
                ("{}" ∷ [])
                none
                (turn, session)).1.sent)
            registered
            (some store)).1
        ≡ store.sessions)
unfolding new_turn_session_resumed
sessions-run_lines_example =
    sessions-run_lines opencode false ("{}" ∷ []) none turn session json
      (λ n. record { insert = fine; update = fine }) registered (some store) refl refl refl tt

-- The session in memory does carry the id.
opencode_id : last_id (Opencode.translate opencode) ("{}" ∷ []) "" ≡ "oc_1"
unfolding last_id Opencode.translate after_prefix
opencode_id = refl
