-- ===== src/Agents/Claude.antt =====
-- internal/adapter/claudecode/translate.go: one turn of `claude -p`. A number of an event is its literal.
use capd.Prelude.{String, Bool, not, Option, none, some, List, [], ◌∷◌, ◌++◌, str_eq, if◌then◌else◌}
use capd.Protocol.{
  Members, no_members, member, text, bool, number, session_started, output_text, output_reasoning,
  tool_use, tool_result, task_done,
}
use capd.Adapter.Turn.{Emission}
use capd.Session.Manager.{SessionOpts}
use capd.Agents.Cli.{
  Message, Spec, Translation, silent, json_line, given, map_value, Raw, raw_to_any,
}

abbrev pub mode_args : String → List String
mode_args mode =
    if str_eq mode "acceptEdits"
    then "--permission-mode" ∷ "acceptEdits" ∷ []
    else if str_eq mode "full"
    then "--permission-mode" ∷ "bypassPermissions" ∷ []
    else []

unfoldable pub build_spec : SessionOpts → String → Message → Spec
build_spec opts native_id msg = record {
  bin = "claude";
  args =
      "-p"
      ∷ msg.prompt
      ∷ "--output-format"
      ∷ "stream-json"
      ∷ "--verbose"
      ∷ (given opts.model ("--model" ∷ opts.model ∷ [])
          ++ (mode_args opts.permission_mode ++ given native_id ("--resume" ∷ native_id ∷ [])));
  cwd = opts.cwd;
  env = [];
}

pub record ClaudeBlock : Type 0 where
  pub type : String
  pub text : String
  pub thinking : String
  pub id : String
  pub name : String
  pub input : Raw
  pub tool_use_id : String
  pub content : Raw

pub record ClaudeEvent : Type 0 where
  pub type : String
  pub subtype : String
  pub session_id : String
  pub model : String
  pub cwd : String
  pub message : Option (List ClaudeBlock)
  pub result : String
  pub is_error : Bool
  pub num_turns : String
  pub total_cost_usd : String
  pub usage : Option Members

abbrev pub block_event : ClaudeBlock → List Emission
block_event b =
    if str_eq b.type "text"
    then (output_text, member "text" (text b.text) no_members) ∷ []
    else if str_eq b.type "thinking"
    then (output_reasoning, member "text" (text b.thinking) no_members) ∷ []
    else if str_eq b.type "tool_use"
    then (
      tool_use,
      member "kind" (text b.name)
          (member "toolUseId" (text b.id) (member "input" (raw_to_any b.input) no_members)),
    )
      ∷ []
    else []

unfoldable pub translate_blocks : List ClaudeBlock → List Emission
unfolding raw_to_any
translate_blocks [] = []
translate_blocks (b ∷ bs) = block_event b ++ translate_blocks bs

abbrev pub result_event : ClaudeBlock → List Emission
result_event b =
    if str_eq b.type "tool_result"
    then (
      tool_result,
      member "toolUseId" (text b.tool_use_id) (member "content" (raw_to_any b.content) no_members),
    )
      ∷ []
    else []

-- Tool results come back in messages of the user.
unfoldable pub tool_results : List ClaudeBlock → List Emission
unfolding raw_to_any
tool_results [] = []
tool_results (b ∷ bs) = result_event b ++ tool_results bs

abbrev pub of_message :
    (List ClaudeBlock → List Emission) → Option (List ClaudeBlock) → List Emission
of_message f none = []
of_message f (some blocks) = f blocks

unfoldable pub translate_event : ClaudeEvent → Translation
unfolding translate_blocks tool_results
translate_event ev =
    if str_eq ev.type "system"
    then (if str_eq ev.subtype "init"
        then (
          (
            session_started,
            member "nativeSessionId" (text ev.session_id)
                (member "model" (text ev.model) (member "cwd" (text ev.cwd) no_members)),
          )
              ∷ [],
          ev.session_id,
        )
        else silent)
    else if str_eq ev.type "assistant"
    then (of_message translate_blocks ev.message, "")
    else if str_eq ev.type "user"
    then (of_message tool_results ev.message, "")
    else if str_eq ev.type "result"
    then (
      (
        task_done,
        member "ok" (bool (not ev.is_error)) (
            member "result" (text ev.result) (
              member "numTurns" (number ev.num_turns) (
                member "costUSD" (number ev.total_cost_usd)
                  (member "usage" (map_value ev.usage) no_members)))),
      )
          ∷ [],
      ev.session_id,
    )
    else silent

abbrev pub of_line : Option ClaudeEvent → Translation
of_line none = silent
of_line (some ev) = translate_event ev

unfoldable pub translate : (String → Option ClaudeEvent) → String → Translation
unfolding json_line translate_event
translate decode line = of_line (json_line decode line)
