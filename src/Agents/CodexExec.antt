-- ===== src/Agents/CodexExec.antt =====
-- internal/adapter/codex/translate.go: one turn of `codex exec`, where the app-server cannot start.
use capd.Prelude.{
  String, true, false, ◌||◌, Option, none, some, List, [], ◌∷◌, ◌++◌, str_eq, if◌then◌else◌,
}
use capd.Protocol.{
  Members, no_members, member, text, bool, number, session_started, output_text, output_reasoning,
  tool_use, tool_result, task_done, error,
}
use capd.Adapter.Turn.{Emission}
use capd.Session.Manager.{SessionOpts}
use capd.Agents.Cli.{Message, Spec, Translation, silent, json_line, given, image_args, map_value}

-- `bin` is the answer of binPath.
unfoldable pub build_spec : String → SessionOpts → String → Message → Spec
unfolding image_args
build_spec bin opts native_id msg = record {
  bin = bin;
  args =
      "exec"
      ∷ "--json"
      ∷ "--skip-git-repo-check"
      ∷ (given opts.model ("-m" ∷ opts.model ∷ [])
          ++ (image_args "-i" msg.images
              ++ ((if str_eq opts.permission_mode "acceptEdits"
                      || str_eq opts.permission_mode "full"
                    then "--full-auto" ∷ []
                    else [])
                  ++ (given native_id ("resume" ∷ native_id ∷ []) ++ msg.prompt ∷ []))));
  cwd = opts.cwd;
  env = opts.env;
}

-- An item as the struct, and the whole of it as a map; its exit code is the literal of a number.
pub record CodexItem : Type 0 where
  pub item_type : String
  pub type_alt : String
  pub text : String
  pub command : String
  pub aggregated_output : String
  pub exit_code : Option String
  pub raw : Option Members

-- `item` is none where decoding it fails, `error` the message of an error object.
pub record CodexEvent : Type 0 where
  pub type : String
  pub thread_id : String
  pub message : String
  pub error : Option String
  pub usage : Option Members
  pub item : Option CodexItem

abbrev pub kind : CodexItem → String
kind it = if str_eq it.item_type "" then it.type_alt else it.item_type

abbrev pub exit_code_of : Option String → Members
exit_code_of none = no_members
exit_code_of (some code) = member "exitCode" (number code) no_members

-- An event at the end of an item only.
abbrev pub at_completion : String → Emission → List Emission
at_completion type ev = if str_eq type "item.completed" then ev ∷ [] else []

abbrev pub around : String → Emission → Emission → List Emission
around type first last = if str_eq type "item.started" then first ∷ [] else at_completion type last

unfoldable pub item_events : String → CodexItem → List Emission
item_events type it =
    let item = map_value it.raw in
    if str_eq (kind it) "agent_message"
    then at_completion type (output_text, member "text" (text it.text) no_members)
    else if str_eq (kind it) "reasoning"
    then at_completion type (output_reasoning, member "text" (text it.text) no_members)
    else if str_eq (kind it) "command_execution"
    then around type
        (
          tool_use,
          member "kind" (text "shell")
              (member "command" (text it.command) (member "item" item no_members)),
        )
        (
          tool_result,
          member "kind" (text "shell") (
              member "command" (text it.command) (
                member "output" (text it.aggregated_output)
                  (member "item" item (exit_code_of it.exit_code)))),
        )
    else around type (tool_use, member "kind" (text (kind it)) (member "item" item no_members))
        (tool_result, member "kind" (text (kind it)) (member "item" item no_members))

abbrev pub translate_item : String → Option CodexItem → List Emission
translate_item type none = []
translate_item type (some it) = item_events type it

abbrev pub failure_message : Option String → String
failure_message none = "turn failed"
failure_message (some message) = message

unfoldable pub translate_event : CodexEvent → Translation
unfolding item_events
translate_event ev =
    if str_eq ev.type "thread.started"
    then (
      (
        session_started,
        member "nativeSessionId" (text ev.thread_id)
            (member "threadId" (text ev.thread_id) no_members),
      )
          ∷ [],
      ev.thread_id,
    )
    else if str_eq ev.type "turn.started"
    then silent
    else if str_eq ev.type "item.started"
        || (str_eq ev.type "item.updated" || str_eq ev.type "item.completed")
    then (translate_item ev.type ev.item, "")
    else if str_eq ev.type "turn.completed"
    then (
      (task_done, member "ok" (bool true) (member "usage" (map_value ev.usage) no_members)) ∷ [],
      "",
    )
    else if str_eq ev.type "turn.failed"
    then (
      (error, member "message" (text (failure_message ev.error)) no_members)
          ∷ (task_done, member "ok" (bool false) no_members)
          ∷ [],
      "",
    )
    else if str_eq ev.type "error"
    then ((error, member "message" (text ev.message) no_members) ∷ [], "")
    else silent

abbrev pub of_line : Option CodexEvent → Translation
of_line none = silent
of_line (some ev) = translate_event ev

unfoldable pub translate : (String → Option CodexEvent) → String → Translation
unfolding json_line translate_event
translate decode line = of_line (json_line decode line)
