-- ===== src/Agents/Opencode.antt =====
-- internal/adapter/opencode/adapter.go: one turn of `opencode run`. A number of an event is its literal.
use capd.Prelude.{
  String, Bool, true, false, ◌||◌, Option, none, some, List, [], ◌∷◌, ◌++◌, str_eq, if◌then◌else◌,
}
use capd.Protocol.{
  Members, no_members, member, text, bool, number, get_field, as_text, output_text,
  output_reasoning, tool_use, tool_result, task_done, error,
}
use capd.Adapter.Turn.{Emission}
use capd.Session.Manager.{SessionOpts}
use capd.Agents.Cli.{Message, Spec, Translation, silent, json_line, given, image_args, map_value}

unfoldable pub build_spec : SessionOpts → String → Message → Spec
unfolding image_args
build_spec opts native_id msg = record {
  bin = "opencode";
  args =
      "run"
      ∷ msg.prompt
      ∷ "--format"
      ∷ "json"
      ∷ (given opts.model ("-m" ∷ opts.model ∷ [])
          ++ (image_args "-f" msg.images ++ given native_id ("--session" ∷ native_id ∷ [])));
  cwd = opts.cwd;
  env = [];
}

pub record Part : Type 0 where
  pub type : String
  pub text : String
  pub reason : String
  pub cost : String
  pub tokens : Option Members
  pub tool : String
  pub state : Option Members

pub record OcEvent : Type 0 where
  pub type : String
  pub session_id : String
  pub part : Part

abbrev pub is_over : Option String → Bool
is_over none = false
is_over (some status) = str_eq status "completed" || str_eq status "error"

abbrev pub status_of : Option Members → Option String
status_of none = none
status_of (some state) = as_text (get_field "status" state)

-- What the event of a part emits.
unfoldable pub part_events : String → Part → List Emission
unfolding get_field
part_events type part =
    if str_eq type "step_start"
    then []
    else if str_eq type "text"
    then (output_text, member "text" (text part.text) no_members) ∷ []
    else if str_eq type "reasoning"
    then (output_reasoning, member "text" (text part.text) no_members) ∷ []
    else if str_eq type "tool"
    then (
      if is_over (status_of part.state) then tool_result else tool_use,
      member "kind" (text part.tool) (member "item" (map_value part.state) no_members),
    )
      ∷ []
    else if str_eq type "step_finish"
    then (if str_eq part.reason "stop"
        then (
          task_done,
          member "ok" (bool true) (
              member "costUSD" (number part.cost)
                (member "usage" (map_value part.tokens) no_members)),
        )
          ∷ []
        else [])
    else if str_eq type "error"
    then (error, member "message" (text part.text) no_members) ∷ []
    else []

abbrev pub of_line : Option OcEvent → Translation
of_line none = silent
of_line (some ev) = (part_events ev.type ev.part, ev.session_id)

unfoldable pub translate : (String → Option OcEvent) → String → Translation
unfolding json_line part_events
translate decode line = of_line (json_line decode line)
