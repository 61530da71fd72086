-- ===== src/Agents/Gemini.antt =====
-- internal/adapter/gemini/translate.go: one turn of `gemini -p`.
use capd.Prelude.{
  String, Bool, not, ◌||◌, Option, none, some, List, [], ◌∷◌, ◌++◌, str_eq, if◌then◌else◌,
  trim_space,
}
use capd.Protocol.{Members, no_members, member, text, bool, session_started, output_text, task_done}
use capd.Adapter.Turn.{Emission}
use capd.Session.Manager.{SessionOpts}
use capd.Agents.Cli.{Message, Spec, Translation, silent, given, map_value, TextBlock, parsed}

abbrev pub mode_args : String → List String
mode_args mode =
    if str_eq mode "acceptEdits"
    then "--approval-mode" ∷ "auto_edit" ∷ []
    else if str_eq mode "full"
    then "--yolo" ∷ []
    else []

unfoldable pub build_spec : SessionOpts → String → Message → Spec
build_spec opts native_id msg = record {
  bin = "gemini";
  args =
      "-p"
      ∷ msg.prompt
      ∷ "--output-format"
      ∷ "stream-json"
      ∷ (given opts.model ("-m" ∷ opts.model ∷ []) ++ mode_args opts.permission_mode);
  cwd = opts.cwd;
  env = [];
}

pub record GeminiEvent : Type 0 where
  pub type : String
  pub subtype : String
  pub session_id : String
  pub model : String
  pub message : Option (List TextBlock)
  pub result : String
  pub is_error : Bool
  pub usage : Option Members

abbrev pub said : String → Emission
said words = (output_text, member "text" (text words) no_members)

abbrev pub block_event : TextBlock → List Emission
block_event b = if str_eq b.type "text" then said b.text ∷ [] else []

unfoldable pub text_blocks : List TextBlock → List Emission
text_blocks [] = []
text_blocks (b ∷ bs) = block_event b ++ text_blocks bs

abbrev pub of_message : Option (List TextBlock) → List Emission
of_message none = []
of_message (some blocks) = text_blocks blocks

unfoldable pub translate_event : GeminiEvent → Translation
unfolding text_blocks
translate_event ev =
    if str_eq ev.type "system" || str_eq ev.type "init"
    then (
      (
        session_started,
        member "nativeSessionId" (text ev.session_id) (member "model" (text ev.model) no_members),
      )
          ∷ [],
      ev.session_id,
    )
    else if str_eq ev.type "assistant" || str_eq ev.type "message"
    then (of_message ev.message, "")
    else if str_eq ev.type "result"
    then (
      (
        task_done,
        member "ok" (bool (not ev.is_error))
            (member "result" (text ev.result) (member "usage" (map_value ev.usage) no_members)),
      )
          ∷ [],
      "",
    )
    else silent

-- A line that is no event is surfaced as it is: prompts and banners arrive as plain text.
abbrev pub of_line : String → Option GeminiEvent → Translation
of_line line none = (said line ∷ [], "")
of_line line (some ev) = translate_event ev

unfoldable pub translate : (String → Option GeminiEvent) → String → Translation
unfolding translate_event trim_space
translate decode line =
    if str_eq (trim_space line) "" then silent else of_line line (parsed decode (trim_space line))
