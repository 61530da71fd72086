-- ===== src/Agents/Cursor.antt =====
-- internal/adapter/cursoragent/adapter.go: one turn of `cursor-agent -p`.
use capd.Prelude.{String, Bool, not, Option, none, some, List, [], ◌∷◌, ◌++◌, str_eq, if◌then◌else◌}
use capd.Protocol.{no_members, member, text, bool, session_started, output_text, task_done}
use capd.Adapter.Turn.{Emission}
use capd.Session.Manager.{SessionOpts}
use capd.Agents.Cli.{Message, Spec, Translation, silent, json_line, given, TextBlock}

unfoldable pub build_spec : SessionOpts → String → Message → Spec
build_spec opts native_id msg = record {
  bin = "cursor-agent";
  args =
      "-p"
      ∷ msg.prompt
      ∷ "--output-format"
      ∷ "stream-json"
      ∷ ((if str_eq opts.permission_mode "full" then "--force" ∷ [] else [])
          ++ given native_id ("--resume" ∷ native_id ∷ []));
  cwd = opts.cwd;
  env = [];
}

pub record CursorEvent : Type 0 where
  pub type : String
  pub subtype : String
  pub session_id : String
  pub chat_id : String
  pub is_error : Bool
  pub result : String
  pub message : Option (List TextBlock)

abbrev pub native_id : CursorEvent → String
native_id ev = if str_eq ev.chat_id "" then ev.session_id else ev.chat_id

abbrev pub block_event : TextBlock → List Emission
block_event b =
    if str_eq b.type "text" then (output_text, member "text" (text b.text) no_members) ∷ [] else []

unfoldable pub text_blocks : List TextBlock → List Emission
text_blocks [] = []
text_blocks (b ∷ bs) = block_event b ++ text_blocks bs

abbrev pub of_message : Option (List TextBlock) → List Emission
of_message none = []
of_message (some blocks) = text_blocks blocks

unfoldable pub translate_event : CursorEvent → Translation
unfolding text_blocks
translate_event ev =
    if str_eq ev.type "system"
    then (if str_eq ev.subtype "init"
        then (
          (session_started, member "nativeSessionId" (text (native_id ev)) no_members) ∷ [],
          native_id ev,
        )
        else silent)
    else if str_eq ev.type "assistant"
    then (of_message ev.message, "")
    else if str_eq ev.type "result"
    then (
      (
        task_done,
        member "ok" (bool (not ev.is_error)) (member "result" (text ev.result) no_members),
      )
          ∷ [],
      native_id ev,
    )
    else silent

abbrev pub of_line : Option CursorEvent → Translation
of_line none = silent
of_line (some ev) = translate_event ev

unfoldable pub translate : (String → Option CursorEvent) → String → Translation
unfolding json_line translate_event
translate decode line = of_line (json_line decode line)
