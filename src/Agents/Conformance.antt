-- ===== src/Agents/Conformance.antt =====
-- internal/adapter: what every translator of a CLI's lines keeps to.
use capd.Prelude.{
  either, ◌≤◌, String, Bool, true, false, ◌||◌, Option, none, some, List, [], ◌∷◌, str_eq,
  if◌then◌else◌, sum_of, All, All-append, All-map, ◌≡◌, refl, arith, inl, subst, sym, trim_space,
}
use capd.Protocol.{Members, no_members, task_done, tool_result, tool_use, error, is_session_started}
use capd.Adapter.Turn.{Emission}
use capd.Adapter.Exclusion.{is_done}
use capd.Agents.Cli.{Translation, silent, TextBlock, json_line, parsed}
use capd.Agents.Claude
use capd.Agents.Gemini
use capd.Agents.Opencode
use capd.Agents.Cursor
use capd.Agents.CodexExec
use capd.Agents.Claude.{ClaudeEvent, ClaudeBlock}
use capd.Agents.Gemini.{GeminiEvent}
use capd.Agents.Opencode.{OcEvent, Part}
use capd.Agents.Cursor.{CursorEvent}
use capd.Agents.CodexExec.{CodexEvent, CodexItem}
use capd.Agents.Fits.{
  MidTurn, Fits, events-Fits, silent-Fits, started-Fits, ended-Fits, claude-Fits, gemini-Fits,
}

cursor_blocks-MidTurn : (bs : List TextBlock) → All MidTurn (Cursor.text_blocks bs)
unfolding Cursor.text_blocks
cursor_blocks-MidTurn [] = tt
cursor_blocks-MidTurn (b ∷ bs) =
    All-append MidTurn (Cursor.block_event b) (Cursor.text_blocks bs)
      (either (All MidTurn) (str_eq b.type "text") ((refl, refl), tt) tt) (cursor_blocks-MidTurn bs)

cursor_message-Fits : (message : Option (List TextBlock)) → Fits (Cursor.of_message message, "")
cursor_message-Fits none = events-Fits "" [] tt
cursor_message-Fits (some bs) = events-Fits "" (Cursor.text_blocks bs) (cursor_blocks-MidTurn bs)

cursor-Fits : (ev : CursorEvent) → Fits (Cursor.translate_event ev)
unfolding Cursor.translate_event
cursor-Fits ev =
    either Fits (str_eq ev.type "system")
      (either Fits (str_eq ev.subtype "init") (started-Fits (Cursor.native_id ev) _) silent-Fits)
      (either Fits (str_eq ev.type "assistant") (cursor_message-Fits ev.message)
        (either Fits (str_eq ev.type "result") (ended-Fits (Cursor.native_id ev) _) silent-Fits))

item-MidTurn : (type : String) (it : CodexItem) → All MidTurn (CodexExec.item_events type it)
unfolding CodexExec.item_events
item-MidTurn type it =
    either (All MidTurn) (str_eq (CodexExec.kind it) "agent_message")
      (either (All MidTurn) (str_eq type "item.completed") ((refl, refl), tt) tt)
      (either (All MidTurn) (str_eq (CodexExec.kind it) "reasoning")
        (either (All MidTurn) (str_eq type "item.completed") ((refl, refl), tt) tt)
        (either (All MidTurn) (str_eq (CodexExec.kind it) "command_execution")
          (either (All MidTurn) (str_eq type "item.started") ((refl, refl), tt)
            (either (All MidTurn) (str_eq type "item.completed") ((refl, refl), tt) tt))
          (either (All MidTurn) (str_eq type "item.started") ((refl, refl), tt)
            (either (All MidTurn) (str_eq type "item.completed") ((refl, refl), tt) tt))))

item-Fits :
    (type : String) (item : Option CodexItem) → Fits (CodexExec.translate_item type item, "")
item-Fits type none = events-Fits "" [] tt
item-Fits type (some it) = events-Fits "" (CodexExec.item_events type it) (item-MidTurn type it)

failed-Fits : (message obj : Members) → Fits ((error, message) ∷ (task_done, obj) ∷ [], "")
failed-Fits message obj = record { one_end = omega arith; named = (inl refl, (inl refl, tt)) }

codex-Fits : (ev : CodexEvent) → Fits (CodexExec.translate_event ev)
unfolding CodexExec.translate_event
codex-Fits ev = either Fits (str_eq ev.type "thread.started") (started-Fits ev.thread_id _) (
    either Fits (str_eq ev.type "turn.started") silent-Fits (
      either Fits
        (str_eq ev.type "item.started"
          || (str_eq ev.type "item.updated" || str_eq ev.type "item.completed"))
        (item-Fits ev.type ev.item)
        (either Fits (str_eq ev.type "turn.completed") (ended-Fits "" _) (
          either Fits (str_eq ev.type "turn.failed") (failed-Fits _ _) (
            either Fits (str_eq ev.type "error") (events-Fits "" _ ((refl, refl), tt))
              silent-Fits)))))

-- OpenCode's events never start a session.
abbrev pub Unstarted : Emission → Type 0
Unstarted ev = is_session_started ev.0 ≡ false

pub part-Unstarted : (type : String) (part : Part) → All Unstarted (Opencode.part_events type part)
unfolding Opencode.part_events
part-Unstarted type part = either (All Unstarted) (str_eq type "step_start") tt (
    either (All Unstarted) (str_eq type "text") (refl, tt)
      (either (All Unstarted) (str_eq type "reasoning") (refl, tt)
        (either (All Unstarted) (str_eq type "tool")
          (tool (Opencode.is_over (Opencode.status_of part.state)), tt)
          (either (All Unstarted) (str_eq type "step_finish")
            (either (All Unstarted) (str_eq part.reason "stop") (refl, tt) tt)
            (either (All Unstarted) (str_eq type "error") (refl, tt) tt)))))
  where
    tool : (b : Bool) → is_session_started (if b then tool_result else tool_use) ≡ false
    tool true = refl
    tool false = refl

part-one_end : (type : String) (part : Part) → sum_of is_done (Opencode.part_events type part) ≤ 1
unfolding Opencode.part_events
part-one_end type part = either Few (str_eq type "step_start") (omega arith) (
    either Few (str_eq type "text") (omega arith) (
      either Few (str_eq type "reasoning") (omega arith) (
        either Few (str_eq type "tool") (tool (Opencode.is_over (Opencode.status_of part.state))) (
          either Few (str_eq type "step_finish")
            (either Few (str_eq part.reason "stop") (omega arith) (omega arith))
            (either Few (str_eq type "error") (omega arith) (omega arith))))))
  where
    Few : List Emission → Type 0
    Few evs = sum_of is_done evs ≤ 1

    tool : (b : Bool) → sum_of is_done ((if b then tool_result else tool_use, no_members) ∷ []) ≤ 1
    tool true = omega arith
    tool false = omega arith

opencode-Fits : (ev : OcEvent) → Fits (Opencode.part_events ev.type ev.part, ev.session_id)
opencode-Fits ev = record {
  one_end = part-one_end ev.type ev.part;
  named =
      All-map (λ e h. inl h) (Opencode.part_events ev.type ev.part)
        (part-Unstarted ev.type ev.part);
}

line-Fits :
    {E : Type 0} (f : E → Translation) (g : Option E → Translation) (o : Option E)
    → (g none ≡ silent)
    → ((ev : E) → g (some ev) ≡ f ev)
    → ((ev : E) → Fits (f ev))
    → Fits (g o)
line-Fits f g none e k h = subst Fits (sym e) silent-Fits
line-Fits f g (some ev) e k h = subst Fits (sym (k ev)) (h ev)

surfaced-Fits : (line : String) (o : Option GeminiEvent) → Fits (Gemini.of_line line o)
surfaced-Fits line none = events-Fits "" _ ((refl, refl), tt)
surfaced-Fits line (some ev) = gemini-Fits ev

-- Whatever a CLI prints, and however it is decoded, a line of it is translated into events of which at
-- most one ends the turn, and a start of the session among them carries the id that the translator
-- returns; this holds for each of the five dialects.
pub translate-Fits :
    (claude : String → Option ClaudeEvent) (gemini : String → Option GeminiEvent)
    (oc : String → Option OcEvent) (cursor : String → Option CursorEvent)
    (codex : String → Option CodexEvent) (line : String)
    → Fits (Claude.translate claude line)
      × Fits (Gemini.translate gemini line)
      × Fits (Opencode.translate oc line)
      × Fits (Cursor.translate cursor line)
      × Fits (CodexExec.translate codex line)
unfolding Claude.translate Gemini.translate Opencode.translate Cursor.translate CodexExec.translate
translate-Fits claude gemini oc cursor codex line = (
  line-Fits Claude.translate_event Claude.of_line (json_line claude line) refl (λ ev. refl)
      claude-Fits,
  either Fits (str_eq (trim_space line) "") silent-Fits
      (surfaced-Fits line (parsed gemini (trim_space line))),
  line-Fits (λ ev. (Opencode.part_events ev.type ev.part, ev.session_id)) Opencode.of_line
      (json_line oc line) refl (λ ev. refl) opencode-Fits,
  line-Fits Cursor.translate_event Cursor.of_line (json_line cursor line) refl (λ ev. refl)
      cursor-Fits,
  line-Fits CodexExec.translate_event CodexExec.of_line (json_line codex line) refl (λ ev. refl)
      codex-Fits,
)
