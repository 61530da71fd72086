-- ===== src/Agents/Fits.antt =====
-- internal/adapter: what a translated line keeps to, for the Claude and Gemini dialects.
use capd.Prelude.{
  either, ◌≤◌, String, false, ◌||◌, Option, none, some, List, [], ◌∷◌, str_eq, sum_of, All,
  All-append, All-map, ◌≡◌, refl, arith, ◌⊎◌, inl, inr,
}
use capd.Protocol.{
  Members, member, session_started, task_done, get_field, text, is_session_started, is_task_done,
}
use capd.Adapter.Turn.{Emission}
use capd.Adapter.Exclusion.{is_done}
use capd.Agents.Cli.{Translation, silent, TextBlock}
use capd.Agents.Claude
use capd.Agents.Gemini
use capd.Agents.Claude.{ClaudeEvent, ClaudeBlock}
use capd.Agents.Gemini.{GeminiEvent}

-- An event that neither starts a session nor ends a turn.
abbrev pub MidTurn : Emission → Type 0
MidTurn ev = (is_session_started ev.0 ≡ false) × (is_task_done ev.0 ≡ false)

-- An event that starts the session carries the id that the translator returns.
abbrev pub Named : String → Emission → Type 0
Named id ev =
    (is_session_started ev.0 ≡ false) ⊎ (get_field "nativeSessionId" ev.1 ≡ some (text id))

-- A line ends at most one turn, and a start of the session carries the id that is returned.
pub record Fits (out : Translation) : Type 0 where
  pub one_end : sum_of is_done out.0 ≤ 1
  pub named : All (Named out.1) out.0

no_done : (evs : List Emission) → All MidTurn evs → sum_of is_done evs ≡ 0
no_done [] h = refl
no_done (ev ∷ evs) h = ground (arith, h.0.1, no_done evs h.1)

pub events-Fits : (id : String) (evs : List Emission) → All MidTurn evs → Fits (evs, id)
events-Fits id evs h = record {
  one_end = omega (arith, no_done evs h);
  named = All-map (λ ev k. inl k.0) evs h;
}

block-MidTurn : (b : ClaudeBlock) → All MidTurn (Claude.block_event b)
block-MidTurn b =
    either (All MidTurn) (str_eq b.type "text") ((refl, refl), tt)
      (either (All MidTurn) (str_eq b.type "thinking") ((refl, refl), tt)
        (either (All MidTurn) (str_eq b.type "tool_use") ((refl, refl), tt) tt))

blocks-MidTurn : (bs : List ClaudeBlock) → All MidTurn (Claude.translate_blocks bs)
unfolding Claude.translate_blocks
blocks-MidTurn [] = tt
blocks-MidTurn (b ∷ bs) =
    All-append MidTurn (Claude.block_event b) (Claude.translate_blocks bs) (block-MidTurn b)
      (blocks-MidTurn bs)

results-MidTurn : (bs : List ClaudeBlock) → All MidTurn (Claude.tool_results bs)
unfolding Claude.tool_results
results-MidTurn [] = tt
results-MidTurn (b ∷ bs) =
    All-append MidTurn (Claude.result_event b) (Claude.tool_results bs)
      (either (All MidTurn) (str_eq b.type "tool_result") ((refl, refl), tt) tt)
      (results-MidTurn bs)

message-Fits :
    (f : List ClaudeBlock → List Emission) (message : Option (List ClaudeBlock))
    → ((bs : List ClaudeBlock) → All MidTurn (f bs))
    → Fits (Claude.of_message f message, "")
message-Fits f none h = events-Fits "" [] tt
message-Fits f (some bs) h = events-Fits "" (f bs) (h bs)

pub silent-Fits : Fits silent
silent-Fits = events-Fits "" [] tt

-- The start of a session, and the end of a turn.
pub started-Fits :
    (id : String) (rest : Members)
    → Fits ((session_started, member "nativeSessionId" (text id) rest) ∷ [], id)
unfolding get_field
started-Fits id rest = record { one_end = omega arith; named = (inr refl, tt) }

pub ended-Fits : (id : String) (obj : Members) → Fits ((task_done, obj) ∷ [], id)
ended-Fits id obj = record { one_end = omega arith; named = (inl refl, tt) }

pub claude-Fits : (ev : ClaudeEvent) → Fits (Claude.translate_event ev)
unfolding Claude.translate_event
claude-Fits ev =
    either Fits (str_eq ev.type "system")
      (either Fits (str_eq ev.subtype "init") (started-Fits ev.session_id _) silent-Fits)
      (either Fits (str_eq ev.type "assistant")
        (message-Fits Claude.translate_blocks ev.message blocks-MidTurn)
        (either Fits (str_eq ev.type "user")
          (message-Fits Claude.tool_results ev.message results-MidTurn)
          (either Fits (str_eq ev.type "result") (ended-Fits ev.session_id _) silent-Fits)))

gemini_blocks-MidTurn : (bs : List TextBlock) → All MidTurn (Gemini.text_blocks bs)
unfolding Gemini.text_blocks
gemini_blocks-MidTurn [] = tt
gemini_blocks-MidTurn (b ∷ bs) =
    All-append MidTurn (Gemini.block_event b) (Gemini.text_blocks bs)
      (either (All MidTurn) (str_eq b.type "text") ((refl, refl), tt) tt) (gemini_blocks-MidTurn bs)

gemini_message-Fits : (message : Option (List TextBlock)) → Fits (Gemini.of_message message, "")
gemini_message-Fits none = events-Fits "" [] tt
gemini_message-Fits (some bs) = events-Fits "" (Gemini.text_blocks bs) (gemini_blocks-MidTurn bs)

pub gemini-Fits : (ev : GeminiEvent) → Fits (Gemini.translate_event ev)
unfolding Gemini.translate_event
gemini-Fits ev =
    either Fits (str_eq ev.type "system" || str_eq ev.type "init") (started-Fits ev.session_id _) (
      either Fits (str_eq ev.type "assistant" || str_eq ev.type "message")
        (gemini_message-Fits ev.message)
        (either Fits (str_eq ev.type "result") (ended-Fits "" _) silent-Fits))
