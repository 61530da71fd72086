-- ===== src/Agents/Turns.antt =====
-- internal/adapter/turn.go: a whole turn over the lines that a CLI prints.
use capd.Prelude.{
  String, Bool, false, Option, none, some, List, [], ◌∷◌, ◌++◌, map, str_eq, if◌then◌else◌, ◌≡◌,
  refl, sym, ap, ◌∙◌, subst, arith, append-nil, append_assoc,
}
use capd.Protocol.{task_done, is_task_done, Members}
use capd.Adapter.Turn.{
  Emission, Turn, TurnSession, emit, emit_all, push_event, keep_native_id, ended_data, or_data,
  release, deliver,
}
use capd.Adapter.Schedule.{read_line, finish}
use capd.Agents.Cli.{Translation}

abbrev pub with_case : Bool → List Emission → List (Bool × Emission)
with_case drop evs = map (λ ev. (drop, ev)) evs

-- The loop over the lines of the process; `drop` is the case that the selects of `emit` take.
unfoldable pub read_lines :
    (String → Translation) → Bool → List String → Turn × TurnSession → Turn × TurnSession
read_lines translate drop [] ts = ts
read_lines translate drop (line ∷ lines) ts =
    let out = translate line in
    read_lines translate drop lines (read_line (with_case drop out.0) out.1 ts)

-- runTurn behind a start that succeeded: all lines, the end of the process and task.done.
unfoldable pub run_lines :
    (String → Translation)
    → Bool
    → List String
    → Option String
    → Turn × TurnSession
    → Turn × TurnSession
unfolding read_lines
run_lines translate drop lines wait_err ts =
    deliver (finish wait_err (read_lines translate drop lines ts))

-- What the lines amount to: every event that the translator emits, the last id that it returns.
unfoldable pub emissions : (String → Translation) → List String → List Emission
emissions translate [] = []
emissions translate (line ∷ lines) = (translate line).0 ++ emissions translate lines

unfoldable pub last_id : (String → Translation) → List String → String → String
last_id translate [] id = id
last_id translate (line ∷ lines) id =
    let own = (translate line).1 in last_id translate lines (if str_eq own "" then id else own)

-- All of them but those that end the turn.
unfoldable pub streamed : List Emission → List Emission
streamed [] = []
streamed (ev ∷ evs) = let rest = streamed evs in if is_task_done ev.0 then rest else ev ∷ rest

abbrev pub next_done : Option Members → Emission → Option Members
next_done seen ev = if is_task_done ev.0 then some ev.1 else seen

-- The data of the last event that ends the turn.
unfoldable pub last_done : Option Members → List Emission → Option Members
last_done seen [] = seen
last_done seen (ev ∷ evs) = last_done (next_done seen ev) evs

pub streamed-append : (xs ys : List Emission) → streamed (xs ++ ys) ≡ streamed xs ++ streamed ys
unfolding streamed
streamed-append [] ys = refl
streamed-append (x ∷ xs) ys = ground (arith, streamed-append xs ys)

pub last_done-append :
    (seen : Option Members) (xs ys : List Emission)
    → last_done seen (xs ++ ys) ≡ last_done (last_done seen xs) ys
unfolding last_done
last_done-append seen [] ys = refl
last_done-append seen (x ∷ xs) ys = last_done-append (next_done seen x) xs ys

-- What a turn and its session are after some events.
abbrev after : List Emission → Turn × TurnSession → Turn × TurnSession
after evs (t, s) =
    (record t { done = last_done t.done evs }, record s { sent = s.sent ++ streamed evs })

emit-streams :
    (drop : Bool) (ev : Emission) (t : Turn) (s : TurnSession)
    → t.canceled ≡ false
    → s.channel_closed ≡ false
    → emit drop ev (t, s) ≡ after (ev ∷ []) (t, s)
unfolding emit push_event streamed last_done
emit-streams drop ev t s h k = ground (arith, h, k, append-nil s.sent)

emit_all-streams :
    (drop : Bool) (evs : List Emission) (t : Turn) (s : TurnSession)
    → t.canceled ≡ false
    → s.channel_closed ≡ false
    → emit_all (with_case drop evs) (t, s) ≡ after evs (t, s)
unfolding emit_all streamed last_done
emit_all-streams drop [] t s h k = ap (λ xs. (t, record s { sent = xs })) (sym (append-nil s.sent))
emit_all-streams drop (ev ∷ evs) t s h k =
    ap (λ ts. emit_all (with_case drop evs) ts) (emit-streams drop ev t s h k)
    ∙ emit_all-streams drop evs (record t { done = next_done t.done ev })
        (record s { sent = s.sent ++ streamed (ev ∷ []) }) h k
    ∙ ap (λ xs. (record t { done = last_done t.done (ev ∷ evs) }, record s { sent = xs }))
        (append_assoc s.sent (streamed (ev ∷ [])) (streamed evs)
          ∙ ap (λ ys. s.sent ++ ys) (sym (streamed-append (ev ∷ []) evs)))

-- The same, and the id that the session is to resume.
abbrev after_lines : (String → Translation) → List String → Turn × TurnSession → Turn × TurnSession
after_lines translate lines (t, s) = (
  record t { done = last_done t.done (emissions translate lines) },
  record s {
    sent = s.sent ++ streamed (emissions translate lines);
    native_id = last_id translate lines s.native_id;
  },
)

line-streams :
    (evs : List Emission) (drop : Bool) (id : String) (t : Turn) (s : TurnSession)
    → t.canceled ≡ false
    → s.channel_closed ≡ false
    → read_line (with_case drop evs) id (t, s) ≡ (
      record t { done = last_done t.done evs },
      record s {
        sent = s.sent ++ streamed evs;
        native_id = if str_eq id "" then s.native_id else id;
      },
    )
line-streams evs drop id t s h k =
    ap (λ ts. (ts.0, keep_native_id id ts.1)) (emit_all-streams drop evs t s h k) ∙ ground arith

read_lines-streams :
    (translate : String → Translation) (drop : Bool) (lines : List String) (t : Turn)
    (s : TurnSession)
    → t.canceled ≡ false
    → s.channel_closed ≡ false
    → read_lines translate drop lines (t, s) ≡ after_lines translate lines (t, s)
unfolding read_lines emissions last_id streamed last_done
read_lines-streams translate drop [] t s h k =
    ap (λ xs. (t, record s { sent = xs })) (sym (append-nil s.sent))
read_lines-streams translate drop (line ∷ lines) t s h k =
    let out = translate line in
    ap (λ ts. read_lines translate drop lines ts) (line-streams out.0 drop out.1 t s h k)
    ∙ read_lines-streams translate drop lines (record t { done = last_done t.done out.0 })
        (record s {
          sent = s.sent ++ streamed out.0;
          native_id = if str_eq out.1 "" then s.native_id else out.1;
        })
        h k
    ∙ ap
        (λ xs. (
          record t { done = xs.0 },
          record s { sent = xs.1; native_id = last_id translate (line ∷ lines) s.native_id },
        ))
        (joined out.0)
  where
    joined :
        (evs : List Emission)
        → ◌≡◌ {A = Option Members × List Emission}
            (
              last_done (last_done t.done evs) (emissions translate lines),
              (s.sent ++ streamed evs) ++ streamed (emissions translate lines),
            )
            (
              last_done t.done (evs ++ emissions translate lines),
              s.sent ++ streamed (evs ++ emissions translate lines),
            )
    joined evs = ground (
      arith,
      last_done-append t.done evs (emissions translate lines),
      streamed-append evs (emissions translate lines),
      append_assoc s.sent (streamed evs) (streamed (emissions translate lines)),
    )

-- What a turn promises: its events in their order, task.done behind them, and a session that is free
-- and resumes with the last id.
pub record TurnOutcome (translate : String → Translation) (lines : List String)
    (wait_err : Option String) (s s' : TurnSession) : Type 0 where
  pub sent :
      s'.sent
      ≡ s.sent
        ++ (streamed (emissions translate lines)
            ++ (
              task_done,
              or_data (last_done none (emissions translate lines)) (ended_data false wait_err),
            )
              ∷ [])
  pub native_id : s'.native_id ≡ last_id translate lines s.native_id
  pub busy : s'.busy ≡ false
  pub panicked : s'.panicked ≡ s.panicked

concluded :
    (translate : String → Translation) (lines : List String) (wait_err : Option String) (t : Turn)
    (s : TurnSession)
    → t.canceled ≡ false
    → t.done ≡ none
    → s.channel_closed ≡ false
    → TurnOutcome translate lines wait_err s
        (deliver (finish wait_err (after_lines translate lines (t, s)))).1
unfolding deliver push_event release
concluded translate lines wait_err t s h d k = record {
  sent = ground (
    arith,
    h,
    d,
    k,
    append_assoc s.sent (streamed (emissions translate lines)) (
        (
          task_done,
          or_data (last_done none (emissions translate lines)) (ended_data false wait_err),
        )
        ∷ []),
  );
  native_id = ground (arith, k);
  busy = ground (arith, k);
  panicked = ground (arith, k);
}

-- A turn that is not canceled, on a channel that is open, sends every event that the translator emits of
-- the lines that the process prints, in their order, except those that end a turn; behind them it
-- sends one task.done, with the data of the last of those, or where there is none with how the process ended;
-- then the session is free and resumes with the last id that the translator returned. This holds for
-- any translator.
pub run_lines-TurnOutcome :
    (translate : String → Translation) (drop : Bool) (lines : List String)
    (wait_err : Option String) (t : Turn) (s : TurnSession)
    → t.canceled ≡ false
    → t.done ≡ none
    → s.channel_closed ≡ false
    → TurnOutcome translate lines wait_err s (run_lines translate drop lines wait_err (t, s)).1
unfolding run_lines
run_lines-TurnOutcome translate drop lines wait_err t s h d k =
    subst (λ ts. TurnOutcome translate lines wait_err s (deliver (finish wait_err ts)).1)
      (sym (read_lines-streams translate drop lines t s h k))
      (concluded translate lines wait_err t s h d k)
