-- ===== src/Agents/Unrecorded.antt =====
-- internal/adapter/opencode/adapter.go with internal/session/manager.go: what becomes of OpenCode's
-- session id.
use capd.Prelude.{
  either, ℕ, ◌+◌, String, Bool, false, Option, none, some, List, [], ◌∷◌, Result, ok, err, ◌≡◌,
  refl, sym, ◌∙◌, subst, arith, All, All-append,
}
use capd.Protocol.{is_session_started, is_task_done, Event}
use capd.Session.Store.{Codec, StoreError, SessionRow, Store, append_event, exec}
use capd.Session.Pump.{
  Session, PersistIo, stamp, persist, persist_rest, native_id_of, keep_native_id, pump_event,
  pump_loop, cut, record_event,
}
use capd.Adapter.Turn.{Emission, Turn, TurnSession}
use capd.Agents.Cli.{json_line}
use capd.Agents.Opencode.{OcEvent, translate, of_line}
use capd.Agents.Conformance.{Unstarted, part-Unstarted}
use capd.Agents.Turns.{run_lines, run_lines-TurnOutcome, emissions, streamed, last_id}

-- What the pump receives of the channel, each event with the answers of the store.
abbrev pub incoming : (ℕ → PersistIo) → ℕ → List Emission → List (PersistIo × Event)
incoming io n [] = []
incoming io n ((type, content) ∷ evs) =
    (io n, record { session_id = ""; seq = 0; type = type; content = content })
    ∷ incoming io (n + 1) evs

abbrev pub sessions_of : Option Store → List SessionRow
sessions_of none = []
sessions_of (some st) = st.sessions

append_event-sessions :
    (json : Codec) (io : PersistIo) (ev : Event) (st : Store)
    → (append_event json io.insert ev st).1.sessions ≡ st.sessions
unfolding append_event exec
append_event-sessions json io ev st = ground arith

persist_rest-sessions :
    (json : Codec) (io : PersistIo) (id : String) (written : Result StoreError (Unit {0}) × Store)
    → sessions_of (persist_rest json io id none written).1 ≡ written.1.sessions
unfolding persist_rest keep_native_id
persist_rest-sessions json io id (err e, st) = refl
persist_rest-sessions json io id (ok _, st) = refl

persist-sessions :
    (json : Codec) (io : PersistIo) (s : Session) (ev : Event) (st : Option Store)
    → is_session_started ev.type ≡ false
    → sessions_of (persist json io s ev st).1 ≡ sessions_of st
unfolding persist
persist-sessions json io s ev none h = refl
persist-sessions json io s ev (some st) h =
    subst
      (λ nid.
        sessions_of (persist_rest json io s.id nid (append_event json io.insert ev st)).1
        ≡ st.sessions)
      (sym (unnamed ev h))
      (persist_rest-sessions json io s.id (append_event json io.insert ev st)
        ∙ append_event-sessions json io ev st)
  where
    unnamed : (e : Event) → is_session_started e.type ≡ false → native_id_of e ≡ none
    unnamed e k = ground (arith, k)

pump_event-sessions :
    (json : Codec) (io : PersistIo) (raw : Event) (s : Session) (st : Option Store)
    → is_session_started raw.type ≡ false
    → sessions_of (pump_event json io raw s st).1 ≡ sessions_of st
unfolding pump_event stamp
pump_event-sessions json io raw s st h =
    persist-sessions json io (cut (record_event (stamp s raw) s)) (stamp s raw) st h

pump_loop-sessions :
    (json : Codec) (io : ℕ → PersistIo) (n : ℕ) (evs : List Emission) (s : Session)
    (st : Option Store)
    → All Unstarted evs
    → sessions_of (pump_loop json (incoming io n evs) s st).1 ≡ sessions_of st
unfolding pump_loop
pump_loop-sessions json io n [] s st h = refl
pump_loop-sessions json io n ((type, content) ∷ evs) s st h =
    let raw : Event = record { session_id = ""; seq = 0; type = type; content = content } in
    let next = pump_event json (io n) raw s st in
    pump_loop-sessions json io (n + 1) evs next.0 next.1 h.1
    ∙ pump_event-sessions json (io n) raw s st h.0

line-Unstarted : (o : Option OcEvent) → All Unstarted (of_line o).0
line-Unstarted none = tt
line-Unstarted (some ev) = part-Unstarted ev.type ev.part

emissions-Unstarted :
    (decode : String → Option OcEvent) (lines : List String)
    → All Unstarted (emissions (translate decode) lines)
unfolding emissions translate
emissions-Unstarted decode [] = tt
emissions-Unstarted decode (line ∷ lines) =
    All-append Unstarted (translate decode line).0 (emissions (translate decode) lines)
      (line-Unstarted (json_line decode line)) (emissions-Unstarted decode lines)

streamed-Unstarted : (evs : List Emission) → All Unstarted evs → All Unstarted (streamed evs)
unfolding streamed
streamed-Unstarted [] h = tt
streamed-Unstarted (ev ∷ evs) h =
    let rest = streamed-Unstarted evs h.1 in
    either (All Unstarted) (is_task_done ev.0) rest (h.0, rest)

-- A turn of OpenCode, not canceled, on a channel that is open and carried no start of a session: the
-- session in memory is to resume with the last id that a line carried, but whatever the
-- pump then makes of all that the channel carried, with any answers of the store, the
-- table of sessions stays as it was, so that no id is stored.
pub sessions-run_lines :
    (decode : String → Option OcEvent) (drop : Bool) (lines : List String)
    (wait_err : Option String) (t : Turn) (ts : TurnSession) (json : Codec) (io : ℕ → PersistIo)
    (s : Session) (st : Option Store)
    → t.canceled ≡ false
    → t.done ≡ none
    → ts.channel_closed ≡ false
    → All Unstarted ts.sent
    → ((run_lines (translate decode) drop lines wait_err (t, ts)).1.native_id
        ≡ last_id (translate decode) lines ts.native_id)
      × (sessions_of
            (pump_loop json
              (incoming io 0 (run_lines (translate decode) drop lines wait_err (t, ts)).1.sent)
              s
              st).1
          ≡ sessions_of st)
sessions-run_lines decode drop lines wait_err t ts json io s st h d k old =
    let out = run_lines-TurnOutcome (translate decode) drop lines wait_err t ts h d k in
    let evs = emissions (translate decode) lines in
    (
      out.native_id,
      pump_loop-sessions json io 0 _ s st (
          subst (All Unstarted) (sym out.sent) (
            All-append Unstarted ts.sent _ old (
              All-append Unstarted (streamed evs) _
                (streamed-Unstarted evs (emissions-Unstarted decode lines)) (refl, tt)))),
    )
