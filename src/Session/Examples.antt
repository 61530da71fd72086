-- ===== src/Session/Examples.antt =====
-- internal/session: the theorems at concrete inputs, and runs of the code.
use capd.Prelude.{
  ℕ, ◌≤◌, ◌<◌, ◌≡◌, refl, true, false, none, some, List, [], ◌∷◌, ◌++◌, map, arith, ok, err, lookup,
  length, last_n, All, str_eq, if◌then◌else◌,
}
use capd.Protocol.{no_members, Event, output_text, session_closed}
use capd.Session.Store.{
  Codec, failed, changed, Io, Store, SessionRow, SessionRecord, EventRow, rows_of, to_event,
  mark_ended, exec, tighten_file_permissions, next_after,
}
use capd.Session.Channel.{Subscriber, offer, finish, cancel, receive}
use capd.Session.Pump.{
  Inner, Session, PersistIo, max_buffer, pump_loop, pump_event, pump_end, failure_event,
  end_message, persist,
}
use capd.Session.Log.{log_of, deliver}
use capd.Session.Numbering.{Numbered, pump_loop_refines_log}
use capd.Session.Delivery.{IsSound, Fed, channel_operations-IsSound, pump_loop_feeds_subscribers}
use capd.Session.Persistence.{stored, pump_loop_appends_rows}
use capd.Session.Rows.{Below}
use capd.Session.Recovery.{Runs, Works, Mirrors, restart_keeps_log}
use capd.Session.Subscribe.{replay_of, subscribe}
use capd.Session.Subscribe.Replay.{replay_of-store}
use capd.Session.Follow.{subscribe_then_follow}
use capd.Session.End.{
  end_event, ending, end_write, end_log, at_end, pump_end_lem, pump_end_out_of_order,
}
use capd.Session.Manager.{Manager, ReviveIo, restore, SessionOpts, create, close, resolve}
use capd.Session.Lifecycle.{CreateOutcome, create-CreateOutcome}
use capd.Session.Closing.{CloseOutcome, close-CloseOutcome, close_leaks}
use capd.Session.Closed.{close_then_resolve}

abbrev pub json : Codec
json = record {
  marshal = λ _. some "{}";
  unmarshal = λ _. no_members;
  marshal_list = λ _. none;
  unmarshal_list = λ _. none;
  quote = λ s. s;
}

abbrev fine : Io
fine = record { fault = none; chmod = λ _. changed; now = 7 }

abbrev broken : Io
broken = record { fault = some "disk I/O error"; chmod = λ _. changed; now = 7 }

abbrev works : PersistIo
works = record { insert = fine; update = fine }

abbrev fails : PersistIo
fails = record { insert = broken; update = fine }

abbrev said : Event
said = record { session_id = ""; seq = 0; type = output_text; content = no_members }

abbrev pub inner : Inner
inner = record {
  handle = 3;
  forker = true;
  rollbacker = false;
  reviewer = false;
  steerer = false;
  approver = false;
}

abbrev reader : Subscriber
reader = record {
  id = 0;
  sent = [];
  taken = 0;
  capacity = 2;
  registered = true;
  closed = false;
  overflow = false;
}

abbrev session : Session
session = record {
  id = "s_1";
  agent_id = "codex";
  inner = inner;
  buf = [];
  next_seq = 0;
  subs = reader ∷ [];
  next_sub = 1;
  ended = false;
}

abbrev row : SessionRow
row = record {
  id = "s_1";
  agent_id = "codex";
  native_id = "";
  cwd = "/tmp";
  env_json = "[]";
  ended = false;
  created_at = 7;
}

abbrev pub store : Store
store = record { path = "sessions.db"; sessions = row ∷ []; events = [] }

abbrev two_events : List (PersistIo × Event)
two_events = (works, said) ∷ (works, said) ∷ []

abbrev one_lost : List (PersistIo × Event)
one_lost = (works, said) ∷ (fails, said) ∷ []

-- The second write fails, so a report is announced behind its event.
log_of-one_lost : map (λ ev. ev.seq) (log_of json one_lost session (some store)) ≡ 0 ∷ 1 ∷ 2 ∷ []
unfolding log_of pump_event exec tighten_file_permissions
log_of-one_lost = refl

pump_loop_refines_log_example :
    let log = log_of json one_lost session (some store) in
    let s' = (pump_loop json one_lost session (some store)).0 in
    (s'.buf ≡ last_n max_buffer log)
    × (length s'.buf ≤ max_buffer)
    × Numbered 0 log s'.next_seq
    × All (λ ev. ev.session_id ≡ "s_1") log
pump_loop_refines_log_example =
    pump_loop_refines_log json one_lost session (some store) (omega arith) (omega arith)

reader-IsSound : IsSound reader
reader-IsSound = record {
  read = omega arith;
  fits = omega arith;
  usable = λ _. refl;
  calm = λ h. absurd (cc h);
}

channel_operations-IsSound_example :
    IsSound (offer said reader)
    × IsSound (finish said reader)
    × IsSound (cancel 0 reader)
    × IsSound (receive reader).1
channel_operations-IsSound_example = channel_operations-IsSound reader said 0 reader-IsSound

-- Three events into a channel for two: the reader is dropped.
pump_loop_feeds_subscribers_example :
    let log = log_of json one_lost session (some store) in
    ((pump_loop json one_lost session (some store)).0.subs ≡ map (deliver log) (reader ∷ []))
    × Fed log reader (deliver log reader)
    × IsSound (deliver log reader)
pump_loop_feeds_subscribers_example =
    pump_loop_feeds_subscribers json one_lost session (some store) reader (omega arith) refl
      reader-IsSound

pump_loop_appends_rows_example :
    (new : Store) × ((pump_loop json one_lost session (some store)).1 ≡ some new)
    × (rows_of "s_1" new ≡ rows_of "s_1" store ++ stored json one_lost session (some store))
    × Below (pump_loop json one_lost session (some store)).0.next_seq (rows_of "s_1" new)
pump_loop_appends_rows_example = pump_loop_appends_rows json one_lost session store tt (omega arith)

fine-Runs : Runs json "sessions.db" fine
unfolding tighten_file_permissions
fine-Runs = record { no_fault = refl; tightened = refl }

said-Works : Works json "sessions.db" (works, said)
said-Works = record { insert_runs = fine-Runs; update_runs = fine-Runs; restores = refl }

store-Mirrors : Mirrors json session store
unfolding next_after
store-Mirrors = record { rising = tt; below = tt; next = refl; buffered = refl }

abbrev record_1 : SessionRecord
record_1 = record {
  id = "s_1";
  agent_id = "codex";
  native_id = "";
  cwd = "/tmp";
  env = [];
  ended = false;
  created_at = 0;
}

abbrev pub reviving : ReviveIo
reviving = record { load = fine; start = λ _. some inner; recent = fine; next = fine }

restart_keeps_log_example :
    let s' = (pump_loop json two_events session (some store)).0 in
    (new : Store) × ((pump_loop json two_events session (some store)).1 ≡ some new)
    × ((restore json reviving record_1 inner new).buf ≡ s'.buf)
    × ((restore json reviving record_1 inner new).next_seq ≡ s'.next_seq)
restart_keeps_log_example =
    restart_keeps_log json two_events session store reviving record_1 inner store-Mirrors
      (said-Works, (said-Works, tt)) (omega arith) refl refl refl

abbrev kept_row : ℕ → EventRow
kept_row n = record { session_id = "s_1"; seq = n; type = output_text; content = "{}" }

abbrev filled : Store
filled = record store { events = kept_row 0 ∷ kept_row 1 ∷ kept_row 3 ∷ [] }

abbrev at_four : Session
at_four = record session { next_seq = 4 }

replay_of-store_example :
    replay_of json (λ _. fine) 1 at_four (some filled)
    ≡ map (to_event json) (kept_row 1 ∷ kept_row 3 ∷ [])
replay_of-store_example =
    replay_of-store json (λ _. fine) 1 at_four filled (omega arith) (omega arith) (omega arith)
      (λ _. refl)

subscribe_then_follow_example :
    let attached = subscribe json (λ _. fine) 1 at_four (some filled) in
    let log = log_of json two_events attached.2 (some filled) in
    (attached.0.sent ≡ map (to_event json) (kept_row 1 ∷ kept_row 3 ∷ []))
    × ((pump_loop json two_events attached.2 (some filled)).0.subs
        ≡ map (deliver log) (reader ∷ []) ++ deliver log attached.0 ∷ [])
    × Numbered attached.1 log (pump_loop json two_events attached.2 (some filled)).0.next_seq
    × Fed log attached.0 (deliver log attached.0)
subscribe_then_follow_example =
    subscribe_then_follow json (λ _. fine) 1 at_four filled two_events refl (omega arith)
      (omega arith) (omega arith) (omega arith) (λ _. refl)

pump_end_lem_example :
    let s' = (pump_end json fails session (some store)).0 in
    (s'.ended ≡ true)
    × All (λ sub. sub.registered ≡ false) s'.subs
    × (s'.buf ≡ end_log session (end_write json fails session (some store)))
    × (length s'.buf ≤ 2)
pump_end_lem_example = pump_end_lem json fails session (some store)

end_write-fails : end_write json fails session (some store) ≡ err (failed "disk I/O error")
unfolding persist exec
end_write-fails = refl

pump_end_out_of_order_example :
    let report = failure_event (ending session) (end_message (failed "disk I/O error")) in
    ((pump_end json fails session (some store)).0.subs
      ≡ map (at_end session (err (failed "disk I/O error"))) (reader ∷ []))
    × ((at_end session (err (failed "disk I/O error")) reader).sent
        ≡ report ∷ end_event session ∷ [])
    × (0 < report.seq)
pump_end_out_of_order_example =
    pump_end_out_of_order json fails session (some store) (failed "disk I/O error") reader
      end_write-fails refl (omega arith) (omega arith) (omega arith)

abbrev opts : SessionOpts
opts = record { cwd = "/"; resume = ""; permission_mode = ""; model = ""; effort = ""; env = [] }

abbrev manager : Manager
manager = record {
  agents = "codex" ∷ [];
  store = some store;
  sessions = ("s_1", session) ∷ [];
  reviving = [];
  shut = [];
}

abbrev pub restarted : Manager
restarted = record manager { sessions = [] }

create-CreateOutcome_example :
    CreateOutcome
      (some inner)
      "s_2"
      manager
      (create json broken (some inner) "s_2" "codex" (opts) manager)
create-CreateOutcome_example =
    create-CreateOutcome json broken (some inner) "s_2" "codex" (opts) manager

close-CloseOutcome_example :
    let after = close json fine fine (ok tt) "s_1" manager in
    (lookup "s_1" after.1.sessions ≡ none)
    × (lookup "s_2" after.1.sessions
        ≡ (if str_eq "s_1" "s_2" then none else lookup "s_2" manager.sessions))
    × CloseOutcome json fine fine
        (ok tt)
        "s_1"
        (lookup "s_1" manager.sessions)
        (some store)
        []
        after
close-CloseOutcome_example = close-CloseOutcome json fine fine (ok tt) "s_1" "s_2" manager

mark_fails : (mark_ended json broken "s_1" store).0 ≡ err (failed "disk I/O error")
unfolding mark_ended
mark_fails = refl

registered : lookup "s_1" manager.sessions ≡ some session
unfolding lookup
registered = refl

close_leaks_example :
    let after = (close json fine broken (ok tt) "s_1" manager).1 in
    (lookup "s_1" after.sessions ≡ none)
    × (after.shut ≡ [])
    × ((close json fine fine (ok tt) "s_1" after).1.shut ≡ [])
close_leaks_example =
    close_leaks json fine broken fine fine (ok tt) (ok tt) "s_1" session store
      (failed "disk I/O error") manager registered refl mark_fails

mark_runs : (mark_ended json fine "s_1" store).0 ≡ ok tt
unfolding mark_ended tighten_file_permissions
mark_runs = refl

close_then_resolve_example :
    (resolve json reviving (ok session) "s_1" (close json fine fine (ok tt) "s_1" manager).1).0
    ≡ err session_closed
close_then_resolve_example =
    close_then_resolve json fine fine (ok tt) "s_1" manager store row reviving (ok session) refl
      refl refl mark_runs refl refl
