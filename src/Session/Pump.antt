-- ===== src/Session/Pump.antt =====
-- internal/session/manager.go: one session, its event log, and the loop that stamps, stores and
-- broadcasts what the adapter emits. The store is passed along; `none` is a registry without one.
use capd.Prelude.{
  ℕ, ◌+◌, ◌-◌, ◌%◌, ◌^◌, String, append, Bool, true, Option, none, some, List, [], ◌∷◌, ◌++◌, map,
  Result, ok, err, decimal, length, drop, ltb, str_eq, if◌then◌else◌,
}
use capd.Protocol.{
  bool, text, no_members, member, get_field, as_text, session_ended, error, is_session_started,
  Event,
}
use capd.Session.Store.{
  Codec, StoreError, failed, session_unknown, Io, Store, append_event, set_native_id,
}
use capd.Session.Channel.{Subscriber, offer, finish}

abbrev pub max_buffer : ℕ
max_buffer = 4096

abbrev pub sub_buffer : ℕ
sub_buffer = 256

-- What the registry needs of the adapter's session: which it is, and its optional capabilities.
pub record Inner : Type 0 where
  pub handle : ℕ
  pub forker : Bool
  pub rollbacker : Bool
  pub reviewer : Bool
  pub steerer : Bool
  pub approver : Bool

pub record Session : Type 0 where
  pub id : String
  pub agent_id : String
  pub inner : Inner
  pub buf : List Event
  pub next_seq : ℕ
  pub subs : List Subscriber
  pub next_sub : ℕ
  pub ended : Bool

-- s.nextSeq++ on a uint64
abbrev pub succ_u64 : ℕ → ℕ
succ_u64 n = (n + 1) % 2 ^ 64

-- if len(s.buf) > maxBuffer { s.buf = s.buf[len(s.buf)-maxBuffer:] }
unfoldable pub trim : List Event → List Event
trim buf = if ltb max_buffer (length buf) then drop (length buf - max_buffer) buf else buf

unfoldable pub broadcast_locked : Event → Session → Session
unfolding offer
broadcast_locked ev s = record s { subs = map (offer ev) s.subs }

-- The answers to the two statements that `persist` may issue.
pub record PersistIo : Type 0 where
  pub insert : Io
  pub update : Io

abbrev pub native_id_of : Event → Option String
native_id_of ev =
    if is_session_started ev.type then as_text (get_field "nativeSessionId" ev.content) else none

unfoldable pub keep_native_id :
    Codec → PersistIo → String → Option String → Store → Result StoreError (Unit {0}) × Store
unfolding set_native_id
keep_native_id json io id none st = (ok tt, st)
keep_native_id json io id (some nid) st =
    if str_eq nid "" then (ok tt, st) else set_native_id json io.update id nid st

unfoldable pub persist_rest :
    Codec
    → PersistIo
    → String
    → Option String
    → Result StoreError (Unit {0}) × Store
    → Result StoreError (Unit {0}) × Option Store
unfolding keep_native_id
persist_rest json io id nid (err e, st) = (err e, some st)
persist_rest json io id nid (ok _, st) =
    let (r, st') = keep_native_id json io id nid st in (r, some st')

-- AppendEvent, and SetNativeID for the event that carries the agent's own id.
unfoldable pub persist :
    Codec → PersistIo → Session → Event → Option Store → Result StoreError (Unit {0}) × Option Store
unfolding append_event persist_rest get_field
persist json io s ev none = (ok tt, none)
persist json io s ev (some st) =
    persist_rest json io s.id (native_id_of ev) (append_event json io.insert ev st)

unfoldable pub error_text : StoreError → String
error_text (failed e) = e
error_text session_unknown = "session: unknown id"

-- fmt.Sprintf("persist event %d failed: %v", seq, err)
unfoldable pub persist_message : ℕ → StoreError → String
unfolding error_text decimal
persist_message n e =
    append "persist event " (append (decimal n) (append " failed: " (error_text e)))

unfoldable pub end_message : StoreError → String
unfolding error_text
end_message e = append "persist session end failed: " (error_text e)

unfoldable pub failure_event : Session → String → Event
failure_event s message = record {
  session_id = s.id;
  seq = s.next_seq;
  type = error;
  content = member "message" (text message) (member "persistenceFailed" (bool true) no_members);
}

-- s.nextSeq++; s.buf = append(s.buf, ev)
abbrev pub record_event : Event → Session → Session
record_event ev s = record s { buf = s.buf ++ ev ∷ []; next_seq = succ_u64 s.next_seq }

abbrev pub cut : Session → Session
cut s = record s { buf = trim s.buf }

unfoldable pub stamp : Session → Event → Event
stamp s ev = record ev { session_id = s.id; seq = s.next_seq }

-- The announcement of a failed write, which is itself not persisted.
unfoldable pub report : Event → Result StoreError (Unit {0}) → Session → Session
unfolding persist_message failure_event trim broadcast_locked
report ev (ok _) s = s
report ev (err e) s =
    let err_ev = failure_event s (persist_message ev.seq e) in
    broadcast_locked err_ev (cut (record_event err_ev s))

-- One turn of the loop of pump.
unfoldable pub pump_event :
    Codec → PersistIo → Event → Session → Option Store → Session × Option Store
unfolding stamp trim persist broadcast_locked report
pump_event json io raw s st =
    let ev = stamp s raw in
    let s1 = cut (record_event ev s) in
    let (r, st') = persist json io s1 ev st in (report ev r (broadcast_locked ev s1), st')

unfoldable pub report_end : Result StoreError (Unit {0}) → Session → Session
unfolding end_message failure_event broadcast_locked
report_end (ok _) s = s
report_end (err e) s =
    let err_ev = failure_event s (end_message e) in broadcast_locked err_ev (record_event err_ev s)

-- What follows the loop: the session's end is recorded, and every channel is closed.
unfoldable pub pump_end : Codec → PersistIo → Session → Option Store → Session × Option Store
unfolding persist finish report_end
pump_end json io s st =
    let end_ev : Event = record {
      session_id = s.id;
      seq = s.next_seq;
      type = session_ended;
      content = no_members;
    } in
    let s1 = record_event end_ev (record s { ended = true }) in
    let (r, st') = persist json io s1 end_ev st in
    let s2 = report_end r s1 in (record s2 { subs = map (finish end_ev) s2.subs }, st')

-- The loop over the adapter's events, each with the answers of the store.
unfoldable pub pump_loop :
    Codec → List (PersistIo × Event) → Session → Option Store → Session × Option Store
unfolding pump_event
pump_loop json [] s st = (s, st)
pump_loop json ((io, raw) ∷ evs) s st =
    let (s', st') = pump_event json io raw s st in pump_loop json evs s' st'
