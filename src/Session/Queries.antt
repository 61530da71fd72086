-- ===== src/Session/Queries.antt =====
-- internal/session/manager.go: the methods that only read, Fork, and the optional capabilities.
use capd.Prelude.{
  ℕ, ◌+◌, String, Bool, true, false, not, Option, none, some, List, [], ◌∷◌, ◌++◌, map, Result, ok,
  err, lookup, any, keep, take, length, str_eq, if◌then◌else◌, ltb, leb,
}
use capd.Protocol.{Event, Code, method_not_found, agent_unavailable, session_not_found}
use capd.Session.Store.{
  Codec, StoreError, Io, Store, SessionRecord, load_session, load_sessions, load_events,
}
use capd.Session.Channel.{Subscriber, pending}
use capd.Session.Pump.{Inner, Session, sub_buffer}
use capd.Session.Manager.{Manager, save, saved, new_session, fresh_record}

pub data SessionState : Type 0 where
  live stored ended : SessionState

pub record SessionInfo : Type 0 where
  pub session_id : String
  pub agent_id : String
  pub cwd : String
  pub state : SessionState
  pub created_at : ℕ

abbrev pub has_id : String → List (String × Session) → Bool
has_id id = any (λ e. str_eq e.0 id)

abbrev pub state_of : List (String × Session) → SessionRecord → SessionState
state_of sessions rec = if has_id rec.id sessions then live else if rec.ended then ended else stored

abbrev pub info_of : List (String × Session) → SessionRecord → SessionInfo
info_of sessions rec = record {
  session_id = rec.id;
  agent_id = rec.agent_id;
  cwd = rec.cwd;
  state = state_of sessions rec;
  created_at = rec.created_at;
}

abbrev pub live_info : String × Session → SessionInfo
live_info (id, s) = record {
  session_id = id;
  agent_id = s.agent_id;
  cwd = "";
  state = live;
  created_at = 0;
}

abbrev pub stored_records : Codec → Io → ℕ → Option Store → List SessionRecord
stored_records json io limit none = []
stored_records json io limit (some st) = elim (load_sessions json io limit st) [
  | ok recs ↦ recs
  | err e ↦ []
]

-- List: the store's newest records, and the live sessions that are not among them.
unfoldable pub list : Codec → Io → ℕ → Manager → List SessionInfo
unfolding load_sessions
list json io limit m =
    let recs = stored_records json io limit m.store in
    map (info_of m.sessions) recs
    ++ map live_info
        (keep (λ e. not (any (λ (r : SessionRecord). str_eq r.id e.0) recs)) m.sessions)

pub record Stats : Type 0 where
  pub live_sessions : ℕ
  pub subscribers : ℕ
  pub buffered_events : ℕ
  pub max_buffered_events : ℕ
  pub pending_subscriber_events : ℕ
  pub max_pending_subscriber_events : ℕ
  pub subscriber_capacity : ℕ

unfoldable pub count_subs : List Subscriber → Stats → Stats
count_subs [] t = t
count_subs (sub ∷ subs) t = count_subs subs (
    if sub.registered
    then record t {
      subscribers = t.subscribers + 1;
      pending_subscriber_events = t.pending_subscriber_events + pending sub;
      max_pending_subscriber_events =
          if ltb t.max_pending_subscriber_events (pending sub)
          then pending sub
          else t.max_pending_subscriber_events;
    }
    else t)

unfoldable pub count_sessions : List (String × Session) → Stats → Stats
unfolding count_subs
count_sessions [] t = t
count_sessions ((id, s) ∷ sessions) t = count_sessions sessions (
    count_subs s.subs (record t {
      buffered_events = t.buffered_events + length s.buf;
      max_buffered_events =
          if ltb t.max_buffered_events (length s.buf) then length s.buf else t.max_buffered_events;
    }))

unfoldable pub stats : Manager → Stats
unfolding count_sessions
stats m = count_sessions m.sessions (record {
  live_sessions = length m.sessions;
  subscribers = 0;
  buffered_events = 0;
  max_buffered_events = 0;
  pending_subscriber_events = 0;
  max_pending_subscriber_events = 0;
  subscriber_capacity = sub_buffer;
})

-- An error of History: a protocol code, or the store's own error handed on.
pub data HistoryError : Type 0 where
  code : Code → HistoryError
  from_store : StoreError → HistoryError

abbrev pub history_result : Result StoreError (List Event) → Result HistoryError (List Event)
history_result (ok evs) = ok evs
history_result (err e) = err (from_store e)

abbrev pub history_unless_unknown :
    Result StoreError SessionRecord
    → Bool
    → Result StoreError (List Event)
    → Result HistoryError (List Event)
history_unless_unknown (ok rec) in_mem evs = history_result evs
history_unless_unknown (err e) true evs = history_result evs
history_unless_unknown (err e) false evs = err (code session_not_found)

abbrev pub history_stored :
    Result StoreError (List Event)
    → Result StoreError SessionRecord
    → Bool
    → Result HistoryError (List Event)
history_stored (ok (ev ∷ evs)) known in_mem = ok (ev ∷ evs)
history_stored evs known in_mem = history_unless_unknown known in_mem evs

abbrev pub history_memory : Option Session → ℕ → ℕ → Result HistoryError (List Event)
history_memory none from limit = err (code session_not_found)
history_memory (some s) from limit = ok (take limit (keep (λ ev. leb from ev.seq) s.buf))

abbrev pub history_of :
    Codec → Io → Io → String → ℕ → ℕ → Option Store → Manager → Result HistoryError (List Event)
history_of json events session id from limit none m =
    history_memory (lookup id m.sessions) from limit
history_of json events session id from limit (some st) m =
    history_stored (load_events json events id from limit st) (load_session json session id st)
      (has_id id m.sessions)

-- History: a page of events, and an error for an id that nothing knows.
unfoldable pub history :
    Codec → Io → Io → String → ℕ → ℕ → Manager → Result HistoryError (List Event)
history json events session id from limit m = history_of json events session id from limit m.store m

abbrev parent_record : Codec → Io → String → Option Store → SessionRecord
parent_record json io id none = fresh_record id "" "" "" []
parent_record json io id (some st) = elim (load_session json io id st) [
  | ok rec ↦ rec
  | err e ↦ fresh_record id "" "" "" []
]

-- Fork, on the parent that Resolve found. `forked` is the answer of the adapter's Fork.
unfoldable pub fork :
    Codec
    → Io
    → Io
    → Option (Inner × String)
    → String
    → Session
    → Manager
    → Result Code Session × Manager
fork json load io forked id parent m =
    if parent.inner.forker
    then elim forked [
      | none ↦ (err agent_unavailable, m)
      | some (inner, native_id) ↦
          let rec = parent_record json load parent.id m.store in
          saved (new_session id parent.agent_id inner)
            (save json io (fresh_record id parent.agent_id native_id rec.cwd rec.env) m.store m)
    ]
    else (err method_not_found, m)

-- Rollback, Review, Steer and Approve: handed to the adapter's session if it has the capability.
unfoldable pub if_capable : Bool → Result Code (Unit {0}) → Result Code (Unit {0})
if_capable true answer = answer
if_capable false answer = err method_not_found
