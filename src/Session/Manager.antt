-- ===== src/Session/Manager.antt =====
-- internal/session/manager.go: the registry. Each method returns its result and the registry after
-- it. What an adapter, the store's engine and the random source answer are arguments. An adapter
-- session is known by its handle, which also stands for the identity of the `*Session` that owns it;
-- `shut` lists the handles on which Close was called.
use capd.Prelude.{
  ℕ, ◌+◌, String, Bool, false, not, Option, none, some, List, [], ◌∷◌, Result, ok, err, lookup,
  insert, remove, any, keep, str_eq, if◌then◌else◌, ◌==◌,
}
use capd.Protocol.{
  Event, Code, internal_error, agent_not_found, agent_unavailable, session_not_found,
  session_closed,
}
use capd.Session.Store.{
  Codec, StoreError, Io, Store, SessionRecord, save_session, load_session, mark_ended,
  load_recent_events, next_seq,
}
use capd.Session.Pump.{Inner, Session, max_buffer}

pub record Manager : Type 0 where
  pub agents : List String
  pub store : Option Store
  pub sessions : List (String × Session)
  pub reviving : List String
  pub shut : List ℕ

pub record SessionOpts : Type 0 where
  pub cwd : String
  pub resume : String
  pub permission_mode : String
  pub model : String
  pub effort : String
  pub env : List String

abbrev pub has_agent : String → Manager → Bool
has_agent id m = any (λ a. str_eq a id) m.agents

abbrev pub new_session : String → String → Inner → Session
new_session id agent_id inner = record {
  id = id;
  agent_id = agent_id;
  inner = inner;
  buf = [];
  next_seq = 0;
  subs = [];
  next_sub = 0;
  ended = false;
}

abbrev pub register : Session → Manager → Manager
register s m = record m { sessions = insert s.id s m.sessions }

abbrev pub shut_down : Inner → Manager → Manager
shut_down inner m = record m { shut = inner.handle ∷ m.shut }

-- The result of a write to the store, with the store after it put into the registry.
abbrev pub written :
    Manager → Result StoreError (Unit {0}) × Store → Result StoreError (Unit {0}) × Manager
written m (r, st) = (r, record m { store = some st })

-- if m.store != nil { … SaveSession … }
unfoldable pub save :
    Codec → Io → SessionRecord → Option Store → Manager → Result StoreError (Unit {0}) × Manager
save json io rec none m = (ok tt, m)
save json io rec (some st) m = written m (save_session json io rec st)

abbrev pub saved : Session → Result StoreError (Unit {0}) × Manager → Result Code Session × Manager
saved s (ok _, m) = (ok s, register s m)
saved s (err e, m) = (err internal_error, shut_down s.inner m)

abbrev pub fresh_record : String → String → String → String → List String → SessionRecord
fresh_record id agent_id native_id cwd env = record {
  id = id;
  agent_id = agent_id;
  native_id = native_id;
  cwd = cwd;
  env = env;
  ended = false;
  created_at = 0;
}

abbrev pub create_started :
    Codec
    → Io
    → String
    → String
    → SessionOpts
    → Manager
    → Option Inner
    → Result Code Session × Manager
create_started json io id agent_id opts m none = (err agent_unavailable, m)
create_started json io id agent_id opts m (some inner) =
    saved (new_session id agent_id inner)
      (save json io (fresh_record id agent_id opts.resume opts.cwd opts.env) m.store m)

-- `start` is the answer of the adapter's StartSession, and `id` that of newID.
unfoldable pub create :
    Codec
    → Io
    → Option Inner
    → String
    → String
    → SessionOpts
    → Manager
    → Result Code Session × Manager
unfolding save
create json io start id agent_id opts m =
    if has_agent agent_id m
    then create_started json io id agent_id opts m start
    else (err agent_not_found, m)

-- How a call of Resolve goes on once it has a session, or has claimed the revival.
pub data Begin : Type 0 where
  live : Session → Begin
  unknown : Begin
  joins : Begin
  revives : Store → Begin

-- The second locked part of Resolve: it joins a revival of the session, or begins one.
abbrev pub begin_revival : String → Option Store → Manager → Begin × Manager
begin_revival id none m = (unknown, m)
begin_revival id (some st) m =
    if any (λ r. str_eq r id) m.reviving
    then (joins, m)
    else (revives st, record m { reviving = id ∷ m.reviving })

abbrev pub dropped : String → Session → Manager → Option Session → Manager
dropped id s m none = m
dropped id s m (some cur) =
    if cur.inner.handle == s.inner.handle then record m { sessions = remove id m.sessions } else m

-- An ended session is removed, unless another one has replaced it.
abbrev pub drop_ended : String → Session → Manager → Manager
drop_ended id s m = dropped id s m (lookup id m.sessions)

abbrev pub begin_with : String → Option Session → Manager → Begin × Manager
begin_with id none m = begin_revival id m.store m
begin_with id (some s) m =
    if s.ended then begin_revival id m.store (drop_ended id s m) else (live s, m)

pub record ReviveIo : Type 0 where
  pub load : Io
  pub start : SessionOpts → Option Inner
  pub recent : Io
  pub next : Io

abbrev pub last_seq : List Event → ℕ
last_seq [] = 0
last_seq (ev ∷ []) = ev.seq + 1
last_seq (ev ∷ e ∷ evs) = last_seq (e ∷ evs)

abbrev pub or_empty : Result StoreError (List Event) → List Event
or_empty (ok evs) = evs
or_empty (err e) = []

-- nextSeq, or the number after the buffer's last event where the query failed.
abbrev pub or_last : List Event → Result StoreError ℕ → ℕ
or_last buf (ok n) = n
or_last buf (err e) = last_seq buf

-- The session built from the store's rows.
unfoldable pub restore : Codec → ReviveIo → SessionRecord → Inner → Store → Session
unfolding load_recent_events next_seq
restore json io rec inner st =
    let history = or_empty (load_recent_events json io.recent rec.id max_buffer st) in
    record (new_session rec.id rec.agent_id inner) {
      buf = history;
      next_seq = or_last history (next_seq io.next rec.id st);
    }

abbrev pub start_revived :
    Codec → ReviveIo → SessionRecord → Option Inner → Store → Result Code Session
start_revived json io rec none st = err agent_unavailable
start_revived json io rec (some inner) st = ok (restore json io rec inner st)

-- What a revival asks of the adapter: no permission mode, model or effort was stored.
abbrev opts_of : SessionRecord → SessionOpts
opts_of rec = record {
  cwd = rec.cwd;
  resume = rec.native_id;
  permission_mode = "";
  model = "";
  effort = "";
  env = rec.env;
}

abbrev pub revive_known : Codec → ReviveIo → SessionRecord → Manager → Store → Result Code Session
revive_known json io rec m st =
    if has_agent rec.agent_id m
    then start_revived json io rec (io.start (opts_of rec)) st
    else err agent_not_found

abbrev pub revive_record :
    Codec → ReviveIo → Result StoreError SessionRecord → Manager → Store → Result Code Session
revive_record json io (err e) m st = err session_not_found
revive_record json io (ok rec) m st =
    if rec.ended then err session_closed else revive_known json io rec m st

abbrev pub revived : Manager → Result Code Session → Result Code Session × Manager
revived m (ok s) = (ok s, register s m)
revived m (err c) = (err c, m)

-- The rest of Resolve, with its deferred `delete(m.reviving, id)`.
unfoldable pub resolve_revive :
    Codec → ReviveIo → String → Store → Manager → Result Code Session × Manager
resolve_revive json io id st m =
    revived (record m { reviving = keep (λ r. not (str_eq r id)) m.reviving })
      (revive_record json io (load_session json io.load id st) m st)

abbrev pub resolve_from :
    Codec
    → ReviveIo
    → Result Code Session
    → String
    → Begin × Manager
    → Result Code Session × Manager
resolve_from json io other id (live s, m) = (ok s, m)
resolve_from json io other id (unknown, m) = (err session_not_found, m)
resolve_from json io other id (joins, m) = (other, m)
resolve_from json io other id (revives st, m) = resolve_revive json io id st m

-- Resolve with no other call between its locked parts (Revival has them apart); `other` is what a
-- caller that joins another one's revival is handed.
unfoldable pub resolve :
    Codec → ReviveIo → Result Code Session → String → Manager → Result Code Session × Manager
resolve json io other id m = resolve_from json io other id (begin_with id (lookup id m.sessions) m)

abbrev pub mark_result : Result StoreError (Unit {0}) × Manager → Result Code (Unit {0}) × Manager
mark_result (ok _, m) = (ok tt, m)
mark_result (err e, m) = (err internal_error, m)

abbrev pub close_stored :
    Codec
    → Io
    → String
    → Store
    → Manager
    → Result StoreError SessionRecord
    → Result Code (Unit {0}) × Manager
close_stored json io id st m (err e) = (err session_not_found, m)
close_stored json io id st m (ok rec) = mark_result (written m (mark_ended json io id st))

-- MarkEnded comes before the adapter's Close, whose own answer is `closing`.
abbrev pub close_live :
    Result Code (Unit {0})
    → Session
    → Result StoreError (Unit {0}) × Manager
    → Result Code (Unit {0}) × Manager
close_live closing s (ok _, m) = (closing, shut_down s.inner m)
close_live closing s (err e, m) = (err internal_error, m)

abbrev pub close_found :
    Codec
    → Io
    → Io
    → Result Code (Unit {0})
    → String
    → Option Session
    → Option Store
    → Manager
    → Result Code (Unit {0}) × Manager
close_found json load io closing id none none m = (err session_not_found, m)
close_found json load io closing id none (some st) m =
    close_stored json io id st m (load_session json load id st)
close_found json load io closing id (some s) none m = close_live closing s (ok tt, m)
close_found json load io closing id (some s) (some st) m =
    close_live closing s (written m (mark_ended json io id st))

unfoldable pub close :
    Codec → Io → Io → Result Code (Unit {0}) → String → Manager → Result Code (Unit {0}) × Manager
close json load io closing id m =
    close_found json load io closing id (lookup id m.sessions) m.store
      (record m { sessions = remove id m.sessions })

-- forgetEnded: only the session that ended is removed, not one that replaced it.
unfoldable pub forget_ended : String → Session → Manager → Manager
forget_ended id s m = dropped id s m (lookup id m.sessions)
