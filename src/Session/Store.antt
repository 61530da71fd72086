-- ===== src/Session/Store.antt =====
-- internal/session/store.go: the two SQLite tables and the statements that the store issues.
-- A table is the list of its rows in order of insertion. What the engine and the file system answer
-- to one call is an argument, `Io`; encoding/json is the parameter `Codec`.
use Prim.Native.String.{compare}
use text.Mathlib.Text.{is_lt}
use capd.Prelude.{
  ℕ, ◌+◌, String, append, Bool, true, not, ◌&&◌, Option, none, some, List, [], ◌∷◌, ◌++◌, Result,
  ok, err, ◌>>=◌, sort_by, take, keep, first, any, map, str_eq, if◌then◌else◌, ltb, leb, ◌==◌,
}
use capd.Protocol.{Members, EventType, Event}

-- json.Marshal and json.Unmarshal at the two types that the store keeps as text; `quote` is `%q`.
pub record Codec : Type 0 where
  pub marshal : Members → Option String
  pub unmarshal : String → Members
  pub marshal_list : List String → Option String
  pub unmarshal_list : String → Option (List String)
  pub quote : String → String

pub data StoreError : Type 0 where
  failed : String → StoreError
  session_unknown : StoreError

-- os.Chmod: done, no such file, or refused.
pub data Chmod : Type 0 where
  changed not_exist denied : Chmod

-- The answers to one call: does the statement run (`none`) or fail with a text, what does `chmod` say
-- of each file, and what is the time.
pub record Io : Type 0 where
  pub fault : Option String
  pub chmod : String → Chmod
  pub now : ℕ

pub record SessionRow : Type 0 where
  pub id : String
  pub agent_id : String
  pub native_id : String
  pub cwd : String
  pub env_json : String
  pub ended : Bool
  pub created_at : ℕ

pub record EventRow : Type 0 where
  pub session_id : String
  pub seq : ℕ
  pub type : EventType
  pub content : String

pub record Store : Type 0 where
  pub path : String
  pub sessions : List SessionRow
  pub events : List EventRow

pub record SessionRecord : Type 0 where
  pub id : String
  pub agent_id : String
  pub native_id : String
  pub cwd : String
  pub env : List String
  pub ended : Bool
  pub created_at : ℕ

unfoldable pub tighten_all : Codec → (String → Chmod) → List String → Result StoreError (Unit {0})
tighten_all json chmod [] = ok tt
tighten_all json chmod (path ∷ paths) =
    let rest = tighten_all json chmod paths in
    elim (chmod path) [
      | denied ↦ err (failed (append "session: chmod store file " (json.quote path)))
      | _ ↦ rest
    ]

unfoldable pub tighten_file_permissions : Codec → Io → String → Result StoreError (Unit {0})
unfolding tighten_all
tighten_file_permissions json io path =
    if str_eq path ""
    then ok tt
    else tighten_all json io.chmod (path ∷ append path "-wal" ∷ append path "-shm" ∷ [])

-- One write: `Exec`, then `afterWrite`. A refused `chmod` is an error that leaves the row written.
unfoldable pub exec : Codec → Io → (Store → Store) → Store → Result StoreError (Unit {0}) × Store
exec json io statement st = elim io.fault [
  | none ↦ (tighten_file_permissions json io st.path, statement st)
  | some e ↦ (err (failed e), st)
]

abbrev pub query : {A : Type 0} → Io → A → Result StoreError A
query io rows = elim io.fault [ none ↦ ok rows | some e ↦ err (failed e) ]

unfoldable pub encode_env : Codec → List String → String
encode_env json [] = "[]"
encode_env json (v ∷ vs) = elim (json.marshal_list (v ∷ vs)) [ none ↦ "[]" | some text ↦ text ]

unfoldable pub decode_env : Codec → String → List String
decode_env json raw =
    if str_eq raw "" then [] else elim (json.unmarshal_list raw) [ none ↦ [] | some env ↦ env ]

-- INSERT OR REPLACE INTO sessions
unfoldable pub save_session :
    Codec → Io → SessionRecord → Store → Result StoreError (Unit {0}) × Store
unfolding exec encode_env
save_session json io rec =
    exec json io
      λ st. record st { sessions = keep (λ r. not (str_eq r.id rec.id)) st.sessions ++ row ∷ [] }
  where
    row : SessionRow
    row = record {
      id = rec.id;
      agent_id = rec.agent_id;
      native_id = rec.native_id;
      cwd = rec.cwd;
      env_json = encode_env json rec.env;
      ended = rec.ended;
      created_at = io.now;
    }

unfoldable pub update_session :
    String → (SessionRow → SessionRow) → List SessionRow → List SessionRow
update_session id f [] = []
update_session id f (r ∷ rs) = (if str_eq r.id id then f r else r) ∷ update_session id f rs

-- UPDATE sessions SET native_id = ? WHERE id = ?
unfoldable pub set_native_id :
    Codec → Io → String → String → Store → Result StoreError (Unit {0}) × Store
unfolding exec update_session
set_native_id json io id native_id = exec json io λ st. record st {
  sessions = update_session id (λ r. record r { native_id = native_id }) st.sessions;
}

-- UPDATE sessions SET ended = 1 WHERE id = ?
unfoldable pub mark_ended : Codec → Io → String → Store → Result StoreError (Unit {0}) × Store
unfolding exec update_session
mark_ended json io id =
    exec json io
      λ st. record st { sessions = update_session id (λ r. record r { ended = true }) st.sessions }

unfoldable pub to_record : Codec → SessionRow → SessionRecord
unfolding decode_env
to_record json r = record {
  id = r.id;
  agent_id = r.agent_id;
  native_id = r.native_id;
  cwd = r.cwd;
  env = decode_env json r.env_json;
  ended = r.ended;
  created_at = r.created_at;
}

-- The column `created_at` is not selected here, so the field keeps its zero.
unfoldable pub load_session : Codec → Io → String → Store → Result StoreError SessionRecord
unfolding to_record
load_session json io id st = query io (first (λ r. str_eq r.id id) st.sessions) >>= λ found.
    elim found [
      | none ↦ err session_unknown
      | some r ↦ ok (record (to_record json r) { created_at = 0 })
    ]

-- ORDER BY created_at DESC, id DESC
abbrev newer : SessionRow → SessionRow → Bool
newer a b =
    if ltb b.created_at a.created_at
    then true
    else (a.created_at == b.created_at) && is_lt (compare b.id a.id)

unfoldable pub load_sessions : Codec → Io → ℕ → Store → Result StoreError (List SessionRecord)
unfolding to_record sort_by
load_sessions json io limit st =
    query io (map (to_record json) (take limit (sort_by newer st.sessions)))

-- The primary key of `events`.
abbrev pub has_key : String → ℕ → EventRow → Bool
has_key id n r = str_eq r.session_id id && (r.seq == n)

unfoldable pub to_row : Codec → Event → EventRow
to_row json ev = record {
  session_id = ev.session_id;
  seq = ev.seq;
  type = ev.type;
  content = elim (json.marshal ev.content) [ none ↦ "{}" | some data_text ↦ data_text ];
}

-- INSERT OR IGNORE INTO events
unfoldable pub insert_event : EventRow → List EventRow → List EventRow
insert_event r rows = if any (has_key r.session_id r.seq) rows then rows else rows ++ r ∷ []

unfoldable pub append_event : Codec → Io → Event → Store → Result StoreError (Unit {0}) × Store
unfolding exec to_row insert_event
append_event json io ev =
    exec json io λ st. record st { events = insert_event (to_row json ev) st.events }

unfoldable pub to_event : Codec → EventRow → Event
to_event json r = record {
  session_id = r.session_id;
  seq = r.seq;
  type = r.type;
  content = json.unmarshal r.content;
}

abbrev pub by_seq : EventRow → EventRow → Bool
by_seq a b = leb a.seq b.seq

abbrev pub by_seq_desc : EventRow → EventRow → Bool
by_seq_desc a b = leb b.seq a.seq

abbrev pub rows_of : String → Store → List EventRow
rows_of id st = keep (λ r. str_eq r.session_id id) st.events

-- WHERE session_id = ? AND seq >= ? ORDER BY seq LIMIT ?
unfoldable pub load_events : Codec → Io → String → ℕ → ℕ → Store → Result StoreError (List Event)
unfolding sort_by to_event
load_events json io id from limit st =
    query io (
      map (to_event json)
        (take limit (sort_by by_seq (keep (λ r. leb from r.seq) (rows_of id st)))))

-- The newest `limit` rows, put back in ascending order.
unfoldable pub load_recent_events : Codec → Io → String → ℕ → Store → Result StoreError (List Event)
unfolding sort_by to_event
load_recent_events json io id limit st =
    query io
      (map (to_event json) (sort_by by_seq (take limit (sort_by by_seq_desc (rows_of id st)))))

unfoldable pub next_after : List EventRow → ℕ
next_after [] = 0
next_after (r ∷ rs) = let rest = next_after rs in if ltb r.seq rest then rest else r.seq + 1

-- SELECT MAX(seq) + 1, and 0 where there is no row.
unfoldable pub next_seq : Io → String → Store → Result StoreError ℕ
unfolding next_after
next_seq io id st = query io (next_after (rows_of id st))
