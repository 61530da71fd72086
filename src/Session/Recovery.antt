-- ===== src/Session/Recovery.antt =====
-- internal/session/manager.go and store.go: a session that is revived from the store goes on where
-- the session that was pumped into it stopped.
use capd.Prelude.{
  ◌+◌, ◌*◌, ◌^◌, ◌<◌, ◌≡◌, refl, sym, ap, subst, ◌∙◌, String, Option, none, some, List, [], ◌∷◌,
  ◌++◌, map, map-append, arith, ok, length, last_n, last_n-append, All, All-append, ◌%◌,
}
use capd.Protocol.{Members, Event}
use capd.Session.Store.{
  Codec, Io, EventRow, Store, SessionRecord, exec, append_event, set_native_id, to_row, to_event,
  insert_event, rows_of, next_after, tighten_file_permissions, load_recent_events, next_seq,
}
use capd.Session.Pump.{
  Session, Inner, PersistIo, max_buffer, cut, record_event, stamp, persist, persist_rest,
  keep_native_id, native_id_of, pump_event, pump_loop,
}
use capd.Session.Log.{grow, advance, entries, reports, pump_event-grow}
use capd.Session.Rows.{
  Rising, Below, Below-weaken, Rising-append, recent_rows, next_after-append, map-last_n,
}
use capd.Session.Persistence.{ran, stored_row, pump_event-rows}
use capd.Session.Numbering.{next_seq-pump_event-le, id-pump_loop}
use capd.Session.Manager.{ReviveIo, restore, or_empty, or_last}

-- The statement runs, and the permissions of the files are set.
pub record Runs (json : Codec) (path : String) (io : Io) : Type 0 where
  pub no_fault : io.fault ≡ none
  pub tightened : tighten_file_permissions json io path ≡ ok tt

-- The column's text decodes to what was encoded.
abbrev pub Restores : Codec → Members → Type 0
Restores json content =
    json.unmarshal (elim (json.marshal content) [ none ↦ "{}" | some data_text ↦ data_text ])
    ≡ content

pub record Works (json : Codec) (path : String) (e : PersistIo × Event) : Type 0 where
  pub insert_runs : Runs json path e.0.insert
  pub update_runs : Runs json path e.0.update
  pub restores : Restores json e.1.content

-- The store holds the session's log, and the buffer its newest events.
pub record Mirrors (json : Codec) (s : Session) (st : Store) : Type 0 where
  pub rising : Rising 0 (rows_of s.id st)
  pub below : Below s.next_seq (rows_of s.id st)
  pub next : next_after (rows_of s.id st) ≡ s.next_seq
  pub buffered : s.buf ≡ last_n max_buffer (map (to_event json) (rows_of s.id st))

exec-Runs :
    (json : Codec) (io : Io) (f : Store → Store) (st : Store)
    → Runs json st.path io
    → exec json io f st ≡ (ok tt, f st)
unfolding exec
exec-Runs json io f st h = rw (h.no_fault, exec) (ap (λ r. (r, f st)) h.tightened)

keep_native_id-Runs :
    (json : Codec) (io : PersistIo) (id : String) (nid : Option String) (st : Store)
    → Runs json st.path io.update
    → (keep_native_id json io id nid st).0 ≡ ok tt
unfolding keep_native_id set_native_id
keep_native_id-Runs json io id none st h = refl
keep_native_id-Runs json io id (some nid) st h = ground (arith, exec-Runs json io.update _ st h)

persist-Runs :
    (json : Codec) (io : PersistIo) (s : Session) (ev : Event) (st : Store)
    → Runs json st.path io.insert
    → Runs json st.path io.update
    → (persist json io s ev (some st)).0 ≡ ok tt
unfolding persist persist_rest append_event
persist-Runs json io s ev st h k =
    let add : Store → Store = λ t. record t { events = insert_event (to_row json ev) t.events } in
    ap (λ w. (persist_rest json io s.id (native_id_of ev) w).0) (exec-Runs json io.insert add st h)
    ∙ keep_native_id-Runs json io s.id (native_id_of ev) (add st) k

to_event-to_row :
    (json : Codec) (ev : Event) → Restores json ev.content → to_event json (to_row json ev) ≡ ev
unfolding to_event to_row
to_event-to_row json ev h = λ i. record ev { content = h i }

-- The newest rows after one more, as events.
buffered_rows :
    (json : Codec) (ev : Event) (buf : List Event) (rows grown : List EventRow)
    → Restores json ev.content
    → buf ≡ last_n max_buffer (map (to_event json) rows)
    → grown ≡ rows ++ to_row json ev ∷ []
    → last_n max_buffer (buf ++ ev ∷ []) ≡ last_n max_buffer (map (to_event json) grown)
buffered_rows json ev buf rows grown h e g =
    ap (λ b. last_n max_buffer (b ++ ev ∷ [])) e
    ∙ last_n-append max_buffer (map (to_event json) rows) (ev ∷ [])
    ∙ ap (λ x. last_n max_buffer (map (to_event json) rows ++ x ∷ []))
        (sym (to_event-to_row json ev h))
    ∙ ap (last_n max_buffer) (sym (map-append (to_event json) rows (to_row json ev ∷ [])))
    ∙ ap (λ rs. last_n max_buffer (map (to_event json) rs)) (sym g)

-- One turn, written without a fault, announces its event and nothing else.
entries_runs :
    (json : Codec) (io : PersistIo) (raw : Event) (s : Session) (st : Store)
    → Works json st.path (io, raw)
    → entries json io raw s (some st) ≡ stamp s raw ∷ []
entries_runs json io raw s st w =
    ap (λ r. stamp s raw ∷ reports (stamp s raw) s r)
      (persist-Runs json io (cut (record_event (stamp s raw) s)) (stamp s raw) st w.insert_runs
        w.update_runs)

stored_row_runs :
    (json : Codec) (io : PersistIo) (ev : Event)
    → io.insert.fault ≡ none
    → stored_row json io ev ≡ to_row json ev ∷ []
stored_row_runs json io ev h = rw (h, ran)

module _ (json : Codec) (io : PersistIo) (raw : Event) (s : Session) (st : Store) where
  pump_event_runs :
      Works json st.path (io, raw)
      → (pump_event json io raw s (some st)).0 ≡ grow (stamp s raw ∷ []) s
  pump_event_runs w =
      pump_event-grow json io raw s (some st)
      ∙ ap (λ log. grow log s) (entries_runs json io raw s st w)

  -- One turn keeps the store a mirror of the session.
  pump_event-Mirrors :
      Works json st.path (io, raw)
      → Mirrors json s st
      → s.next_seq + 2 < 2 ^ 64
      → (new : Store) × ((pump_event json io raw s (some st)).1 ≡ some new)
        × (new.path ≡ st.path)
        × Mirrors json (pump_event json io raw s (some st)).0 new
  unfolding stamp grow advance to_row
  pump_event-Mirrors w m h =
      let (new, e, p, q) = pump_event-rows json io raw s st m.below in
      let row : EventRow = to_row json (stamp s raw) in
      let grown : rows_of s.id new ≡ rows_of s.id st ++ row ∷ [] =
        q
        ∙ ap (◌++◌ (rows_of s.id st))
            (stored_row_runs json io (stamp s raw) w.insert_runs.no_fault) in
      (
        new,
        e,
        p,
        subst (λ t. Mirrors json t new) (sym (pump_event_runs w))
            (record {
              rising =
                  subst (Rising 0) (sym grown)
                    (Rising-append 0 (rows_of s.id st) row (omega arith) m.rising m.below);
              below = subst (Below ((s.next_seq + 1) % 2 ^ 64)) (sym grown) (
                  All-append (λ r. r.seq < (s.next_seq + 1) % 2 ^ 64) (rows_of s.id st) (row ∷ [])
                    (Below-weaken s.next_seq _ (rows_of s.id st) (omega arith) m.below)
                    (omega arith, tt));
              next =
                  ap next_after grown
                  ∙ next_after-append (rows_of s.id st) row m.below
                  ∙ omega arith;
              buffered =
                  buffered_rows json (stamp s raw) s.buf (rows_of s.id st) (rows_of s.id new)
                    w.restores m.buffered grown;
            }),
      )

-- So does a whole run in which every write works.
pump_loop-Mirrors :
    (json : Codec) (evs : List (PersistIo × Event)) (s : Session) (st : Store)
    → Mirrors json s st
    → All (Works json st.path) evs
    → s.next_seq + 2 * length evs < 2 ^ 64
    → (new : Store) × ((pump_loop json evs s (some st)).1 ≡ some new)
      × Mirrors json (pump_loop json evs s (some st)).0 new
unfolding pump_loop
pump_loop-Mirrors json [] s st m w h = (st, refl, m)
pump_loop-Mirrors json ((io, raw) ∷ evs) s st m w h =
    let next = pump_event json io raw s (some st) in
    let (new, e, p, m') = pump_event-Mirrors json io raw s st w.0 m (omega arith) in
    let rest =
      pump_loop-Mirrors json evs next.0 new m'
        (subst (λ path. All (Works json path) evs) (sym p) w.1)
        (omega (arith, next_seq-pump_event-le json io raw s (some st) (omega arith))) in
    subst
      (λ o.
        (x : Store) × ((pump_loop json evs next.0 o).1 ≡ some x)
        × Mirrors json (pump_loop json evs next.0 o).0 x)
      (sym e) rest

-- A revival that reads the store without a fault finds the buffer and the next number of a session
-- that the store mirrors.
restore_mirrored :
    (json : Codec) (io : ReviveIo) (rec : SessionRecord) (inner : Inner) (s : Session) (st : Store)
    → Mirrors json s st
    → rec.id ≡ s.id
    → io.recent.fault ≡ none
    → io.next.fault ≡ none
    → ((restore json io rec inner st).buf ≡ s.buf)
      × ((restore json io rec inner st).next_seq ≡ s.next_seq)
unfolding restore load_recent_events next_seq
restore_mirrored json io rec inner s st m named r n = (
  ap or_empty recent ∙ sym m.buffered,
  ap (or_last (or_empty (load_recent_events json io.recent rec.id max_buffer st))) following,
)
  where
    recent :
        load_recent_events json io.recent rec.id max_buffer st
        ≡ ok (last_n max_buffer (map (to_event json) (rows_of s.id st)))
    recent =
        rw (r, named)
          (ap (λ rs. ok (map (to_event json) rs))
              (recent_rows 0 max_buffer (rows_of s.id st) m.rising)
            ∙ ap ok (map-last_n (to_event json) max_buffer (rows_of s.id st)))

    following : next_seq io.next rec.id st ≡ ok s.next_seq
    following = rw (n, named) (ap ok m.next)

-- When a session that its store mirrors is pumped with every write working, every content decoding to
-- what was encoded and no number wrapping, a revival that reads the resulting store without a fault
-- has the replay buffer and the next number that the pumped session has.
pub restart_keeps_log :
    (json : Codec) (evs : List (PersistIo × Event)) (s : Session) (st : Store) (io : ReviveIo)
    (rec : SessionRecord) (inner : Inner)
    → Mirrors json s st
    → All (Works json st.path) evs
    → s.next_seq + 2 * length evs < 2 ^ 64
    → rec.id ≡ s.id
    → io.recent.fault ≡ none
    → io.next.fault ≡ none
    → let s' = (pump_loop json evs s (some st)).0 in
      (new : Store) × ((pump_loop json evs s (some st)).1 ≡ some new)
      × ((restore json io rec inner new).buf ≡ s'.buf)
      × ((restore json io rec inner new).next_seq ≡ s'.next_seq)
restart_keeps_log json evs s st io rec inner m w h named r n =
    let (new, e, m') = pump_loop-Mirrors json evs s st m w h in
    let (b, q) =
      restore_mirrored json io rec inner (pump_loop json evs s (some st)).0 new m'
        (named ∙ sym (id-pump_loop json evs s (some st))) r n in
    (new, e, b, q)
