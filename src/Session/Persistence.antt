-- ===== src/Session/Persistence.antt =====
-- internal/session/manager.go and store.go: what the pump leaves in the `events` table.
use capd.Prelude.{
  ℕ, ◌+◌, ◌*◌, ◌^◌, ◌<◌, ◌≡◌, refl, sym, ap, subst, ◌∙◌, String, Bool, true, false, Option, none,
  some, List, [], ◌∷◌, ◌++◌, append_assoc, append-nil, arith, Result, ok, err, length, keep,
  keep-append, All-append, str_eq, if◌then◌else◌, eq_refl,
}
use capd.Protocol.{Event}
use capd.Session.Store.{
  Codec, StoreError, Io, EventRow, Store, exec, append_event, set_native_id, to_row, insert_event,
  rows_of,
}
use capd.Session.Pump.{
  Session, PersistIo, cut, record_event, stamp, persist, persist_rest, native_id_of, keep_native_id,
  pump_event, pump_loop,
}
use capd.Session.Numbering.{next_seq-pump_event-gt, next_seq-pump_event-le, id-pump_event}
use capd.Session.Rows.{Below, Below-weaken, insert_fresh}

abbrev pub ran : Io → Bool
ran io = elim io.fault [ none ↦ true | some e ↦ false ]

-- The rows that an event adds: its own, if the INSERT ran.
abbrev pub stored_row : Codec → PersistIo → Event → List EventRow
stored_row json io ev = if ran io.insert then to_row json ev ∷ [] else []

-- Where the pump leaves the store that it was given.
abbrev Leaves : Option Store → Store → List EventRow → Type 0
Leaves st' st rows = (new : Store) × (st' ≡ some new) × (new.path ≡ st.path) × (new.events ≡ rows)

keep_native_id-events :
    (json : Codec) (io : PersistIo) (id : String) (nid : Option String) (st : Store)
    → Leaves (some (keep_native_id json io id nid st).1) st st.events
unfolding keep_native_id set_native_id exec
keep_native_id-events json io id none st = (st, refl, refl, refl)
keep_native_id-events json io id (some nid) st =
    ((keep_native_id json io id (some nid) st).1, refl, ground arith, ground arith)

persist_rest-events :
    (json : Codec) (io : PersistIo) (id : String) (nid : Option String)
    (written : Result StoreError (Unit {0}) × Store)
    → Leaves (persist_rest json io id nid written).1 written.1 written.1.events
unfolding persist_rest
persist_rest-events json io id nid (err e, st) = (st, refl, refl, refl)
persist_rest-events json io id nid (ok _, st) = keep_native_id-events json io id nid st

append_event-events :
    (json : Codec) (io : Io) (ev : Event) (st : Store)
    → ((append_event json io ev st).1.path ≡ st.path)
      × ((append_event json io ev st).1.events
          ≡ (if ran io then insert_event (to_row json ev) st.events else st.events))
unfolding append_event exec
append_event-events json io ev st = (ground arith, ground arith)

persist-events :
    (json : Codec) (io : PersistIo) (s : Session) (ev : Event) (st : Store)
    → Leaves
        (persist json io s ev (some st)).1
        st
        (if ran io.insert then insert_event (to_row json ev) st.events else st.events)
unfolding persist
persist-events json io s ev st =
    let (new, e, p, q) =
      persist_rest-events json io s.id (native_id_of ev) (append_event json io.insert ev st) in
    let (path, events) = append_event-events json io.insert ev st in (new, e, p ∙ path, q ∙ events)

keep_own :
    (json : Codec) (ev : Event)
    → keep (λ x. str_eq x.session_id ev.session_id) (to_row json ev ∷ []) ≡ to_row json ev ∷ []
unfolding to_row
keep_own json ev = rw (eq_refl ev.session_id)

-- The rows of the session after one write, when its number is fresh.
rows_of-insert :
    (json : Codec) (b : Bool) (ev : Event) (st new : Store)
    → Below ev.seq (rows_of ev.session_id st)
    → new.events ≡ (if b then insert_event (to_row json ev) st.events else st.events)
    → rows_of ev.session_id new
      ≡ rows_of ev.session_id st ++ (if b then to_row json ev ∷ [] else [])
unfolding to_row
rows_of-insert json false ev st new below e =
    ap (keep (λ r. str_eq r.session_id ev.session_id)) e ∙ sym (append-nil _)
rows_of-insert json true ev st new below e =
    ap (keep (λ r. str_eq r.session_id ev.session_id))
      (e ∙ insert_fresh (to_row json ev) st.events below)
    ∙ keep-append (λ r. str_eq r.session_id ev.session_id) st.events (to_row json ev ∷ [])
    ∙ ap (◌++◌ (rows_of ev.session_id st)) (keep_own json ev)

-- One turn of the pump adds the row of its event, or nothing if the INSERT failed.
pub pump_event-rows :
    (json : Codec) (io : PersistIo) (raw : Event) (s : Session) (st : Store)
    → Below s.next_seq (rows_of s.id st)
    → (new : Store) × ((pump_event json io raw s (some st)).1 ≡ some new)
      × (new.path ≡ st.path)
      × (rows_of s.id new ≡ rows_of s.id st ++ stored_row json io (stamp s raw))
unfolding pump_event stamp
pump_event-rows json io raw s st below =
    let (new, e, p, q) =
      persist-events json io (cut (record_event (stamp s raw) s)) (stamp s raw) st in
    (new, e, p, rows_of-insert json (ran io.insert) (stamp s raw) st new below q)

-- The events of a run whose INSERT ran.
pub stored : Codec → List (PersistIo × Event) → Session → Option Store → List EventRow
stored json [] s st = []
stored json ((io, raw) ∷ evs) s st =
    let (s', st') = pump_event json io raw s st in
    stored_row json io (stamp s raw) ++ stored json evs s' st'

stored_row-Below :
    (json : Codec) (b : Bool) (ev : Event) (n : ℕ)
    → ev.seq < n
    → Below n (if b then to_row json ev ∷ [] else [])
unfolding to_row
stored_row-Below json true ev n h = (h, tt)
stored_row-Below json false ev n h = tt

extend_rows :
    (id : String) (s' : Session) (st new : Store) (row rest : List EventRow) (final : ℕ)
    (out : Option Store)
    → s'.id ≡ id
    → rows_of id new ≡ rows_of id st ++ row
    → (x : Store) × (out ≡ some x)
      × (rows_of s'.id x ≡ rows_of s'.id new ++ rest)
      × Below final (rows_of s'.id x)
    → (x : Store) × (out ≡ some x)
      × (rows_of id x ≡ rows_of id st ++ (row ++ rest))
      × Below final (rows_of id x)
extend_rows id s' st new row rest final out named e (x, o, q, b) = (
  x,
  o,
  subst (λ i. rows_of i x ≡ rows_of i new ++ rest) named q
      ∙ ap (λ rows. rows ++ rest) e
      ∙ append_assoc (rows_of id st) row rest,
  subst (λ i. Below final (rows_of i x)) named b,
)

module _ (json : Codec) (io : PersistIo) (raw : Event) (s : Session) (st : Store) where
  -- The rows stay older than the number that is next.
  pub pump_event-Below :
      (new : Store)
      → Below s.next_seq (rows_of s.id st)
      → s.next_seq + 2 < 2 ^ 64
      → rows_of s.id new ≡ rows_of s.id st ++ stored_row json io (stamp s raw)
      → let s' = (pump_event json io raw s (some st)).0 in Below s'.next_seq (rows_of s'.id new)
  unfolding stamp
  pump_event-Below new below h e =
      let s' = (pump_event json io raw s (some st)).0 in
      let later : s.next_seq < s'.next_seq = next_seq-pump_event-gt json io raw s (some st) h in
      subst (λ i. Below s'.next_seq (rows_of i new)) (sym (id-pump_event json io raw s (some st)))
        (subst (Below s'.next_seq) (sym e) (
          All-append (λ r. r.seq < s'.next_seq) (rows_of s.id st) _
            (Below-weaken s.next_seq s'.next_seq (rows_of s.id st) (omega arith) below)
            (stored_row-Below json (ran io.insert) (stamp s raw) s'.next_seq later)))

-- After a run with no number wrapping, from a store whose rows of the session are all older than its
-- `next_seq`, the rows of the session are the old ones with those of the run behind them: each
-- stamped event whose INSERT ran, in order and once; and all are older than the new `next_seq`.
pub pump_loop_appends_rows :
    (json : Codec) (evs : List (PersistIo × Event)) (s : Session) (st : Store)
    → Below s.next_seq (rows_of s.id st)
    → s.next_seq + 2 * length evs < 2 ^ 64
    → (new : Store) × ((pump_loop json evs s (some st)).1 ≡ some new)
      × (rows_of s.id new ≡ rows_of s.id st ++ stored json evs s (some st))
      × Below (pump_loop json evs s (some st)).0.next_seq (rows_of s.id new)
unfolding pump_loop stored
pump_loop_appends_rows json [] s st below h = (st, refl, sym (append-nil _), below)
pump_loop_appends_rows json ((io, raw) ∷ evs) s st below h =
    let next = pump_event json io raw s (some st) in
    let (new, e, p, q) = pump_event-rows json io raw s st below in
    let bound : next.0.next_seq + 2 * length evs < 2 ^ 64 =
      omega (arith, next_seq-pump_event-le json io raw s (some st) (omega arith)) in
    let rest =
      pump_loop_appends_rows json evs next.0 new
        (pump_event-Below json io raw s st new below (omega arith) q) bound in
    subst
      (λ o.
        (x : Store) × ((pump_loop json evs next.0 o).1 ≡ some x)
        × (rows_of s.id x
            ≡ rows_of s.id st ++ (stored_row json io (stamp s raw) ++ stored json evs next.0 o))
        × Below (pump_loop json evs next.0 o).0.next_seq (rows_of s.id x))
      (sym e)
      (extend_rows s.id next.0 st new (stored_row json io (stamp s raw)) _ _ _
        (id-pump_event json io raw s (some st)) q rest)
