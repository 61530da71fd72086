-- ===== src/Session/Numbering.antt =====
-- internal/session/manager.go: the numbers of a log, and the size of the replay buffer.
use capd.Prelude.{
  ℕ, suc, ◌+◌, ◌*◌, ◌^◌, ◌≤◌, ◌<◌, ◌≡◌, refl, sym, ap, subst, ◌∙◌, Option, List, [], ◌∷◌, ◌++◌,
  arith, length, last_n, All, All-append,
}
use capd.Protocol.{Event}
use capd.Session.Store.{Codec, Store}
use capd.Session.Pump.{Session, PersistIo, max_buffer, stamp, failure_event, pump_event, pump_loop}
use capd.Session.Log.{
  advance, grow, entries, log_of, pump_event-grow, pump_loop-grow, length-grow_buf,
}

-- The events carry the numbers from `n` up, one by one, and `m` is the next.
abbrev pub Numbered : ℕ → List Event → ℕ → Type 0
Numbered n [] m = n ≡ m
Numbered n (ev ∷ evs) m = (ev.seq ≡ n) × Numbered (suc n) evs m

pub Numbered-append :
    (n k m : ℕ) (xs ys : List Event) → Numbered n xs k → Numbered k ys m → Numbered n (xs ++ ys) m
Numbered-append n k m [] ys h g = subst (λ j. Numbered j ys m) (sym h) g
Numbered-append n k m (x ∷ xs) ys h g = (h.0, Numbered-append (suc n) k m xs ys h.1 g)

pub Numbered-length : (n m : ℕ) (xs : List Event) → Numbered n xs m → m ≡ n + length xs
Numbered-length n m [] h = omega arith
Numbered-length n m (x ∷ xs) h = omega (arith, Numbered-length (suc n) m xs h.1)

pub entries-Numbered :
    (json : Codec) (io : PersistIo) (raw : Event) (s : Session) (st : Option Store)
    → s.next_seq + 2 < 2 ^ 64
    → Numbered s.next_seq (entries json io raw s st) (advance s.next_seq (entries json io raw s st))
      × (advance s.next_seq (entries json io raw s st) ≤ s.next_seq + 2)
      × All (λ ev. ev.session_id ≡ s.id) (entries json io raw s st)
unfolding stamp failure_event advance
entries-Numbered json io raw s st h = ground arith

module _ (json : Codec) (io : PersistIo) (raw : Event) (s : Session) (st : Option Store) where
  pub next_seq-pump_event :
      (pump_event json io raw s st).0.next_seq ≡ advance s.next_seq (entries json io raw s st)
  unfolding grow
  next_seq-pump_event = ap (λ t. t.next_seq) (pump_event-grow json io raw s st)

  pub id-pump_event : (pump_event json io raw s st).0.id ≡ s.id
  unfolding grow
  id-pump_event = ap (λ t. t.id) (pump_event-grow json io raw s st)

  -- A numbered log after one turn, continued.
  entries-append-Numbered :
      (later : List Event) (m : ℕ)
      → s.next_seq + 2 < 2 ^ 64
      → Numbered (pump_event json io raw s st).0.next_seq later m
      → All (λ ev. ev.session_id ≡ (pump_event json io raw s st).0.id) later
      → Numbered s.next_seq (entries json io raw s st ++ later) m
        × All (λ ev. ev.session_id ≡ s.id) (entries json io raw s st ++ later)
  entries-append-Numbered later m h numbered named = (
    Numbered-append s.next_seq _ m (entries json io raw s st) later here.0
        (subst (λ j. Numbered j later m) next_seq-pump_event numbered),
    All-append (λ ev. ev.session_id ≡ s.id) (entries json io raw s st) later here.2
        (subst (λ i. All (λ ev. ev.session_id ≡ i) later) id-pump_event named),
  )
    where
      here :
          Numbered s.next_seq
            (entries json io raw s st)
            (advance s.next_seq (entries json io raw s st))
          × (advance s.next_seq (entries json io raw s st) ≤ s.next_seq + 2)
          × All (λ ev. ev.session_id ≡ s.id) (entries json io raw s st)
      here = entries-Numbered json io raw s st h

  pub next_seq-pump_event-le :
      s.next_seq + 2 < 2 ^ 64 → (pump_event json io raw s st).0.next_seq ≤ s.next_seq + 2
  next_seq-pump_event-le h =
      omega (arith, next_seq-pump_event, (entries-Numbered json io raw s st h).1)

  pub next_seq-pump_event-gt :
      s.next_seq + 2 < 2 ^ 64 → s.next_seq < (pump_event json io raw s st).0.next_seq
  next_seq-pump_event-gt h = omega (
    arith,
    next_seq-pump_event,
    Numbered-length s.next_seq _ (entries json io raw s st) (entries-Numbered json io raw s st h).0,
  )

-- A run numbers its log from the session's `next_seq` without a gap, and names the session in each.
pub log_of-Numbered :
    (json : Codec) (evs : List (PersistIo × Event)) (s : Session) (st : Option Store)
    → s.next_seq + 2 * length evs < 2 ^ 64
    → Numbered s.next_seq (log_of json evs s st) (pump_loop json evs s st).0.next_seq
      × All (λ ev. ev.session_id ≡ s.id) (log_of json evs s st)
unfolding log_of pump_loop
log_of-Numbered json [] s st h = (refl, tt)
log_of-Numbered json ((io, raw) ∷ evs) s st h =
    let next = pump_event json io raw s st in
    let rest =
      log_of-Numbered json evs next.0 next.1
        (omega (arith, next_seq-pump_event-le json io raw s st (omega arith))) in
    entries-append-Numbered json io raw s st _ _ (omega arith) rest.0 rest.1

pub id-pump_loop :
    (json : Codec) (evs : List (PersistIo × Event)) (s : Session) (st : Option Store)
    → (pump_loop json evs s st).0.id ≡ s.id
unfolding pump_loop
id-pump_loop json [] s st = refl
id-pump_loop json ((io, raw) ∷ evs) s st =
    id-pump_loop json evs (pump_event json io raw s st).0 (pump_event json io raw s st).1
    ∙ id-pump_event json io raw s st

-- From a session whose buffer is within its bound, after the loop of pump over any events, with any
-- answers of the store, and with no number wrapping: there is a log that holds each event stamped,
-- and after it the report of its write if that failed; the buffer holds the newest 4096 events of
-- the old buffer with the log behind it; the log is numbered from the old `next_seq` to the new one
-- without a gap; and each of its events names the session.
pub pump_loop_refines_log :
    (json : Codec) (evs : List (PersistIo × Event)) (s : Session) (st : Option Store)
    → length s.buf ≤ max_buffer
    → s.next_seq + 2 * length evs < 2 ^ 64
    → let log = log_of json evs s st in
      let s' = (pump_loop json evs s st).0 in
      (s'.buf ≡ last_n max_buffer (s.buf ++ log))
      × (length s'.buf ≤ max_buffer)
      × Numbered s.next_seq log s'.next_seq
      × All (λ ev. ev.session_id ≡ s.id) log
unfolding grow
pump_loop_refines_log json evs s st h bound = (
  ap (λ t. t.buf) (pump_loop-grow json evs s st h),
  subst (λ (t : Session). length t.buf ≤ max_buffer) (sym (pump_loop-grow json evs s st h))
      (length-grow_buf (log_of json evs s st) s),
  (log_of-Numbered json evs s st bound).0,
  (log_of-Numbered json evs s st bound).1,
)
