-- ===== src/Session/Log.antt =====
-- internal/session/manager.go: what a run of the pump announces, as one list, and how the session
-- follows from it. `log_of` is the sequence of events of a run; `grow` says what a session is after
-- a log, with no regard to how the loop came by it.
use mathlib.Core.List.{map-map}
use mathlib.Core.Path.{fun_ext}
use capd.Prelude.{
  ℕ, ◌≤◌, ◌≡◌, refl, sym, ap, ◌∙◌, subst, String, Option, List, [], ◌∷◌, ◌++◌, map, append-nil,
  append_assoc, arith, Result, ok, err, Bool-cases, length, last_n, length-last_n, last_n-short,
  last_n-append, ltb, inl, inr,
}
use capd.Protocol.{Event}
use capd.Session.Store.{Codec, StoreError, Store}
use capd.Session.Channel.{Subscriber, offer}
use capd.Session.Pump.{
  Session, PersistIo, max_buffer, succ_u64, trim, broadcast_locked, cut, record_event, stamp,
  persist, failure_event, persist_message, report, pump_event, pump_loop,
}

-- A log offered to one subscriber, event after event.
unfoldable pub deliver : List Event → Subscriber → Subscriber
deliver [] sub = sub
deliver (ev ∷ evs) sub = deliver evs (offer ev sub)

unfoldable pub advance : ℕ → List Event → ℕ
advance n [] = n
advance n (ev ∷ evs) = advance (succ_u64 n) evs

unfoldable pub grow : List Event → Session → Session
unfolding deliver advance
grow log s = record s {
  buf = last_n max_buffer (s.buf ++ log);
  next_seq = advance s.next_seq log;
  subs = map (deliver log) s.subs;
}

abbrev write_of :
    Codec → PersistIo → Event → Session → Option Store → Result StoreError (Unit {0}) × Option Store
write_of json io raw s st = persist json io (cut (record_event (stamp s raw) s)) (stamp s raw) st

-- The announcement of a failed write.
abbrev pub reports : Event → Session → Result StoreError (Unit {0}) → List Event
reports ev s (ok _) = []
reports ev s (err e) = failure_event (record_event ev s) (persist_message ev.seq e) ∷ []

abbrev pub entries : Codec → PersistIo → Event → Session → Option Store → List Event
entries json io raw s st = stamp s raw ∷ reports (stamp s raw) s (write_of json io raw s st).0

unfoldable pub log_of : Codec → List (PersistIo × Event) → Session → Option Store → List Event
log_of json [] s st = []
log_of json ((io, raw) ∷ evs) s st =
    let (s', st') = pump_event json io raw s st in
    entries json io raw s st ++ log_of json evs s' st'

trim-eq-last_n : (buf : List Event) → trim buf ≡ last_n max_buffer buf
unfolding trim
trim-eq-last_n buf = elim (Bool-cases (ltb max_buffer (length buf))) [
  | inl long ↦ rw long
  | inr short ↦ rw short (sym (last_n-short max_buffer buf (ground arith)))
]

deliver-append :
    (xs ys : List Event) (sub : Subscriber) → deliver ys (deliver xs sub) ≡ deliver (xs ++ ys) sub
unfolding deliver
deliver-append [] ys sub = refl
deliver-append (x ∷ xs) ys sub = deliver-append xs ys (offer x sub)

advance-append : (n : ℕ) (xs ys : List Event) → advance (advance n xs) ys ≡ advance n (xs ++ ys)
unfolding advance
advance-append n [] ys = refl
advance-append n (x ∷ xs) ys = advance-append (succ_u64 n) xs ys

pub grow-append : (xs ys : List Event) (s : Session) → grow ys (grow xs s) ≡ grow (xs ++ ys) s
unfolding grow
grow-append xs ys s = λ i. record s {
  buf =
      (last_n-append max_buffer (s.buf ++ xs) ys
          ∙ ap (last_n max_buffer) (append_assoc s.buf xs ys))
        i;
  next_seq = advance-append s.next_seq xs ys i;
  subs =
      (map-map (deliver ys) (deliver xs) s.subs
          ∙ ap (λ f. map f s.subs) (fun_ext (deliver-append xs ys)))
        i;
}

map-deliver-nil : (subs : List Subscriber) → map (deliver []) subs ≡ subs
unfolding deliver
map-deliver-nil [] = refl
map-deliver-nil (sub ∷ subs) = ap (◌∷◌ sub) (map-deliver-nil subs)

grow-nil : (s : Session) → length s.buf ≤ max_buffer → grow [] s ≡ s
unfolding grow
grow-nil s h = λ i. record s {
  buf = (ap (last_n max_buffer) (append-nil s.buf) ∙ last_n-short max_buffer s.buf h) i;
  next_seq = s.next_seq;
  subs = map-deliver-nil s.subs i;
}

pub length-grow_buf : (log : List Event) (s : Session) → length (grow log s).buf ≤ max_buffer
unfolding grow
length-grow_buf log s = length-last_n max_buffer (s.buf ++ log)

-- Stamping, buffering and broadcasting one event.
announce-grow :
    (ev : Event) (s : Session) → broadcast_locked ev (cut (record_event ev s)) ≡ grow (ev ∷ []) s
unfolding grow broadcast_locked
announce-grow ev s = λ i. record s {
  buf = trim-eq-last_n (s.buf ++ ev ∷ []) i;
  next_seq = succ_u64 s.next_seq;
  subs = map (offer ev) s.subs;
}

report-grow :
    (ev : Event) (s t : Session) (r : Result StoreError (Unit {0}))
    → t ≡ grow (ev ∷ []) s
    → report ev r t ≡ grow (ev ∷ reports ev s r) s
unfolding report failure_event grow
report-grow ev s t (ok _) e = e
report-grow ev s t (err x) e =
    ap
      (λ u.
        broadcast_locked (failure_event u message) (cut (record_event (failure_event u message) u)))
      e
    ∙ announce-grow (failure_event (record_event ev s) message) (grow (ev ∷ []) s)
    ∙ grow-append (ev ∷ []) (failure_event (record_event ev s) message ∷ []) s
  where
    message : String
    message = persist_message ev.seq x

pub pump_event-grow :
    (json : Codec) (io : PersistIo) (raw : Event) (s : Session) (st : Option Store)
    → (pump_event json io raw s st).0 ≡ grow (entries json io raw s st) s
unfolding pump_event
pump_event-grow json io raw s st =
    report-grow (stamp s raw) s _ (write_of json io raw s st).0 (announce-grow (stamp s raw) s)

-- A run of the pump leaves the session that its log describes.
pub pump_loop-grow :
    (json : Codec) (evs : List (PersistIo × Event)) (s : Session) (st : Option Store)
    → length s.buf ≤ max_buffer
    → (pump_loop json evs s st).0 ≡ grow (log_of json evs s st) s
unfolding pump_loop log_of
pump_loop-grow json [] s st h = sym (grow-nil s h)
pump_loop-grow json ((io, raw) ∷ evs) s st h =
    pump_loop-grow json evs _ _
      (subst (λ (t : Session). length t.buf ≤ max_buffer) (sym step) short)
    ∙ ap (grow (log_of json evs (pump_event json io raw s st).0 (pump_event json io raw s st).1))
        step
    ∙ grow-append (entries json io raw s st) _ s
  where
    step : (pump_event json io raw s st).0 ≡ grow (entries json io raw s st) s
    step = pump_event-grow json io raw s st

    short : length (grow (entries json io raw s st) s).buf ≤ max_buffer
    short = length-grow_buf (entries json io raw s st) s
