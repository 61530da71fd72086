-- ===== src/Session/End.antt =====
-- internal/session/manager.go: what the end of the adapter's stream leaves behind.
use capd.Prelude.{
  suc, ◌+◌, ◌^◌, ◌≤◌, ◌<◌, ◌≡◌, refl, ap, ◌∙◌, true, false, Option, List, [], ◌∷◌, ◌++◌, map,
  append_assoc, arith, Result, ok, err, length, length-append, All,
}
use capd.Protocol.{no_members, Event, session_ended}
use capd.Session.Store.{Codec, StoreError, Store}
use capd.Session.Channel.{Subscriber, pending, offer, finish}
use capd.Session.Pump.{
  Session, PersistIo, record_event, persist, failure_event, end_message, report_end,
  broadcast_locked, pump_end,
}

abbrev pub end_event : Session → Event
end_event s = record {
  session_id = s.id;
  seq = s.next_seq;
  type = session_ended;
  content = no_members;
}

abbrev pub ending : Session → Session
ending s = record_event (end_event s) (record s { ended = true })

-- The answer of the store to the write of the end.
abbrev pub end_write : Codec → PersistIo → Session → Option Store → Result StoreError (Unit {0})
end_write json io s st = (persist json io (ending s) (end_event s) st).0

-- What the end appends to the log: itself, and the report of its write if that failed.
abbrev pub end_log : Session → Result StoreError (Unit {0}) → List Event
end_log s (ok _) = end_event s ∷ []
end_log s (err e) = end_event s ∷ failure_event (ending s) (end_message e) ∷ []

-- What is broadcast ahead of the end.
abbrev pub end_reports : Session → Result StoreError (Unit {0}) → List Event
end_reports s (ok _) = []
end_reports s (err e) = failure_event (ending s) (end_message e) ∷ []

abbrev IsGone : Subscriber → Type 0
IsGone sub = sub.registered ≡ false

finish-IsGone : (ev : Event) (subs : List Subscriber) → All IsGone (map (finish ev) subs)
unfolding finish
finish-IsGone ev [] = tt
finish-IsGone ev (sub ∷ subs) = (ground arith, finish-IsGone ev subs)

report_end-ended :
    (s : Session) (r : Result StoreError (Unit {0}))
    → ((report_end r (ending s)).ended ≡ true)
      × ((report_end r (ending s)).buf ≡ s.buf ++ end_log s r)
unfolding report_end broadcast_locked
report_end-ended s (ok _) = (refl, refl)
report_end-ended s (err e) = (refl, append_assoc s.buf _ _)

length-end_log : (s : Session) (r : Result StoreError (Unit {0})) → length (end_log s r) ≤ 2
length-end_log s (ok _) = omega arith
length-end_log s (err e) = omega arith

-- The end marks the session ended, leaves no subscriber registered, and puts itself into the buffer,
-- with the report of its write behind it if that failed; the buffer is not cut, so it may pass its
-- bound by these two events.
pub pump_end_lem :
    (json : Codec) (io : PersistIo) (s : Session) (st : Option Store)
    → let s' = (pump_end json io s st).0 in
      (s'.ended ≡ true)
      × All (λ sub. sub.registered ≡ false) s'.subs
      × (s'.buf ≡ s.buf ++ end_log s (end_write json io s st))
      × (length s'.buf ≤ length s.buf + 2)
unfolding pump_end
pump_end_lem json io s st =
    let r = end_write json io s st in
    let (ended, buf) = report_end-ended s r in
    (
      ended,
      finish-IsGone (end_event s) (report_end r (ending s)).subs,
      buf,
      omega (arith, ap length buf, length-append s.buf (end_log s r), length-end_log s r),
    )

-- What a channel gets at the end.
abbrev pub at_end : Session → Result StoreError (Unit {0}) → Subscriber → Subscriber
at_end s (ok _) sub = finish (end_event s) sub
at_end s (err e) sub = finish (end_event s) (offer (failure_event (ending s) (end_message e)) sub)

map-map_finish :
    (f g : Subscriber → Subscriber) (subs : List Subscriber)
    → map g (map f subs) ≡ map (λ sub. g (f sub)) subs
map-map_finish f g [] = refl
map-map_finish f g (sub ∷ subs) = ap (◌∷◌ (g (f sub))) (map-map_finish f g subs)

subs-report_end :
    (s : Session) (r : Result StoreError (Unit {0}))
    → map (finish (end_event s)) (report_end r (ending s)).subs ≡ map (at_end s r) s.subs
unfolding report_end broadcast_locked
subs-report_end s (ok _) = refl
subs-report_end s (err e) =
    map-map_finish (offer (failure_event (ending s) (end_message e))) (finish (end_event s)) s.subs

sent_both :
    (first last : Event) (sub : Subscriber)
    → sub.registered ≡ true
    → sub.taken ≤ length sub.sent
    → suc (pending sub) < sub.capacity
    → (finish last (offer first sub)).sent ≡ sub.sent ++ first ∷ last ∷ []
unfolding finish offer
sent_both first last sub r t room =
    ground
      (arith, length-append sub.sent (first ∷ []), append_assoc sub.sent (first ∷ []) (last ∷ []))

-- When the write of the end fails, a subscriber with room for two more events is sent the report,
-- which carries the number after the end's, and then the end: the numbers of its stream fall.
pub pump_end_out_of_order :
    (json : Codec) (io : PersistIo) (s : Session) (st : Option Store) (e : StoreError)
    (sub : Subscriber)
    → end_write json io s st ≡ err e
    → sub.registered ≡ true
    → sub.taken ≤ length sub.sent
    → suc (pending sub) < sub.capacity
    → s.next_seq + 2 < 2 ^ 64
    → let report = failure_event (ending s) (end_message e) in
      ((pump_end json io s st).0.subs ≡ map (at_end s (err e)) s.subs)
      × ((at_end s (err e) sub).sent ≡ sub.sent ++ report ∷ end_event s ∷ [])
      × ((end_event s).seq < report.seq)
unfolding pump_end failure_event
pump_end_out_of_order json io s st e sub failed r t room h = (
  subs-report_end s (end_write json io s st) ∙ ap (λ x. map (at_end s x) s.subs) failed,
  sent_both (failure_event (ending s) (end_message e)) (end_event s) sub r t room,
  omega arith,
)
