-- ===== src/Session/Delivery.antt =====
-- internal/session/manager.go: what a subscriber's channel holds after a log was broadcast, and that
-- no channel is filled past its capacity, sent on when closed, or closed twice.
use capd.Prelude.{
  ℕ, suc, ◌≤◌, ◌<◌, ◌≡◌, refl, sym, ap, subst, ◌∙◌, inl, inr, true, false, Option, List, [], ◌∷◌,
  ◌++◌, map, append_assoc, append-nil, arith, length, take, Bool-cases, length-append, length-drop,
}
use capd.Protocol.{Event}
use capd.Session.Store.{Codec, Store}
use capd.Session.Channel.{Subscriber, pending, has_room, push, offer, finish, cancel, receive}
use capd.Session.Pump.{Session, PersistIo, max_buffer, pump_loop}
use capd.Session.Log.{deliver, grow, log_of, pump_loop-grow}

-- What the registry and the reader rely on of one channel.
pub record IsSound (sub : Subscriber) : Type 0 where
  pub read : sub.taken ≤ length sub.sent
  pub fits : pending sub ≤ sub.capacity
  pub usable : sub.registered ≡ true → sub.closed ≡ false
  pub calm : sub.overflow ≡ true → sub.closed ≡ true

offer-IsSound : (ev : Event) (sub : Subscriber) → IsSound sub → IsSound (offer ev sub)
unfolding offer
offer-IsSound ev sub h = ground (arith, length-append sub.sent (ev ∷ []))

finish-IsSound : (ev : Event) (sub : Subscriber) → IsSound sub → IsSound (finish ev sub)
unfolding finish
finish-IsSound ev sub h = ground (arith, length-append sub.sent (ev ∷ []))

cancel-IsSound : (n : ℕ) (sub : Subscriber) → IsSound sub → IsSound (cancel n sub)
unfolding cancel
cancel-IsSound n sub h = ground arith

-- What a subscriber has after a log: all of it, in order, while it stays registered; else an initial
-- part of it, with the channel closed, the overflow signalled and the channel full.
pub data Fed (log : List Event) (old new : Subscriber) : Type 0 where
  kept : new.registered ≡ true → new.sent ≡ old.sent ++ log → Fed log old new
  dropped :
      (k : ℕ)
      → k < length log
      → new.registered ≡ false
      → new.closed ≡ true
      → new.overflow ≡ true
      → new.sent ≡ old.sent ++ take k log
      → new.capacity ≤ pending new
      → Fed log old new

module _ (ev : Event) (sub : Subscriber) where
  offer_unregistered : sub.registered ≡ false → offer ev sub ≡ sub
  unfolding offer
  offer_unregistered h = simp h

  offer_room : sub.registered ≡ true → has_room sub ≡ true → offer ev sub ≡ push ev sub
  unfolding offer
  offer_room h room = simp (h, room)

  offer_full :
      sub.registered ≡ true
      → has_room sub ≡ false
      → offer ev sub ≡ record sub { registered = false; closed = true; overflow = true }
  unfolding offer
  offer_full h full = simp (h, full)

deliver_unregistered :
    (log : List Event) (sub : Subscriber) → sub.registered ≡ false → deliver log sub ≡ sub
unfolding deliver
deliver_unregistered [] sub h = refl
deliver_unregistered (ev ∷ log) sub h =
    ap (deliver log) (offer_unregistered ev sub h) ∙ deliver_unregistered log sub h

shift :
    (ev : Event) (log : List Event) (old new : Subscriber)
    → Fed log (push ev old) new
    → Fed (ev ∷ log) old new
shift ev log old new (kept r e) = kept r (e ∙ append_assoc old.sent (ev ∷ []) log)
shift ev log old new (dropped k h r c o e full) =
    dropped (suc k) (omega arith) r c o (e ∙ append_assoc old.sent (ev ∷ []) (take k log)) full

pub deliver-Fed :
    (log : List Event) (sub : Subscriber) → sub.registered ≡ true → Fed log sub (deliver log sub)
unfolding deliver
deliver-Fed [] sub h = kept h (sym (append-nil sub.sent))
deliver-Fed (ev ∷ log) sub h = elim (Bool-cases (has_room sub)) [
  | inl room ↦
      subst (λ t. Fed (ev ∷ log) sub (deliver log t)) (sym (offer_room ev sub h room))
        (shift ev log sub _ (deliver-Fed log (push ev sub) h))
  | inr full ↦
      subst (λ t. Fed (ev ∷ log) sub (deliver log t)) (sym (offer_full ev sub h full))
        (subst (Fed (ev ∷ log) sub) (sym (deliver_unregistered log _ refl))
          (dropped 0 (omega arith) refl refl refl (sym (append-nil sub.sent)) (ground arith)))
]

deliver-IsSound : (log : List Event) (sub : Subscriber) → IsSound sub → IsSound (deliver log sub)
unfolding deliver
deliver-IsSound [] sub h = h
deliver-IsSound (ev ∷ log) sub h = deliver-IsSound log (offer ev sub) (offer-IsSound ev sub h)

receive-IsSound : (sub : Subscriber) → IsSound sub → IsSound (receive sub).1
unfolding receive
receive-IsSound sub h = ground (arith, length-drop sub.taken sub.sent)

-- A channel that is within its bounds, and not both registered and closed, stays so under every
-- operation on it: a broadcast, the end of the session, a cancellation and a read.
pub channel_operations-IsSound :
    (sub : Subscriber) (ev : Event) (n : ℕ)
    → IsSound sub
    → IsSound (offer ev sub)
      × IsSound (finish ev sub)
      × IsSound (cancel n sub)
      × IsSound (receive sub).1
channel_operations-IsSound sub ev n h =
    (offer-IsSound ev sub h, finish-IsSound ev sub h, cancel-IsSound n sub h, receive-IsSound sub h)

-- After the loop of pump, from a buffer within its bound, every subscriber is what it was with the log
-- of the run offered to it. A registered one with a sound channel then either is still registered, with
-- the whole log in order behind what it had, or has an initial part of the log, its channel full and
-- closed and the overflow signalled; and its channel is still sound.
pub pump_loop_feeds_subscribers :
    (json : Codec) (evs : List (PersistIo × Event)) (s : Session) (st : Option Store)
    (sub : Subscriber)
    → length s.buf ≤ max_buffer
    → sub.registered ≡ true
    → IsSound sub
    → let log = log_of json evs s st in
      ((pump_loop json evs s st).0.subs ≡ map (deliver log) s.subs)
      × Fed log sub (deliver log sub)
      × IsSound (deliver log sub)
unfolding grow
pump_loop_feeds_subscribers json evs s st sub h r k = (
  ap (λ t. t.subs) (pump_loop-grow json evs s st h),
  deliver-Fed (log_of json evs s st) sub r,
  deliver-IsSound (log_of json evs s st) sub k,
)
