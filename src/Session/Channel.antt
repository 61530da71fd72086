-- ===== src/Session/Channel.antt =====
-- internal/session/manager.go: a subscriber's Go channel, as its producer and its reader see it.
-- The channel is what was ever sent on it with the number of values that the reader took, so what it
-- still holds is `pending`. An entry stays after `delete(s.subs, id)`, with `registered` false: the
-- reader holds the channel and drains it.
use capd.Prelude.{
  ℕ, ◌-◌, ◌+◌, Bool, true, false, Option, none, some, List, [], ◌∷◌, ◌++◌, length, drop, ltb, ◌==◌,
  if◌then◌else◌,
}
use capd.Protocol.{Event}

pub record Subscriber : Type 0 where
  pub id : ℕ
  pub sent : List Event
  pub taken : ℕ
  pub capacity : ℕ
  pub registered : Bool
  pub closed : Bool
  pub overflow : Bool

-- len(sub.ch)
abbrev pub pending : Subscriber → ℕ
pending sub = length sub.sent - sub.taken

abbrev pub has_room : Subscriber → Bool
has_room sub = ltb (pending sub) sub.capacity

abbrev pub push : Event → Subscriber → Subscriber
push ev sub = record sub { sent = sub.sent ++ ev ∷ [] }

abbrev head_of : List Event → Option Event
head_of [] = none
head_of (ev ∷ evs) = some ev

-- ev := <-ch: the oldest pending event, if there is one.
unfoldable pub receive : Subscriber → Option Event × Subscriber
receive sub = elim (drop sub.taken sub.sent) [
  | [] ↦ (none, sub)
  | ev ∷ rest ↦ (some ev, record sub { taken = sub.taken + 1 })
]

-- One turn of the loop of broadcastLocked: send, or close both channels and forget the subscriber.
unfoldable pub offer : Event → Subscriber → Subscriber
offer ev sub =
    if sub.registered
    then (if has_room sub
        then push ev sub
        else record sub { registered = false; closed = true; overflow = true })
    else sub

-- One turn of the loop at the end of pump: send if there is room, close, forget.
unfoldable pub finish : Event → Subscriber → Subscriber
finish ev sub =
    if sub.registered
    then record (if has_room sub then push ev sub else sub) { registered = false; closed = true }
    else sub

-- The function that Subscribe returns for the subscriber `n`.
unfoldable pub cancel : ℕ → Subscriber → Subscriber
cancel n sub =
    if sub.id == n
    then (if sub.registered then record sub { registered = false; closed = true } else sub)
    else sub
