-- ===== src/Adapter/Panics.antt =====
-- internal/adapter/turn.go: when a turn sends on the channel that Close has closed.
use capd.Prelude.{
  ℕ, Bool, true, false, Option, none, some, [], ◌∷◌, ◌++◌, sum_of, length, ◌≡◌, refl, arith,
  sum_of-append, set-append, get_elem?-append,
}
use capd.Protocol.{Members}
use capd.Adapter.Turn.{
  Phase, accepted, running, leaving, ended, Turn, TurnSession, send, ended_data, release, deliver,
  is_counted, cancel, close, push_event, close_events,
}
use capd.Adapter.Schedule.{
  sending, starting, finishing, delivering, closing, shutting, step, Run, here, next,
}

module _ (s : TurnSession) where
  turn_at : Phase → Bool → Option Members → Turn
  turn_at phase canceled done = record {
    native_id = s.native_id;
    phase = phase;
    canceled = canceled;
    done = done;
  }

  -- The session with one more turn, and the flags as given.
  with_turn : Turn → Bool → Option ℕ → Bool → Bool → TurnSession
  with_turn t busy cancel_turn closed shut = record s {
    busy = busy;
    cancel_turn = cancel_turn;
    closed = closed;
    turns = s.turns ++ t ∷ [];
    channel_closed = shut;
  }

  ended_at : Members
  ended_at = ended_data true none

  -- Where a session is open and no turn is under way, Send and Close can run so that Close, which waits
  -- for the turns that were started, closes the channel while the turn that Send accepted is not yet
  -- among them; that turn then sends on the closed channel, and the daemon panics.
  pub send_close_panics :
      s.closed ≡ false
      → s.busy ≡ false
      → s.channel_closed ≡ false
      → sum_of is_counted s.turns ≡ 0
      → (u : TurnSession) × Run s u × (u.panicked ≡ true)
  unfolding step send close cancel release deliver push_event turn_at with_turn close_events
      ended_at
  send_close_panics opened idle unshut quiet = (
    over,
    next (delivering n)
        (next (finishing n none)
          (next (starting n)
            (next shutting (next closing (next (sending false) here sent) begun) shut) started)
          finished)
        delivered,
    refl,
  )
    where
      n : ℕ
      n = length s.turns

      over : TurnSession
      over = record (with_turn (turn_at ended true (some ended_at)) false none true true) {
        panicked = true;
      }

      sent :
          step (sending false) s
          ≡ some (with_turn (turn_at accepted false none) true (some n) false false)
      sent = ground (arith, opened, idle, unshut)

      begun :
          step closing (with_turn (turn_at accepted false none) true (some n) false false)
          ≡ some (with_turn (turn_at accepted true none) true (some n) true false)
      begun = ground (
        arith,
        get_elem?-append s.turns (turn_at accepted false none),
        set-append s.turns (turn_at accepted false none) (turn_at accepted true none),
      )

      shut :
          step shutting (with_turn (turn_at accepted true none) true (some n) true false)
          ≡ some (with_turn (turn_at accepted true none) true (some n) true true)
      shut =
          ground (arith, quiet, sum_of-append is_counted s.turns (turn_at accepted true none ∷ []))

      started :
          step (starting n) (with_turn (turn_at accepted true none) true (some n) true true)
          ≡ some (with_turn (turn_at running true none) true (some n) true true)
      started = ground (
        arith,
        get_elem?-append s.turns (turn_at accepted true none),
        set-append s.turns (turn_at accepted true none) (turn_at running true none),
      )

      finished :
          step (finishing n none) (with_turn (turn_at running true none) true (some n) true true)
          ≡ some (with_turn (turn_at leaving true (some ended_at)) false none true true)
      finished = ground (
        arith,
        get_elem?-append s.turns (turn_at running true none),
        set-append s.turns (turn_at running true none) (turn_at leaving true (some ended_at)),
      )

      delivered :
          step
            (delivering n)
            (with_turn (turn_at leaving true (some ended_at)) false none true true)
          ≡ some over
      delivered = ground (
        arith,
        get_elem?-append s.turns (turn_at leaving true (some ended_at)),
        set-append s.turns (turn_at leaving true (some ended_at))
            (turn_at ended true (some ended_at)),
      )
