-- ===== src/Adapter/Schedule.antt =====
-- internal/adapter/turn.go: the runs of a turn session, as sequences of what its goroutines do.
use capd.Prelude.{
  ℕ, String, Bool, true, false, not, ◌&&◌, Option, none, some, List, get_elem?, set, sum_of,
  if◌then◌else◌, ◌==◌, ◌≡◌, refl, arith,
}
use capd.Adapter.Turn.{
  Emission, Phase, accepted, running, leaving, Turn, TurnSession, send, emit_all, keep_native_id,
  ended_data, release, start_failed, deliver, is_counted, cancel, close, close_events,
}

-- One part of a call or of a turn. `reading` is one line, with the events that the translator emits of it
-- and the id that it returns; `failing` is a process that does not start.
pub data Action : Type 0 where
  sending : Bool → Action
  starting : ℕ → Action
  failing : ℕ → Bool → String → Action
  reading : ℕ → List (Bool × Emission) → String → Action
  finishing : ℕ → Option String → Action
  delivering : ℕ → Action
  canceling closing shutting : Action

abbrev pub is_accepted : Phase → Bool
is_accepted accepted = true
is_accepted _ = false

abbrev pub is_running : Phase → Bool
is_running running = true
is_running _ = false

abbrev pub is_leaving : Phase → Bool
is_leaving leaving = true
is_leaving _ = false

abbrev pub put_back : ℕ → Turn × TurnSession → TurnSession
put_back i (t, s) = record s { turns = set s.turns i t }

abbrev pub at_found :
    (Phase → Bool)
    → (Turn × TurnSession → Turn × TurnSession)
    → ℕ
    → TurnSession
    → Option Turn
    → Option TurnSession
at_found want part i s none = none
at_found want part i s (some t) = if want t.phase then some (put_back i (part (t, s))) else none

-- A part of the turn at a place, if there is one and it has come so far.
abbrev pub at :
    (Phase → Bool)
    → (Turn × TurnSession → Turn × TurnSession)
    → ℕ
    → TurnSession
    → Option TurnSession
at want part i s = at_found want part i s (get_elem? s.turns i)

abbrev pub go_on : Turn × TurnSession → Turn × TurnSession
go_on (t, s) = (record t { phase = running }, s)

abbrev pub read_line : List (Bool × Emission) → String → Turn × TurnSession → Turn × TurnSession
read_line evs id ts = let after = emit_all evs ts in (after.0, keep_native_id id after.1)

abbrev pub finish : Option String → Turn × TurnSession → Turn × TurnSession
finish wait_err (t, s) = release (ended_data t.canceled wait_err) (t, s)

-- What an action leaves; `none` where it cannot happen now.
unfoldable pub step : Action → TurnSession → Option TurnSession
step (sending images) s = some (send images s).1
step (starting i) s = at is_accepted go_on i s
step (failing i drop e) s = at is_running (start_failed drop e) i s
step (reading i evs id) s = at is_running (read_line evs id) i s
step (finishing i wait_err) s = at is_running (finish wait_err) i s
step (delivering i) s = at is_leaving deliver i s
step canceling s = some (cancel s)
step closing s = some (close s)
step shutting s =
    if s.closed && (not s.channel_closed && (sum_of is_counted s.turns == 0))
    then some (close_events s)
    else none

pub data Run (s : TurnSession) : TurnSession → Type 0 where
  here : Run s s
  next : {t u : TurnSession} (a : Action) → Run s t → step a t ≡ some u → Run s u

-- An action of a turn took place.
pub at-taken :
    (want : Phase → Bool) (part : Turn × TurnSession → Turn × TurnSession) (i : ℕ)
    (s u : TurnSession)
    → at want part i s ≡ some u
    → (t : Turn) × (get_elem? s.turns i ≡ some t)
      × (want t.phase ≡ true)
      × (put_back i (part (t, s)) ≡ u)
at-taken want part i s u h = found (get_elem? s.turns i) refl h
  where
    found :
        (o : Option Turn)
        → get_elem? s.turns i ≡ o
        → at_found want part i s o ≡ some u
        → (t : Turn) × (get_elem? s.turns i ≡ some t)
          × (want t.phase ≡ true)
          × (put_back i (part (t, s)) ≡ u)
    found none e k = absurd (ground (arith, k))
    found (some t) e k = (t, e, ground (arith, k), ground (arith, k))
