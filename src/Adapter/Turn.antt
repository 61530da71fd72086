-- ===== src/Adapter/Turn.antt =====
-- internal/adapter/turn.go: a session that starts one process for each turn.
-- Send, Cancel and Close run in the goroutines of their callers and each turn in its own, so a run is
-- a sequence of the parts between two synchronisations. The channel of events is what was sent on it;
-- one that is full only delays its sender. A context is the flag of its turn.
use capd.Prelude.{
  ℕ, String, append, Bool, true, false, not, ◌&&◌, Option, none, some, List, [], ◌∷◌, ◌++◌, length,
  get_elem?, set, str_eq, if◌then◌else◌,
}
use capd.Protocol.{
  EventType, task_done, error, is_task_done, Members, no_members, member, text, bool,
}

-- What a translator emits, and what the channel carries.
abbrev pub Emission : Type 0
Emission = EventType × Members

-- Where a turn is: Send has unlocked and not yet started the goroutine, the goroutine reads lines, it
-- has released the turn and not yet sent task.done, or it has returned.
pub data Phase : Type 0 where
  accepted running leaving ended : Phase

pub record Turn : Type 0 where
  pub native_id : String
  pub phase : Phase
  pub canceled : Bool
  pub done : Option Members

pub data SendError : Type 0 where
  no_images session_closed turn_in_progress : SendError

pub record TurnSession : Type 0 where
  pub supports_images : Bool
  pub native_id : String
  pub cancel_turn : Option ℕ
  pub busy : Bool
  pub closed : Bool
  -- The turns in order of Send; a turn is known by its place.
  pub turns : List Turn
  pub sent : List Emission
  pub channel_closed : Bool
  -- A send on the closed channel.
  pub panicked : Bool

unfoldable pub new_turn_session_resumed : Bool → String → TurnSession
new_turn_session_resumed images native_id = record {
  supports_images = images;
  native_id = native_id;
  cancel_turn = none;
  busy = false;
  closed = false;
  turns = [];
  sent = [];
  channel_closed = false;
  panicked = false;
}

-- Send up to its Unlock; `images` says whether the message has any.
unfoldable pub send : Bool → TurnSession → Option SendError × TurnSession
send images s =
    if images && not s.supports_images
    then (some no_images, s)
    else if s.closed
    then (some session_closed, s)
    else if s.busy
    then (some turn_in_progress, s)
    else (
      none,
      record s {
        busy = true;
        cancel_turn = some (length s.turns);
        turns =
            s.turns
            ++ record { native_id = s.native_id; phase = accepted; canceled = false; done = none }
              ∷ [];
      },
    )

-- s.events <- ev
unfoldable pub push_event : Emission → TurnSession → TurnSession
push_event ev s =
    if s.channel_closed then record s { panicked = true } else record s { sent = s.sent ++ ev ∷ [] }

-- `emit`: task.done is kept back; another event is sent, or dropped if the turn is canceled and the
-- select takes that case.
unfoldable pub emit : Bool → Emission → Turn × TurnSession → Turn × TurnSession
unfolding push_event
emit drop ev (t, s) =
    if is_task_done ev.0
    then (record t { done = some ev.1 }, s)
    else if t.canceled && drop
    then (t, s)
    else (t, push_event ev s)

-- The events of one line, each with the case that its select takes.
unfoldable pub emit_all : List (Bool × Emission) → Turn × TurnSession → Turn × TurnSession
emit_all [] ts = ts
emit_all ((drop, ev) ∷ evs) ts = emit_all evs (emit drop ev ts)

abbrev pub keep_native_id : String → TurnSession → TurnSession
keep_native_id id s = if str_eq id "" then s else record s { native_id = id }

-- The data of a task.done that the agent did not send: the process ended, with `wait_err`.
unfoldable pub ended_data : Bool → Option String → Members
ended_data canceled none =
    if canceled
    then member "ok" (bool true) (member "canceled" (bool true) no_members)
    else member "ok" (bool true) no_members
ended_data canceled (some e) =
    if canceled
    then member "ok" (bool false) (member "canceled" (bool true) no_members)
    else member "ok" (bool false) (member "message" (text (append "agent exited: " e)) no_members)

-- The same where the process was not started.
unfoldable pub unstarted_data : Bool → Members
unstarted_data canceled =
    if canceled
    then member "ok" (bool false) (member "canceled" (bool true) no_members)
    else member "ok" (bool false) no_members

abbrev pub or_data : Option Members → Members → Members
or_data none fields = fields
or_data (some done) fields = done

-- busy = false, cancelTurn = nil; task.done is sent after the Unlock.
unfoldable pub release : Members → Turn × TurnSession → Turn × TurnSession
release fields (t, s) = (
  record t { phase = leaving; done = some (or_data t.done fields) },
  record s { busy = false; cancel_turn = none },
)

-- proc.Start failed with `e`, and runTurn goes on to its end.
unfoldable pub start_failed : Bool → String → Turn × TurnSession → Turn × TurnSession
unfolding emit unstarted_data release
start_failed drop e (t, s) =
    release (unstarted_data t.canceled) (
      if t.canceled then (t, s) else emit drop (error, member "message" (text e) no_members) (t, s))

-- s.events <- *done, and the goroutine returns.
unfoldable pub deliver : Turn × TurnSession → Turn × TurnSession
unfolding push_event
deliver (t, s) = (record t { phase = ended }, push_event (task_done, or_data t.done no_members) s)

-- The turn at a place takes part in the wait group of Close.
abbrev pub is_counted : Turn → ℕ
is_counted t = elim (t.phase) [ accepted ↦ 0 | running ↦ 1 | leaving ↦ 1 | ended ↦ 0 ]

abbrev pub cancel_at : List Turn → ℕ → Turn → List Turn
cancel_at turns i t = set turns i (record t { canceled = true })

-- cancel(): the context of the turn is done.
abbrev pub cancel_found : TurnSession → ℕ → Option Turn → TurnSession
cancel_found s i none = s
cancel_found s i (some t) = record s { turns = cancel_at s.turns i t }

abbrev pub cancel_of : TurnSession → Option ℕ → TurnSession
cancel_of s none = s
cancel_of s (some i) = cancel_found s i (get_elem? s.turns i)

unfoldable pub cancel : TurnSession → TurnSession
cancel s = cancel_of s s.cancel_turn

-- Close up to wg.Wait; a second call returns.
unfoldable pub close : TurnSession → TurnSession
unfolding cancel
close s = if s.closed then s else cancel (record s { closed = true })

-- What Close does behind wg.Wait.
unfoldable pub close_events : TurnSession → TurnSession
close_events s = record s { channel_closed = true }
