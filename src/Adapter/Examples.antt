-- ===== src/Adapter/Examples.antt =====
-- Turn sessions at work: a turn that is canceled and closed, and the race of Send with Close.
use capd.Prelude.{true, false, Option, none, some, List, [], ◌∷◌, ◌≡◌, refl}
use capd.Protocol.{output_text, no_members}
use capd.Adapter.Turn.{
  TurnSession, new_turn_session_resumed, send, emit, emit_all, ended_data, release, deliver, cancel,
  close, close_events, push_event,
}
use capd.Adapter.Schedule.{
  Action, sending, starting, reading, finishing, delivering, closing, shutting, step, Run, here,
  next,
}
use capd.Adapter.Exclusion.{Sound}
use capd.Adapter.OneTurn.{run_from_new-Sound}
use capd.Adapter.Panics.{send_close_panics}
use capd.Adapter.Quiet.{ApartRun, Quiet, apart_run-Quiet}
use capd.Adapter.Quiet

abbrev start : TurnSession
start = new_turn_session_resumed false "t_0"

-- The session behind an action that can happen.
abbrev behind : Option TurnSession → TurnSession
behind none = start
behind (some s) = s

abbrev after : List Action → TurnSession → TurnSession
after [] s = s
after (a ∷ actions) s = after actions (behind (step a s))

abbrev begun : TurnSession
begun = after (sending false ∷ starting 0 ∷ []) start

started_run : Run start begun
unfolding step send new_turn_session_resumed
started_run = next (starting 0) (next (sending false) here refl) refl

run_from_new-Sound_example : Sound begun
run_from_new-Sound_example = run_from_new-Sound false "t_0" begun started_run

send_close_panics_example : (u : TurnSession) × Run start u × (u.panicked ≡ true)
unfolding new_turn_session_resumed
send_close_panics_example = send_close_panics start refl refl refl refl

abbrev history : List Action
history =
    sending false
    ∷ starting 0
    ∷ reading 0 ((false, (output_text, no_members)) ∷ []) "t_1"
    ∷ closing
    ∷ finishing 0 none
    ∷ delivering 0
    ∷ shutting
    ∷ []

apart : ApartRun start (after history start)
unfolding step send emit emit_all push_event ended_data release deliver cancel close close_events
    new_turn_session_resumed
apart =
    Quiet.next shutting
      (Quiet.next (delivering 0)
        (Quiet.next (finishing 0 none)
          (Quiet.next closing
            (Quiet.next (reading 0 ((false, (output_text, no_members)) ∷ []) "t_1")
              (Quiet.next (starting 0) (Quiet.next (sending false) Quiet.here refl refl) refl refl)
              refl refl)
            refl refl)
          refl refl)
        refl refl)
      refl refl

apart_run-Quiet_example : Quiet (after history start)
apart_run-Quiet_example = apart_run-Quiet false "t_0" (after history start) apart
