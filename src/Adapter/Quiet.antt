-- ===== src/Adapter/Quiet.antt =====
-- internal/adapter/turn.go: where no Send is under way as Close returns, nothing is sent on the closed channel.
use capd.Prelude.{
  ℕ, ◌+◌, String, Bool, true, false, Option, none, some, List, [], ◌∷◌, get_elem?, sum_of,
  if◌then◌else◌, ◌≡◌, refl, arith, sum_of-set, sum_of-le, subst, ◌⊎◌, inl, inr,
}
use capd.Protocol.{error, member, text, no_members}
use capd.Adapter.Turn.{
  Emission, Phase, accepted, running, leaving, ended, Turn, TurnSession, new_turn_session_resumed,
  send, emit, emit_all, keep_native_id, release, start_failed, deliver, is_counted, cancel,
  cancel_of, cancel_found, close, push_event, close_events,
}
use capd.Adapter.Schedule.{
  Action, sending, starting, failing, reading, finishing, delivering, canceling, closing, shutting,
  is_accepted, is_running, is_leaving, at, go_on, read_line, finish, step, at-taken,
}

abbrev pub waits : Turn → ℕ
waits t = elim (t.phase) [ accepted ↦ 1 | running ↦ 0 | leaving ↦ 0 | ended ↦ 0 ]

abbrev pub is_open : Turn → ℕ
is_open t = elim (t.phase) [ accepted ↦ 1 | running ↦ 1 | leaving ↦ 1 | ended ↦ 0 ]

-- How many turns are between the Unlock of Send and their start as Close goes past its wait.
abbrev pub overlaps : Action → TurnSession → ℕ
overlaps shutting s = sum_of waits s.turns
overlaps _ s = 0

-- A run in which Close does not overtake a Send.
pub data ApartRun (s : TurnSession) : TurnSession → Type 0 where
  here : ApartRun s s
  next :
      {t u : TurnSession} (a : Action)
      → ApartRun s t
      → overlaps a t ≡ 0
      → step a t ≡ some u
      → ApartRun s u

-- The channel is open, or the session is closed and no turn is left that could send.
pub record Quiet (s : TurnSession) : Type 0 where
  pub no_panic : s.panicked ≡ false
  pub shut : (s.channel_closed ≡ false) ⊎ ((s.closed ≡ true) × (sum_of is_open s.turns ≡ 0))

-- What a part of a turn does to an open channel: it stays open, and no panic comes of it.
abbrev Opened : TurnSession → Type 0
Opened s = (s.channel_closed ≡ false) × (s.panicked ≡ false)

emit-Opened :
    (drop : Bool) (ev : Emission) (t : Turn) (s : TurnSession)
    → Opened s
    → Opened (emit drop ev (t, s)).1
unfolding emit push_event
emit-Opened drop ev t s h = ground (arith, h.0, h.1)

emit_all-Opened :
    (evs : List (Bool × Emission)) (t : Turn) (s : TurnSession)
    → Opened s
    → Opened (emit_all evs (t, s)).1
unfolding emit_all
emit_all-Opened [] t s h = h
emit_all-Opened ((drop, ev) ∷ evs) t s h =
    emit_all-Opened evs (emit drop ev (t, s)).0 (emit drop ev (t, s)).1 (emit-Opened drop ev t s h)

start_failed-Opened :
    (drop : Bool) (e : String) (t : Turn) (s : TurnSession)
    → Opened s
    → Opened (start_failed drop e (t, s)).1
unfolding start_failed release
start_failed-Opened drop e t s h =
    ground (arith, h.0, h.1, emit-Opened drop (error, member "message" (text e) no_members) t s h)

finished-Opened :
    (wait_err : Option String) (t : Turn) (s : TurnSession)
    → Opened s
    → Opened (finish wait_err (t, s)).1
unfolding release
finished-Opened wait_err t s h = h

deliver-Opened : (t : Turn) (s : TurnSession) → Opened s → Opened (deliver (t, s)).1
unfolding deliver push_event
deliver-Opened t s h = ground (arith, h.0, h.1)

-- The parts of a turn, on a session that is quiet: the turn is one of those left, so the channel is open.
at-Quiet :
    (want : Phase → Bool) (part : Turn × TurnSession → Turn × TurnSession) (i : ℕ)
    (s u : TurnSession)
    → ((t : Turn) → want t.phase ≡ true → is_open t ≡ 1)
    → ((t : Turn) → Opened s → Opened (part (t, s)).1)
    → Quiet s
    → at want part i s ≡ some u
    → Quiet u
at-Quiet want part i s u left keeps h e =
    let taken = at-taken want part i s u e in
    let t = taken.0 in
    subst Quiet taken.3 (elim (h.shut) [
      | inl open' ↦
          let after = keeps t (open', h.no_panic) in
          record { no_panic = after.1; shut = inl after.0 }
      | inr gone ↦
          absurd (omega (arith, sum_of-le is_open s.turns i t taken.1, left t taken.2, gone.1))
    ])

cancel-Quiet : (s : TurnSession) → Quiet s → Quiet (cancel s)
unfolding cancel
cancel-Quiet s h = go s.cancel_turn
  where
    found : (i : ℕ) (o : Option Turn) → get_elem? s.turns i ≡ o → Quiet (cancel_found s i o)
    found i none e = h
    found i (some t) e = record {
      no_panic = h.no_panic;
      shut =
          ground (arith, h.shut, sum_of-set is_open s.turns i t (record t { canceled = true }) e);
    }

    go : (c : Option ℕ) → Quiet (cancel_of s c)
    go none = h
    go (some i) = found i (get_elem? s.turns i) refl

close-Quiet : (s : TurnSession) → Quiet s → Quiet (close s)
unfolding close
close-Quiet s h = go s.closed
  where
    begun : Quiet (record s { closed = true })
    begun = record { no_panic = h.no_panic; shut = ground (arith, h.shut) }

    go : (b : Bool) → Quiet (if b then s else cancel (record s { closed = true }))
    go true = h
    go false = cancel-Quiet (record s { closed = true }) begun

send-Quiet : (images : Bool) (s : TurnSession) → Quiet s → Quiet (send images s).1
unfolding send
send-Quiet images s h = record {
  no_panic = ground (arith, h.no_panic);
  shut = ground (arith, h.shut);
}

sum_of-is_open : (ts : List Turn) → sum_of is_open ts ≡ sum_of is_counted ts + sum_of waits ts
sum_of-is_open [] = refl
sum_of-is_open (t ∷ ts) = ground (arith, sum_of-is_open ts)

shutting-Quiet :
    (s u : TurnSession) → Quiet s → sum_of waits s.turns ≡ 0 → step shutting s ≡ some u → Quiet u
unfolding step close_events
shutting-Quiet s u h apart e = record {
  no_panic = ground (arith, h.no_panic, e);
  shut = ground (arith, e, apart, sum_of-is_open s.turns);
}

some-Quiet : (s u : TurnSession) → some s ≡ some u → Quiet s → Quiet u
some-Quiet s u e h = subst Quiet (ground (arith, e)) h

step-Quiet :
    (a : Action) (s u : TurnSession) → overlaps a s ≡ 0 → step a s ≡ some u → Quiet s → Quiet u
unfolding step
step-Quiet (sending images) s u o e h = some-Quiet (send images s).1 u e (send-Quiet images s h)
step-Quiet (starting i) s u o e h =
    at-Quiet is_accepted go_on i s u (λ t k. ground (arith, k)) (λ t k. k) h e
step-Quiet (failing i drop msg) s u o e h =
    at-Quiet is_running (start_failed drop msg) i s u (λ t k. ground (arith, k))
      (λ t k. start_failed-Opened drop msg t s k) h e
step-Quiet (reading i evs id) s u o e h =
    at-Quiet is_running (read_line evs id) i s u (λ t k. ground (arith, k))
      (λ t k. named_opened id (emit_all evs (t, s)).1 (emit_all-Opened evs t s k)) h e
  where
    named_opened : (id : String) (t : TurnSession) → Opened t → Opened (keep_native_id id t)
    named_opened id t k = ground (arith, k.0, k.1)
step-Quiet (finishing i wait_err) s u o e h =
    at-Quiet is_running (finish wait_err) i s u (λ t k. ground (arith, k))
      (λ t k. finished-Opened wait_err t s k) h e
step-Quiet (delivering i) s u o e h =
    at-Quiet is_leaving deliver i s u (λ t k. ground (arith, k)) (λ t k. deliver-Opened t s k) h e
step-Quiet canceling s u o e h = some-Quiet (cancel s) u e (cancel-Quiet s h)
step-Quiet closing s u o e h = some-Quiet (close s) u e (close-Quiet s h)
step-Quiet shutting s u o e h = shutting-Quiet s u h o e

new-Quiet : (images : Bool) (id : String) → Quiet (new_turn_session_resumed images id)
unfolding new_turn_session_resumed
new-Quiet images id = record { no_panic = refl; shut = inl refl }

-- In every run in which no Send stands between its Unlock and the start of its turn as Close closes the
-- channel, no goroutine sends on the closed channel; and once it is closed no turn is left.
pub apart_run-Quiet :
    (images : Bool) (id : String) (s : TurnSession)
    → ApartRun (new_turn_session_resumed images id) s
    → Quiet s
apart_run-Quiet images id s here = new-Quiet images id
apart_run-Quiet images id s (next {t} a before o e) =
    step-Quiet a t s o e (apart_run-Quiet images id t before)
