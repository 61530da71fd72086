-- ===== src/Adapter/OneTurn.antt =====
-- internal/adapter/turn.go: every run of a turn session keeps its turns apart.
use capd.Prelude.{
  ℕ, String, Bool, true, false, not, ◌&&◌, none, some, [], ◌∷◌, get_elem?, set, sum_of,
  if◌then◌else◌, ◌==◌, ◌≡◌, refl, arith, sum_of-append, sum_of-set, ◌∙◌, sym, ap, subst, ◌⊎◌, inr,
}
use capd.Protocol.{task_done, Members, error, member, text, no_members}
use capd.Adapter.Turn.{
  Emission, Phase, running, leaving, ended, Turn, TurnSession, new_turn_session_resumed, send, emit,
  emit_all, keep_native_id, ended_data, unstarted_data, release, start_failed, deliver, is_counted,
  cancel, close, push_event, close_events, or_data,
}
use capd.Adapter.Schedule.{
  Action, sending, starting, failing, reading, finishing, delivering, canceling, closing, shutting,
  is_accepted, is_running, is_leaving, put_back, at, go_on, read_line, finish, step, Run, here,
  next, at-taken,
}
use capd.Adapter.Exclusion.{
  occupies, has_ended, is_done, Emits, emit-Emits, emit_all-Emits, Sound, holder-set, holder,
  send-Sound, cancel-Sound,
}

started-Sound :
    (s : TurnSession) (i : ℕ) (t : Turn)
    → get_elem? s.turns i ≡ some t
    → is_accepted t.phase ≡ true
    → Sound s
    → Sound (put_back i (go_on (t, s)))
started-Sound s i t e k h = record {
  occupied =
      ground
        (arith, k, h.occupied, sum_of-set occupies s.turns i t (record t { phase = running }) e);
  current =
      holder-set s.turns s.cancel_turn i t (record t { phase = running }) e (ground (arith, k))
      ∙ h.current;
  answered =
      ground
        (arith, k, h.answered, sum_of-set has_ended s.turns i t (record t { phase = running }) e);
}

-- A turn that runs on, and one that releases the session, behind some emissions.
ran_on-Sound :
    (s s' : TurnSession) (i : ℕ) (t t' : Turn)
    → get_elem? s.turns i ≡ some t
    → is_running t.phase ≡ true
    → Emits t t' s s'
    → Sound s
    → Sound (put_back i (t', s'))
ran_on-Sound s s' i t t' e k m h = record {
  occupied =
      ap (λ ts. sum_of occupies (set ts i t')) m.turns
      ∙ ground (arith, k, m.phase, m.busy, h.occupied, sum_of-set occupies s.turns i t t' e);
  current =
      ap (λ ts. holder (set ts i t') s'.cancel_turn) m.turns
      ∙ ap (λ c. holder (set s.turns i t') c) m.cancel_turn
      ∙ holder-set s.turns s.cancel_turn i t t' e (ground (arith, m.phase))
      ∙ h.current
      ∙ ap (λ b. if b then 1 else 0) (sym m.busy);
  answered =
      subst (λ ts. (s'.panicked ≡ true) ⊎ (sum_of is_done s'.sent ≡ sum_of has_ended (set ts i t')))
        (sym m.turns)
        (ground (
          arith,
          k,
          m.phase,
          m.dones,
          m.panics,
          h.answered,
          sum_of-set has_ended s.turns i t t' e,
        ));
}

released-Sound :
    (s s' : TurnSession) (i : ℕ) (t t' : Turn) (fields : Members)
    → get_elem? s.turns i ≡ some t
    → is_running t.phase ≡ true
    → Emits t t' s s'
    → Sound s
    → Sound (put_back i (release fields (t', s')))
unfolding release
released-Sound s s' i t t' fields e k m h = record {
  occupied =
      ap (λ ts. sum_of occupies (set ts i gone)) m.turns
      ∙ ground (arith, k, h.occupied, sum_of-set occupies s.turns i t gone e);
  current = refl;
  answered =
      subst
        (λ ts. (s'.panicked ≡ true) ⊎ (sum_of is_done s'.sent ≡ sum_of has_ended (set ts i gone)))
        (sym m.turns)
        (ground (arith, k, m.dones, m.panics, h.answered, sum_of-set has_ended s.turns i t gone e));
}
  where
    gone : Turn
    gone = record t' { phase = leaving; done = some (or_data t'.done fields) }

pushed :
    (ev : Emission) (s : TurnSession)
    → ((push_event ev s).turns ≡ s.turns)
      × ((push_event ev s).cancel_turn ≡ s.cancel_turn)
      × ((push_event ev s).busy ≡ s.busy)
unfolding push_event
pushed ev s = ground arith

delivered-Sound :
    (s : TurnSession) (i : ℕ) (t : Turn)
    → get_elem? s.turns i ≡ some t
    → is_leaving t.phase ≡ true
    → Sound s
    → Sound (put_back i (deliver (t, s)))
unfolding deliver push_event
delivered-Sound s i t e k h = record {
  occupied =
      ground (arith, k, h.occupied, sum_of-set occupies s.turns i t (record t { phase = ended }) e);
  current =
      let same = pushed (task_done, or_data t.done no_members) s in
      ap
        (λ ts.
          holder (set ts i out) (push_event (task_done, or_data t.done no_members) s).cancel_turn)
        same.0
      ∙ ap (λ c. holder (set s.turns i out) c) same.1
      ∙ holder-set s.turns s.cancel_turn i t out e (ground (arith, k))
      ∙ h.current
      ∙ ap (λ b. if b then 1 else 0) (sym same.2);
  answered = ground (
    arith,
    k,
    h.answered,
    sum_of-set has_ended s.turns i t (record t { phase = ended }) e,
    sum_of-append is_done s.sent ((task_done, or_data t.done no_members) ∷ []),
  );
}
  where
    out : Turn
    out = record t { phase = ended }

unchanged : (t : Turn) (s : TurnSession) → Emits t t s s
unchanged t s = record {
  phase = refl;
  turns = refl;
  busy = refl;
  cancel_turn = refl;
  dones = refl;
  panics = inr refl;
}

named-Emits :
    (id : String) (t t' : Turn) (s s' : TurnSession)
    → Emits t t' s s'
    → Emits t t' s (keep_native_id id s')
named-Emits id t t' s s' m = record {
  phase = m.phase;
  turns = ground (arith, m.turns);
  busy = ground (arith, m.busy);
  cancel_turn = ground (arith, m.cancel_turn);
  dones = ground (arith, m.dones);
  panics = ground (arith, m.panics);
}

failed-Sound :
    (s : TurnSession) (i : ℕ) (t : Turn) (drop : Bool) (e : String)
    → get_elem? s.turns i ≡ some t
    → is_running t.phase ≡ true
    → Sound s
    → Sound (put_back i (start_failed drop e (t, s)))
unfolding start_failed
failed-Sound s i t drop e k r h = go t.canceled
  where
    ev : Emission
    ev = (error, member "message" (text e) no_members)

    go :
        (b : Bool)
        → Sound (
            put_back i
              (release (unstarted_data t.canceled) (if b then (t, s) else emit drop ev (t, s))))
    go true = released-Sound s s i t t (unstarted_data t.canceled) k r (unchanged t s) h
    go false =
        released-Sound s (emit drop ev (t, s)).1 i t (emit drop ev (t, s)).0
          (unstarted_data t.canceled) k r (emit-Emits drop ev t s) h

close-Sound : (s : TurnSession) → Sound s → Sound (close s)
unfolding close
close-Sound s h = go s.closed
  where
    begun : Sound (record s { closed = true })
    begun = record { occupied = h.occupied; current = h.current; answered = h.answered }

    go : (b : Bool) → Sound (if b then s else cancel (record s { closed = true }))
    go true = h
    go false = cancel-Sound (record s { closed = true }) begun

closed-Sound : (s : TurnSession) → Sound s → Sound (close_events s)
unfolding close_events
closed-Sound s h = record { occupied = h.occupied; current = h.current; answered = h.answered }

-- A part of a turn keeps what it keeps of every turn that has come so far.
at-Sound :
    (want : Phase → Bool) (part : Turn × TurnSession → Turn × TurnSession) (i : ℕ)
    (s u : TurnSession)
    → ((t : Turn)
        → get_elem? s.turns i ≡ some t
        → want t.phase ≡ true
        → Sound (put_back i (part (t, s))))
    → at want part i s ≡ some u
    → Sound u
at-Sound want part i s u f e =
    let taken = at-taken want part i s u e in subst Sound taken.3 (f taken.0 taken.1 taken.2)

some-inj : {A : Type 0} (P : A → Type 0) (a b : A) → some a ≡ some b → P a → P b
some-inj P a b e h = subst P (ground (arith, e)) h

step-Sound : (a : Action) (s u : TurnSession) → step a s ≡ some u → Sound s → Sound u
unfolding step
step-Sound (sending images) s u e h = some-inj Sound (send images s).1 u e (send-Sound images s h)
step-Sound (starting i) s u e h =
    at-Sound is_accepted go_on i s u (λ t k r. started-Sound s i t k r h) e
step-Sound (failing i drop msg) s u e h =
    at-Sound is_running (start_failed drop msg) i s u (λ t k r. failed-Sound s i t drop msg k r h) e
step-Sound (reading i evs id) s u e h =
    at-Sound is_running (read_line evs id) i s u
      (λ t k r.
        ran_on-Sound s (keep_native_id id (emit_all evs (t, s)).1) i t (emit_all evs (t, s)).0 k r
          (named-Emits id t (emit_all evs (t, s)).0 s (emit_all evs (t, s)).1
            (emit_all-Emits evs t s))
          h)
      e
step-Sound (finishing i wait_err) s u e h =
    at-Sound is_running (finish wait_err) i s u
      (λ t k r. released-Sound s s i t t (ended_data t.canceled wait_err) k r (unchanged t s) h) e
step-Sound (delivering i) s u e h =
    at-Sound is_leaving deliver i s u (λ t k r. delivered-Sound s i t k r h) e
step-Sound canceling s u e h = some-inj Sound (cancel s) u e (cancel-Sound s h)
step-Sound closing s u e h = some-inj Sound (close s) u e (close-Sound s h)
step-Sound shutting s u e h =
    go (s.closed && (not s.channel_closed && (sum_of is_counted s.turns == 0))) e
  where
    go : (b : Bool) → (if b then some (close_events s) else none) ≡ some u → Sound u
    go true k = some-inj Sound (close_events s) u k (closed-Sound s h)
    go false k = absurd (ground (arith, k))

new-Sound : (images : Bool) (id : String) → Sound (new_turn_session_resumed images id)
unfolding new_turn_session_resumed
new-Sound images id = record { occupied = refl; current = refl; answered = inr refl }

-- In every run of a session, however its calls and turns interleave: at most one turn holds the
-- session, it is the one that Cancel would cancel, and the session is busy exactly while there is one;
-- and unless a goroutine has panicked, as many task.done were sent as turns have returned.
pub run_from_new-Sound :
    (images : Bool) (id : String) (s : TurnSession)
    → Run (new_turn_session_resumed images id) s
    → Sound s
run_from_new-Sound images id s here = new-Sound images id
run_from_new-Sound images id s (next {t} a before e) =
    step-Sound a t s e (run_from_new-Sound images id t before)
