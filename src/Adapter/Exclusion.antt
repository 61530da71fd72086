-- ===== src/Adapter/Exclusion.antt =====
-- internal/adapter/turn.go: one turn at a time, and one task.done for each.
use capd.Prelude.{
  ℕ, zero, suc, Bool, true, false, Option, none, some, List, [], ◌∷◌, get_elem?, set, sum_of,
  if◌then◌else◌, ◌≡◌, refl, arith, sum_of-append, sum_of-set, get_elem?-append, ◌∙◌, ◌⊎◌, inr,
}
use capd.Protocol.{is_task_done}
use capd.Adapter.Turn.{
  Emission, accepted, running, leaving, ended, Turn, TurnSession, send, emit, emit_all, cancel,
  cancel_of, cancel_found, push_event,
}

-- The turn holds the session: it was accepted and has not released it.
abbrev pub occupies : Turn → ℕ
occupies t = elim (t.phase) [ accepted ↦ 1 | running ↦ 1 | leaving ↦ 0 | ended ↦ 0 ]

abbrev pub has_ended : Turn → ℕ
has_ended t = elim (t.phase) [ accepted ↦ 0 | running ↦ 0 | leaving ↦ 0 | ended ↦ 1 ]

abbrev pub is_done : Emission → ℕ
is_done ev = if is_task_done ev.0 then 1 else 0

-- Emitting leaves all of the session but what was sent, and sends no task.done.
pub record Emits (t t' : Turn) (s s' : TurnSession) : Type 0 where
  pub phase : t'.phase ≡ t.phase
  pub turns : s'.turns ≡ s.turns
  pub busy : s'.busy ≡ s.busy
  pub cancel_turn : s'.cancel_turn ≡ s.cancel_turn
  pub dones : sum_of is_done s'.sent ≡ sum_of is_done s.sent
  pub panics : (s'.panicked ≡ true) ⊎ (s'.panicked ≡ s.panicked)

pub emit-Emits :
    (drop : Bool) (ev : Emission) (t : Turn) (s : TurnSession)
    → Emits t (emit drop ev (t, s)).0 s (emit drop ev (t, s)).1
unfolding emit push_event
emit-Emits drop ev t s = ground (arith, sum_of-append is_done s.sent (ev ∷ []))

pub emit_all-Emits :
    (evs : List (Bool × Emission)) (t : Turn) (s : TurnSession)
    → Emits t (emit_all evs (t, s)).0 s (emit_all evs (t, s)).1
unfolding emit_all
emit_all-Emits [] t s = record {
  phase = refl;
  turns = refl;
  busy = refl;
  cancel_turn = refl;
  dones = refl;
  panics = inr refl;
}
emit_all-Emits ((drop, ev) ∷ evs) t s =
    let first = emit-Emits drop ev t s in
    let rest = emit_all-Emits evs (emit drop ev (t, s)).0 (emit drop ev (t, s)).1 in
    record {
      phase = rest.phase ∙ first.phase;
      turns = rest.turns ∙ first.turns;
      busy = rest.busy ∙ first.busy;
      cancel_turn = rest.cancel_turn ∙ first.cancel_turn;
      dones = rest.dones ∙ first.dones;
      panics = ground (arith, rest.panics, first.panics);
    }

-- What the turn that `cancelTurn` cancels weighs.
abbrev pub occupies_at : Option Turn → ℕ
occupies_at none = 0
occupies_at (some t) = occupies t

abbrev pub holder : List Turn → Option ℕ → ℕ
holder turns none = 0
holder turns (some i) = occupies_at (get_elem? turns i)

-- One turn holds a busy session, the one that Cancel cancels, and none another; and task.done was sent
-- once for each turn that has returned.
pub record Sound (s : TurnSession) : Type 0 where
  pub occupied : sum_of occupies s.turns ≡ (if s.busy then 1 else 0)
  pub current : holder s.turns s.cancel_turn ≡ (if s.busy then 1 else 0)
  pub answered : (s.panicked ≡ true) ⊎ (sum_of is_done s.sent ≡ sum_of has_ended s.turns)

occupies_at-set :
    (turns : List Turn) (i j : ℕ) (old t : Turn)
    → get_elem? turns i ≡ some old
    → occupies t ≡ occupies old
    → occupies_at (get_elem? (set turns i t) j) ≡ occupies_at (get_elem? turns j)
occupies_at-set [] i j old t h e = refl
occupies_at-set (x ∷ xs) zero zero old t h e = ground (arith, h, e)
occupies_at-set (x ∷ xs) zero (suc j) old t h e = refl
occupies_at-set (x ∷ xs) (suc i) zero old t h e = refl
occupies_at-set (x ∷ xs) (suc i) (suc j) old t h e = occupies_at-set xs i j old t h e

pub holder-set :
    (turns : List Turn) (c : Option ℕ) (i : ℕ) (old t : Turn)
    → get_elem? turns i ≡ some old
    → occupies t ≡ occupies old
    → holder (set turns i t) c ≡ holder turns c
holder-set turns none i old t h e = refl
holder-set turns (some j) i old t h e = occupies_at-set turns i j old t h e

pub send-Sound : (images : Bool) (s : TurnSession) → Sound s → Sound (send images s).1
unfolding send
send-Sound images s h = record {
  occupied = ground (arith, h.occupied, sum_of-append occupies s.turns (fresh ∷ []));
  current = ground (arith, h.current, get_elem?-append s.turns fresh);
  answered = ground (arith, h.answered, sum_of-append has_ended s.turns (fresh ∷ []));
}
  where
    fresh : Turn
    fresh = record { native_id = s.native_id; phase = accepted; canceled = false; done = none }

canceled-Sound :
    (s : TurnSession) (i : ℕ) (t : Turn)
    → get_elem? s.turns i ≡ some t
    → Sound s
    → Sound (record s { turns = set s.turns i (record t { canceled = true }) })
canceled-Sound s i t e h = record {
  occupied =
      ground (arith, h.occupied, sum_of-set occupies s.turns i t (record t { canceled = true }) e);
  current = holder-set s.turns s.cancel_turn i t (record t { canceled = true }) e refl ∙ h.current;
  answered =
      ground (arith, h.answered, sum_of-set has_ended s.turns i t (record t { canceled = true }) e);
}

pub cancel-Sound : (s : TurnSession) → Sound s → Sound (cancel s)
unfolding cancel
cancel-Sound s h = go s.cancel_turn
  where
    found : (i : ℕ) (o : Option Turn) → get_elem? s.turns i ≡ o → Sound (cancel_found s i o)
    found i none e = h
    found i (some t) e = canceled-Sound s i t e h

    go : (c : Option ℕ) → Sound (cancel_of s c)
    go none = h
    go (some i) = found i (get_elem? s.turns i) refl
