-- ===== src/Codex/Calls.antt =====
-- internal/adapter/codex/rpc.go: the runs of a connection, and what holds of each of its calls.
use capd.Prelude.{
  ℕ, zero, suc, ◌+◌, String, Bool, true, false, ◌&&◌, Option, none, some, List, [], ◌∷◌, length,
  get_elem?, set, if◌then◌else◌, ◌≡◌, refl, arith, All, ◌⊎◌, ◌≤◌, subst,
}
use capd.Codex.Rpc.{
  Answer, Stage, numbered, written_to, waiting, Call, RpcClient, RpcMessage, new_client, on_parsed,
  die, begin_call, enter_map, wrote, receive, give_up,
}

-- One part of a call, or one line or the end of the read loop.
pub data RpcAction : Type 0 where
  beginning : RpcAction
  entering : ℕ → RpcAction
  writing : ℕ → Bool → RpcAction
  receiving : ℕ → RpcAction
  giving_up : ℕ → RpcAction
  incoming : Option RpcMessage → RpcAction
  dying : RpcAction

abbrev pub is_numbered : Stage → Bool
is_numbered numbered = true
is_numbered _ = false

abbrev pub is_writing : Stage → Bool
is_writing written_to = true
is_writing _ = false

abbrev pub is_waiting : Stage → Bool
is_waiting waiting = true
is_waiting _ = false

abbrev pub has_answer : List Answer → Bool
has_answer [] = false
has_answer (a ∷ rest) = true

abbrev pub changed_call :
    (Call → Bool) → (Call → Call) → ℕ → RpcClient → Option Call → Option RpcClient
changed_call want change i c none = none
changed_call want change i c (some call) =
    if want call then some (record c { calls = set c.calls i (change call) }) else none

-- A part of the call at a place, where it has come so far.
abbrev pub at_call : (Call → Bool) → (Call → Call) → ℕ → RpcClient → Option RpcClient
at_call want change i c = changed_call want change i c (get_elem? c.calls i)

module _ (parse_id : String → Option ℕ) where
  -- What an action leaves; `none` where it cannot happen now. The read loop ends once.
  unfoldable pub rpc_step : RpcAction → RpcClient → Option RpcClient
  unfolding begin_call
  rpc_step beginning c = some (begin_call c)
  rpc_step (entering i) c = at_call (λ call. is_numbered call.stage) (enter_map c.dead) i c
  rpc_step (writing i sent) c = at_call (λ call. is_writing call.stage) (wrote sent) i c
  rpc_step (receiving i) c =
      at_call (λ call. is_waiting call.stage && has_answer call.answers)
        (λ call. receive call.answers call) i c
  rpc_step (giving_up i) c = at_call (λ call. is_waiting call.stage) give_up i c
  rpc_step (incoming line) c = if c.dead then none else some (on_parsed parse_id line c).1
  rpc_step dying c = if c.dead then none else some (die c)

  pub data RpcRun : RpcClient → Type 0 where
    here : RpcRun new_client
    next : {c d : RpcClient} (a : RpcAction) → RpcRun c → rpc_step a c ≡ some d → RpcRun d

-- How many answers a call has been sent, and whether one can still come.
abbrev pub due : Call → ℕ
due call = if call.pending then 1 else 0

abbrev pub in_flight : Stage → Bool
in_flight written_to = true
in_flight waiting = true
in_flight _ = false

-- A call in flight has one answer or will be sent one, and no call more than one; no call is in the map
-- of a server that is gone.
pub record Fair (dead : Bool) (call : Call) : Type 0 where
  pub at_most_one : length call.answers + due call ≤ 1
  pub one_in_flight : (in_flight call.stage ≡ false) ⊎ (length call.answers + due call ≡ 1)
  pub none_when_numbered : (is_numbered call.stage ≡ false) ⊎ (length call.answers + due call ≡ 0)
  pub none_when_dead : (dead && call.pending) ≡ false

abbrev pub AllFair : RpcClient → Type 0
AllFair c = All (Fair c.dead) c.calls

pub All-set :
    {A : Type 0} (P : A → Type 0) (xs : List A) (i : ℕ) (v : A)
    → All P xs
    → P v
    → All P (set xs i v)
All-set P [] i v h k = tt
All-set P (x ∷ xs) zero v h k = (k, h.1)
All-set P (x ∷ xs) (suc i) v h k = (h.0, All-set P xs i v h.1 k)

pub All-get :
    {A : Type 0} (P : A → Type 0) (xs : List A) (i : ℕ) (v : A)
    → All P xs
    → get_elem? xs i ≡ some v
    → P v
All-get P [] i v h e = absurd (ground (arith, e))
All-get P (x ∷ xs) zero v h e = subst P (ground (arith, e)) h.0
All-get P (x ∷ xs) (suc i) v h e = All-get P xs i v h.1 e

pub at_call-AllFair :
    (want : Call → Bool) (change : Call → Call) (i : ℕ) (c d : RpcClient)
    → ((call : Call) → want call ≡ true → Fair c.dead call → Fair c.dead (change call))
    → AllFair c
    → at_call want change i c ≡ some d
    → AllFair d
at_call-AllFair want change i c d keeps h e = found (get_elem? c.calls i) refl e
  where
    taken :
        (call : Call) (b : Bool)
        → want call ≡ b
        → get_elem? c.calls i ≡ some call
        → (if b then some (record c { calls = set c.calls i (change call) }) else none) ≡ some d
        → AllFair d
    taken call true w k m = subst AllFair (ground (arith, m)) (
        All-set (Fair c.dead) c.calls i (change call) h
          (keeps call w (All-get (Fair c.dead) c.calls i call h k)))
    taken call false w k m = absurd (ground (arith, m))

    found :
        (o : Option Call)
        → get_elem? c.calls i ≡ o
        → changed_call want change i c o ≡ some d
        → AllFair d
    found none k m = absurd (ground (arith, m))
    found (some call) k m = taken call (want call) refl k m
