-- ===== src/Codex/Answered.antt =====
-- internal/adapter/codex/rpc.go: every call that is in flight gets one answer, also when the server dies.
use capd.Prelude.{
  ℕ, zero, suc, String, Bool, true, false, not, ◌&&◌, Option, none, some, List, [], ◌∷◌, get_elem?,
  map, if◌then◌else◌, ◌≡◌, refl, arith, All, All-append, length-append, inl, inr, subst, str_eq,
}
use capd.Codex.Rpc.{
  Answer, exited, Call, RpcClient, RpcMessage, Incoming, server_request, notification, nothing,
  fresh_call, answer_call, set_found, with_call, answer_of, respond_to, on_message, on_parsed, die,
  enter_map, wrote, receive, give_up,
}
use capd.Codex.Calls.{
  RpcAction, beginning, entering, writing, receiving, giving_up, incoming, dying, is_numbered,
  is_writing, is_waiting, has_answer, rpc_step, RpcRun, here, next, Fair, AllFair, All-set, All-get,
  at_call-AllFair,
}

answer_call-Fair :
    (dead : Bool) (a : Answer) (call : Call) → Fair dead call → Fair true (answer_call a call)
answer_call-Fair dead a call h = record {
  at_most_one = ground (arith, h.at_most_one, length-append call.answers (a ∷ []));
  one_in_flight =
      ground (arith, h.one_in_flight, h.at_most_one, length-append call.answers (a ∷ []));
  none_when_numbered = ground (arith, h.none_when_numbered, length-append call.answers (a ∷ []));
  none_when_dead = ground arith;
}

-- What a live server leaves: nothing of a call is pending only because the server is gone.
revived : (call : Call) → Fair true call → Fair false call
revived call h = record {
  at_most_one = h.at_most_one;
  one_in_flight = h.one_in_flight;
  none_when_numbered = h.none_when_numbered;
  none_when_dead = refl;
}

answered-Fair :
    (dead : Bool) (a : Answer) (call : Call) → Fair dead call → Fair dead (answer_call a call)
answered-Fair true a call h = answer_call-Fair true a call h
answered-Fair false a call h = revived (answer_call a call) (answer_call-Fair false a call h)

with_call-AllFair :
    (id : ℕ) (a : Answer) (c : RpcClient) → AllFair c → AllFair (with_call id (answer_call a) c)
with_call-AllFair zero a c h = h
with_call-AllFair (suc i) a c h = found (get_elem? c.calls i) refl
  where
    found : (o : Option Call) → get_elem? c.calls i ≡ o → AllFair (set_found i (answer_call a) c o)
    found none e = h
    found (some call) e =
        All-set (Fair c.dead) c.calls i (answer_call a call) h
          (answered-Fair c.dead a call (All-get (Fair c.dead) c.calls i call h e))

respond_to-AllFair :
    (msg : RpcMessage) (id : Option ℕ) (c : RpcClient) → AllFair c → AllFair (respond_to msg id c)
respond_to-AllFair msg none c h = h
respond_to-AllFair msg (some id) c h = with_call-AllFair id (answer_of msg msg.error) c h

on_parsed-AllFair :
    (parse_id : String → Option ℕ) (line : Option RpcMessage) (c : RpcClient)
    → AllFair c
    → AllFair (on_parsed parse_id line c).1
unfolding on_message
on_parsed-AllFair parse_id none c h = h
on_parsed-AllFair parse_id (some msg) c h =
    go (not (str_eq msg.method "") && not (str_eq msg.id "")) (not (str_eq msg.method ""))
      (not (str_eq msg.id ""))
  where
    go :
        (a b d : Bool)
        → let r : Incoming × RpcClient =
            if a
            then (server_request msg.id msg.method msg.params, c)
            else if b
            then (notification msg.method msg.params, c)
            else if d
            then (nothing, respond_to msg (parse_id msg.id) c)
            else (nothing, c) in
          AllFair r.1
    go true b d = h
    go false true d = h
    go false false true = respond_to-AllFair msg (parse_id msg.id) c h
    go false false false = h

die-AllFair :
    (dead : Bool) (calls : List Call)
    → All (Fair dead) calls
    → All (Fair true) (map (answer_call exited) calls)
die-AllFair dead [] h = tt
die-AllFair dead (call ∷ calls) h =
    (answer_call-Fair dead exited call h.0, die-AllFair dead calls h.1)

enter_map-Fair :
    (dead : Bool) (call : Call)
    → is_numbered call.stage ≡ true
    → Fair dead call
    → Fair dead (enter_map dead call)
enter_map-Fair true call k h = record {
  at_most_one = h.at_most_one;
  one_in_flight = inl refl;
  none_when_numbered = inl refl;
  none_when_dead = h.none_when_dead;
}
enter_map-Fair false call k h = record {
  at_most_one = ground (arith, k, h.none_when_numbered);
  one_in_flight = ground (arith, k, h.none_when_numbered);
  none_when_numbered = inl refl;
  none_when_dead = refl;
}

wrote-Fair :
    (sent dead : Bool) (call : Call)
    → is_writing call.stage ≡ true
    → Fair dead call
    → Fair dead (wrote sent call)
wrote-Fair true dead call k h = record {
  at_most_one = h.at_most_one;
  one_in_flight = ground (arith, k, h.one_in_flight);
  none_when_numbered = inl refl;
  none_when_dead = h.none_when_dead;
}
wrote-Fair false dead call k h = record {
  at_most_one = ground (arith, h.at_most_one);
  one_in_flight = inl refl;
  none_when_numbered = inl refl;
  none_when_dead = ground arith;
}

receive-Fair :
    (dead : Bool) (answers : List Answer) (call : Call)
    → Fair dead call
    → Fair dead (receive answers call)
receive-Fair dead [] call h = h
receive-Fair dead (a ∷ rest) call h = record {
  at_most_one = h.at_most_one;
  one_in_flight = inl refl;
  none_when_numbered = inl refl;
  none_when_dead = h.none_when_dead;
}

give_up-Fair : (dead : Bool) (call : Call) → Fair dead call → Fair dead (give_up call)
give_up-Fair dead call h = record {
  at_most_one = ground (arith, h.at_most_one);
  one_in_flight = inl refl;
  none_when_numbered = inl refl;
  none_when_dead = ground arith;
}

fresh-Fair : (dead : Bool) → Fair dead fresh_call
fresh-Fair dead = record {
  at_most_one = omega arith;
  one_in_flight = inl refl;
  none_when_numbered = inr refl;
  none_when_dead = ground arith;
}

module _ (parse_id : String → Option ℕ) where
  rpc_step-AllFair :
      (a : RpcAction) (c d : RpcClient) → rpc_step parse_id a c ≡ some d → AllFair c → AllFair d
  unfolding rpc_step die
  rpc_step-AllFair beginning c d e h =
      subst AllFair (ground (arith, e))
        (All-append (Fair c.dead) c.calls (fresh_call ∷ []) h (fresh-Fair c.dead, tt))
  rpc_step-AllFair (entering i) c d e h =
      at_call-AllFair (λ call. is_numbered call.stage) (enter_map c.dead) i c d
        (enter_map-Fair c.dead) h e
  rpc_step-AllFair (writing i sent) c d e h =
      at_call-AllFair (λ call. is_writing call.stage) (wrote sent) i c d (wrote-Fair sent c.dead) h
        e
  rpc_step-AllFair (receiving i) c d e h =
      at_call-AllFair (λ call. is_waiting call.stage && has_answer call.answers)
        (λ call. receive call.answers call) i c d
        (λ call k m. receive-Fair c.dead call.answers call m) h e
  rpc_step-AllFair (giving_up i) c d e h =
      at_call-AllFair (λ call. is_waiting call.stage) give_up i c d
        (λ call k m. give_up-Fair c.dead call m) h e
  rpc_step-AllFair (incoming line) c d e h = go c.dead e
    where
      go :
          (b : Bool) → (if b then none else some (on_parsed parse_id line c).1) ≡ some d → AllFair d
      go true k = absurd (ground (arith, k))
      go false k = subst AllFair (ground (arith, k)) (on_parsed-AllFair parse_id line c h)
  rpc_step-AllFair dying c d e h = go c.dead e
    where
      go : (b : Bool) → (if b then none else some (die c)) ≡ some d → AllFair d
      go true k = absurd (ground (arith, k))
      go false k = subst AllFair (ground (arith, k)) (die-AllFair c.dead c.calls h)

  -- In every run of a connection, for every call: at most one answer is sent on its channel, whose
  -- buffer holds one, so the read loop never blocks on it; a call that has been put into the map and has
  -- not returned has been sent its answer or is still there, and one that is not yet put there has been
  -- sent none; and once the server is gone no call is in the map.
  pub rpc_run-AllFair : (c : RpcClient) → RpcRun parse_id c → AllFair c
  rpc_run-AllFair c here = tt
  rpc_run-AllFair c (next {c = before} a run e) =
      rpc_step-AllFair a before c e (rpc_run-AllFair before run)
