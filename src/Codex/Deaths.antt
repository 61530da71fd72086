-- ===== src/Codex/Deaths.antt =====
-- internal/adapter/codex/appserver.go: what the death of an app-server does to the sessions of its profile.
use capd.Prelude.{
  ℕ, zero, suc, ◌+◌, ◌<◌, String, Bool, true, false, Option, none, some, List, [], ◌∷◌, ◌++◌,
  length, get_elem?, set, insert, remove, ◌==◌, Bool-cases, inl, inr, ◌≡◌, ◌≢◌, refl, ap, ◌∙◌, sym,
  subst, All, arith, get_elem?-set,
}
use capd.Codex.AppSession.{AppSession, start_app_session}
use capd.Codex.Engine.{
  Profile, Startup, ensured, ensure_client, register, change_found, change_at, end_session, end_all,
  handle_engine_death,
}

abbrev pub is_closed : Option AppSession → Bool
is_closed none = true
is_closed (some s) = s.closed

end_session_closes : (s : AppSession) → (end_session s).closed ≡ true
unfolding end_session
end_session_closes s = refl

get_elem?-set_other :
    {A : Type 0} (xs : List A) (i j : ℕ) (v : A) → i ≢ j → get_elem? (set xs i v) j ≡ get_elem? xs j
get_elem?-set_other [] i j v h = refl
get_elem?-set_other (x ∷ xs) zero zero v h = absurd (h refl)
get_elem?-set_other (x ∷ xs) zero (suc j) v h = refl
get_elem?-set_other (x ∷ xs) (suc i) zero v h = refl
get_elem?-set_other (x ∷ xs) (suc i) (suc j) v h = get_elem?-set_other xs i j v (λ e. h (ap suc e))

change_at_other :
    (i j : ℕ) (heap : List AppSession)
    → i ≢ j
    → get_elem? (change_at end_session i heap) j ≡ get_elem? heap j
change_at_other i j heap h = found (get_elem? heap i)
  where
    found :
        (o : Option AppSession) → get_elem? (change_found end_session i heap o) j ≡ get_elem? heap j
    found none = refl
    found (some s) = get_elem?-set_other heap i j (end_session s) h

-- A session in none of the rows is as it was.
end_all_other :
    (rows : List (String × ℕ)) (j : ℕ) (heap : List AppSession)
    → All (λ row. row.1 ≢ j) rows
    → get_elem? (end_all rows heap) j ≡ get_elem? heap j
unfolding end_all
end_all_other [] j heap h = refl
end_all_other ((thread, i) ∷ rows) j heap h =
    end_all_other rows j (change_at end_session i heap) h.1 ∙ change_at_other i j heap h.0

closed_at_here :
    (i : ℕ) (heap : List AppSession) → is_closed (get_elem? (change_at end_session i heap) i) ≡ true
closed_at_here i heap = found (get_elem? heap i) refl
  where
    found :
        (o : Option AppSession)
        → get_elem? heap i ≡ o
        → is_closed (get_elem? (change_found end_session i heap o) i) ≡ true
    found none e = ap is_closed e
    found (some s) e =
        ap is_closed (get_elem?-set heap i s (end_session s) e) ∙ end_session_closes s

closed_at_kept :
    (i j : ℕ) (heap : List AppSession)
    → is_closed (get_elem? heap j) ≡ true
    → is_closed (get_elem? (change_at end_session i heap) j) ≡ true
closed_at_kept i j heap h = elim (Bool-cases (i == j)) [
  | inl e ↦
      subst (λ k. is_closed (get_elem? (change_at end_session i heap) k) ≡ true) (ground (arith, e))
        (closed_at_here i heap)
  | inr e ↦ ap is_closed (change_at_other i j heap (λ k. ground (arith, e, k))) ∙ h
]

end_all_kept :
    (rows : List (String × ℕ)) (j : ℕ) (heap : List AppSession)
    → is_closed (get_elem? heap j) ≡ true
    → is_closed (get_elem? (end_all rows heap) j) ≡ true
unfolding end_all
end_all_kept [] j heap h = h
end_all_kept ((thread, i) ∷ rows) j heap h =
    end_all_kept rows j (change_at end_session i heap) (closed_at_kept i j heap h)

end_all_closes :
    (rows : List (String × ℕ)) (heap : List AppSession)
    → All (λ row. is_closed (get_elem? (end_all rows heap) row.1) ≡ true) rows
unfolding end_all
end_all_closes [] heap = tt
end_all_closes ((thread, i) ∷ rows) heap = (
  end_all_kept rows i (change_at end_session i heap) (closed_at_here i heap),
  end_all_closes rows (change_at end_session i heap),
)

-- The death of the app-server closes every session that the profile has, forgets them and the client,
-- and leaves every other session as it was.
pub handle_engine_death_lem :
    (p : Profile) (j : ℕ)
    → All (λ row. row.1 ≢ j) p.sessions
    → All (λ row. is_closed (get_elem? (handle_engine_death p).heap row.1) ≡ true) p.sessions
      × ((handle_engine_death p).sessions ≡ [])
      × ((handle_engine_death p).client ≡ none)
      × (get_elem? (handle_engine_death p).heap j ≡ get_elem? p.heap j)
unfolding handle_engine_death
handle_engine_death_lem p j h =
    (end_all_closes p.sessions p.heap, refl, refl, end_all_other p.sessions j p.heap h)

abbrev all_well : Startup
all_well = record { started = none; initialized = none }

get_elem?-append_left :
    {A : Type 0} (xs ys : List A) (i : ℕ) → i < length xs → get_elem? (xs ++ ys) i ≡ get_elem? xs i
get_elem?-append_left [] ys i h = absurd (omega arith)
get_elem?-append_left (x ∷ xs) ys zero h = refl
get_elem?-append_left (x ∷ xs) ys (suc i) h = get_elem?-append_left xs ys i (omega arith)

abbrev revived : Profile → Profile
revived p = record p { client = some p.next_client; next_client = p.next_client + 1; sessions = [] }

ensure_client_dead :
    (p : Profile) (c : ℕ) → p.client ≡ some c → (ensure_client false all_well p).1 ≡ revived p
unfolding ensure_client
ensure_client_dead p c h = ap (λ o. (ensured false all_well p o).1) h

-- What the late handler does to a profile with one session, the newest of its heap.
late_end :
    (p : Profile) (thread : String) (room i : ℕ)
    → i < length p.heap
    → let after = handle_engine_death (register thread room (revived p)) in
      (after.client ≡ none)
      × (is_closed (get_elem? after.heap (length p.heap)) ≡ true)
      × (get_elem? after.heap i ≡ get_elem? p.heap i)
unfolding handle_engine_death register insert remove end_all
late_end p thread room i bound = (
  refl,
  closed_at_here (length p.heap) (p.heap ++ start_app_session thread room ∷ []),
  change_at_other (length p.heap) i (p.heap ++ start_app_session thread room ∷ [])
        (λ e. omega (arith, e))
      ∙ get_elem?-append_left p.heap (start_app_session thread room ∷ []) i bound,
)

-- Where the handler of a death runs only after the next session has found the client dead and started
-- another: that session, of the new client, is closed; the profile forgets the client, which lives; and
-- no session of the old client is ended by it, neither closed nor told.
pub late_death :
    (p : Profile) (c : ℕ) (thread : String) (room i : ℕ)
    → p.client ≡ some c
    → i < length p.heap
    → let revived = (ensure_client false (record { started = none; initialized = none }) p).1 in
      let after = handle_engine_death (register thread room revived) in
      (revived.client ≡ some p.next_client)
      × (after.client ≡ none)
      × (is_closed (get_elem? after.heap (length p.heap)) ≡ true)
      × (get_elem? after.heap i ≡ get_elem? p.heap i)
late_death p c thread room i h bound =
    let e = ensure_client_dead p c h in
    subst
      (λ q.
        let after = handle_engine_death (register thread room q) in
        (q.client ≡ some p.next_client)
        × (after.client ≡ none)
        × (is_closed (get_elem? after.heap (length p.heap)) ≡ true)
        × (get_elem? after.heap i ≡ get_elem? p.heap i))
      (sym e)
      (
        refl,
        (late_end p thread room i bound).0,
        (late_end p thread room i bound).1,
        (late_end p thread room i bound).2,
      )
