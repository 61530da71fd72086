-- ===== src/Session/Exclusive.antt =====
-- internal/session/manager.go: at most one revival of a session runs at a time, however calls of Resolve
-- interleave.
use capd.Prelude.{
  ℕ, ◌+◌, ◌≤◌, ◌==◌, String, Bool, true, false, not, ◌&&◌, Option, none, some, List, [], ◌∷◌, ◌++◌,
  Result, ok, err, any, keep, lookup, str_eq, if◌then◌else◌, get_elem?, set, sum_of, sum_of-append,
  sum_of-set, sum_of-le, ◌≡◌, refl, sym, ap, ◌∙◌, subst, inl, inr, Bool-cases, eq_iff, arith,
}
use capd.Protocol.{Code}
use capd.Session.Store.{Codec, Store, load_session}
use capd.Session.Pump.{Session}
use capd.Session.Manager.{
  Manager, register, drop_ended, joins, revives, begin_revival, dropped, ReviveIo, revive_record,
}
use capd.Session.Revival.{
  Stage, looking, found, stale, missed, begun, settled, joined, answered, Caller, World, Move,
  looks, asks_ended, drops, claims, starts, releases, is_handed, looked, claimed, registered,
  released, started, advance, Action, calling, moving, elsewhere, put, move_found, step, Run, here,
  next,
}

-- A call that has begun a revival and has not yet taken it off the registry.
abbrev pub is_reviving : Stage → Bool
is_reviving begun = true
is_reviving (settled r) = true
is_reviving looking = false
is_reviving (found s) = false
is_reviving (stale s) = false
is_reviving missed = false
is_reviving joined = false
is_reviving (answered r) = false

abbrev pub revives_id : String → Caller → ℕ
revives_id id c = if str_eq c.id id && is_reviving c.stage then 1 else 0

-- How many calls revive a session.
abbrev pub revivals : String → World → ℕ
revivals id w = sum_of (revives_id id) w.callers

abbrev pub listed : String → Manager → ℕ
listed id m = if any (λ r. str_eq r id) m.reviving then 1 else 0

-- What a part of a call does to the list of revivals is what it does to its own being one.
abbrev Balanced : String → Manager → Stage → Option (Stage × Manager) → Type 0
Balanced id m stage none = Unit
Balanced id m stage (some (stage', m')) =
    (j : String)
    → revives_id j (record { id = id; stage = stage }) ≤ listed j m
    → listed j m' + revives_id j (record { id = id; stage = stage })
      ≡ listed j m + revives_id j (record { id = id; stage = stage' })

same_id : (id j : String) → str_eq id j ≡ true → id ≡ j
same_id id j h = let (to, _) = eq_iff id j in to h

claimed-Balanced :
    (id : String) (store : Option Store) (m : Manager)
    → Balanced id m missed (some (claimed (begin_revival id store m)))
claimed-Balanced id none m j h = ground arith
claimed-Balanced id (some st) m j h = elim (Bool-cases (any (λ r. str_eq r id) m.reviving)) [
  | inl busy ↦ rw busy (ground arith)
  | inr idle ↦ rw idle (elim (Bool-cases (str_eq id j)) [
    | inl e ↦
        ground
          (arith, e, subst (λ k. any (λ r. str_eq r k) m.reviving ≡ false) (same_id id j e) idle)
    | inr e ↦ ground (arith, e)
  ])
]

any-kept :
    (id j : String) (rs : List String)
    → any (λ r. str_eq r j) (keep (λ r. not (str_eq r id)) rs)
      ≡ (if str_eq id j then false else any (λ r. str_eq r j) rs)
any-kept id j [] = ground arith
any-kept id j (r ∷ rs) = ground (arith, any-kept id j rs, eq_iff r id, eq_iff r j, eq_iff id j)

released-Balanced :
    (id : String) (m : Manager) (r : Result Code Session)
    → Balanced id m (settled r) (some (answered r, released id m))
released-Balanced id m r j h = elim (Bool-cases (str_eq id j)) [
  | inl e ↦ ground (arith, e, h, any-kept id j m.reviving)
  | inr e ↦ ground (arith, e, any-kept id j m.reviving)
]

-- A part that leaves the list as it was, in a call that does not begin or end a revival.
kept-Balanced :
    (id : String) (m m' : Manager) (stage stage' : Stage)
    → m'.reviving ≡ m.reviving
    → is_reviving stage ≡ is_reviving stage'
    → Balanced id m stage (some (stage', m'))
kept-Balanced id m m' stage stage' h k j le =
    ap
      (λ rs.
        (if any (λ r. str_eq r j) rs then 1 else 0)
        + revives_id j (record { id = id; stage = stage }))
      h
    ∙ ap (λ b. listed j m + (if str_eq id j && b then 1 else 0)) k

dropped-reviving :
    (id : String) (s : Session) (m : Manager) (o : Option Session)
    → (dropped id s m o).reviving ≡ m.reviving
dropped-reviving id s m none = refl
dropped-reviving id s m (some cur) = ground arith

looked-is_reviving : (o : Option Session) → false ≡ is_reviving (looked o)
looked-is_reviving none = refl
looked-is_reviving (some s) = refl

registered-Balanced :
    (id : String) (m : Manager) (r : Result Code Session)
    → Balanced id m begun (some (registered m r))
registered-Balanced id m (ok s) = kept-Balanced id m (register s m) begun (settled (ok s)) refl refl
registered-Balanced id m (err c) = kept-Balanced id m m begun (settled (err c)) refl refl

started-Balanced :
    (json : Codec) (io : ReviveIo) (id : String) (m : Manager) (store : Option Store)
    → Balanced id m begun (started json io id m store)
started-Balanced json io id m none = tt
started-Balanced json io id m (some st) =
    registered-Balanced id m (revive_record json io (load_session json io.load id st) m st)

asked-Balanced :
    (id : String) (m : Manager) (s : Session) (over : Bool)
    → Balanced id m (found s) (some (if over then stale s else answered (ok s), m))
asked-Balanced id m s true = kept-Balanced id m m (found s) (stale s) refl refl
asked-Balanced id m s false = kept-Balanced id m m (found s) (answered (ok s)) refl refl

advance-Balanced :
    (json : Codec) (id : String) (m : Manager) (move : Move) (stage : Stage)
    → Balanced id m stage (advance json id m move stage)
unfolding advance
advance-Balanced json id m looks looking =
    kept-Balanced id m m looking _ refl (looked-is_reviving (lookup id m.sessions))
advance-Balanced json id m (asks_ended over) (found s) = asked-Balanced id m s over
advance-Balanced json id m drops (stale s) =
    kept-Balanced id m (drop_ended id s m) (stale s) missed
      (dropped-reviving id s m (lookup id m.sessions)) refl
advance-Balanced json id m claims missed = claimed-Balanced id m.store m
advance-Balanced json id m (starts io) begun = started-Balanced json io id m m.store
advance-Balanced json id m releases (settled r) = released-Balanced id m r
advance-Balanced json id m (is_handed r) joined = kept-Balanced id m m joined (answered r) refl refl
advance-Balanced json id m move stage = tt

abbrev Counted : World → Type 0
Counted w = (j : String) → revivals j w ≡ listed j w.manager

carried : (w u : World) → some w ≡ some u → Counted w → Counted u
carried w u e k = subst Counted {x = w} {y = u} (ground (arith, e)) k

put-Counted :
    (i : ℕ) (c : Caller) (moved : Option (Stage × Manager)) (w u : World)
    → get_elem? w.callers i ≡ some c
    → Balanced c.id w.manager c.stage moved
    → put i c moved w ≡ some u
    → Counted w
    → Counted u
put-Counted i c none w u e b h k = absurd (ground (arith, h))
put-Counted i c (some (stage, m)) w u e b h k =
    carried (record { manager = m; callers = set w.callers i (record c { stage = stage }) }) u h
      λ j. omega (
        arith,
        k j,
        sum_of-set (revives_id j) w.callers i c (record c { stage = stage }) e,
        sum_of-le (revives_id j) w.callers i c e,
        b j (subst (λ n. revives_id j c ≤ n) (k j) (sum_of-le (revives_id j) w.callers i c e)),
      )

move_found-Counted :
    (json : Codec) (i : ℕ) (move : Move) (w u : World) (o : Option Caller)
    → get_elem? w.callers i ≡ o
    → move_found json i move w o ≡ some u
    → Counted w
    → Counted u
move_found-Counted json i move w u none e h k = absurd (ground (arith, h))
move_found-Counted json i move w u (some c) e h k =
    put-Counted i c (advance json c.id w.manager move c.stage) w u e
      (advance-Balanced json c.id w.manager move c.stage) h k

step-Counted :
    (json : Codec) (a : Action) (w u : World) → step json a w ≡ some u → Counted w → Counted u
unfolding step
step-Counted json (calling id) w u e k =
    carried (record w { callers = w.callers ++ (record { id = id; stage = looking } ∷ []) }) u e
      λ j.
        sum_of-append (revives_id j) w.callers (record { id = id; stage = looking } ∷ [])
        ∙ ground (arith, k j)
step-Counted json (moving i move) w u e k =
    move_found-Counted json i move w u (get_elem? w.callers i) refl e k
step-Counted json (elsewhere m) w u e k =
    carried (record w { manager = record m { reviving = w.manager.reviving } }) u e k

run-Counted : (json : Codec) (w u : World) → Run json w u → Counted w → Counted u
run-Counted json w u here k = k
run-Counted json w u (next {u = t} a before e) k =
    step-Counted json a t u e (run-Counted json w t before k)

abbrev pub no_calls : Manager → World
no_calls m = record { manager = m; callers = [] }

-- However calls of Resolve for any sessions interleave, with each other and with any other change of the
-- registry, from a registry where nothing is being revived: the calls that revive a session are one
-- where it is listed as being revived, and otherwise none; and a call that comes to the claim joins
-- where there is one, and revives the session itself where there is none.
pub run-Exclusive :
    (json : Codec) (m : Manager) (w : World) (id : String) (st : Store)
    → m.reviving ≡ []
    → Run json (no_calls m) w
    → (revivals id w ≡ (if any (λ r. str_eq r id) w.manager.reviving then 1 else 0))
      × ((begin_revival id (some st) w.manager).0
          ≡ (if revivals id w == 0 then revives st else joins))
run-Exclusive json m w id st idle run =
    let counted : revivals id w ≡ listed id w.manager =
      run-Counted json (no_calls m) w run
        (λ j. ap (λ rs. if any (λ r. str_eq r j) rs then 1 else 0) (sym idle)) id in
    (
      counted,
      elim (Bool-cases (any (λ r. str_eq r id) w.manager.reviving)) [
        | inl busy ↦ ground (arith, counted, busy)
        | inr free ↦ ground (arith, counted, free)
      ],
    )
