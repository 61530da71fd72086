-- ===== src/Session/RevivalExamples.antt =====
-- internal/session/manager.go: two calls of Resolve for one session that only the store has.
use capd.Prelude.{
  ℕ, insert, Option, none, some, List, [], ◌∷◌, lookup, any, str_eq, if◌then◌else◌, ◌==◌, ◌≡◌, refl,
}
use capd.Session.Store.{load_session, load_recent_events, next_seq}
use capd.Session.Pump.{Session}
use capd.Session.Manager.{begin_revival, joins, revives, ReviveIo, restore}
use capd.Session.Revival.{
  begun, World, looks, claims, starts, releases, advance, Action, calling, moving, step, Run, here,
  next,
}
use capd.Session.Examples.{json, inner, store, reviving, restarted}
use capd.Session.Exclusive.{revivals, no_calls, run-Exclusive}

-- The adapter starts a session of the given handle.
abbrev starting : ℕ → ReviveIo
starting n = record reviving { start = λ _. some (record inner { handle = n }) }

-- Actions in order; none where one of them cannot happen.
unfoldable play : List Action → Option World → Option World
unfolding step
play [] w = w
play (a ∷ actions) none = none
play (a ∷ actions) (some w) = play actions (step json a w)

-- Both calls miss, and the first one revives the session before the second one comes to the claim.
abbrev both_miss : List Action
both_miss =
    calling "s_1"
    ∷ calling "s_1"
    ∷ moving 0 looks
    ∷ moving 1 looks
    ∷ moving 0 claims
    ∷ moving 0 (starts (starting 3))
    ∷ moving 0 releases
    ∷ moving 1 claims
    ∷ moving 1 (starts (starting 4))
    ∷ moving 1 releases
    ∷ []

-- The handles of the sessions under "s_1", and those that were closed.
abbrev handles : Option Session → List ℕ
handles none = []
handles (some s) = s.inner.handle ∷ []

abbrev seen : Option World → Option (List ℕ × List ℕ)
seen none = none
seen (some w) = some (handles (lookup "s_1" w.manager.sessions), w.manager.shut)

-- The second session replaces the first, which nobody closes.
revived_twice : seen (play both_miss (some (no_calls restarted))) ≡ some (4 ∷ [], [])
unfolding play step advance lookup load_session restore load_recent_events next_seq insert
revived_twice = refl

abbrev claimed_world : World
claimed_world = record {
  manager = record restarted { reviving = "s_1" ∷ [] };
  callers = record { id = "s_1"; stage = begun } ∷ [];
}

claimed_run : Run json (no_calls restarted) claimed_world
unfolding step advance lookup
claimed_run =
    next (moving 0 claims) (next (moving 0 looks) (next (calling "s_1") here refl) refl) refl

run-Exclusive_example :
    (revivals "s_1" claimed_world
      ≡ (if any (λ r. str_eq r "s_1") claimed_world.manager.reviving then 1 else 0))
    × ((begin_revival "s_1" (some store) claimed_world.manager).0
        ≡ (if revivals "s_1" claimed_world == 0 then revives store else joins))
run-Exclusive_example = run-Exclusive json restarted claimed_world "s_1" store refl claimed_run
