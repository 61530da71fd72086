-- ===== src/Session/Revival.antt =====
-- internal/session/manager.go: calls of Resolve for any sessions, interleaved. A call is cut at the
-- places where it takes the registry's lock, and any other call may run between two of its parts.
use capd.Prelude.{
  ℕ, String, Bool, not, Option, none, some, List, [], ◌∷◌, ◌++◌, Result, ok, err, lookup, keep,
  str_eq, if◌then◌else◌, get_elem?, set, ◌≡◌,
}
use capd.Protocol.{Code, session_not_found}
use capd.Session.Store.{Codec, Store, load_session}
use capd.Session.Pump.{Session}
use capd.Session.Manager.{
  Manager, Begin, live, unknown, joins, revives, register, drop_ended, begin_revival, ReviveIo,
  revive_record,
}

-- How far a call has come: it found a session, the session had ended, it has none; it has begun a
-- revival, whose result stands behind the registry's lock; it waits for another one's.
pub data Stage : Type 0 where
  looking : Stage
  found : Session → Stage
  stale : Session → Stage
  missed : Stage
  begun : Stage
  settled : Result Code Session → Stage
  joined : Stage
  answered : Result Code Session → Stage

pub record Caller : Type 0 where
  pub id : String
  pub stage : Stage

pub record World : Type 0 where
  pub manager : Manager
  pub callers : List Caller

-- The next part of a call, with what its calls outside the registry answer: isEnded, the store and the
-- adapter, and the call that it joined.
pub data Move : Type 0 where
  looks : Move
  asks_ended : Bool → Move
  drops : Move
  claims : Move
  starts : ReviveIo → Move
  releases : Move
  is_handed : Result Code Session → Move

abbrev pub looked : Option Session → Stage
looked none = missed
looked (some s) = found s

abbrev pub claimed : Begin × Manager → Stage × Manager
claimed (live s, m) = (answered (ok s), m)
claimed (unknown, m) = (answered (err session_not_found), m)
claimed (joins, m) = (joined, m)
claimed (revives st, m) = (begun, m)

-- m.sessions[s.ID] = s, where the revival has a session.
abbrev pub registered : Manager → Result Code Session → Stage × Manager
registered m (ok s) = (settled (ok s), register s m)
registered m (err c) = (settled (err c), m)

-- What stands between the locked parts of a revival, from the store and the adapter of that time; a
-- call comes there only with a store.
abbrev pub started : Codec → ReviveIo → String → Manager → Option Store → Option (Stage × Manager)
started json io id m none = none
started json io id m (some st) =
    some (registered m (revive_record json io (load_session json io.load id st) m st))

-- The deferred delete(m.reviving, id).
abbrev pub released : String → Manager → Manager
released id m = record m { reviving = keep (λ r. not (str_eq r id)) m.reviving }

-- One part of Resolve for `id`, where the call has come so far.
unfoldable pub advance : Codec → String → Manager → Move → Stage → Option (Stage × Manager)
advance json id m looks looking = some (looked (lookup id m.sessions), m)
advance json id m (asks_ended over) (found s) = some (if over then stale s else answered (ok s), m)
advance json id m drops (stale s) = some (missed, drop_ended id s m)
advance json id m claims missed = some (claimed (begin_revival id m.store m))
advance json id m (starts io) begun = started json io id m m.store
advance json id m releases (settled r) = some (answered r, released id m)
advance json id m (is_handed r) joined = some (answered r, m)
advance json id m move stage = none

pub data Action : Type 0 where
  calling : String → Action
  moving : ℕ → Move → Action
  elsewhere : Manager → Action

abbrev pub put : ℕ → Caller → Option (Stage × Manager) → World → Option World
put i c none w = none
put i c (some (stage, m)) w =
    some (record { manager = m; callers = set w.callers i (record c { stage = stage }) })

abbrev pub move_found : Codec → ℕ → Move → World → Option Caller → Option World
move_found json i move w none = none
move_found json i move w (some c) = put i c (advance json c.id w.manager move c.stage) w

-- A new call of Resolve, a part of one, or any other change of the registry: no other method touches
-- `reviving`.
unfoldable pub step : Codec → Action → World → Option World
unfolding advance
step json (calling id) w =
    some (record w { callers = w.callers ++ (record { id = id; stage = looking } ∷ []) })
step json (moving i move) w = move_found json i move w (get_elem? w.callers i)
step json (elsewhere m) w = some (record w { manager = record m { reviving = w.manager.reviving } })

pub data Run (json : Codec) (w : World) : World → Type 0 where
  here : Run json w w
  next : {u v : World} (a : Action) → Run json w u → step json a u ≡ some v → Run json w v
