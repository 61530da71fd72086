-- ===== src/Session/Lifecycle.antt =====
-- internal/session/manager.go: creating a session, on every path.
use capd.Prelude.{
  ◌≡◌, refl, ap, ◌∙◌, ◌⊎◌, inl, inr, String, Bool, true, false, Option, none, some, List, ◌∷◌,
  Result, ok, err, lookup, insert, remove, lookup-insert, lookup-remove, eq_refl, if◌then◌else◌,
}
use capd.Protocol.{Code, internal_error, agent_not_found}
use capd.Session.Store.{Codec, StoreError, Io, Store, SessionRecord}
use capd.Session.Pump.{Inner, Session}
use capd.Session.Manager.{
  Manager, SessionOpts, has_agent, new_session, create, create_started, saved, save,
}

lookup-insert_self :
    (id : String) (s : Session) (m : List (String × Session)) → lookup id (insert id s m) ≡ some s
lookup-insert_self id s m = lookup-insert id id s m ∙ rw (eq_refl id)

pub lookup-remove_self :
    (id : String) (m : List (String × Session)) → lookup id (remove id m) ≡ none
lookup-remove_self id m = lookup-remove id id m ∙ rw (eq_refl id)

-- What Create makes of the registry.
abbrev pub CreateOutcome : Option Inner → String → Manager → Result Code Session × Manager → Type 0
CreateOutcome start id m (ok s, m') =
    (lookup id m'.sessions ≡ some s) × (s.id ≡ id) × (m'.shut ≡ m.shut) × (start ≡ some s.inner)
CreateOutcome none id m (err c, m') = m' ≡ m
CreateOutcome (some inner) id m (err c, m') =
    (m'.sessions ≡ m.sessions)
    × ((m'.shut ≡ inner.handle ∷ m.shut) × (c ≡ internal_error) ⊎ (m' ≡ m) × (c ≡ agent_not_found))

save_frame :
    (json : Codec) (io : Io) (rec : SessionRecord) (st : Option Store) (m : Manager)
    → ((save json io rec st m).1.sessions ≡ m.sessions) × ((save json io rec st m).1.shut ≡ m.shut)
unfolding save
save_frame json io rec none m = (refl, refl)
save_frame json io rec (some st) m = (refl, refl)

saved-CreateOutcome :
    (id agent_id : String) (inner : Inner) (m : Manager)
    (w : Result StoreError (Unit {0}) × Manager)
    → w.1.sessions ≡ m.sessions
    → w.1.shut ≡ m.shut
    → CreateOutcome (some inner) id m (saved (new_session id agent_id inner) w)
saved-CreateOutcome id agent_id inner m (ok _, m') e h =
    (lookup-insert_self id (new_session id agent_id inner) m'.sessions, refl, h, refl)
saved-CreateOutcome id agent_id inner m (err x, m') e h = (e, inl (ap (◌∷◌ inner.handle) h, refl))

started-CreateOutcome :
    (json : Codec) (io : Io) (id agent_id : String) (opts : SessionOpts) (m : Manager)
    (start : Option Inner)
    → CreateOutcome start id m (create_started json io id agent_id opts m start)
started-CreateOutcome json io id agent_id opts m none = refl
started-CreateOutcome json io id agent_id opts m (some inner) =
    let (sessions, shut) = save_frame json io _ m.store m in
    saved-CreateOutcome id agent_id inner m (save json io _ m.store m) sessions shut

known-CreateOutcome :
    (known : Bool) (start : Option Inner) (id : String) (m : Manager)
    (started : Result Code Session × Manager)
    → CreateOutcome start id m started
    → CreateOutcome start id m (if known then started else (err agent_not_found, m))
known-CreateOutcome true start id m started h = h
known-CreateOutcome false none id m started h = refl
known-CreateOutcome false (some inner) id m started h = (refl, inr (refl, refl))

-- Create either registers a session on the adapter's session that was started, or leaves the registered
-- sessions as they were; then an adapter session that was started has been closed, or the agent is
-- unknown and none was asked for.
pub create-CreateOutcome :
    (json : Codec) (io : Io) (start : Option Inner) (id agent_id : String) (opts : SessionOpts)
    (m : Manager)
    → CreateOutcome start id m (create json io start id agent_id opts m)
unfolding create
create-CreateOutcome json io start id agent_id opts m =
    known-CreateOutcome (has_agent agent_id m) start id m _
      (started-CreateOutcome json io id agent_id opts m start)
