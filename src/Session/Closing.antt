-- ===== src/Session/Closing.antt =====
-- internal/session/manager.go: Close, on every path, and what Resolve answers behind it.
use mathlib.Core.Path.{ap₂}
use capd.Prelude.{
  ℕ, ◌≡◌, refl, ap, subst, ◌∙◌, String, Option, none, some, List, ◌∷◌, Result, ok, err, lookup,
  remove, lookup-remove, str_eq, if◌then◌else◌,
}
use capd.Protocol.{Code, internal_error, session_not_found}
use capd.Session.Store.{Codec, StoreError, Io, Store, SessionRecord, load_session, mark_ended}
use capd.Session.Pump.{Session}
use capd.Session.Manager.{
  Manager, written, close, close_live, close_found, close_stored, mark_result,
}
use capd.Session.Lifecycle.{lookup-remove_self}

-- What the write of a session's end answers, and the store behind it; without a store there is none.
abbrev pub end_answer : Codec → Io → String → Option Store → Result StoreError (Unit {0})
end_answer json io id none = ok tt
end_answer json io id (some st) = (mark_ended json io id st).0

abbrev pub end_store : Codec → Io → String → Option Store → Option Store
end_store json io id none = none
end_store json io id (some st) = some (mark_ended json io id st).1

-- Of a registered session: only where the write was answered with success is the adapter's Close
-- called, and its answer the result.
abbrev pub ClosedLive :
    Result StoreError (Unit {0})
    → Session
    → List ℕ
    → Result Code (Unit {0})
    → Result Code (Unit {0}) × Manager
    → Type 0
ClosedLive (ok _) s shut closing after =
    (after.1.shut ≡ s.inner.handle ∷ shut) × (after.0 ≡ closing)
ClosedLive (err e) s shut closing after = (after.1.shut ≡ shut) × (after.0 ≡ err internal_error)

abbrev pub end_code : Result StoreError (Unit {0}) → Result Code (Unit {0})
end_code (ok _) = ok tt
end_code (err e) = err internal_error

-- Of a session that only the store knows: it is written where it could be read.
abbrev pub ClosedStored :
    Codec
    → Io
    → String
    → Store
    → Result StoreError SessionRecord
    → Result Code (Unit {0}) × Manager
    → Type 0
ClosedStored json io id st (ok rec) after =
    (after.0 ≡ end_code (mark_ended json io id st).0)
    × (after.1.store ≡ some (mark_ended json io id st).1)
ClosedStored json io id st (err e) after =
    (after.0 ≡ err session_not_found) × (after.1.store ≡ some st)

-- What Close answers, on which handles the adapter's Close has then been called, and the store.
abbrev pub CloseOutcome :
    Codec
    → Io
    → Io
    → Result Code (Unit {0})
    → String
    → Option Session
    → Option Store
    → List ℕ
    → Result Code (Unit {0}) × Manager
    → Type 0
CloseOutcome json load io closing id (some s) store shut after =
    ClosedLive (end_answer json io id store) s shut closing after
    × (after.1.store ≡ end_store json io id store)
CloseOutcome json load io closing id none none shut after =
    (after.1.shut ≡ shut) × (after.0 ≡ err session_not_found) × (after.1.store ≡ none)
CloseOutcome json load io closing id none (some st) shut after =
    (after.1.shut ≡ shut) × ClosedStored json io id st (load_session json load id st) after

close_live-ClosedLive :
    (closing : Result Code (Unit {0})) (s : Session) (m : Manager)
    (r : Result StoreError (Unit {0})) (st : Option Store)
    → let after = close_live closing s (r, record m { store = st }) in
      ClosedLive r s m.shut closing after × (after.1.store ≡ st) × (after.1.sessions ≡ m.sessions)
close_live-ClosedLive closing s m (ok _) st = ((refl, refl), refl, refl)
close_live-ClosedLive closing s m (err e) st = ((refl, refl), refl, refl)

mark_result_frame :
    (w : Result StoreError (Unit {0}) × Manager)
    → ((mark_result w).1.shut ≡ w.1.shut)
      × ((mark_result w).1.sessions ≡ w.1.sessions)
      × ((mark_result w).0 ≡ end_code w.0)
      × ((mark_result w).1.store ≡ w.1.store)
mark_result_frame (ok _, m) = (refl, refl, refl, refl)
mark_result_frame (err e, m) = (refl, refl, refl, refl)

close_stored-ClosedStored :
    (json : Codec) (io : Io) (id : String) (st : Store) (m : Manager)
    (r : Result StoreError SessionRecord)
    → m.store ≡ some st
    → let after = close_stored json io id st m r in
      ((after.1.shut ≡ m.shut) × ClosedStored json io id st r after)
      × (after.1.sessions ≡ m.sessions)
close_stored-ClosedStored json io id st m (err e) h = ((refl, (refl, h)), refl)
close_stored-ClosedStored json io id st m (ok rec) h =
    let (shut, sessions, answer, store) =
      mark_result_frame (written m (mark_ended json io id st)) in
    ((shut, (answer, store)), sessions)

close_found-CloseOutcome :
    (json : Codec) (load io : Io) (closing : Result Code (Unit {0})) (id : String)
    (found : Option Session) (store : Option Store) (m : Manager)
    → m.store ≡ store
    → let after = close_found json load io closing id found store m in
      CloseOutcome json load io closing id found store m.shut after
      × (after.1.sessions ≡ m.sessions)
close_found-CloseOutcome json load io closing id none none m h = ((refl, refl, h), refl)
close_found-CloseOutcome json load io closing id none (some st) m h =
    close_stored-ClosedStored json io id st m (load_session json load id st) h
close_found-CloseOutcome json load io closing id (some s) none m h = (((refl, refl), h), refl)
close_found-CloseOutcome json load io closing id (some s) (some st) m h =
    let (outcome, store, sessions) =
      close_live-ClosedLive closing s m (mark_ended json io id st).0
        (some (mark_ended json io id st).1) in
    ((outcome, store), sessions)

-- The adapter's Close is called only on a registered session.
unregistered_shut :
    (json : Codec) (load io : Io) (closing : Result Code (Unit {0})) (id : String)
    (store : Option Store) (shut : List ℕ) (after : Result Code (Unit {0}) × Manager)
    → CloseOutcome json load io closing id none store shut after
    → after.1.shut ≡ shut
unregistered_shut json load io closing id none shut after h = h.0
unregistered_shut json load io closing id (some st) shut after h = h.0

-- After Close the session is not registered, and any other is as before. Of a registered session the
-- end is first written to the store, if there is one: where that fails the answer is an internal error
-- and the adapter's session is left running, and otherwise the adapter's session is closed, and its
-- answer is the result. Of one that is not registered no adapter session is closed: the answer is that
-- there is no such session, without a store or where it cannot be read there, and otherwise success or
-- an internal error by the write of its end. The store is the one behind that write.
pub close-CloseOutcome :
    (json : Codec) (load io : Io) (closing : Result Code (Unit {0})) (id other : String)
    (m : Manager)
    → let after = close json load io closing id m in
      (lookup id after.1.sessions ≡ none)
      × (lookup other after.1.sessions
          ≡ (if str_eq id other then none else lookup other m.sessions))
      × CloseOutcome json load io closing id (lookup id m.sessions) m.store m.shut after
unfolding close
close-CloseOutcome json load io closing id other m =
    let (outcome, frame) =
      close_found-CloseOutcome json load io closing id (lookup id m.sessions) m.store
        (record m { sessions = remove id m.sessions }) refl in
    (
      ap (lookup id) frame ∙ lookup-remove_self id m.sessions,
      ap (lookup other) frame ∙ lookup-remove id other m.sessions,
      outcome,
    )

close_failed_mark :
    (json : Codec) (load io : Io) (closing : Result Code (Unit {0})) (id : String) (s : Session)
    (st : Store) (e : StoreError) (m : Manager)
    → (mark_ended json io id st).0 ≡ err e
    → (close_found json load io closing id (some s) (some st) m).1.shut ≡ m.shut
close_failed_mark json load io closing id s st e m h =
    ap (λ r. (close_live closing s (written m (r, (mark_ended json io id st).1))).1.shut) h

-- A registered session whose end cannot be written is unregistered with its adapter session left
-- running, and no later Close of it, with whatever answers, closes that either.
pub close_leaks :
    (json : Codec) (load io load' io' : Io) (closing closing' : Result Code (Unit {0}))
    (id : String) (s : Session) (st : Store) (e : StoreError) (m : Manager)
    → lookup id m.sessions ≡ some s
    → m.store ≡ some st
    → (mark_ended json io id st).0 ≡ err e
    → let after = (close json load io closing id m).1 in
      (lookup id after.sessions ≡ none)
      × (after.shut ≡ m.shut)
      × ((close json load' io' closing' id after).1.shut ≡ m.shut)
unfolding close
close_leaks json load io load' io' closing closing' id s st e m h k f =
    let after = (close json load io closing id m).1 in
    let gone : lookup id after.sessions ≡ none =
      (close-CloseOutcome json load io closing id id m).0 in
    let kept : after.shut ≡ m.shut =
      ap₂ (λ o t. (close_found json load io closing id o t taken).1.shut) h k
      ∙ close_failed_mark json load io closing id s st e taken f in
    (
      gone,
      kept,
      unregistered_shut json load' io' closing' id after.store after.shut
            (close json load' io' closing' id after)
            (subst
              (λ o.
                CloseOutcome json load' io' closing' id o after.store after.shut
                  (close json load' io' closing' id after))
              gone (close-CloseOutcome json load' io' closing' id id after).2)
          ∙ kept,
    )
  where
    taken : Manager
    taken = record m { sessions = remove id m.sessions }
