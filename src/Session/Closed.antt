-- ===== src/Session/Closed.antt =====
-- internal/session/manager.go: a session that was closed is never revived.
use capd.Prelude.{
  ◌≡◌, refl, ap, ◌∙◌, inl, inr, String, true, false, not, Option, none, some, List, [], ◌∷◌, arith,
  Result, ok, err, lookup, remove, first, any, keep, str_eq, if◌then◌else◌, Option-cases,
}
use capd.Protocol.{Code, session_closed}
use capd.Session.Store.{
  Codec, StoreError, Io, Store, SessionRow, SessionRecord, exec, load_session, mark_ended,
  update_session, to_record,
}
use capd.Session.Pump.{Session}
use capd.Session.Manager.{
  Manager, written, revives, ReviveIo, revive_record, resolve_revive, resolve, close, close_live,
  close_found, close_stored, mark_result, revived, revive_known, resolve_from, joins, begin_with,
  begin_revival,
}
use capd.Session.Closing.{close-CloseOutcome}

abbrev marked : SessionRow → SessionRow
marked r = record r { ended = true }

first-update_session :
    (id : String) (rows : List SessionRow) (row : SessionRow)
    → first (λ r. str_eq r.id id) rows ≡ some row
    → first (λ r. str_eq r.id id) (update_session id marked rows) ≡ some (marked row)
unfolding update_session
first-update_session id [] row h = cc
first-update_session id (r ∷ rows) row h = ground (arith, first-update_session id rows row)

-- A write that is answered with success has been made.
mark_ended-sessions :
    (json : Codec) (io : Io) (id : String) (st : Store)
    → (mark_ended json io id st).0 ≡ ok tt
    → (mark_ended json io id st).1.sessions ≡ update_session id marked st.sessions
unfolding mark_ended exec
mark_ended-sessions json io id st h = elim (Option-cases io.fault) [
  | inl fine ↦ rw (fine, exec) refl
  | inr (e, broken) ↦ absurd (cc (h, broken))
]

load_session-ended :
    (json : Codec) (io : Io) (id : String) (st : Store) (row : SessionRow)
    → io.fault ≡ none
    → first (λ r. str_eq r.id id) st.sessions ≡ some row
    → load_session json io id st ≡ ok (record (to_record json row) { created_at = 0 })
unfolding load_session
load_session-ended json io id st row h k = rw h (rw k refl)

mark_result-store :
    (w : Result StoreError (Unit {0}) × Manager)
    → ((mark_result w).1.store ≡ w.1.store) × ((mark_result w).1.reviving ≡ w.1.reviving)
mark_result-store (ok _, m) = (refl, refl)
mark_result-store (err e, m) = (refl, refl)

close_live-store :
    (closing : Result Code (Unit {0})) (s : Session) (w : Result StoreError (Unit {0}) × Manager)
    → ((close_live closing s w).1.store ≡ w.1.store)
      × ((close_live closing s w).1.reviving ≡ w.1.reviving)
close_live-store closing s (ok _, m) = (refl, refl)
close_live-store closing s (err e, m) = (refl, refl)

-- The registry that Close leaves, when the store answered the write with success.
close_found-store :
    (json : Codec) (load io : Io) (closing : Result Code (Unit {0})) (id : String)
    (found : Option Session) (st : Store) (m : Manager) (row : SessionRow)
    → load.fault ≡ none
    → first (λ r. str_eq r.id id) st.sessions ≡ some row
    → (mark_ended json io id st).0 ≡ ok tt
    → let after = (close_found json load io closing id found (some st) m).1 in
      (after.store ≡ some (mark_ended json io id st).1) × (after.reviving ≡ m.reviving)
close_found-store json load io closing id none st m row h k ok_mark =
    let w = written m (mark_ended json io id st) in
    let read = load_session-ended json load id st row h k in
    (
      ap (λ r. (close_stored json io id st m r).1.store) read ∙ (mark_result-store w).0,
      ap (λ r. (close_stored json io id st m r).1.reviving) read ∙ (mark_result-store w).1,
    )
close_found-store json load io closing id (some s) st m row h k ok_mark =
    close_live-store closing s (written m (mark_ended json io id st))

-- Resolve of a session that is not registered, nor being revived, reads the store.
resolve_stored :
    (json : Codec) (io : ReviveIo) (other : Result Code Session) (id : String) (st : Store)
    (m : Manager)
    → lookup id m.sessions ≡ none
    → m.store ≡ some st
    → any (λ r. str_eq r id) m.reviving ≡ false
    → resolve json io other id m
      ≡ resolve_revive json io id st (record m { reviving = id ∷ m.reviving })
unfolding resolve
resolve_stored json io other id st m h k idle = ap (resolve_from json io other id) (
    ap (λ o. begin_with id o m) h
    ∙ ap (λ o. begin_revival id o m) k
    ∙ ap (λ b. if b then (joins, m) else (revives st, record m { reviving = id ∷ m.reviving }))
        idle)

revive_ended :
    (json : Codec) (io : ReviveIo) (id : String) (st : Store) (m : Manager) (rec : SessionRecord)
    → load_session json io.load id st ≡ ok rec
    → rec.ended ≡ true
    → (resolve_revive json io id st m).0 ≡ err session_closed
unfolding resolve_revive
revive_ended json io id st m rec h ended =
    ap (λ r. (revived taken (revive_record json io r m st)).0) h
    ∙ ap (λ b. (revived taken (if b then err session_closed else revive_known json io rec m st)).0)
        ended
  where
    taken : Manager
    taken = record m { reviving = keep (λ r. not (str_eq r id)) m.reviving }

-- When the store has the session and its write of the end is answered with success, then after Close a
-- Resolve that can read the store, with nobody else reviving the session, answers that it is closed.
pub close_then_resolve :
    (json : Codec) (load io : Io) (closing : Result Code (Unit {0})) (id : String) (m : Manager)
    (st : Store) (row : SessionRow) (rio : ReviveIo) (other : Result Code Session)
    → m.store ≡ some st
    → first (λ r. str_eq r.id id) st.sessions ≡ some row
    → load.fault ≡ none
    → (mark_ended json io id st).0 ≡ ok tt
    → any (λ r. str_eq r id) m.reviving ≡ false
    → rio.load.fault ≡ none
    → (resolve json rio other id (close json load io closing id m).1).0 ≡ err session_closed
unfolding close to_record
close_then_resolve json load io closing id m st row rio other stored k h mark idle r =
    let after = (close json load io closing id m).1 in
    let st' = (mark_ended json io id st).1 in
    let gone : lookup id after.sessions ≡ none =
      (close-CloseOutcome json load io closing id id m).0 in
    let taken : Manager = record m { sessions = remove id m.sessions } in
    let (store, reviving) =
      close_found-store json load io closing id (lookup id m.sessions) st taken row h k mark in
    let as_found : after
        ≡ (close_found json load io closing id (lookup id m.sessions) (some st) taken).1 =
      ap (λ o. (close_found json load io closing id (lookup id m.sessions) o taken).1) stored in
    ap (λ p. p.0)
      (resolve_stored json rio other id st' after gone (ap (λ t. t.store) as_found ∙ store)
        (ap (any (λ x. str_eq x id)) (ap (λ t. t.reviving) as_found ∙ reviving) ∙ idle))
    ∙ revive_ended json rio id st' _ _
        (load_session-ended json rio.load id st' (marked row) r (
          ap (first (λ x. str_eq x.id id)) (mark_ended-sessions json io id st mark)
          ∙ first-update_session id st.sessions row k))
        refl
