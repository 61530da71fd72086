-- ===== src/Codex/Engine.antt =====
-- internal/adapter/codex/appserver.go: a profile of the app-server, its connection and its sessions.
-- The session manager holds a session after the profile has forgotten it, so the sessions stand in a heap
-- and the map of the profile holds their places.
use capd.Prelude.{
  ℕ, ◌+◌, String, Bool, true, false, Option, none, some, List, [], ◌∷◌, ◌++◌, length, get_elem?,
  set, lookup, insert, remove, str_eq, if◌then◌else◌, Result, ok, err,
}
use capd.Protocol.{error, task_done, no_members, member, text, bool}
use capd.Codex.AppSession.{
  AppSession, Params, emit, start_app_session, close_session, text_field, fields,
}

pub record Profile : Type 0 where
  pub client : Option ℕ
  pub next_client : ℕ
  pub sessions : List (String × ℕ)
  pub heap : List AppSession

-- What startRPC and the call of "initialize" answer.
pub record Startup : Type 0 where
  pub started : Option String
  pub initialized : Option String

abbrev pub fresh_client : Startup → Profile → Result String ℕ × Profile
fresh_client up p = elim (up.started) [
  | some e ↦ (err e, p)
  | none ↦ elim (up.initialized) [
    | some e ↦ (err e, record p { next_client = p.next_client + 1 })
    | none ↦ (
      ok p.next_client,
      record p { client = some p.next_client; next_client = p.next_client + 1; sessions = [] },
    )
  ]
]

abbrev pub ensured : Bool → Startup → Profile → Option ℕ → Result String ℕ × Profile
ensured alive up p none = fresh_client up p
ensured alive up p (some c) = if alive then (ok c, p) else fresh_client up p

-- ensureClient; `alive` is what the client says of itself.
unfoldable pub ensure_client : Bool → Startup → Profile → Result String ℕ × Profile
ensure_client alive up p = ensured alive up p p.client

-- The session of a thread that has been started, in the heap and in the map.
unfoldable pub register : String → ℕ → Profile → Profile
unfolding start_app_session
register thread_id room p = record p {
  heap = p.heap ++ start_app_session thread_id room ∷ [];
  sessions = insert thread_id (length p.heap) p.sessions;
}

unfoldable pub unregister : String → Profile → Profile
unregister thread_id p = record p { sessions = remove thread_id p.sessions }

abbrev pub change_found :
    (AppSession → AppSession) → ℕ → List AppSession → Option AppSession → List AppSession
change_found change i heap none = heap
change_found change i heap (some s) = set heap i (change s)

abbrev pub change_at : (AppSession → AppSession) → ℕ → List AppSession → List AppSession
change_at change i heap = change_found change i heap (get_elem? heap i)

-- The last two events of a session whose app-server is gone, and its Close.
unfoldable pub end_session : AppSession → AppSession
end_session s = close_session (
    emit task_done (member "ok" (bool false) (member "engineDied" (bool true) no_members)) (
      emit error
        (member "message" (text "codex app-server exited; session will revive on next use")
          no_members)
        s))

unfoldable pub end_all : List (String × ℕ) → List AppSession → List AppSession
end_all [] heap = heap
end_all ((thread, i) ∷ rest) heap = end_all rest (change_at end_session i heap)

-- handleEngineDeath, whoever's death it is.
unfoldable pub handle_engine_death : Profile → Profile
handle_engine_death p = record p { client = none; sessions = []; heap = end_all p.sessions p.heap }

abbrev pub looked_up : Profile → String → Option ℕ
looked_up p thread = if str_eq thread "" then none else lookup thread p.sessions

-- lookup: the place of the session that the parameters name.
unfoldable pub lookup_session : Params → Profile → Option ℕ
lookup_session params p = looked_up p (text_field "threadId" (fields params))
