-- ===== src/Server/Created.antt =====
-- internal/server/router.go: what session/create leaves behind, on its success and on its errors.
use capd.Prelude.{
  ℕ, Bool-cases, inl, inr, String, true, false, Option, none, some, List, Result, ok, err, insert,
  lookup, str_eq, if◌then◌else◌, ◌≡◌, refl, sym, subst, ◌∙◌, ap, either,
}
use capd.Protocol.{Code}
use capd.Session.Store.{Codec}
use capd.Session.Pump.{Inner, Session}
use capd.Session.Manager.{Manager}
use capd.Session.Channel.{Subscriber}
use capd.Session.Subscribe.{subscribe}
use capd.Session.Lifecycle.{CreateOutcome, create-CreateOutcome}
use capd.Account.Store.{AccountError, Store, bind_session_account}
use capd.Account.Routing.{Floats}
use capd.Server.Metrics.{RuntimeMetrics, record_adapter_start}
use capd.Server.Policy.{Platform, SessionCreateParams, PolicyError}
use capd.Server.Routing.{RouteError, AgentRouteResult}
use capd.Server.Runtime.{RuntimeError, clear_account_route_failures}
use capd.Server.Creating.{
  Daemon, CreateIo, CreateError, choose_agent, opts_for, trimmed_create, routed_auto,
  routed_account,
}
use capd.Server.Create.{
  Created, followed, answered, bound, bind_in, made, with_env, chosen, permitted, in_directory,
  at_home, create_session,
}
use capd.Server.Binding.{
  Registered, BoundTo, is_bind, Stored, lookup-insert_same, bind_session_account-Stored, Unbinding,
}

module _ {F : Type 0} (fl : Floats F) (fold lower : String → String) (percent : F → String)
    (os : Platform) (json : Codec) (io : CreateIo) where
  -- What the answer says of the sessions of before and after.
  abbrev pub CreatedOutcome : Daemon F → Created fl fold lower percent os json io → Type 0
  CreatedOutcome d (ok (id, account), d') =
      (id ≡ io.id) × Registered io.id io.start d'.sessions × BoundTo io.id account d'.accounts
  CreatedOutcome d (err e, d') =
      if is_bind e
      then Registered io.id io.start d'.sessions
      else d'.sessions.sessions ≡ d.sessions.sessions

  subscribed :
      (s : Session) (m : Manager)
      → ((subscribe json io.pages 0 s m.store).2.id ≡ s.id)
        × ((subscribe json io.pages 0 s m.store).2.inner ≡ s.inner)
  unfolding subscribe
  subscribed s m =
      either (λ (r : Subscriber × ℕ × Session). (r.2.id ≡ s.id) × (r.2.inner ≡ s.inner)) s.ended
        (refl, refl) (refl, refl)

  followed-Registered :
      (s : Session) (m : Manager)
      → s.id ≡ io.id
      → io.start ≡ some s.inner
      → Registered io.id io.start (followed fl fold lower percent os json io s m)
  unfolding followed
  followed-Registered s m h k =
      let s' : Session = (subscribe json io.pages 0 s m.store).2 in
      let same = subscribed s m in
      let named = same.0 ∙ h in
      (
        s',
        subst (λ id. lookup id (insert s'.id s' m.sessions) ≡ some s') named
            (lookup-insert_same s'.id s' m.sessions),
        named,
        k ∙ ap some (sym same.1),
      )

  bound-Outcome :
      (account : String) (s : Session) (d0 d : Daemon F)
      (answer : Result AccountError (Unit {0}) × Store F)
      → str_eq account "" ≡ false
      → s.id ≡ io.id
      → io.start ≡ some s.inner
      → lookup io.id d.sessions.sessions ≡ some s
      → Stored io.id account answer
      → CreatedOutcome d0 (bound fl fold lower percent os json io account s d answer)
  bound-Outcome account s d0 d (err e, st) named h k found stored = (s, found, h, k)
  bound-Outcome account s d0 d (ok u, st) named h k found stored = (
    h,
    followed-Registered s d.sessions h k,
    subst (λ b. if b then Unit else lookup io.id st.session_accounts ≡ some account) (sym named)
        stored,
  )

  bind_in-Outcome :
      (account : String) (s : Session) (d0 d : Daemon F) (accounts : Option (Store F))
      → d.accounts ≡ accounts
      → str_eq account "" ≡ false
      → s.id ≡ io.id
      → io.start ≡ some s.inner
      → lookup io.id d.sessions.sessions ≡ some s
      → CreatedOutcome d0 (bind_in fl fold lower percent os json io account s d accounts)
  bind_in-Outcome account s d0 d none e named h k found =
      (h, followed-Registered s d.sessions h k, subst (BoundTo io.id account) (sym e) tt)
  bind_in-Outcome account s d0 d (some st) e named h k found =
      bound-Outcome account s d0 d (bind_session_account io.bind_read io.bind s.id account st) named
        h k found
        (subst (λ id. Stored id account (bind_session_account io.bind_read io.bind s.id account st))
          h (bind_session_account-Stored io.bind_read io.bind s.id account st))

  unbound :
      (account : String) (accounts : Option (Store F))
      → str_eq account "" ≡ true
      → BoundTo io.id account accounts
  unbound account none h = tt
  unbound account (some st) h =
      subst (λ b. if b then Unit else lookup io.id st.session_accounts ≡ some account) (sym h) tt

  kept :
      (start : Option Inner) (c : Code) (m m' : Manager)
      → CreateOutcome start io.id m (err c, m')
      → m'.sessions ≡ m.sessions
  kept none c m m' h = ap (λ n. n.sessions) h
  kept (some inner) c m m' h = h.0

  made-Outcome :
      (account : String) (d0 d : Daemon F) (answer : Result Code Session × Manager)
      → d.sessions.sessions ≡ d0.sessions.sessions
      → CreateOutcome io.start io.id d.sessions answer
      → CreatedOutcome d0 (made fl fold lower percent os json io account d answer)
  made-Outcome account d0 d (err c, m) same h = kept io.start c d.sessions m h ∙ same
  made-Outcome account d0 d (ok s, m) same h = elim (Bool-cases (str_eq account "")) [
    | inl e ↦
        subst
          (λ b. CreatedOutcome d0 (
            if b
            then answered fl fold lower percent os json io account s d1
            else bind_in fl fold lower percent os json io account s d1 d1.accounts))
          (sym e) (h.1, followed-Registered s m h.1 h.3, unbound account d1.accounts e)
    | inr e ↦
        subst
          (λ b. CreatedOutcome d0 (
            if b
            then answered fl fold lower percent os json io account s d1
            else bind_in fl fold lower percent os json io account s d1 d1.accounts))
          (sym e) (bind_in-Outcome account s d0 d1 d1.accounts refl e h.1 h.3 h.0)
  ]
    where
      d1 : Daemon F
      d1 = record d {
        sessions = m;
        metrics = record_adapter_start true d.metrics;
        accounts = clear_account_route_failures io.clear account d.accounts;
      }

  with_env-Outcome :
      (params : SessionCreateParams) (agent account : String) (d : Daemon F)
      (env : Result RuntimeError (List String) × RuntimeMetrics)
      → CreatedOutcome d (with_env fl fold lower percent os json io params agent account d env)
  with_env-Outcome params agent account d (err e, metrics) = refl
  with_env-Outcome params agent account d (ok env, metrics) =
      made-Outcome account d (record d { metrics = metrics }) _ refl
        (create-CreateOutcome json io.save io.start io.id agent
          (opts_for fl fold lower percent os json params env) d.sessions)

  -- Choosing an agent never answers that a binding failed.
  chosen-Outcome :
      (params : SessionCreateParams) (d : Daemon F)
      (choice : Result (CreateError F) (String × String) × RuntimeMetrics)
      → Unbinding choice.0
      → CreatedOutcome d (chosen fl fold lower percent os json io params d choice)
  chosen-Outcome params d (err e, metrics) h =
      subst
        (λ b.
          if b
          then Registered io.id io.start d.sessions
          else d.sessions.sessions ≡ d.sessions.sessions)
        (sym h) refl
  chosen-Outcome params d (ok (agent, account), metrics) h =
      with_env-Outcome params agent account d _

  routed_auto-Unbinding :
      (params : SessionCreateParams) (r : Result (RouteError F) (AgentRouteResult F))
      → Unbinding (routed_auto fl fold lower percent os json params r)
  routed_auto-Unbinding params (ok result) = tt
  routed_auto-Unbinding params (err e) = refl

  routed_account-Unbinding :
      (params : SessionCreateParams) (r : Result (RouteError F) (AgentRouteResult F))
      → Unbinding (routed_account fl fold lower percent os json params r)
  routed_account-Unbinding params (ok result) =
      either Unbinding (str_eq result.agent.id params.agent_id) tt refl
  routed_account-Unbinding params (err e) = refl

  choose_agent-Unbinding :
      (params : SessionCreateParams) (st : Option (Store F)) (metrics : RuntimeMetrics)
      → Unbinding (choose_agent fl fold lower percent os json io params st metrics).0
  unfolding choose_agent
  choose_agent-Unbinding params st metrics =
      either First (str_eq params.agent_id "auto") (routed_auto-Unbinding params _)
        (either First (str_eq params.account_id "auto") (routed_account-Unbinding params _) tt)
    where
      First : Result (CreateError F) (String × String) × RuntimeMetrics → Type 0
      First r = Unbinding r.0

  permitted-Outcome :
      (params : SessionCreateParams) (d : Daemon F) (verdict : Result PolicyError (Unit {0}))
      → CreatedOutcome d (permitted fl fold lower percent os json io params d verdict)
  permitted-Outcome params d (err e) = refl
  permitted-Outcome params d (ok u) =
      chosen-Outcome params d _ (choose_agent-Unbinding params d.accounts d.metrics)

  in_directory-Outcome :
      (params : SessionCreateParams) (d : Daemon F)
      → CreatedOutcome d (in_directory fl fold lower percent os json io params d)
  in_directory-Outcome params d =
      either (CreatedOutcome d) (io.is_dir params.cwd) (permitted-Outcome params d _) refl

  at_home-Outcome :
      (params : SessionCreateParams) (d : Daemon F) (home : Option String)
      → CreatedOutcome d (at_home fl fold lower percent os json io params d home)
  at_home-Outcome params d none = refl
  at_home-Outcome params d (some home) = in_directory-Outcome (record params { cwd = home }) d

-- Where session/create succeeds, the session with the new id is registered on the adapter session that was
-- started and, where the daemon has accounts and one was asked for, bound to it. Every error but one
-- leaves the registered sessions as they were; but where the binding fails, which the client is told as
-- an error without an id, the session that was started stays registered.
pub create_session-CreatedOutcome :
    {F : Type 0} (fl : Floats F) (fold lower : String → String) (percent : F → String)
    (os : Platform) (json : Codec) (io : CreateIo) (params : SessionCreateParams) (d : Daemon F)
    → CreatedOutcome fl fold lower percent os json io d
        (create_session fl fold lower percent os json io params d)
unfolding create_session
create_session-CreatedOutcome fl fold lower percent os json io params d =
    either (CreatedOutcome fl fold lower percent os json io d)
      (str_eq (trimmed_create params).cwd "")
      (at_home-Outcome fl fold lower percent os json io (trimmed_create params) d io.home)
      (in_directory-Outcome fl fold lower percent os json io (trimmed_create params) d)
