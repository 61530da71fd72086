-- ===== src/Server/Create.antt =====
-- internal/server/router.go: session/create from its checks to its answer.
use capd.Prelude.{
  String, true, false, Option, none, some, List, [], Result, ok, err, str_eq, if◌then◌else◌,
  trim_space,
}
use capd.Protocol.{Code}
use capd.Session.Store.{Codec}
use capd.Session.Pump.{Session}
use capd.Session.Manager.{Manager, create, register}
use capd.Session.Subscribe.{subscribe}
use capd.Account.Store.{AccountError, Store, bind_session_account}
use capd.Account.Routing.{Floats}
use capd.Server.Metrics.{RuntimeMetrics, record_adapter_start}
use capd.Server.Policy.{Platform, SessionCreateParams, PolicyError, validate_session_create}
use capd.Server.Runtime.{
  RuntimeError, runtime_env_for_account, record_account_route_failure, clear_account_route_failures,
}
use capd.Server.Creating.{
  Daemon, CreateIo, CreateError, no_home, not_a_directory, policy, runtime, session, bind,
  choose_agent, opts_for, trimmed_create,
}

module _ {F : Type 0} (fl : Floats F) (fold lower : String → String) (percent : F → String)
    (os : Platform) (json : Codec) (io : CreateIo) where
  -- The answer: the session's id and the account's.
  abbrev pub Created : Type 0
  Created = Result (CreateError F) (String × String) × Daemon F

  -- s.subscribe(ctx, client, sess, 0)
  unfoldable pub followed : Session → Manager → Manager
  unfolding subscribe
  followed s m = register (subscribe json io.pages 0 s m.store).2 m

  abbrev pub answered : String → Session → Daemon F → Created
  answered account s d = (ok (s.id, account), record d { sessions = followed s d.sessions })

  abbrev pub bound :
      String → Session → Daemon F → Result AccountError (Unit {0}) × Store F → Created
  bound account s d (err e, st) = (err (bind e), record d { accounts = some st })
  bound account s d (ok _, st) = answered account s (record d { accounts = some st })

  abbrev pub bind_in : String → Session → Daemon F → Option (Store F) → Created
  bind_in account s d none = answered account s d
  bind_in account s d (some st) =
      bound account s d (bind_session_account io.bind_read io.bind s.id account st)

  -- What follows Create: its failure counts against the account, its success clears the account.
  abbrev pub made : String → Daemon F → Result Code Session × Manager → Created
  made account d (err c, m) = (
    err (session c),
    record d {
      sessions = m;
      metrics = record_adapter_start false d.metrics;
      accounts = record_account_route_failure io.failure account d.accounts;
    },
  )
  made account d (ok s, m) =
      let d1 = record d {
        sessions = m;
        metrics = record_adapter_start true d.metrics;
        accounts = clear_account_route_failures io.clear account d.accounts;
      } in
      if str_eq account "" then answered account s d1 else bind_in account s d1 d1.accounts

  abbrev pub with_env :
      SessionCreateParams
      → String
      → String
      → Daemon F
      → Result RuntimeError (List String) × RuntimeMetrics
      → Created
  with_env params agent account d (err e, metrics) = (
    err (runtime e),
    record d {
      metrics = metrics;
      accounts = record_account_route_failure io.failure account d.accounts;
    },
  )
  with_env params agent account d (ok env, metrics) =
      made account (record d { metrics = metrics })
        (create json io.save io.start io.id agent
          (opts_for fl fold lower percent os json params env) d.sessions)

  abbrev pub chosen :
      SessionCreateParams
      → Daemon F
      → Result (CreateError F) (String × String) × RuntimeMetrics
      → Created
  chosen params d (err e, metrics) = (err e, record d { metrics = metrics })
  chosen params d (ok (agent, account), metrics) = with_env params agent account d (
      if str_eq account ""
      then (ok [], metrics)
      else runtime_env_for_account io.account io.secrets agent account d.accounts metrics)

  abbrev pub permitted : SessionCreateParams → Daemon F → Result PolicyError (Unit {0}) → Created
  permitted params d (err e) = (err (policy e), d)
  permitted params d (ok _) =
      chosen params d (choose_agent fl fold lower percent os json io params d.accounts d.metrics)

  abbrev pub in_directory : SessionCreateParams → Daemon F → Created
  in_directory params d =
      if io.is_dir params.cwd
      then permitted params d (validate_session_create os params)
      else (err not_a_directory, d)

  -- Without a directory the session starts in the home directory.
  abbrev pub at_home : SessionCreateParams → Daemon F → Option String → Created
  at_home params d none = (err no_home, d)
  at_home params d (some home) = in_directory (record params { cwd = home }) d

  unfoldable pub create_session : SessionCreateParams → Daemon F → Created
  unfolding trim_space validate_session_create choose_agent create record_adapter_start
      record_account_route_failure clear_account_route_failures runtime_env_for_account
      bind_session_account followed
  create_session params d =
      let p = trimmed_create params in
      if str_eq p.cwd "" then at_home p d io.home else in_directory p d
