-- ===== src/Server/Creating.antt =====
-- internal/server/router.go: session/create, on the registry, the account store and the counters.
-- What the operating system, the adapters and the stores answer to one request is the record `CreateIo`.
use capd.Prelude.{
  ℕ, String, Bool, not, Option, List, [], ◌∷◌, Result, ok, err, str_eq, if◌then◌else◌, trim_space,
}
use capd.Protocol.{Code, no_capabilities, AgentInfo}
use capd.Session.Store.{Codec, Io}
use capd.Session.Pump.{Inner}
use capd.Session.Manager.{Manager, SessionOpts}
use capd.Account.Store.{AccountError, Account, Store}
use capd.Account.Routing.{Floats}
use capd.Server.Capabilities.{AgentRouteParams, route_requirements}
use capd.Server.Metrics.{RuntimeMetrics}
use capd.Server.Policy.{Platform, SessionCreateParams, PolicyError}
use capd.Server.Routing.{RouteReads, RouteError, AgentRouteResult}
use capd.Server.RouteAgent.{route_agent}
use capd.Server.Runtime.{Projection, RuntimeError}

-- What a request may change.
pub record Daemon (F : Type 0) : Type 0 where
  pub sessions : Manager
  pub accounts : Option (Store F)
  pub metrics : RuntimeMetrics

pub record CreateIo : Type 0 where
  pub home : Option String
  pub is_dir : String → Bool
  pub agents : List AgentInfo
  pub route : RouteReads
  pub account : Io
  pub secrets : Option (Account → Projection)
  pub failure : Io
  pub start : Option Inner
  pub id : String
  pub save : Io
  pub clear : Io
  pub bind_read : Io
  pub bind : Io
  pub pages : ℕ → Io

pub data CreateError (F : Type 0) : Type 0 where
  no_home not_a_directory agent_without_accounts : CreateError F
  policy : PolicyError → CreateError F
  route : RouteError F → CreateError F
  runtime : RuntimeError → CreateError F
  session : Code → CreateError F
  bind : AccountError → CreateError F

unfoldable pub route_params_for_create : SessionCreateParams → AgentRouteParams
unfolding trim_space
route_params_for_create params = record {
  prompt = "";
  attachments = [];
  account_id = trim_space params.account_id;
  profile = trim_space params.profile;
  task_class = trim_space params.task_class;
  model = trim_space params.model;
  effort = trim_space params.effort;
  capabilities = record no_capabilities {
    model = not (str_eq (trim_space params.model) "");
    effort = not (str_eq (trim_space params.effort) "");
  };
  prefer = [];
  require_fresh_quota = params.require_fresh_quota;
}

-- The request that session/create routes where only the account is to be chosen.
unfoldable pub route_params_for_account : SessionCreateParams → AgentRouteParams
unfolding route_params_for_create route_requirements
route_params_for_account params = record {
  prompt = "";
  attachments = [];
  account_id = "auto";
  profile = params.profile;
  task_class = params.task_class;
  model = params.model;
  effort = params.effort;
  capabilities = route_requirements (route_params_for_create params);
  prefer = params.agent_id ∷ [];
  require_fresh_quota = params.require_fresh_quota;
}

abbrev pub trimmed_create : SessionCreateParams → SessionCreateParams
trimmed_create params = record params {
  agent_id = trim_space params.agent_id;
  account_id = trim_space params.account_id;
  profile = trim_space params.profile;
}

module _ {F : Type 0} (fl : Floats F) (fold lower : String → String) (percent : F → String)
    (os : Platform) (json : Codec) where
  -- The agent and the account that the session is for.
  abbrev pub routed_auto :
      SessionCreateParams
      → Result (RouteError F) (AgentRouteResult F)
      → Result (CreateError F) (String × String)
  routed_auto params (err e) = err (route e)
  routed_auto params (ok result) = ok (
    result.agent.id,
    if str_eq params.account_id "auto" then result.account_id else params.account_id,
  )

  abbrev pub routed_account :
      SessionCreateParams
      → Result (RouteError F) (AgentRouteResult F)
      → Result (CreateError F) (String × String)
  routed_account params (err e) = err (route e)
  routed_account params (ok result) =
      if str_eq result.agent.id params.agent_id
      then ok (params.agent_id, result.account_id)
      else err agent_without_accounts

  unfoldable pub choose_agent :
      CreateIo
      → SessionCreateParams
      → Option (Store F)
      → RuntimeMetrics
      → Result (CreateError F) (String × String) × RuntimeMetrics
  unfolding route_agent route_params_for_create route_params_for_account
  choose_agent io params st metrics =
      let auto =
        route_agent fl fold lower percent io.route (route_params_for_create params) st io.agents
          metrics in
      let account =
        route_agent fl fold lower percent io.route (route_params_for_account params) st io.agents
          metrics in
      if str_eq params.agent_id "auto"
      then (routed_auto params auto.0, auto.1)
      else if str_eq params.account_id "auto"
      then (routed_account params account.0, account.1)
      else (ok (params.agent_id, params.account_id), metrics)

  abbrev pub opts_for : SessionCreateParams → List String → SessionOpts
  opts_for params env = record {
    cwd = params.cwd;
    resume = params.resume;
    permission_mode = params.permission_mode;
    model = params.model;
    effort = params.effort;
    env = env;
  }
