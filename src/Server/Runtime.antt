-- ===== src/Server/Runtime.antt =====
-- internal/server/accounts.go and router.go: the environment of an account, and the record of its failures.
-- codexauth's projection of an account's secret is an argument, `none` where secrets are not configured.
-- lockAccountRuntime makes it atomic for each account.
use capd.Prelude.{
  String, Bool, not, ◌||◌, Option, none, some, List, [], ◌∷◌, Result, ok, err, ◌>>◌, str_eq,
  if◌then◌else◌, trim_space,
}
use capd.Session.Store.{Io}
use capd.Account.Store.{
  AccountError, Account, Store, load_account, record_account_failure, clear_account_failures,
  session_account,
}
use capd.Account.Routing.{text_of}
use capd.Server.Metrics.{RuntimeMetrics, record_secret_access_denied}

-- What projecting a secret into a runtime directory gives: the environment, or why not.
pub data Projection : Type 0 where
  projected : List String → Projection
  access_denied project_failed : Projection

pub data RuntimeError : Type 0 where
  only_codex not_configured account_required reserved_account auto_account : RuntimeError
  unknown_account_id not_codex : String → RuntimeError
  projection_failed empty_environment : RuntimeError

abbrev pub refuse : Bool → RuntimeError → Result RuntimeError (Unit {0})
refuse bad e = if bad then err e else ok tt

unfoldable pub reject_concrete_account_id : String → Result RuntimeError (Unit {0})
unfolding trim_space
reject_concrete_account_id account_id =
    refuse (str_eq (trim_space account_id) "all") reserved_account
    >> refuse (str_eq (trim_space account_id) "auto") auto_account

abbrev pub codex_only : String → Account → Result RuntimeError Account
codex_only account_id acc =
    if str_eq acc.provider "codex" then ok acc else err (not_codex account_id)

abbrev pub found_account : String → Result AccountError Account → Result RuntimeError Account
found_account account_id (err e) = err (unknown_account_id account_id)
found_account account_id (ok acc) = codex_only account_id acc

-- The environment, with the counters after a projection.
abbrev pub environment :
    RuntimeMetrics → Projection → Result RuntimeError (List String) × RuntimeMetrics
environment metrics (projected []) = (err empty_environment, metrics)
environment metrics (projected (v ∷ vs)) = (ok (v ∷ vs), metrics)
environment metrics access_denied = (err projection_failed, record_secret_access_denied metrics)
environment metrics project_failed = (err projection_failed, metrics)

abbrev pub project_account :
    (Account → Projection)
    → RuntimeMetrics
    → Result RuntimeError Account
    → Result RuntimeError (List String) × RuntimeMetrics
project_account project metrics (err e) = (err e, metrics)
project_account project metrics (ok acc) = environment metrics (project acc)

-- The accounts whose failures are counted.
abbrev pub is_concrete : String → Bool
is_concrete account_id =
    not (str_eq account_id "" || (str_eq account_id "auto" || str_eq account_id "all"))

module _ {F : Type 0} where
  abbrev pub account_for : Io → String → String → Store F → Result RuntimeError Account
  account_for io agent_id account_id st =
      refuse (str_eq (trim_space account_id) "") account_required
      >> (reject_concrete_account_id account_id
          >> found_account account_id (load_account io account_id st))

  -- `secrets` is none where there is no secret store or no runtime directory.
  unfoldable pub runtime_env_for_account :
      Io
      → Option (Account → Projection)
      → String
      → String
      → Option (Store F)
      → RuntimeMetrics
      → Result RuntimeError (List String) × RuntimeMetrics
  unfolding load_account reject_concrete_account_id record_secret_access_denied
  runtime_env_for_account io secrets agent_id account_id none metrics =
      (err (if str_eq agent_id "codex" then not_configured else only_codex), metrics)
  runtime_env_for_account io none agent_id account_id (some st) metrics =
      (err (if str_eq agent_id "codex" then not_configured else only_codex), metrics)
  runtime_env_for_account io (some project) agent_id account_id (some st) metrics =
      if str_eq agent_id "codex"
      then project_account project metrics (account_for io agent_id account_id st)
      else (err only_codex, metrics)

  -- A store's error is only logged.
  unfoldable pub record_account_route_failure : Io → String → Option (Store F) → Option (Store F)
  unfolding record_account_failure trim_space
  record_account_route_failure io account_id none = none
  record_account_route_failure io account_id (some st) = some (
      if is_concrete (trim_space account_id)
      then (record_account_failure io (trim_space account_id) io.now st).1
      else st)

  unfoldable pub clear_account_route_failures : Io → String → Option (Store F) → Option (Store F)
  unfolding clear_account_failures trim_space
  clear_account_route_failures io account_id none = none
  clear_account_route_failures io account_id (some st) = some (
      if is_concrete (trim_space account_id)
      then (clear_account_failures io (trim_space account_id) st).1
      else st)

  unfoldable pub session_account_id : Io → String → Option (Store F) → String
  unfolding session_account trim_space
  session_account_id io session_id none = ""
  session_account_id io session_id (some st) =
      if str_eq (trim_space session_id) ""
      then ""
      else text_of (session_account io (trim_space session_id) st)

  unfoldable pub record_session_account_failure :
      Io → Io → String → Option (Store F) → Option (Store F)
  unfolding record_account_route_failure session_account_id
  record_session_account_failure read write session_id st =
      record_account_route_failure write (session_account_id read session_id st) st

  unfoldable pub clear_session_account_failures :
      Io → Io → String → Option (Store F) → Option (Store F)
  unfolding clear_account_route_failures session_account_id
  clear_session_account_failures read write session_id st =
      clear_account_route_failures write (session_account_id read session_id st) st
