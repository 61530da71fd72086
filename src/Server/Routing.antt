-- ===== src/Server/Routing.antt =====
-- internal/server/agent_router.go: agents/route, from the request to the agent and its account.
-- The agents are what Discover found. A nil store is `none`; the time of each decision and the answers of
-- the store to it are its own `Reads`.
use Prim.Native.String.{compare}
use text.Mathlib.Text.{is_lt}
use capd.Prelude.{
  String, Bool, not, ◌&&◌, ◌||◌, Option, none, some, List, [], ◌∷◌, Result, ok, err, ◌>>◌, str_eq,
  if◌then◌else◌, trim_space,
}
use capd.Protocol.{AgentInfo}
use capd.Session.Store.{Io}
use capd.Account.Store.{AccountError, unknown_account, Account, Store, load_account}
use capd.Account.Routing.{Floats, Reads}
use capd.Account.Evidence.{AccountRouteEvidence, AccountRoutePolicy}
use capd.Server.Capabilities.{AgentRouteParams, trim_route_preference}

-- What the store answers to one decision: the reads of the selection, of the freshness check, of the
-- reason, the evidence and the candidates, and those of one account and one profile.
pub record RouteReads : Type 0 where
  pub select : Reads
  pub freshness : Reads
  pub reason : Reads
  pub evidence : Reads
  pub candidates : Reads
  pub account : Io
  pub profile : Io
  pub members : Io

-- AgentRouteErrorData
pub record FreshQuotaData (F : Type 0) : Type 0 where
  pub account_route : Option (AccountRouteEvidence F)
  pub route_candidates : List (AccountRouteEvidence F)
  pub route_policy : Option (AccountRoutePolicy F)
  pub task_class : String
  pub secret_backend : String

-- The errors by their messages; the last is of code CodeAgentUnavailable, all others of CodeInvalidParams.
pub data RouteError (F : Type 0) : Type 0 where
  fresh_without_auto profile_without_auto account_reserved no_account_support no_accounts :
      RouteError F
  no_accounts_in unknown_account_id not_codex : String → RouteError F
  not_fresh : FreshQuotaData F → RouteError F
  agent_unavailable : RouteError F

pub record AgentRouteResult (F : Type 0) : Type 0 where
  pub agent : AgentInfo
  pub account_id : String
  pub task_class : String
  pub account_route : Option (AccountRouteEvidence F)
  pub route_candidates : List (AccountRouteEvidence F)
  pub route_policy : Option (AccountRoutePolicy F)
  pub reason : String

abbrev pub refuse_if : {F : Type 0} → Bool → RouteError F → Result (RouteError F) (Unit {0})
refuse_if bad e = if bad then err e else ok tt

-- A candidate of a profile comes first by its score, then by its id.
abbrev pub member_before : {F : Type 0} → Floats F → (Account → F) → Account → Account → Bool
member_before fl value a b =
    fl.lt (value a) (value b) || (fl.eq (value a) (value b) && is_lt (compare a.id b.id))

unfoldable pub best_member :
    {F : Type 0} → Floats F → (Account → F) → Account → List Account → Account
best_member fl value best [] = best
best_member fl value best (acc ∷ accs) =
    best_member fl value (if member_before fl value acc best then acc else best) accs

abbrev pub first_member :
    {F : Type 0} → Floats F → (Account → F) → List Account → Result AccountError Account
first_member fl value [] = err unknown_account
first_member fl value (acc ∷ accs) = ok (best_member fl value acc accs)

unfoldable pub load_codex_account_for_route :
    {F : Type 0} → Io → String → Option (Store F) → Result (RouteError F) Account
load_codex_account_for_route io account_id none = err no_account_support
load_codex_account_for_route io account_id (some st) = elim (load_account io account_id st) [
  | err e ↦ err (unknown_account_id account_id)
  | ok acc ↦ if str_eq acc.provider "codex" then ok acc else err (not_codex account_id)
]

-- The fields that routeAgent trims before it looks at them.
abbrev pub trimmed : (String → String) → AgentRouteParams → AgentRouteParams
trimmed normalize params = record params {
  model = trim_space params.model;
  effort = trim_space params.effort;
  account_id = trim_space params.account_id;
  profile = trim_space params.profile;
  task_class = normalize params.task_class;
  prefer = trim_route_preference params.prefer;
}

unfoldable pub check_route_params :
    {F : Type 0} → AgentRouteParams → Result (RouteError F) (Unit {0})
unfolding trim_space
check_route_params params =
    let auto = str_eq params.account_id "auto" in
    refuse_if (params.require_fresh_quota && not auto) fresh_without_auto
    >> (refuse_if (not (str_eq params.profile "") && not auto) profile_without_auto
        >> refuse_if (str_eq (trim_space params.account_id) "all") account_reserved)
