-- ===== src/Server/RouteExamples.antt =====
-- agents/route at work: a request without an account, one for an account, and too many preferences.
use capd.Prelude.{
  ℕ, zero, suc, ◌+◌, ◌-◌, ◌*◌, ◌==◌, String, true, false, none, some, List, [], ◌∷◌, ltb, ◌≡◌, refl,
  arith,
}
use capd.Protocol.{AgentCapabilities, no_capabilities, AgentInfo}
use capd.Session.Store.{Io, changed}
use capd.Account.Store.{Store}
use capd.Account.Routing.{Floats, Reads, normalize_route_task_class}
use capd.Server.Capabilities.{
  AgentRouteParams, index_of, route_score, has_capabilities, count_capabilities,
}
use capd.Server.Candidate.{best_agent, pick}
use capd.Server.Routing.{RouteReads, trimmed}
use capd.Server.RouteAgent.{route_params}
use capd.Server.Routed.{RouteOutcome, route_params-RouteOutcome}

-- Percentages as whole numbers.
abbrev whole : Floats ℕ
whole = record {
  lt = ltb;
  eq = λ x y. x == y;
  add = λ x y. x + y;
  subtract = λ x y. x - y;
  multiply = λ x y. x * y;
  from_nat = λ n. n;
  hundredth = 0;
  is_nan = λ n. false;
  is_inf = λ n. false;
}

abbrev fine : Io
fine = record { fault = none; chmod = λ path. changed; now = 1700000000 }

abbrev reads : Reads
reads = record {
  accounts = fine;
  current = fine;
  quota = λ id. fine;
  health = λ id. fine;
  now = 1700000060;
}

abbrev answers : RouteReads
answers = record {
  select = reads;
  freshness = reads;
  reason = reads;
  evidence = reads;
  candidates = reads;
  account = fine;
  profile = fine;
  members = fine;
}

abbrev agent_of : String → AgentCapabilities → AgentInfo
agent_of id capabilities = record {
  id = id;
  name = id;
  bin = id;
  version = "1";
  available = true;
  capabilities = capabilities;
}

abbrev gemini : AgentInfo
gemini = agent_of "gemini" (record no_capabilities { model = true })

abbrev opencode : AgentInfo
opencode =
    agent_of "opencode" (record no_capabilities { model = true; images = true; resume = true })

abbrev request : AgentRouteParams
request = record {
  prompt = "fix it";
  attachments = record { type = "image"; path = "/a.png"; url = "" } ∷ [];
  account_id = "";
  profile = "";
  task_class = "";
  model = " m ";
  effort = "";
  capabilities = no_capabilities;
  prefer = "gemini" ∷ " " ∷ [];
  require_fresh_quota = false;
}

abbrev store : Store ℕ
store = record {
  path = "";
  accounts = [];
  account_state = [];
  quotas = [];
  session_accounts = [];
  profiles = [];
  members = [];
  profile_state = [];
  health = [];
}

route_params-RouteOutcome_example :
    RouteOutcome
      (trimmed (normalize_route_task_class whole (λ s. s)) request)
      (gemini ∷ opencode ∷ [])
      (route_params whole
        (λ s. s)
        (λ s. s)
        (λ n. "")
        answers
        request
        (some store)
        (gemini ∷ opencode ∷ []))
route_params-RouteOutcome_example =
    route_params-RouteOutcome whole (λ s. s) (λ s. s) (λ n. "") answers request (some store)
      (gemini ∷ opencode ∷ []) (omega arith)

-- An image needs OpenCode, though Gemini is preferred.
image_request :
    best_agent false
      (record no_capabilities { model = true; images = true })
      ("gemini" ∷ [])
      (gemini ∷ opencode ∷ [])
    ≡ some opencode
unfolding best_agent pick has_capabilities route_score count_capabilities index_of
image_request = refl

plain_request :
    best_agent false
      (record no_capabilities { model = true })
      ("gemini" ∷ [])
      (gemini ∷ opencode ∷ [])
    ≡ some gemini
unfolding best_agent pick has_capabilities route_score count_capabilities index_of
plain_request = refl

abbrev many : ℕ → List String → List String
many zero prefer = prefer
many (suc n) prefer = "x" ∷ many n prefer

-- Behind too many other names an agent scores below 0, and the only one that suits is not found.
too_many :
    best_agent false
      (record no_capabilities { model = true })
      (many 1002 ("gemini" ∷ []))
      (gemini ∷ [])
    ≡ none
unfolding best_agent pick has_capabilities route_score count_capabilities index_of
too_many = refl
