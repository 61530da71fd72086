-- ===== src/Server/CreateExamples.antt =====
-- session/create at work: a session of Claude Code, and one whose account cannot be bound.
use capd.Prelude.{
  ℕ, ◌+◌, ◌-◌, ◌*◌, ◌==◌, append, true, false, none, some, [], ◌∷◌, err, ltb, ◌≡◌, refl, trim_space,
}
use capd.Protocol.{no_members}
use capd.Session.Store.{Codec, Io, changed}
use capd.Account.Store.{failed}
use capd.Account.Routing.{Floats, Reads}
use capd.Server.Metrics.{new_runtime_metrics}
use capd.Server.Policy.{Platform, SessionCreateParams, valid_permission_mode}
use capd.Server.Runtime.{projected}
use capd.Server.Creating.{Daemon, CreateIo, bind}
use capd.Server.Create.{create_session}
use capd.Server.Created.{CreatedOutcome, create_session-CreatedOutcome}

abbrev whole : Floats ℕ
whole = record {
  lt = ltb;
  eq = λ x y. x == y;
  add = λ x y. x + y;
  subtract = λ x y. x - y;
  multiply = λ x y. x * y;
  from_nat = λ n. n;
  hundredth = 0;
  is_nan = λ n. false;
  is_inf = λ n. false;
}

abbrev unix : Platform
unix = record {
  trim = trim_space;
  is_abs = λ path. true;
  abs = some;
  clean = λ path. path;
  windows = false;
  volume_root = λ path. path;
  parse_url = λ url. none;
}

abbrev json : Codec
json = record {
  marshal = λ obj. some "{}";
  unmarshal = λ line. no_members;
  marshal_list = λ env. some "[]";
  unmarshal_list = λ line. some [];
  quote = λ line. append "'" (append line "'");
}

abbrev fine : Io
fine = record { fault = none; chmod = λ path. changed; now = 1700000000 }

abbrev broken : Io
broken = record fine { fault = some "disk I/O error" }

abbrev reads : Reads
reads = record {
  accounts = fine;
  current = fine;
  quota = λ id. fine;
  health = λ id. fine;
  now = 1700000060;
}

abbrev io : CreateIo
io = record {
  home = some "/home/me";
  is_dir = λ path. true;
  agents = [];
  route = record {
    select = reads;
    freshness = reads;
    reason = reads;
    evidence = reads;
    candidates = reads;
    account = fine;
    profile = fine;
    members = fine;
  };
  account = fine;
  secrets = some (λ acc. projected ("CODEX_HOME=/run/a" ∷ []));
  failure = fine;
  start = some (record {
    handle = 7;
    forker = true;
    rollbacker = false;
    reviewer = false;
    steerer = false;
    approver = false;
  });
  id = "s_1";
  save = fine;
  clear = fine;
  bind_read = fine;
  bind = broken;
  pages = λ cursor. fine;
}

abbrev daemon : Daemon ℕ
daemon = record {
  sessions = record {
    agents = "claude-code" ∷ "codex" ∷ [];
    store = none;
    sessions = [];
    reviving = [];
    shut = [];
  };
  accounts = some (record {
    path = "";
    accounts =
        (
          "a",
          record {
            id = "a";
            provider = "codex";
            auth_mode = "";
            email = "";
            account_id = "";
            plan = "";
            secret_ref = "file:a";
            created_at = 1;
            updated_at = 1;
          },
        )
        ∷ [];
    account_state = [];
    quotas = [];
    session_accounts = [];
    profiles = [];
    members = [];
    profile_state = [];
    health = [];
  });
  metrics = new_runtime_metrics;
}

abbrev request : SessionCreateParams
request = record {
  agent_id = "codex";
  account_id = "a";
  permission_mode = "";
  require_fresh_quota = false;
  profile = "";
  cwd = "/src";
  resume = "";
  model = "";
  effort = "";
  task_class = "";
}

create_session-CreatedOutcome_example :
    CreatedOutcome whole
      (λ s. s)
      (λ s. s)
      (λ n. "")
      unix
      json
      io
      daemon
      (create_session whole (λ s. s) (λ s. s) (λ n. "") unix json io request daemon)
create_session-CreatedOutcome_example =
    create_session-CreatedOutcome whole (λ s. s) (λ s. s) (λ n. "") unix json io request daemon

-- The client is answered with an error.
bind_fails :
    (create_session whole (λ s. s) (λ s. s) (λ n. "") unix json io request daemon).0
    ≡ err (bind (failed "disk I/O error"))
unfolding create_session trim_space valid_permission_mode
bind_fails = refl
