-- ===== src/Server/Examples.antt =====
-- internal/server: the theorems at concrete requests, with a cryptography of constants.
use capd.Prelude.{String, true, false, none, some, List, [], ◌∷◌, ok, ◌≡◌, refl, ◌⊎◌, ◌↔◌, All}
use capd.Security.Token.{Crypto}
use capd.Server.Scopes.{WsClient, Request, handle_all, one_of}
use capd.Server.Access.{Allowed, GreetsFirst, handle_all-GreetsFirst-Allowed}
use capd.Server.Auth.{
  Strings, HttpRequest, AuthInfo, bearer_token, request_token, authorized, authorized_bearer_for,
}
use capd.Server.Vouched.{Vouched, authorized-Vouched, authorized_bearer_for-Signed}
use capd.Server.Policy.{Platform, TaskSendParams, validate_task_send}
use capd.Server.Refusals.{FineTask, validate_task_send-FineTask}

abbrev reader : WsClient
reader = record { initialized = false; scope = "console:read" }

abbrev asked : String → Request
asked method = record { method = method; decodes = true; version = "0.1" }

abbrev requests : List Request
requests = asked "session/list" ∷ asked "initialize" ∷ asked "session/list" ∷ asked "task/send" ∷ []

handle_all-GreetsFirst-Allowed_example :
    GreetsFirst requests (handle_all reader requests)
    × All (Allowed "console:read") (handle_all reader requests)
handle_all-GreetsFirst-Allowed_example = handle_all-GreetsFirst-Allowed reader requests refl

abbrev crypto : Crypto
crypto = record {
  encode = λ s. s;
  decode = some;
  sign = λ root payload. "s";
  format_int = λ n. "5";
  parse_int = λ s. some 5;
  trim = λ s. s;
}

abbrev strings : Strings
strings = record { strip_prefix = λ prefix s. some s; split_comma = λ s. s ∷ [] }

abbrev handshake : HttpRequest
handshake = record { query_token = ""; authorization = "capd1.console.5.s"; subprotocols = [] }

abbrev console_info : AuthInfo
console_info = record { scope = "console"; subprotocol = "" }

grants : authorized strings crypto "root" 1000000000 handshake ≡ some console_info
unfolding authorized
grants = refl

authorized-Vouched_example :
    Vouched crypto "root" 1000000000 (request_token strings crypto handshake).0 "console"
    × ((request_token strings crypto handshake).1 ≡ "")
authorized-Vouched_example =
    authorized-Vouched strings crypto "root" 1000000000 handshake console_info grants

passes : authorized_bearer_for strings crypto "root" 1000000000 ("console" ∷ []) handshake ≡ true
unfolding authorized_bearer_for
passes = refl

authorized_bearer_for-Signed_example :
    (scope : String) × (((bearer_token strings crypto handshake ≡ "root")
        ⊎ (one_of scope ("console" ∷ []) ≡ true))
      × Vouched crypto "root" 1000000000 (bearer_token strings crypto handshake) scope)
authorized_bearer_for-Signed_example =
    authorized_bearer_for-Signed strings crypto "root" 1000000000 ("console" ∷ []) handshake passes

abbrev unix : Platform
unix = record {
  trim = λ s. s;
  is_abs = λ s. true;
  abs = some;
  clean = λ s. s;
  windows = false;
  volume_root = λ s. s;
  parse_url = λ s. none;
}

abbrev picture : TaskSendParams
picture = record {
  session_id = "s_1";
  prompt = "";
  attachments = record { type = "image"; path = "/tmp/a.png"; url = "" } ∷ [];
}

validate_task_send-FineTask_example :
    (validate_task_send unix picture ≡ ok tt) ↔ FineTask unix picture
validate_task_send-FineTask_example = validate_task_send-FineTask unix picture
