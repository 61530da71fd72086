-- ===== src/Codex/Examples.antt =====
-- The app-server at work: calls around its death, an approval, a turn, and a profile.
use capd.Prelude.{
  ℕ, String, append, true, false, Option, none, some, List, [], ◌∷◌, length, get_elem?, lookup,
  ◌==◌, ◌≡◌, refl, All, arith,
}
use capd.Protocol.{no_members, member, text, object, get_field}
use capd.Codex.Rpc.{RpcClient, RpcMessage, begin_call, die, on_message}
use capd.Codex.Calls.{
  RpcAction, beginning, entering, writing, incoming, dying, rpc_step, RpcRun, here, next, AllFair,
}
use capd.Codex.Answered.{rpc_run-AllFair}
use capd.Codex.AppSession.{
  AppSession, Params, request_kind, handle_server_request, approve, translate_decision, turn_over,
  notification_of, handle_notification, handle, translate_item, emit,
}
use capd.Codex.Approvals.{approve_once}
use capd.Codex.Results.{handle_all}
use capd.Codex.Engine.{Profile, ensure_client, register, handle_engine_death}
use capd.Codex.Deaths.{is_closed, handle_engine_death_lem, late_death}

-- Two calls, of which one is answered and the other in flight when the server dies.
abbrev ids : String → Option ℕ
ids id = some 1

abbrev reply : RpcMessage
reply = record { id = "1"; method = ""; params = ""; result = "{}"; error = none }

abbrev actions : List RpcAction
actions =
    dying
    ∷ incoming (some reply)
    ∷ writing 1 true
    ∷ writing 0 true
    ∷ entering 1
    ∷ entering 0
    ∷ beginning
    ∷ beginning
    ∷ []

abbrev left_by : Option RpcClient → RpcClient
left_by none = record { calls = []; dead = false }
left_by (some c) = c

abbrev client_after : List RpcAction → RpcClient
client_after [] = record { calls = []; dead = false }
client_after (a ∷ before) = left_by (rpc_step ids a (client_after before))

rpc_history : RpcRun ids (client_after actions)
unfolding rpc_step begin_call on_message die
rpc_history =
    next dying
      (next (incoming (some reply))
        (next (writing 1 true)
          (next (writing 0 true)
            (next (entering 1)
              (next (entering 0) (next beginning (next beginning here refl) refl) refl) refl)
            refl)
          refl)
        refl)
      refl

rpc_run-AllFair_example : AllFair (client_after actions)
rpc_run-AllFair_example = rpc_run-AllFair ids (client_after actions) rpc_history

abbrev session : AppSession
session = record {
  thread_id = "th";
  turn_id = "tu";
  last_text = "";
  last_usage = none;
  approvals = ("a_7", "7") ∷ [];
  closed = false;
  sent = [];
  room = 256;
}

abbrev request : Params
request = record { decoded = some (member "threadId" (text "th") no_members); raw = "{}" }

asks : request_kind "item/fileChange/requestApproval" ≡ some "fileChange"
unfolding request_kind
asks = refl

approve_once_example :
    let asked = handle_server_request "8" "item/fileChange/requestApproval" request session in
    let first = approve (append "a_" "8") "approve" asked.1 in
    let second = approve (append "a_" "8") "deny" first.1 in
    ((asked.0 ≡ none) × (first.0 ≡ some ("8", translate_decision "approve")) × (second.0 ≡ none))
    × ((lookup (append "a_" "8") first.1.approvals ≡ none)
        × (lookup (append "a_" "8") second.1.approvals ≡ none))
    × ((lookup "a_7" first.1.approvals ≡ lookup "a_7" session.approvals)
        × (lookup "a_7" second.1.approvals ≡ lookup "a_7" session.approvals))
approve_once_example =
    approve_once "8" "item/fileChange/requestApproval" "approve" "deny" "fileChange" request session
      "a_7" asks refl

abbrev message : Params
message = record {
  decoded = some (
      member "item"
        (object (member "type" (text "agentMessage") (member "text" (text "done") no_members)))
        no_members);
  raw = "{}";
}

abbrev turn : Params
turn = record {
  decoded =
      some (member "turn" (object (member "status" (text "completed") no_members)) no_members);
  raw = "{}";
}

abbrev spoken : List (String × Params)
spoken = ("item/completed", message) ∷ []

turn_ends : notification_of "turn/completed" ≡ turn_over
unfolding notification_of
turn_ends = refl

still_open : (handle_all spoken session).closed ≡ false
unfolding handle_notification notification_of handle translate_item emit get_field
still_open = refl

has_room : ((handle_all spoken session).room == 0) ≡ false
unfolding handle_notification notification_of handle translate_item emit get_field
has_room = refl

abbrev profile : Profile
profile = record {
  client = some 0;
  next_client = 1;
  sessions = ("th", 0) ∷ [];
  heap = session ∷ session ∷ [];
}

handle_engine_death_lem_example :
    All
      (λ row. is_closed (get_elem? (handle_engine_death profile).heap row.1) ≡ true)
      profile.sessions
    × ((handle_engine_death profile).sessions ≡ [])
    × ((handle_engine_death profile).client ≡ none)
    × (get_elem? (handle_engine_death profile).heap 1 ≡ get_elem? profile.heap 1)
handle_engine_death_lem_example = handle_engine_death_lem profile 1 ((λ e. omega (arith, e)), tt)

late_death_example :
    let revived = (ensure_client false (record { started = none; initialized = none }) profile).1 in
    let after = handle_engine_death (register "th2" 256 revived) in
    (revived.client ≡ some profile.next_client)
    × (after.client ≡ none)
    × (is_closed (get_elem? after.heap (length profile.heap)) ≡ true)
    × (get_elem? after.heap 0 ≡ get_elem? profile.heap 0)
late_death_example = late_death profile 0 "th2" 256 0 refl (omega arith)
