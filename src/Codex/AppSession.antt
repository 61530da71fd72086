-- ===== src/Codex/AppSession.antt =====
-- internal/adapter/codex/appserver.go: one thread of the app-server as a session.
-- What encoding/json makes of the parameters of a message is `Params`: the members of the object, no member
-- for null, none where decoding into an object fails; and the text itself. A field of a Go struct is the member of its name, or the zero value where that is
-- missing or of another type. `room` is how many more events the channel can take.
use capd.Prelude.{
  ℕ, ◌-◌, String, append, Bool, true, false, ◌||◌, Option, none, some, List, [], ◌∷◌, ◌++◌, lookup,
  insert, remove, str_eq, if◌then◌else◌, ◌==◌,
}
use capd.Protocol.{
  EventType, session_started, output_text, output_reasoning, tool_use, tool_result, approval_needed,
  usage_updated, task_done, error, Members, no_members, member, Value, text, bool, null, object,
  get_field, as_text,
}
use capd.Adapter.Turn.{Emission}

pub record Params : Type 0 where
  pub decoded : Option Members
  pub raw : String

abbrev pub or_empty : Option Members → Members
or_empty none = no_members
or_empty (some obj) = obj

-- The members, or the zero value where decoding failed.
abbrev pub fields : Params → Members
fields params = or_empty params.decoded

pub record AppSession : Type 0 where
  pub thread_id : String
  pub turn_id : String
  pub last_text : String
  pub last_usage : Option Members
  pub approvals : List (String × String)
  pub closed : Bool
  pub sent : List Emission
  pub room : ℕ

abbrev pub text_or_empty : Option String → String
text_or_empty none = ""
text_or_empty (some s) = s

abbrev pub text_field : String → Members → String
text_field key obj = text_or_empty (as_text (get_field key obj))

abbrev pub members_or_none : Option Value → Option Members
members_or_none (some (object obj)) = some obj
members_or_none _ = none

abbrev pub object_field : String → Members → Members
object_field key obj = or_empty (members_or_none (get_field key obj))

-- m[key], nil where it is missing.
abbrev pub value_or_null : Option Value → Value
value_or_null none = null
value_or_null (some v) = v

abbrev pub any_field : String → Members → Value
any_field key obj = value_or_null (get_field key obj)

-- A closed session drops the event, and so does a full channel.
unfoldable pub emit : EventType → Members → AppSession → AppSession
emit t obj s =
    if s.closed || (s.room == 0)
    then s
    else record s { sent = s.sent ++ (t, obj) ∷ []; room = s.room - 1 }

unfoldable pub start_app_session : String → ℕ → AppSession
unfolding emit
start_app_session thread_id room =
    emit session_started
      (member "nativeSessionId" (text thread_id) (member "threadId" (text thread_id) no_members))
      (record {
        thread_id = thread_id;
        turn_id = "";
        last_text = "";
        last_usage = none;
        approvals = [];
        closed = false;
        sent = [];
        room = room;
      })

unfoldable pub permission_mapping : String → String × String
permission_mapping mode =
    if str_eq mode "full"
    then ("never", "danger-full-access")
    else if str_eq mode "acceptEdits"
    then ("on-request", "workspace-write")
    else ("on-request", "read-only")

unfoldable pub translate_decision : String → String
translate_decision d =
    if str_eq d "approve"
    then "accept"
    else if str_eq d "approveAlways"
    then "acceptForSession"
    else "reject"

abbrev pub approve_found :
    String → AppSession → Option String → Option (String × String) × AppSession
approve_found decision s none = (none, s)
approve_found decision s (some rpc_id) = (some (rpc_id, translate_decision decision), s)

-- The response to codex, or none: an unknown approval.
unfoldable pub approve : String → String → AppSession → Option (String × String) × AppSession
approve id decision s =
    approve_found decision (record s { approvals = remove id s.approvals }) (lookup id s.approvals)

-- What a request of codex asks approval for; none: it is not understood.
unfoldable pub request_kind : String → Option String
request_kind method =
    if str_eq method "item/commandExecution/requestApproval"
    then some "command"
    else if str_eq method "item/fileChange/requestApproval"
    then some "fileChange"
    else if str_eq method "item/permissions/requestApproval"
    then some "permissions"
    else none

-- The detail of the request without the ids of the thread and the turn, over what `data` has: a member of
-- the detail stands in front of one of `data` with its name.
unfoldable pub approval_detail : Members → Members → Members
approval_detail no_members rest = rest
approval_detail (member k v obj) rest =
    if str_eq k "threadId" || str_eq k "turnId"
    then approval_detail obj rest
    else member k v (approval_detail obj rest)

abbrev pub requested :
    String → Members → AppSession → Option String → Option (String × String) × AppSession
requested id obj s none = (some (id, "reject"), s)
requested id obj s (some kind) =
    let approval_id = append "a_" id in
    (
      none,
      emit approval_needed
          (approval_detail obj
            (member "approvalId" (text approval_id) (member "kind" (text kind) no_members)))
          (record s { approvals = insert approval_id id s.approvals }),
    )

-- handleServerRequest, with the response that is sent at once.
unfoldable pub handle_server_request :
    String → String → Params → AppSession → Option (String × String) × AppSession
handle_server_request id method params s = requested id (fields params) s (request_kind method)

-- A delta of text, with its item.
abbrev pub delta_event : Members → Members
delta_event obj =
    member "text" (text (text_field "delta" obj))
      (member "delta" (bool true) (member "itemId" (text (text_field "itemId" obj)) no_members))

abbrev pub or_other : String → String → String
or_other s other = if str_eq s "" then other else s

abbrev pub output_delta : Members → Members
output_delta obj = member "kind" (text "shell") (
    member "output" (text (or_other (text_field "chunk" obj) (text_field "delta" obj)))
      (member "delta" (bool true) (member "itemId" (text (text_field "itemId" obj)) no_members)))

abbrev pub with_usage : Option Members → Members → Members
with_usage none rest = rest
with_usage (some usage) rest = member "usage" (object usage) rest

abbrev pub with_error : Value → Members
with_error null = no_members
with_error v = member "error" v no_members

-- The data of task.done at the end of a turn.
unfoldable pub turn_result : Members → String → Option Members → Members
turn_result turn last_text last_usage =
    let rest = with_usage last_usage (with_error (any_field "error" turn)) in
    member "ok" (bool (str_eq (text_field "status" turn) "completed"))
      (if str_eq last_text "" then rest else member "result" (text last_text) rest)

-- The message of an error: its own, that of its error object, or the whole text.
unfoldable pub error_message : Params → String
error_message params =
    or_other (text_field "message" (fields params))
      (or_other (text_field "message" (object_field "error" (fields params))) params.raw)

abbrev pub command_fields : Members → Members → Members
command_fields item rest =
    member "kind" (text "shell") (member "command" (any_field "command" item) rest)

-- The item of the parameters: a missing or null one is empty, and one that is no object fails to decode.
abbrev pub as_item : Option Value → Option Members
as_item none = some no_members
as_item (some null) = some no_members
as_item (some (object obj)) = some obj
as_item _ = none

abbrev pub item_of : Option Members → Option Members
item_of none = none
item_of (some obj) = as_item (get_field "item" obj)

-- handleItem behind its decoding: `started` says which of its two methods it is.
unfoldable pub translate_item : Bool → Members → AppSession → AppSession
translate_item started item s =
    let type = text_field "type" item in
    if str_eq type "agentMessage"
    then (if started
        then s
        else emit output_text
            (member "text" (text (text_field "text" item))
              (member "final" (bool true) (member "itemId" (any_field "id" item) no_members)))
            (record s { last_text = text_field "text" item }))
    else if str_eq type "reasoning" || str_eq type "userMessage"
    then s
    else if str_eq type "commandExecution"
    then (if started
        then emit tool_use (command_fields item (member "item" (object item) no_members)) s
        else emit tool_result
            (command_fields item (
              member "output" (any_field "aggregatedOutput" item) (
                member "exitCode" (any_field "exitCode" item)
                  (member "item" (object item) no_members))))
            s)
    else emit (if started then tool_use else tool_result)
        (member "kind" (text type) (member "item" (object item) no_members)) s

abbrev pub handle_item : Bool → Option Members → AppSession → AppSession
handle_item started none s = s
handle_item started (some item) s = translate_item started item s

-- "turn/completed" and "turn/failed".
unfoldable pub complete_turn : Members → AppSession → AppSession
complete_turn turn s =
    emit task_done (turn_result turn s.last_text s.last_usage) (record s { last_text = "" })

-- The cases of the switch of handleNotification.
pub data Notification : Type 0 where
  turn_started message_delta reasoning_delta item_started item_completed : Notification
  command_delta token_usage rate_limits turn_over failure other : Notification

unfoldable pub notification_of : String → Notification
notification_of method =
    if str_eq method "turn/started"
    then turn_started
    else if str_eq method "item/agentMessage/delta"
    then message_delta
    else if str_eq method "item/reasoning/textDelta"
        || str_eq method "item/reasoning/summaryTextDelta"
    then reasoning_delta
    else if str_eq method "item/started"
    then item_started
    else if str_eq method "item/completed"
    then item_completed
    else if str_eq method "item/commandExecution/outputDelta"
    then command_delta
    else if str_eq method "thread/tokenUsage/updated"
    then token_usage
    else if str_eq method "account/rateLimits/updated"
    then rate_limits
    else if str_eq method "turn/completed" || str_eq method "turn/failed"
    then turn_over
    else if str_eq method "error"
    then failure
    else other

unfoldable pub handle : Notification → Params → AppSession → AppSession
handle turn_started params s = record s {
  turn_id = text_field "id" (object_field "turn" (fields params));
}
handle message_delta params s = emit output_text (delta_event (fields params)) s
handle reasoning_delta params s = emit output_reasoning (delta_event (fields params)) s
handle item_started params s = handle_item true (item_of params.decoded) s
handle item_completed params s = handle_item false (item_of params.decoded) s
handle command_delta params s = emit tool_result (output_delta (fields params)) s
handle token_usage params s = record s {
  last_usage = members_or_none (get_field "tokenUsage" (fields params));
}
handle rate_limits params s = emit usage_updated (fields params) s
handle turn_over params s = complete_turn (object_field "turn" (fields params)) s
handle failure params s = emit error (member "message" (text (error_message params)) no_members) s
handle other params s = s

unfoldable pub handle_notification : String → Params → AppSession → AppSession
handle_notification method params s = handle (notification_of method) params s

-- Close of one session; the profile forgets its thread.
abbrev pub close_session : AppSession → AppSession
close_session s = record s { closed = true }
