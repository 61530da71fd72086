-- ===== src/Protocol.antt =====
-- pkg/protocol: events, JSON values and error codes.
use capd.Prelude.{ℕ, String, Bool, true, false, Option, none, some, str_eq, if◌then◌else◌}

-- What `any` holds after `encoding/json`: a `map[string]any` is `Members`, a `[]any` is `Values`, and a
-- number is its literal.
mutual
  -- A JSON object, its members in some order.
  pub data Members : Type 0 where
    no_members : Members
    member : String → Value → Members → Members

  pub data Values : Type 0 where
    no_values : Values
    value : Value → Values → Values

  pub data Value : Type 0 where
    text : String → Value
    bool : Bool → Value
    number : String → Value
    null : Value
    object : Members → Value
    list : Values → Value

-- m[key]
unfoldable pub get_field : String → Members → Option Value
get_field key no_members = none
get_field key (member k v fs) = if str_eq k key then some v else get_field key fs

-- v.(string)
abbrev pub as_text : Option Value → Option String
as_text (some (text s)) = some s
as_text _ = none

pub data EventType : Type 0 where
  session_started session_ended output_text output_reasoning tool_use tool_result : EventType
  approval_needed usage_updated task_done error : EventType

abbrev pub is_session_started : EventType → Bool
is_session_started session_started = true
is_session_started _ = false

abbrev pub is_task_done : EventType → Bool
is_task_done task_done = true
is_task_done _ = false

pub record Event : Type 0 where
  pub session_id : String
  pub seq : ℕ
  pub type : EventType
  pub content : Members

-- The codes that the session registry answers with. The text of an error is not modelled.
pub data Code : Type 0 where
  method_not_found invalid_params internal_error agent_not_found agent_unavailable : Code
  session_not_found session_closed unauthorized : Code

pub record Attachment : Type 0 where
  pub type : String
  pub path : String
  pub url : String

pub record AgentCapabilities : Type 0 where
  pub model : Bool
  pub effort : Bool
  pub streaming : Bool
  pub approvals : Bool
  pub steer : Bool
  pub fork : Bool
  pub rollback : Bool
  pub review : Bool
  pub images : Bool
  pub usage : Bool
  pub resume : Bool

-- The zero value of the struct.
abbrev pub no_capabilities : AgentCapabilities
no_capabilities = record {
  model = false;
  effort = false;
  streaming = false;
  approvals = false;
  steer = false;
  fork = false;
  rollback = false;
  review = false;
  images = false;
  usage = false;
  resume = false;
}

pub record AgentInfo : Type 0 where
  pub id : String
  pub name : String
  pub bin : String
  pub version : String
  pub available : Bool
  pub capabilities : AgentCapabilities
