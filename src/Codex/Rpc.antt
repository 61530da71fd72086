-- ===== src/Codex/Rpc.antt =====
-- internal/adapter/codex/rpc.go: the client side of the JSON-RPC connection to one app-server.
-- The calls stand in order of their ids, which nextID counts from 1. `pending` of a call says that the map
-- has its channel, and `answers` is what was sent on that channel, whose buffer holds one.
use capd.Prelude.{
  ℕ, zero, suc, String, Bool, true, false, not, ◌&&◌, Option, none, some, List, [], ◌∷◌, ◌++◌,
  get_elem?, set, map, str_eq, if◌then◌else◌,
}

pub data Answer : Type 0 where
  result : String → Answer
  refused : String → Answer
  exited : Answer

-- What Call returns: what it took from its channel, or an error of its own.
pub data Outcome : Type 0 where
  answered : Answer → Outcome
  dead_server write_failed canceled : Outcome

-- Where a call is: it has its id, it is in the map and writes its request, it waits in the select, or it
-- has returned.
pub data Stage : Type 0 where
  numbered written_to waiting : Stage
  returned : Outcome → Stage

pub record Call : Type 0 where
  pub stage : Stage
  pub pending : Bool
  pub answers : List Answer

pub record RpcClient : Type 0 where
  pub calls : List Call
  pub dead : Bool

-- One line of the server as JSON; `parse` says where it is an object. A raw id that is empty is missing.
pub record RpcMessage : Type 0 where
  pub id : String
  pub method : String
  pub params : String
  pub result : String
  pub error : Option String

-- What the read loop hands to its callbacks.
pub data Incoming : Type 0 where
  server_request : String → String → String → Incoming
  notification : String → String → Incoming
  nothing : Incoming

abbrev pub new_client : RpcClient
new_client = record { calls = []; dead = false }

-- c.pending[id], and delete: the entry of a call that the map has.
abbrev pub answer_call : Answer → Call → Call
answer_call a call =
    if call.pending then record call { pending = false; answers = call.answers ++ a ∷ [] } else call

abbrev pub set_found : ℕ → (Call → Call) → RpcClient → Option Call → RpcClient
set_found i change c none = c
set_found i change c (some call) = record c { calls = set c.calls i (change call) }

-- A change of the call with the id; ids count from 1, and one that was never given changes nothing.
abbrev pub with_call : ℕ → (Call → Call) → RpcClient → RpcClient
with_call zero change c = c
with_call (suc i) change c = set_found i change c (get_elem? c.calls i)

abbrev pub answer_of : RpcMessage → Option String → Answer
answer_of msg none = result msg.result
answer_of msg (some e) = refused e

abbrev pub respond_to : RpcMessage → Option ℕ → RpcClient → RpcClient
respond_to msg none c = c
respond_to msg (some id) c = with_call id (answer_call (answer_of msg msg.error)) c

-- The switch of readLoop; `parse_id` reads an id as a number.
unfoldable pub on_message : (String → Option ℕ) → RpcMessage → RpcClient → Incoming × RpcClient
on_message parse_id msg c =
    if not (str_eq msg.method "") && not (str_eq msg.id "")
    then (server_request msg.id msg.method msg.params, c)
    else if not (str_eq msg.method "")
    then (notification msg.method msg.params, c)
    else if not (str_eq msg.id "")
    then (nothing, respond_to msg (parse_id msg.id) c)
    else (nothing, c)

abbrev pub on_parsed : (String → Option ℕ) → Option RpcMessage → RpcClient → Incoming × RpcClient
on_parsed parse_id none c = (nothing, c)
on_parsed parse_id (some msg) c = on_message parse_id msg c

-- The process is gone: every call in the map is failed.
unfoldable pub die : RpcClient → RpcClient
die c = record { calls = map (answer_call exited) c.calls; dead = true }

abbrev pub fresh_call : Call
fresh_call = record { stage = numbered; pending = false; answers = [] }

-- Call takes its id.
unfoldable pub begin_call : RpcClient → RpcClient
begin_call c = record c { calls = c.calls ++ fresh_call ∷ [] }

-- The channel goes into the map, unless the process is gone.
abbrev pub enter_map : Bool → Call → Call
enter_map true call = record call { stage = returned dead_server }
enter_map false call = record call { stage = written_to; pending = true }

-- The write of the request, with its success.
abbrev pub wrote : Bool → Call → Call
wrote true call = record call { stage = waiting }
wrote false call = record call { stage = returned write_failed; pending = false }

-- The select: the answer that is there, or the end of the context.
abbrev pub receive : List Answer → Call → Call
receive [] call = call
receive (a ∷ rest) call = record call { stage = returned (answered a) }

abbrev pub give_up : Call → Call
give_up call = record call { stage = returned canceled; pending = false }
