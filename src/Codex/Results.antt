-- ===== src/Codex/Results.antt =====
-- internal/adapter/codex/appserver.go: the result that task.done carries.
use capd.Prelude.{
  String, Bool, true, false, Option, none, some, List, [], ◌∷◌, ◌++◌, str_eq, if◌then◌else◌, ◌==◌,
  ◌≡◌, refl, ap, ◌∙◌, arith,
}
use capd.Protocol.{EventType, task_done, Members, get_field}
use capd.Codex.AppSession.{
  AppSession, Params, fields, emit, text_field, object_field, members_or_none, item_of,
  translate_item, handle_item, turn_result, complete_turn, Notification, turn_started,
  message_delta, reasoning_delta, item_started, item_completed, command_delta, token_usage,
  rate_limits, turn_over, failure, other, notification_of, handle, handle_notification,
}

abbrev pub handle_all : List (String × Params) → AppSession → AppSession
handle_all [] s = s
handle_all ((method, params) ∷ rest) s = handle_all rest (handle_notification method params s)

-- The text of an item that is a message of the agent.
abbrev pub item_text : String → Option Members → String
item_text old none = old
item_text old (some item) =
    if str_eq (text_field "type" item) "agentMessage" then text_field "text" item else old

abbrev pub text_after : Notification → Params → String → String
text_after item_completed params old = item_text old (item_of params.decoded)
text_after turn_over params old = ""
text_after _ params old = old

abbrev pub usage_after : Notification → Params → Option Members → Option Members
usage_after token_usage params old = members_or_none (get_field "tokenUsage" (fields params))
usage_after _ params old = old

-- The last message of the agent that was completed since the last turn was over, and the last usage.
abbrev pub final_text : List (String × Params) → String → String
final_text [] old = old
final_text ((method, params) ∷ rest) old =
    final_text rest (text_after (notification_of method) params old)

abbrev pub final_usage : List (String × Params) → Option Members → Option Members
final_usage [] old = old
final_usage ((method, params) ∷ rest) old =
    final_usage rest (usage_after (notification_of method) params old)

-- Emitting keeps what the next task.done will carry.
record Keeps (s s' : AppSession) : Type 0 where
  last_text : s'.last_text ≡ s.last_text
  last_usage : s'.last_usage ≡ s.last_usage

emit-Keeps : (t : EventType) (obj : Members) (s : AppSession) → Keeps s (emit t obj s)
unfolding emit
emit-Keeps t obj s = record { last_text = ground arith; last_usage = ground arith }

item_lem :
    (started : Bool) (item : Members) (s : AppSession)
    → ((translate_item started item s).last_text
        ≡ (if started then s.last_text else item_text s.last_text (some item)))
      × ((translate_item started item s).last_usage ≡ s.last_usage)
unfolding translate_item emit
item_lem started item s = ground arith

handle_text :
    (n : Notification) (params : Params) (s : AppSession)
    → (handle n params s).last_text ≡ text_after n params s.last_text
unfolding handle complete_turn
handle_text turn_started params s = refl
handle_text message_delta params s = (emit-Keeps _ _ s).last_text
handle_text reasoning_delta params s = (emit-Keeps _ _ s).last_text
handle_text item_started params s = item (item_of params.decoded)
  where
    item : (o : Option Members) → (handle_item true o s).last_text ≡ s.last_text
    item none = refl
    item (some i) = (item_lem true i s).0
handle_text item_completed params s = item (item_of params.decoded)
  where
    item : (o : Option Members) → (handle_item false o s).last_text ≡ item_text s.last_text o
    item none = refl
    item (some i) = (item_lem false i s).0
handle_text command_delta params s = (emit-Keeps _ _ s).last_text
handle_text token_usage params s = refl
handle_text rate_limits params s = (emit-Keeps _ _ s).last_text
handle_text turn_over params s = (emit-Keeps _ _ (record s { last_text = "" })).last_text
handle_text failure params s = (emit-Keeps _ _ s).last_text
handle_text other params s = refl

handle_usage :
    (n : Notification) (params : Params) (s : AppSession)
    → (handle n params s).last_usage ≡ usage_after n params s.last_usage
unfolding handle complete_turn
handle_usage turn_started params s = refl
handle_usage message_delta params s = (emit-Keeps _ _ s).last_usage
handle_usage reasoning_delta params s = (emit-Keeps _ _ s).last_usage
handle_usage item_started params s = item (item_of params.decoded)
  where
    item : (o : Option Members) → (handle_item true o s).last_usage ≡ s.last_usage
    item none = refl
    item (some i) = (item_lem true i s).1
handle_usage item_completed params s = item (item_of params.decoded)
  where
    item : (o : Option Members) → (handle_item false o s).last_usage ≡ s.last_usage
    item none = refl
    item (some i) = (item_lem false i s).1
handle_usage command_delta params s = (emit-Keeps _ _ s).last_usage
handle_usage token_usage params s = refl
handle_usage rate_limits params s = (emit-Keeps _ _ s).last_usage
handle_usage turn_over params s = (emit-Keeps _ _ (record s { last_text = "" })).last_usage
handle_usage failure params s = (emit-Keeps _ _ s).last_usage
handle_usage other params s = refl

handle_all_text :
    (ns : List (String × Params)) (s : AppSession)
    → (handle_all ns s).last_text ≡ final_text ns s.last_text
unfolding handle_notification
handle_all_text [] s = refl
handle_all_text ((method, params) ∷ rest) s =
    handle_all_text rest (handle_notification method params s)
    ∙ ap (final_text rest) (handle_text (notification_of method) params s)

handle_all_usage :
    (ns : List (String × Params)) (s : AppSession)
    → (handle_all ns s).last_usage ≡ final_usage ns s.last_usage
unfolding handle_notification
handle_all_usage [] s = refl
handle_all_usage ((method, params) ∷ rest) s =
    handle_all_usage rest (handle_notification method params s)
    ∙ ap (final_usage rest) (handle_usage (notification_of method) params s)

completed_lem :
    (turn : Members) (t : AppSession)
    → t.closed ≡ false
    → (t.room == 0) ≡ false
    → ((complete_turn turn t).sent
        ≡ t.sent ++ (task_done, turn_result turn t.last_text t.last_usage) ∷ [])
      × ((complete_turn turn t).last_text ≡ "")
unfolding complete_turn emit
completed_lem turn t opened room = (
  ground (arith, opened, room),
  (emit-Keeps task_done (turn_result turn t.last_text t.last_usage)
      (record t { last_text = "" })).last_text,
)

-- Behind any notifications, one that says that the turn is over adds one task.done to an open channel with
-- room. Its result is the last message of the agent that was completed since the turn before was over,
-- its usage the last that was reported; and the next turn starts without a result.
turn_over_lem :
    (ns : List (String × Params)) (method : String) (params : Params) (s : AppSession)
    → notification_of method ≡ turn_over
    → (handle_all ns s).closed ≡ false
    → ((handle_all ns s).room == 0) ≡ false
    → ((handle_notification method params (handle_all ns s)).sent
        ≡ (handle_all ns s).sent
          ++ (
            task_done,
            turn_result
                (object_field "turn" (fields params))
                (final_text ns s.last_text)
                (final_usage ns s.last_usage),
          )
            ∷ [])
      × ((handle_notification method params (handle_all ns s)).last_text ≡ "")
unfolding handle_notification handle
turn_over_lem ns method params s over opened room =
    let t = handle_all ns s in
    let turn = object_field "turn" (fields params) in
    let done = completed_lem turn t opened room in
    (
      ap (λ n. (handle n params t).sent) over
          ∙ done.0
          ∙ ap (λ x. t.sent ++ (task_done, turn_result turn x t.last_usage) ∷ [])
              (handle_all_text ns s)
          ∙ ap (λ x. t.sent ++ (task_done, turn_result turn (final_text ns s.last_text) x) ∷ [])
              (handle_all_usage ns s),
      ap (λ n. (handle n params t).last_text) over ∙ done.1,
    )
