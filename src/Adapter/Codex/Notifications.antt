-- ===== src/Adapter/Codex/Notifications.antt =====
-- The notifications of the codex app-server (internal/adapter/codex.go): handleNotification,
-- handleEvent, handleRawNotification, handleItemNotification.
use aiclibridge.Prelude.{
  Text, lit, [], ◌∷◌, Option, none, some, if◌then◌else◌, Bool, true, false, text_eq, is_empty,
  or_text, ◌&&◌, ◌||◌, has_prefix,
}
use aiclibridge.Protocol.{Fields, end, field, string}
use aiclibridge.Adapter.Scan.{text_message, running_message, tool_use_message, tool_result_message}
use aiclibridge.Adapter.Codex.{
  NotificationProtocol, unknown, legacy, raw, CodexClient, Numbers, sent, observed, turn_done, emit,
  set_turn_error, string_field, object_field, bool_field, extract_nested_string,
  extract_usage_from_map, describe_codex_item_progress_activity, is_completed, is_foreign,
}

abbrev pub exec_command : Text
exec_command = lit "exec_command"

abbrev pub patch_apply : Text
patch_apply = lit "patch_apply"

abbrev pub command_input : Fields → Option Fields
command_input m = some (field (lit "command") (string (string_field (lit "command") m)) end)

-- `if text != ""`: the text as a message.
unfoldable pub tell_text : Text → CodexClient → CodexClient
unfolding emit
tell_text text c = if is_empty text then c else emit (sent (text_message text)) c

unfoldable pub start_turn : Text → CodexClient → CodexClient
unfolding emit
start_turn turn_id c =
    emit (sent (running_message c.thread_id))
      (record c { turn_started = true; turn_id = if is_empty turn_id then c.turn_id else turn_id })

unfoldable pub handle_event : Numbers → Fields → CodexClient → CodexClient
unfolding emit tell_text start_turn extract_usage_from_map
handle_event d msg c =
    let type = string_field (lit "type") msg in
    let call_id = string_field (lit "call_id") msg in
    if text_eq type (lit "task_started")
    then start_turn [] c
    else if text_eq type (lit "agent_message")
    then tell_text (string_field (lit "message") msg) c
    else if text_eq type (lit "exec_command_begin")
    then emit (sent (tool_use_message exec_command call_id (command_input msg))) c
    else if text_eq type (lit "exec_command_end")
    then emit (sent (tool_result_message exec_command call_id (string_field (lit "output") msg))) c
    else if text_eq type (lit "patch_apply_begin")
    then emit (sent (tool_use_message patch_apply call_id none)) c
    else if text_eq type (lit "patch_apply_end")
    then emit (sent (tool_result_message patch_apply call_id [])) c
    else if text_eq type (lit "task_complete")
    then emit (turn_done false) (extract_usage_from_map d msg c)
    else if text_eq type (lit "turn_aborted")
    then emit (turn_done true) c
    else c

-- A message of the agent; with the phase final_answer it ends a turn that has started.
unfoldable pub hear_agent : Fields → CodexClient → CodexClient
unfolding emit tell_text
hear_agent item c =
    let heard = tell_text (string_field (lit "text") item) c in
    if text_eq (string_field (lit "phase") item) (lit "final_answer") && heard.turn_started
    then emit (turn_done false) heard
    else heard

unfoldable pub handle_item : Text → Fields → CodexClient → CodexClient
unfolding emit hear_agent
handle_item method item c =
    let type = string_field (lit "type") item in
    let id = string_field (lit "id") item in
    let output = string_field (lit "aggregatedOutput") item in
    let started = text_eq method (lit "item/started") in
    let completed = text_eq method (lit "item/completed") in
    if started && text_eq type (lit "commandExecution")
    then emit (sent (tool_use_message exec_command id (command_input item))) c
    else if completed && text_eq type (lit "commandExecution")
    then emit (sent (tool_result_message exec_command id output)) c
    else if started && text_eq type (lit "fileChange")
    then emit (sent (tool_use_message patch_apply id none)) c
    else if completed && text_eq type (lit "fileChange")
    then emit (sent (tool_result_message patch_apply id [])) c
    else if completed && text_eq type (lit "agentMessage")
    then hear_agent item c
    else c

-- The caller has tested isCodexItemProgressActivity.
unfoldable pub handle_item_notification : Text → Fields → CodexClient → CodexClient
unfolding emit handle_item
handle_item_notification method params c = elim (object_field (lit "item") params) [
  | none ↦ emit (observed (describe_codex_item_progress_activity method [] [])) c
  | some item ↦
      let type = string_field (lit "type") item in
      let id = string_field (lit "id") item in
      handle_item method item
        (emit (observed (describe_codex_item_progress_activity method type id)) c)
]

abbrev pub turn_id_of : Fields → Text
turn_id_of params = extract_nested_string params (lit "turn" ∷ lit "id" ∷ [])

abbrev pub turn_status : Fields → Text
turn_status params = extract_nested_string params (lit "turn" ∷ lit "status" ∷ [])

abbrev pub is_aborted : Text → Bool
is_aborted status =
    text_eq status (lit "cancelled")
    || (text_eq status (lit "canceled")
        || (text_eq status (lit "aborted") || text_eq status (lit "interrupted")))

abbrev pub turn_failure : Fields → Text
turn_failure params =
    or_text (extract_nested_string params (lit "turn" ∷ lit "error" ∷ lit "message" ∷ []))
      (lit "codex turn failed")

unfoldable pub fail_turn : Fields → CodexClient → CodexClient
unfolding set_turn_error
fail_turn params c =
    if text_eq (turn_status params) (lit "failed")
    then set_turn_error (turn_failure params) c
    else c

unfoldable pub finish_turn : Numbers → Fields → CodexClient → CodexClient
unfolding emit extract_usage_from_map
finish_turn d params c =
    emit (turn_done (is_aborted (turn_status params))) (elim (object_field (lit "turn") params) [
      | none ↦ c
      | some turn ↦ extract_usage_from_map d turn c
    ])

unfoldable pub mark_completed : Text → CodexClient → CodexClient
mark_completed id c = record c { completed_turn_ids = id ∷ c.completed_turn_ids }

-- The cases of handleRawNotification.
unfoldable pub turn_completed : Numbers → Fields → CodexClient → CodexClient
unfolding fail_turn finish_turn mark_completed
turn_completed d params c =
    let noted = fail_turn params c in
    if is_empty (turn_id_of params)
    then finish_turn d params noted
    else if is_completed (turn_id_of params) noted.completed_turn_ids
    then noted
    else finish_turn d params (mark_completed (turn_id_of params) noted)

abbrev pub notified_error : Fields → Text
notified_error params =
    or_text (extract_nested_string params (lit "error" ∷ lit "message" ∷ []))
      (extract_nested_string params (lit "message" ∷ []))

unfoldable pub note_error : Fields → CodexClient → CodexClient
unfolding emit set_turn_error
note_error params c =
    if is_empty (notified_error params)
    then c
    else if bool_field (lit "willRetry") params
    then emit (observed (lit "error:retry")) c
    else emit (turn_done false)
        (set_turn_error (notified_error params) (emit (observed (lit "error:terminal")) c))

unfoldable pub thread_status : Fields → CodexClient → CodexClient
unfolding emit
thread_status params c =
    if text_eq (extract_nested_string params (lit "status" ∷ lit "type" ∷ [])) (lit "idle")
      && c.turn_started
    then emit (turn_done false) c
    else c

unfoldable pub handle_raw_notification : Numbers → Text → Fields → CodexClient → CodexClient
unfolding start_turn turn_completed note_error thread_status handle_item_notification
handle_raw_notification d method params c =
    if is_foreign c params
    then c
    else if text_eq method (lit "turn/started")
    then start_turn (turn_id_of params) c
    else if text_eq method (lit "turn/completed")
    then turn_completed d params c
    else if text_eq method (lit "error")
    then note_error params c
    else if text_eq method (lit "thread/status/changed")
    then thread_status params c
    else if has_prefix method (lit "item/")
    then handle_item_notification method params c
    else c

abbrev pub is_legacy_event : Text → Bool
is_legacy_event method =
    text_eq method (lit "codex/event") || has_prefix method (lit "codex/event/")

abbrev pub is_raw_start : Text → Bool
is_raw_start method =
    text_eq method (lit "turn/started")
    || (text_eq method (lit "turn/completed")
        || (text_eq method (lit "thread/started") || has_prefix method (lit "item/")))

unfoldable pub set_protocol : NotificationProtocol → CodexClient → CodexClient
set_protocol p c = record c { notification_protocol = p }

-- What notificationProtocol lets through of a notification that is no legacy event.
unfoldable pub handle_unless_legacy :
    Numbers → NotificationProtocol → Text → Fields → CodexClient → CodexClient
unfolding handle_raw_notification set_protocol
handle_unless_legacy d legacy method params c = c
handle_unless_legacy d raw method params c = handle_raw_notification d method params c
handle_unless_legacy d unknown method params c =
    if is_raw_start method then handle_raw_notification d method params (set_protocol raw c) else c

-- The notification's method and params, the latter empty where they do not decode.
unfoldable pub handle_notification : Numbers → Text → Fields → CodexClient → CodexClient
unfolding handle_event handle_unless_legacy set_protocol
handle_notification d method params c =
    if is_legacy_event method
    then elim (object_field (lit "msg") params) [
      | none ↦ set_protocol legacy c
      | some msg ↦ handle_event d msg (set_protocol legacy c)
    ]
    else handle_unless_legacy d c.notification_protocol method params c
