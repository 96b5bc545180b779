-- ===== src/Adapter/StreamJson/Claude.antt =====
-- internal/adapter/claude.go: the scan of its Execute with handleAssistant, handleUser,
-- handleControlRequest, forceClaudeToolInputForeground, the search for an async launch, and the
-- end of Execute. As in Qwen, the prompt's write is part of `Ending`.
use aiclibridge.Prelude.{
  Text, lit, List, [], ◌∷◌, Option, none, some, if◌then◌else◌, Bool, false, text_eq, is_empty, ◌||◌,
}
use aiclibridge.Protocol.{
  lookup_field, Fields, Json, Items, string, object, array, end, field, nil, cons,
}
use aiclibridge.Adapter.{TokenUsage, Result, ExecOptions}
use aiclibridge.Adapter.Scan.{
  Scan, TokenCounts, completed, failed, try_send, running_message, log_message, close_stdin,
  scan_lines, result_usage, start_scan,
}
use aiclibridge.Adapter.Scan.Outcome.{Ending, Verdict, judge, report}
use aiclibridge.Adapter.StreamJson.{
  Decoder, ContentBlock, handle_assistant, handle_user_block, request_input, answer_request,
}

pub record LogEntry : Type 0 where
  pub level : Text
  pub message : Text

-- claudeSDKMessage
pub record ClaudeMessage : Type 0 where
  pub type : Text
  pub message : Text
  pub subtype : Text
  pub session_id : Text
  pub model : Text
  pub result_text : Text
  pub is_error : Bool
  pub usage : Option TokenUsage
  pub model_usage : TokenCounts
  pub log : Option LogEntry
  pub request_id : Text
  pub request : Text

abbrev is_launched : Option Json → Bool
is_launched (some (string s)) = text_eq s (lit "async_launched")
is_launched _ = false

unfoldable pub map_has_async_launch_status : Fields → Bool
unfolding lookup_field
map_has_async_launch_status value = is_launched (lookup_field (lit "status") value)

abbrev item_launched : Json → Bool
item_launched (object value) = map_has_async_launch_status value
item_launched _ = false

unfoldable pub array_has_async_launch_status : Items → Bool
array_has_async_launch_status nil = false
array_has_async_launch_status (cons item items) =
    item_launched item || array_has_async_launch_status items

abbrev content_launched : Option Json → Bool
content_launched (some (array items)) = array_has_async_launch_status items
content_launched _ = false

unfoldable pub value_has_async_launch : Json → Bool
unfolding map_has_async_launch_status array_has_async_launch_status lookup_field
value_has_async_launch (object value) =
    map_has_async_launch_status value || content_launched (lookup_field (lit "content") value)
value_has_async_launch (array items) = array_has_async_launch_status items
value_has_async_launch _ = false

unfoldable pub tool_result_has_async_launch : Decoder → Text → Bool
unfolding value_has_async_launch
tool_result_has_async_launch d raw =
    if is_empty raw
    then false
    else elim (d.value raw) [ none ↦ false | some value ↦ value_has_async_launch value ]

-- What the scan keeps: the shared variables and sawAsyncLaunch.
pub record ClaudeScan : Type 0 where
  pub scan : Scan Text
  pub saw_async_launch : Bool

-- A block of a user message: the message it sends, and whether it reports an async launch.
unfoldable pub block_launches : Decoder → ContentBlock → Bool
unfolding tool_result_has_async_launch
block_launches d block =
    if text_eq block.type (lit "tool_result")
    then tool_result_has_async_launch d block.content
    else false

unfoldable pub handle_user_content : Decoder → List ContentBlock → ClaudeScan → ClaudeScan
unfolding handle_user_block block_launches
handle_user_content d [] s = s
handle_user_content d (block ∷ blocks) s = handle_user_content d blocks (record {
  scan = handle_user_block block s.scan;
  saw_async_launch = s.saw_async_launch || block_launches d block;
})

unfoldable pub handle_user : Decoder → Text → ClaudeScan → ClaudeScan
unfolding handle_user_content
handle_user d message s = elim (d.content message) [
  | none ↦ s
  | some content ↦ handle_user_content d content.content s
]

abbrev pub is_true : Option Json → Bool
is_true (some (Json.bool b)) = b
is_true _ = false

-- input[key] = value, for a key that the map has.
unfoldable pub set_field : Text → Json → Fields → Fields
set_field key value end = end
set_field key value (field k v rest) =
    let after = set_field key value rest in
    if text_eq k key then field k value rest else field k v after

-- forceClaudeToolInputForeground: the input that the answer carries.
unfoldable pub force_foreground : Fields → Fields
unfolding lookup_field set_field
force_foreground input =
    if is_true (lookup_field (lit "run_in_background") input)
    then set_field (lit "run_in_background") (Json.bool false) input
    else input

unfoldable pub handle_control_request : Decoder → Text → Text → Scan Text → Scan Text
unfolding request_input force_foreground answer_request
handle_control_request d request_id request s = elim (d.control_request request) [
  | none ↦ s
  | some req ↦ answer_request d request_id (force_foreground (request_input d req)) s
]

-- claudeResultUsage
unfoldable pub claude_result_usage : ClaudeMessage → Text → TokenCounts
unfolding result_usage
claude_result_usage msg fallback_model =
    result_usage msg.model_usage msg.usage
      (if is_empty msg.model then fallback_model else msg.model)

-- case "result"
unfoldable pub handle_result : Text → ClaudeMessage → Scan Text → Scan Text
unfolding claude_result_usage
handle_result model msg s =
    let usage = claude_result_usage msg model in
    close_stdin (record s {
      session_id = msg.session_id;
      output = if is_empty msg.result_text then s.output else msg.result_text;
      usage = elim usage [ [] ↦ s.usage | c ∷ counts ↦ c ∷ counts ];
      status = if msg.is_error then failed else s.status;
      error = if msg.is_error then msg.result_text else s.error;
    })

-- case "system"
unfoldable pub handle_system : ClaudeMessage → Scan Text → Scan Text
unfolding try_send
handle_system msg s =
    let session_id = if is_empty msg.session_id then s.session_id else msg.session_id in
    try_send (running_message session_id) (record s { session_id = session_id })

unfoldable pub handle_log : ClaudeMessage → Scan Text → Scan Text
unfolding try_send
handle_log msg s = elim msg.log [
  | none ↦ s
  | some entry ↦ try_send (log_message entry.level entry.message) s
]

unfoldable pub dispatch_scan : Text → Decoder → ClaudeMessage → Scan Text → Scan Text
unfolding handle_system handle_result handle_log
dispatch_scan model d msg s =
    if text_eq msg.type (lit "assistant")
    then handle_assistant d msg.message s
    else if text_eq msg.type (lit "system")
    then handle_system msg s
    else if text_eq msg.type (lit "result")
    then handle_result model msg s
    else if text_eq msg.type (lit "log")
    then handle_log msg s
    else if text_eq msg.type (lit "control_request")
    then handle_control_request d msg.request_id msg.request s
    else s

-- The switch over the type of a message.
unfoldable pub step : Text → Decoder → ClaudeMessage → ClaudeScan → ClaudeScan
unfolding dispatch_scan handle_user
step model d msg s =
    if text_eq msg.type (lit "user")
    then handle_user d msg.message s
    else record s { scan = dispatch_scan model d msg s.scan }

unfoldable pub scan_claude : Text → Decoder → (Text → Option ClaudeMessage) → List Text → ClaudeScan
unfolding scan_lines step
scan_claude model d decode lines =
    scan_lines decode (step model d) lines
      (record { scan = start_scan Text; saw_async_launch = false })

abbrev pub async_launch_error : Text
async_launch_error =
    lit
      "claude launched an async background task; aiclibridge-managed runs require foreground execution"

-- A completed run that launched a background task has failed.
unfoldable pub refuse_async_launch : Bool → Verdict → Verdict
refuse_async_launch saw v =
    if text_eq v.status completed
    then if saw then record { status = failed; error = async_launch_error } else v
    else v

-- The end of Execute; closeStdin comes before it.
unfoldable pub conclude_claude : Text → Ending → ClaudeScan → Result
unfolding judge refuse_async_launch report
conclude_claude resume ending s = report (lit "claude") resume ending s.scan (
    refuse_async_launch s.saw_async_launch (
      judge (lit "claude") ending s.scan.session_id
        (record { status = s.scan.status; error = s.scan.error })))

unfoldable pub execute_claude :
    ExecOptions → Decoder → (Text → Option ClaudeMessage) → Ending → List Text → Result
unfolding scan_claude conclude_claude
execute_claude opts d decode ending lines =
    conclude_claude opts.resume_session_id ending (scan_claude opts.model d decode lines)
