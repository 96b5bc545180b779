-- ===== src/Adapter/StreamJson.antt =====
-- The stream-json dialect of qwen.go and codebuddy.go in internal/adapter, which agree line for
-- line but for the name of the CLI: the decoded lines and the handlers. The handlers of claude.go
-- that read the same shapes are here too. What encoding/json makes of a text is an argument.
pub mod Qwen
pub mod Claude
pub mod Foreground
pub mod Kept
pub mod Outcome
use aiclibridge.Prelude.{
  Text, lit, List, [], ◌∷◌, ◌++◌, Option, none, some, if◌then◌else◌, Bool, true, false, text_eq,
  is_empty,
}
use aiclibridge.Protocol.{Fields, Json}
use aiclibridge.Adapter.{TokenUsage}
use aiclibridge.Adapter.Scan.{
  Scan, TokenCounts, completed, failed, try_send, say_text, say_thinking, tool_use_message,
  tool_result_message, running_message, write_stdin, close_stdin, fail_with, scan_lines, scan_error,
  count_tokens, result_usage, start_scan,
}

-- qwenContentBlock; a json.RawMessage is its text, [] for nil.
pub record ContentBlock : Type 0 where
  pub type : Text
  pub text : Text
  pub id : Text
  pub name : Text
  pub input : Text
  pub tool_use_id : Text
  pub content : Text

-- qwenMessageContent; the role is not read.
pub record MessageContent : Type 0 where
  pub model : Text
  pub content : List ContentBlock
  pub usage : Option TokenUsage

pub record ControlRequest : Type 0 where
  pub subtype : Text
  pub tool_name : Text
  pub input : Text

-- encoding/json at the types of the dialect. `none` is an error, for `input` also null.
pub record Decoder : Type 0 where
  pub content : Text → Option MessageContent
  pub control_request : Text → Option ControlRequest
  pub input : Text → Option Fields
  pub value : Text → Option Json
  -- the control_response that allows a request, from its id and the updated input
  pub control_response : Text → Fields → Option Text

-- `if block.Input != nil { _ = json.Unmarshal(block.Input, &input) }`
unfoldable pub decode_input : Decoder → Text → Option Fields
decode_input d raw = if is_empty raw then none else d.input raw

-- One block of an assistant message.
unfoldable pub handle_block : Decoder → ContentBlock → Scan Text → Scan Text
unfolding try_send say_text say_thinking decode_input
handle_block d block s =
    if text_eq block.type (lit "text")
    then say_text block.text s
    else if text_eq block.type (lit "thinking")
    then say_thinking block.text s
    else if text_eq block.type (lit "tool_use")
    then try_send (tool_use_message block.name block.id (decode_input d block.input)) s
    else s

unfoldable pub handle_blocks : Decoder → List ContentBlock → Scan Text → Scan Text
handle_blocks d [] s = s
handle_blocks d (block ∷ blocks) s = handle_blocks d blocks (handle_block d block s)

-- The usage of one assistant message, counted under its model.
unfoldable pub count_usage : MessageContent → TokenCounts → TokenCounts
unfolding count_tokens
count_usage content usage = elim content.usage [
  | none ↦ usage
  | some u ↦ if is_empty content.model then usage else count_tokens content.model u usage
]

unfoldable pub handle_assistant : Decoder → Text → Scan Text → Scan Text
unfolding count_usage
handle_assistant d message s = if is_empty message then s else elim (d.content message) [
  | none ↦ s
  | some content ↦
      handle_blocks d content.content (record s { usage = count_usage content s.usage })
]

-- One block of a user message.
unfoldable pub handle_user_block : ContentBlock → Scan Text → Scan Text
unfolding try_send
handle_user_block block s =
    if text_eq block.type (lit "tool_result")
    then try_send (tool_result_message [] block.tool_use_id block.content) s
    else s

unfoldable pub handle_user_blocks : List ContentBlock → Scan Text → Scan Text
handle_user_blocks [] s = s
handle_user_blocks (block ∷ blocks) s = handle_user_blocks blocks (handle_user_block block s)

unfoldable pub handle_user : Decoder → Text → Scan Text → Scan Text
handle_user d message s =
    if is_empty message
    then s
    else elim (d.content message) [ none ↦ s | some content ↦ handle_user_blocks content.content s ]

-- The input of a control request; nil becomes the empty map.
unfoldable pub request_input : Decoder → ControlRequest → Fields
unfolding decode_input
request_input d req = elim (decode_input d req.input) [ none ↦ Fields.end | some fields ↦ fields ]

-- The answer to a control request: the frame, unless it cannot be marshalled.
unfoldable pub answer_request : Decoder → Text → Fields → Scan Text → Scan Text
unfolding write_stdin
answer_request d request_id input s = elim (d.control_response request_id input) [
  | none ↦ s
  | some frame ↦ write_stdin (frame ++ 10 ∷ []) s
]

unfoldable pub handle_control_request : Decoder → Text → Text → Scan Text → Scan Text
unfolding request_input answer_request
handle_control_request d request_id request s =
    if is_empty request then s else elim (d.control_request request) [
      | none ↦ s
      | some req ↦ answer_request d request_id (request_input d req) s
    ]
