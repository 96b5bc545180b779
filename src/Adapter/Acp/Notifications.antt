-- ===== src/Adapter/Acp/Notifications.antt =====
-- The notifications of an ACP session (internal/adapter/acp.go): extractSessionID,
-- handleAcpSessionMessage, handleAcpContentBlock, handleAcpFinished, acpExtractUsage,
-- acpStringContent, extractAcpError, acpNestedErrorMessage.
use aiclibridge.Prelude.{
  or_nil, Text, lit, List, [], ◌∷◌, Option, none, some, if◌then◌else◌, text_eq, is_empty,
  trim_space,
}
use aiclibridge.Protocol.{Fields}
use aiclibridge.Adapter.Scan.{
  Scan, TokenCounts, try_send, say_text, say_thinking, tool_use_message, tool_result_message,
  result_usage,
}
use aiclibridge.Adapter.StreamJson.{ContentBlock}
use aiclibridge.Adapter.Acp.{AcpDecoder, Request, SessionMessageParams, SessionErrorParams}

unfoldable pub extract_session_id : AcpDecoder → Text → Text
extract_session_id d result =
    if is_empty result
    then []
    else if is_empty (or_nil (d.session_id result))
    then or_nil (d.session_id_alias result)
    else or_nil (d.session_id result)

unfoldable pub acp_string_content : AcpDecoder → Text → Text → Text
acp_string_content d text content =
    if is_empty text then if is_empty content then [] else or_nil (d.string content) else text

unfoldable pub acp_input : AcpDecoder → Text → Option Fields
acp_input d raw = if is_empty raw then none else d.input raw

-- The text of a structured tool result is its JSON, that of a string the string.
unfoldable pub block_output : AcpDecoder → Text → Text
block_output d content =
    if is_empty content then [] else elim (d.string content) [ none ↦ content | some s ↦ s ]

unfoldable pub handle_acp_content_block : AcpDecoder → ContentBlock → Scan Request → Scan Request
unfolding try_send say_text say_thinking acp_input block_output
handle_acp_content_block d block s =
    if text_eq block.type (lit "text")
    then say_text block.text s
    else if text_eq block.type (lit "thinking")
    then say_thinking block.text s
    else if text_eq block.type (lit "tool_use")
    then try_send (tool_use_message block.name block.id (acp_input d block.input)) s
    else if text_eq block.type (lit "tool_result")
    then try_send (tool_result_message [] block.tool_use_id (block_output d block.content)) s
    else s

unfoldable pub handle_acp_content_blocks :
    AcpDecoder → List ContentBlock → Scan Request → Scan Request
handle_acp_content_blocks d [] s = s
handle_acp_content_blocks d (block ∷ blocks) s =
    handle_acp_content_blocks d blocks (handle_acp_content_block d block s)

-- The direct shape of session/message.
unfoldable pub handle_direct : AcpDecoder → SessionMessageParams → Scan Request → Scan Request
unfolding try_send say_text say_thinking acp_string_content acp_input
handle_direct d p s =
    if text_eq p.type (lit "text")
    then say_text (acp_string_content d p.text p.content) s
    else if text_eq p.type (lit "thinking")
    then say_thinking (acp_string_content d p.text p.content) s
    else if text_eq p.type (lit "tool_use")
    then try_send (tool_use_message p.tool p.id (acp_input d p.input)) s
    else if text_eq p.type (lit "tool_result")
    then try_send (tool_result_message [] p.tool_use_id (acp_string_content d [] p.output)) s
    else s

-- The blocks of a nested envelope; none means the direct shape.
unfoldable pub nested_blocks : AcpDecoder → SessionMessageParams → List ContentBlock
nested_blocks d p =
    if is_empty p.message
    then []
    else elim (d.envelope p.message) [ none ↦ [] | some blocks ↦ blocks ]

unfoldable pub note_session : Text → Scan Request → Scan Request
note_session id s = if is_empty id then s else record s { session_id = id }

unfoldable pub unpack_message : AcpDecoder → SessionMessageParams → Scan Request → Scan Request
unfolding nested_blocks handle_direct handle_acp_content_blocks
unpack_message d p s = elim (nested_blocks d p) [
  | [] ↦ handle_direct d p s
  | block ∷ blocks ↦ handle_acp_content_blocks d (block ∷ blocks) s
]

unfoldable pub handle_acp_session_message : AcpDecoder → Text → Scan Request → Scan Request
unfolding note_session unpack_message
handle_acp_session_message d params s =
    if is_empty params then s else elim (d.session_message params) [
      | none ↦ s
      | some p ↦ unpack_message d p (note_session p.session_id s)
    ]

unfoldable pub acp_extract_usage : AcpDecoder → Text → Text → TokenCounts
unfolding result_usage
acp_extract_usage d raw fallback_model =
    let per_model : TokenCounts = elim (d.per_model_usage raw) [ none ↦ [] | some m ↦ m ] in
    if is_empty raw then [] else result_usage per_model (d.flat_usage raw) fallback_model

abbrev pub take_usage : TokenCounts → Scan Request → Scan Request
take_usage [] s = s
take_usage (c ∷ counts) s = record s { usage = c ∷ counts }

unfoldable pub handle_acp_finished : AcpDecoder → Text → Text → Scan Request → Scan Request
unfolding note_session acp_extract_usage
handle_acp_finished d fallback_model params s =
    if is_empty params then s else elim (d.finished params) [
      | none ↦ s
      | some p ↦
          take_usage (acp_extract_usage d p.usage fallback_model) (note_session p.session_id s)
    ]

unfoldable pub acp_nested_error_message : AcpDecoder → Text → Text
acp_nested_error_message d raw =
    if is_empty (or_nil (d.error_text raw))
    then or_nil (d.string raw)
    else or_nil (d.error_text raw)

unfoldable pub error_of_params : AcpDecoder → SessionErrorParams → Text
unfolding acp_nested_error_message trim_space
error_of_params d p =
    if is_empty p.message
    then if is_empty p.error
      then []
      else if is_empty (acp_nested_error_message d p.error)
      then trim_space p.error
      else acp_nested_error_message d p.error
    else p.message

unfoldable pub extract_acp_error : AcpDecoder → Text → Text
unfolding error_of_params
extract_acp_error d params =
    if is_empty params
    then []
    else elim (d.session_error params) [ none ↦ [] | some p ↦ error_of_params d p ]
