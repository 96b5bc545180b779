-- ===== src/Adapter/StreamJson/Qwen.antt =====
-- processQwenEvents of internal/adapter/qwen.go and processCodebuddyEvents of codebuddy.go, and the
-- scans and ends of their Execute. The prompt is written to stdin by a goroutine of its own, whose
-- error is part of `Ending`.
use aiclibridge.Prelude.{
  Text, lit, List, [], ◌∷◌, ◌++◌, Option, none, some, if◌then◌else◌, Bool, text_eq, is_empty,
  or_text,
}
use aiclibridge.Adapter.{TokenUsage, Result, ExecOptions}
use aiclibridge.Adapter.Scan.{
  Scan, TokenCounts, try_send, running_message, close_stdin, fail_with, scan_lines, scan_error,
  result_usage, start_scan,
}
use aiclibridge.Adapter.Scan.Outcome.{Ending, conclude}
use aiclibridge.Adapter.StreamJson.{Decoder, handle_assistant, handle_user, handle_control_request}

-- qwenSDKMessage. `error` is the error object's message.
pub record SdkMessage : Type 0 where
  pub type : Text
  pub subtype : Text
  pub session_id : Text
  pub message : Text
  pub request_id : Text
  pub request : Text
  pub result_text : Text
  pub is_error : Bool
  pub usage : Option TokenUsage
  pub model_usage : TokenCounts
  pub error : Option Text

-- finalError of an error result, from the finalError so far.
unfoldable pub result_error : Text → SdkMessage → Text → Text
result_error cli event so_far =
    let reported : Text = elim event.error [ none ↦ so_far | some message ↦ message ] in
    or_text (or_text reported event.result_text) (cli ++ lit " reported error result")

unfoldable pub take_result : Text → SdkMessage → Scan Text → Scan Text
unfolding result_usage
take_result fallback_model event s =
    let usage = result_usage event.model_usage event.usage fallback_model in
    record s {
      session_id = event.session_id;
      output = if is_empty event.result_text then s.output else event.result_text;
      usage = elim usage [ [] ↦ s.usage | c ∷ counts ↦ c ∷ counts ];
    }

unfoldable pub handle_result : Text → Text → SdkMessage → Scan Text → Scan Text
unfolding take_result result_error fail_with
handle_result cli fallback_model event s =
    let taken = take_result fallback_model event s in
    close_stdin (if event.is_error then fail_with (result_error cli event s.error) taken else taken)

unfoldable pub note_session : SdkMessage → Scan Text → Scan Text
note_session event s =
    if is_empty event.session_id then s else record s { session_id = event.session_id }

-- The switch over the type of an event.
unfoldable pub dispatch : Text → Text → Decoder → SdkMessage → Scan Text → Scan Text
unfolding try_send
dispatch cli fallback_model d event s =
    if text_eq event.type (lit "assistant")
    then handle_assistant d event.message s
    else if text_eq event.type (lit "user")
    then handle_user d event.message s
    else if text_eq event.type (lit "system")
    then try_send (running_message s.session_id) s
    else if text_eq event.type (lit "result")
    then handle_result cli fallback_model event s
    else if text_eq event.type (lit "control_request")
    then handle_control_request d event.request_id event.request s
    else s

unfoldable pub step : Text → Text → Decoder → SdkMessage → Scan Text → Scan Text
unfolding note_session
step cli fallback_model d event s = dispatch cli fallback_model d event (note_session event s)

-- What json.Unmarshal makes of a line, and the scanner's error, are arguments.
unfoldable pub process_events :
    Text → Text → Decoder → (Text → Option SdkMessage) → Option Text → List Text → Scan Text
unfolding scan_lines scan_error
process_events cli fallback_model d decode read_error lines =
    scan_error read_error (scan_lines decode (step cli fallback_model d) lines (start_scan Text))

abbrev pub fallback : Text → Text
fallback model = if is_empty model then lit "unknown" else model

unfoldable pub execute :
    Text
    → ExecOptions
    → Decoder
    → (Text → Option SdkMessage)
    → Option Text
    → Ending
    → List Text
    → Result
unfolding process_events conclude
execute cli opts d decode read_error end lines =
    conclude cli opts.resume_session_id end
      (process_events cli (fallback opts.model) d decode read_error lines)

unfoldable pub process_qwen_events :
    Text → Decoder → (Text → Option SdkMessage) → Option Text → List Text → Scan Text
process_qwen_events = process_events (lit "qwen")

unfoldable pub process_codebuddy_events :
    Text → Decoder → (Text → Option SdkMessage) → Option Text → List Text → Scan Text
process_codebuddy_events = process_events (lit "codebuddy")

unfoldable pub execute_qwen :
    ExecOptions → Decoder → (Text → Option SdkMessage) → Option Text → Ending → List Text → Result
execute_qwen = execute (lit "qwen")

unfoldable pub execute_codebuddy :
    ExecOptions → Decoder → (Text → Option SdkMessage) → Option Text → Ending → List Text → Result
execute_codebuddy = execute (lit "codebuddy")

unfoldable pub handle_codebuddy_assistant : Decoder → Text → Scan Text → Scan Text
handle_codebuddy_assistant = handle_assistant

unfoldable pub handle_codebuddy_user : Decoder → Text → Scan Text → Scan Text
handle_codebuddy_user = handle_user

unfoldable pub handle_codebuddy_control_request : Decoder → Text → Text → Scan Text → Scan Text
handle_codebuddy_control_request = handle_control_request

unfoldable pub codebuddy_result_usage : TokenCounts → Option TokenUsage → Text → TokenCounts
codebuddy_result_usage = result_usage
