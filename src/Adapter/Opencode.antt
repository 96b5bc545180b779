-- ===== src/Adapter/Opencode.antt =====
-- processEvents of internal/adapter/opencode.go with its handlers, and processGeminiEvents of
-- gemini.go, which agrees with it but for the name of the CLI; the ends of their Execute.
pub mod Mcp
pub mod Models
pub mod Spent
pub mod Outcome
use aiclibridge.Prelude.{
  or_text, ℕ, Text, lit, List, [], ◌∷◌, ◌++◌, Option, none, some, if◌then◌else◌, Bool, true, false,
  text_eq, is_empty,
}
use aiclibridge.Protocol.{Fields, Json, null, string}
use aiclibridge.Adapter.{TokenUsage, Result, ExecOptions}
use aiclibridge.Adapter.Scan.{
  Scan, TokenCounts, try_send, say_text, running_message, tool_use_message, tool_result_message,
  fail_with, scan_lines, scan_error, start_scan, add_tokens, no_tokens, has_tokens,
}
use aiclibridge.Adapter.Scan.Outcome.{Ending, Verdict, judge, describe_error}

pub record ToolState : Type 0 where
  pub status : Text
  pub input : Text
  -- an `any`, `none` for nil
  pub output : Option Json

pub record CacheTokens : Type 0 where
  pub read : ℕ
  pub write : ℕ

pub record Tokens : Type 0 where
  pub input : ℕ
  pub output : ℕ
  pub cache : Option CacheTokens

pub record EventPart : Type 0 where
  pub type : Text
  pub text : Text
  pub tool : Text
  pub call_id : Text
  pub state : Option ToolState
  pub tokens : Option Tokens

-- opencodeError; `data` is the message of its data object.
pub record OpencodeError : Type 0 where
  pub name : Text
  pub data_message : Option Text

-- opencodeEvent
pub record OpencodeEvent : Type 0 where
  pub type : Text
  pub session_id : Text
  pub part : EventPart
  pub error : Option OpencodeError

-- encoding/json; `none` is an error, for `input` also null.
pub record EventDecoder : Type 0 where
  pub event : Text → Option OpencodeEvent
  pub input : Text → Option Fields
  pub marshal : Json → Option Text

-- (*opencodeError).Message
unfoldable pub error_message_of : OpencodeError → Text
error_message_of e = elim e.data_message [
  | none ↦ e.name
  | some message ↦ if is_empty message then e.name else message
]

unfoldable pub extract_tool_output : EventDecoder → Option Json → Text
extract_tool_output d none = []
extract_tool_output d (some (string s)) = s
extract_tool_output d (some value) = elim (d.marshal value) [ none ↦ [] | some text ↦ text ]

-- The variables of the scan: the shared ones and the token counts of all steps.
pub record OpencodeScan : Type 0 where
  pub scan : Scan Text
  pub spent : TokenUsage

unfoldable pub tool_input : EventDecoder → Option ToolState → Option Fields
tool_input d none = none
tool_input d (some state) = if is_empty state.input then none else d.input state.input

unfoldable pub send_tool_output : EventDecoder → EventPart → Scan Text → Scan Text
unfolding try_send extract_tool_output
send_tool_output d part s = elim part.state [
  | none ↦ s
  | some state ↦
      if text_eq state.status (lit "completed")
      then try_send
          (tool_result_message part.tool part.call_id (extract_tool_output d state.output)) s
      else s
]

unfoldable pub handle_tool_use_event : EventDecoder → EventPart → Scan Text → Scan Text
unfolding try_send tool_input send_tool_output
handle_tool_use_event d part s =
    send_tool_output d part
      (try_send (tool_use_message part.tool part.call_id (tool_input d part.state)) s)

unfoldable pub event_error : Text → OpencodeEvent → Text
unfolding error_message_of
event_error cli event =
    let message : Text = elim event.error [ none ↦ [] | some e ↦ error_message_of e ] in
    or_text message (lit "unknown " ++ cli ++ lit " error")

unfoldable pub handle_error_event : Text → OpencodeEvent → Scan Text → Scan Text
unfolding event_error fail_with
handle_error_event cli event s = fail_with (event_error cli event) s

-- The tokens of a step_finish event; a missing block is zero.
unfoldable pub step_tokens : Option Tokens → TokenUsage
step_tokens none = no_tokens
step_tokens (some t) = elim t.cache [
  | none ↦ record no_tokens { input_tokens = t.input; output_tokens = t.output }
  | some c ↦ record {
    input_tokens = t.input;
    output_tokens = t.output;
    cache_read_tokens = c.read;
    cache_write_tokens = c.write;
  }
]

unfoldable pub note_session : OpencodeEvent → Scan Text → Scan Text
note_session event s =
    if is_empty event.session_id then s else record s { session_id = event.session_id }

unfoldable pub dispatch : Text → EventDecoder → OpencodeEvent → Scan Text → Scan Text
unfolding say_text handle_tool_use_event handle_error_event try_send
dispatch cli d event s =
    if text_eq event.type (lit "text")
    then say_text event.part.text s
    else if text_eq event.type (lit "tool_use")
    then handle_tool_use_event d event.part s
    else if text_eq event.type (lit "error")
    then handle_error_event cli event s
    else if text_eq event.type (lit "step_start")
    then try_send (running_message []) s
    else s

unfoldable pub spend : OpencodeEvent → TokenUsage → TokenUsage
unfolding step_tokens
spend event u =
    if text_eq event.type (lit "step_finish")
    then elim event.part.tokens [ none ↦ u | some t ↦ add_tokens u (step_tokens (some t)) ]
    else u

unfoldable pub step : Text → EventDecoder → OpencodeEvent → OpencodeScan → OpencodeScan
unfolding note_session dispatch spend
step cli d event s = record {
  scan = dispatch cli d event (note_session event s.scan);
  spent = spend event s.spent;
}

unfoldable pub process_events : Text → EventDecoder → Option Text → List Text → OpencodeScan
unfolding scan_lines scan_error step
process_events cli d read_error lines =
    let s =
      scan_lines d.event (step cli d) lines
        (record { scan = start_scan Text; spent = no_tokens }) in
    record s { scan = scan_error read_error s.scan }

unfoldable pub process_opencode_events : EventDecoder → Option Text → List Text → OpencodeScan
process_opencode_events = process_events (lit "opencode")

unfoldable pub process_gemini_events : EventDecoder → Option Text → List Text → OpencodeScan
process_gemini_events = process_events (lit "gemini")

-- The usage of the run under its model.
unfoldable pub spent_usage : Text → TokenUsage → TokenCounts
unfolding has_tokens
spent_usage model u =
    if has_tokens u then ((if is_empty model then lit "unknown" else model), u) ∷ [] else []

unfoldable pub report_spent : Ending → ExecOptions → OpencodeScan → Verdict → Result
unfolding spent_usage
report_spent ending opts s v = record {
  status = v.status;
  output = s.scan.output;
  error = v.error;
  duration_ms = ending.duration_ms;
  session_id = s.scan.session_id;
  usage = spent_usage opts.model s.spent;
}

-- The end of opencode's Execute: the prompt is an argument, stderr is only logged.
unfoldable pub execute_opencode :
    ExecOptions → EventDecoder → Option Text → Ending → List Text → Result
unfolding process_opencode_events judge report_spent
execute_opencode opts d read_error ending lines =
    let s = process_opencode_events d read_error lines in
    report_spent ending opts s (
      judge (lit "opencode") (record ending { write_error = none }) s.scan.session_id
        (record { status = s.scan.status; error = s.scan.error }))

-- The end of gemini's Execute.
unfoldable pub execute_gemini :
    ExecOptions → EventDecoder → Option Text → Ending → List Text → Result
unfolding process_gemini_events judge report_spent describe_error
execute_gemini opts d read_error ending lines =
    let s = process_gemini_events d read_error lines in
    let v =
      judge (lit "gemini") ending s.scan.session_id
        (record { status = s.scan.status; error = s.scan.error }) in
    report_spent ending opts s
      (record v { error = describe_error (lit "gemini") v.error ending.stderr_tail })
