-- ===== src/Adapter/Openclaw.antt =====
-- internal/adapter/openclaw.go: the events and results that openclaw prints, and what processOutput
-- makes of them. encoding/json is an argument.
pub mod Output
pub mod Outcome
pub mod Agents
pub mod Version
use aiclibridge.Prelude.{
  ℕ, Text, lit, List, [], ◌∷◌, ◌++◌, Option, none, some, if◌then◌else◌, Bool, true, false, text_eq,
  is_empty, or_text, or_nil, trim_space, ◌==◌, ◌&&◌, not, ◌||◌,
}
use aiclibridge.Protocol.{Fields, number, lookup_field}
use aiclibridge.Adapter.{TokenUsage}
use aiclibridge.Adapter.Scan.{
  Scan, try_send, say_text, running_message, tool_use_message, tool_result_message, fail_with,
  add_tokens, no_tokens, has_tokens,
}

-- openclawError; `data` is the message of its data object.
pub record OpenclawError : Type 0 where
  pub name : Text
  pub data_message : Option Text
  pub message : Text

-- openclawEvent; `usage` is nil as `none`.
pub record OpenclawEvent : Type 0 where
  pub type : Text
  pub session_id : Text
  pub text : Text
  pub tool : Text
  pub call_id : Text
  pub input : Text
  pub usage : Option Fields
  pub phase : Text
  pub error : Option OpenclawError
  pub message : Text

-- openclawResult; the payloads are their texts, nil as `none`.
pub record OpenclawResult : Type 0 where
  pub payloads : Option (List Text)
  pub duration_ms : ℕ
  pub agent_meta : Option Fields

-- encoding/json; `none` is an error, for `input` also null. `int64` is int64(n) of a number.
pub record OpenclawDecoder : Type 0 where
  pub event : Text → Option OpenclawEvent
  pub result : Text → Option OpenclawResult
  pub input : Text → Option Fields
  pub int64 : Text → ℕ

-- (*openclawError).message
unfoldable pub error_text : OpenclawError → Text
error_text e = or_text (or_nil e.data_message) (or_text e.message e.name)

-- openclawEvent.errorMessage
unfoldable pub error_message_of : OpenclawEvent → Text
unfolding error_text
error_message_of event =
    let reported : Text = elim event.error [ none ↦ [] | some e ↦ error_text e ] in
    or_text reported (or_text event.text (or_text event.message (lit "unknown openclaw error")))

unfoldable pub openclaw_int64 : OpenclawDecoder → Fields → Text → ℕ
openclaw_int64 d usage key = elim (lookup_field key usage) [ some (number n) ↦ d.int64 n | _ ↦ 0 ]

unfoldable pub int64_first_of : OpenclawDecoder → Fields → List Text → ℕ
unfolding openclaw_int64
int64_first_of d usage [] = 0
int64_first_of d usage (key ∷ keys) =
    let rest = int64_first_of d usage keys in
    if openclaw_int64 d usage key == 0 then rest else openclaw_int64 d usage key

unfoldable pub parse_openclaw_usage : OpenclawDecoder → Fields → TokenUsage
unfolding int64_first_of
parse_openclaw_usage d usage = record {
  input_tokens = int64_first_of d usage (lit "input" ∷ lit "inputTokens" ∷ lit "input_tokens" ∷ []);
  output_tokens =
      int64_first_of d usage (lit "output" ∷ lit "outputTokens" ∷ lit "output_tokens" ∷ []);
  cache_read_tokens = int64_first_of d usage (
      lit "cacheRead"
      ∷ lit "cachedInputTokens"
      ∷ lit "cached_input_tokens"
      ∷ lit "cache_read"
      ∷ lit "cache_read_input_tokens"
      ∷ []);
  cache_write_tokens = int64_first_of d usage (
      lit "cacheWrite"
      ∷ lit "cacheCreationInputTokens"
      ∷ lit "cache_creation_input_tokens"
      ∷ lit "cache_write"
      ∷ []);
}

abbrev pub is_object : Text → Bool
is_object [] = false
is_object (c ∷ s) = c == b'{'

unfoldable pub try_parse_event : OpenclawDecoder → Text → Option OpenclawEvent
try_parse_event d line =
    if is_object line
    then elim (d.event line) [
      | none ↦ none
      | some event ↦ if is_empty event.type then none else some event
    ]
    else none

abbrev is_nil : Option (List Text) → Bool
is_nil none = true
is_nil (some texts) = false

unfoldable pub try_parse_result : OpenclawDecoder → Text → Option OpenclawResult
try_parse_result d raw =
    if is_object raw
    then elim (d.result raw) [
      | none ↦ none
      | some r ↦ if is_nil r.payloads && r.duration_ms == 0 then none else some r
    ]
    else none

-- The variables of processOutput.
pub record OpenclawScan : Type 0 where
  pub scan : Scan Text
  pub spent : TokenUsage
  pub model : Text
  pub got_events : Bool
  pub raw_lines : List Text

abbrev pub is_failure : Text → Bool
is_failure phase =
    text_eq phase (lit "error") || (text_eq phase (lit "failed") || text_eq phase (lit "cancelled"))

-- An event, but for the tokens of step_finish.
unfoldable pub take_event : OpenclawDecoder → OpenclawEvent → Scan Text → Scan Text
unfolding try_send say_text fail_with error_message_of
take_event d event s =
    if text_eq event.type (lit "text")
    then say_text event.text s
    else if text_eq event.type (lit "tool_use")
    then try_send
        (tool_use_message event.tool event.call_id
          (if is_empty event.input then none else d.input event.input))
        s
    else if text_eq event.type (lit "tool_result")
    then try_send (tool_result_message event.tool event.call_id event.text) s
    else if text_eq event.type (lit "error")
    then fail_with (error_message_of event) s
    else if text_eq event.type (lit "lifecycle")
    then if is_failure event.phase then fail_with (error_message_of event) s else s
    else if text_eq event.type (lit "step_start")
    then try_send (running_message []) s
    else s

unfoldable pub spend : OpenclawDecoder → OpenclawEvent → TokenUsage → TokenUsage
unfolding parse_openclaw_usage
spend d event u =
    if text_eq event.type (lit "step_finish")
    then elim event.usage [ none ↦ u | some usage ↦ add_tokens u (parse_openclaw_usage d usage) ]
    else u

unfoldable pub note_session : Text → Scan Text → Scan Text
note_session id s = if is_empty id then s else record s { session_id = id }

unfoldable pub handle_event : OpenclawDecoder → OpenclawEvent → OpenclawScan → OpenclawScan
unfolding note_session take_event spend
handle_event d event s = record s {
  got_events = true;
  scan = take_event d event (note_session event.session_id s.scan);
  spent = spend d event s.spent;
}
