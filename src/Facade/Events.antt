-- ===== src/Facade/Events.antt =====
-- messageToEvent, resultToEvent, convertUsage, marshalUsage, normalizeStatus of
-- internal/facade/facade.go.
use aiclibridge.Prelude.{
  ℕ, ◌≡◌, ◌≢◌, refl, Text, lit, List, [], ◌∷◌, Option, none, some, if◌then◌else◌, text_eq, ◌||◌,
  is_empty, map, arith, false,
}
use aiclibridge.Protocol.{
  Codec, Event, zero_event, TokenUsagePayload, Usage, Fields, event_text, event_thinking,
  event_tool_use, event_tool_result, event_status, event_error, event_log, event_result,
}
use aiclibridge.Adapter.{
  Message, Result, TokenUsage, message_text, message_thinking, message_tool_use,
  message_tool_result, message_status, message_error, message_log,
}

-- A marshal failure leaves the input nil.
tool_input : Codec → Option Fields → Text
tool_input c none = []
tool_input c (some input) = elim (c.marshal_input input) [ none ↦ [] | some payload ↦ payload ]

unfoldable pub message_to_event : Codec → Message → ℕ → Event
unfolding tool_input
message_to_event c msg seq =
    let e = zero_event seq in
    if text_eq msg.type message_text
    then record e { type = event_text; content = msg.content }
    else if text_eq msg.type message_thinking
    then record e { type = event_thinking; content = msg.content }
    else if text_eq msg.type message_tool_use
    then record e {
      type = event_tool_use;
      tool = msg.tool;
      call_id = msg.call_id;
      input = tool_input c msg.input;
    }
    else if text_eq msg.type message_tool_result
    then record e {
      type = event_tool_result;
      tool = msg.tool;
      call_id = msg.call_id;
      output = msg.output;
    }
    else if text_eq msg.type message_status
    then record e { type = event_status; status = msg.status; session_id = msg.session_id }
    else if text_eq msg.type message_error
    then record e { type = event_error; content = msg.content }
    else if text_eq msg.type message_log
    then record e { type = event_log; level = msg.level; content = msg.content }
    else record e { type = event_log; content = msg.content }

convert_entry : Text × TokenUsage → Text × TokenUsagePayload
convert_entry (k, v) = (
  k,
  record {
    input_tokens = v.input_tokens;
    output_tokens = v.output_tokens;
    cache_read_tokens = v.cache_read_tokens;
    cache_write_tokens = v.cache_write_tokens;
  },
)

-- int is 64 bits wide, so int(int64) changes nothing.
unfoldable pub convert_usage : List (Text × TokenUsage) → Usage
unfolding convert_entry
convert_usage usage = map convert_entry usage

unfoldable pub marshal_usage : Codec → Usage → Text
marshal_usage c [] = []
marshal_usage c (u ∷ us) = elim (c.marshal_usage (u ∷ us)) [ none ↦ [] | some b ↦ b ]

unfoldable pub normalize_status : Text → Text
normalize_status s =
    if text_eq s (lit "aborted") || text_eq s (lit "cancelled")
    then lit "cancelled"
    else if is_empty s
    then lit "failed"
    else s

unfoldable pub result_to_event : Result → ℕ → Event
unfolding normalize_status convert_usage
result_to_event res seq = record (zero_event seq) {
  type = event_result;
  result = some (record {
    status = normalize_status res.status;
    output = res.output;
    error = res.error;
    duration_ms = res.duration_ms;
    session_id = res.session_id;
    usage = convert_usage res.usage;
  });
}

-- Only resultToEvent makes events with a result.
pub message_to_event-no_result :
    (c : Codec) (msg : Message) (seq : ℕ)
    → ((message_to_event c msg seq).result ≡ none)
      × ((message_to_event c msg seq).seq ≡ seq)
      × (is_empty (message_to_event c msg seq).type ≡ false)
unfolding message_to_event
message_to_event-no_result c msg seq = ground arith

pub normalize_status-ne-nil : (s : Text) → normalize_status s ≢ []
unfolding normalize_status
normalize_status-ne-nil s = ground arith

pub result_to_event-seq : (res : Result) (seq : ℕ) → (result_to_event res seq).seq ≡ seq
unfolding result_to_event
result_to_event-seq res seq = refl
