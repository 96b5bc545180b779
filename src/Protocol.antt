-- ===== src/Protocol.antt =====
-- pkg/protocol/sse.go: the event schema and its frames.
-- A Go map is an association list (no key twice); nil and the empty map are both [], which the code
-- never tells apart. int and int64 are 64-bit patterns in ℕ, a sum wraps by `add64`; sequence
-- numbers are plain, since a run does not emit 2^63 events.
pub mod Frame
use aiclibridge.Prelude.{
  ℕ, ◌+◌, ◌%◌, ◌^◌, Text, lit, List, [], Option, none, some, Bool, if◌then◌else◌, text_eq,
}

abbrev pub add64 : ℕ → ℕ → ℕ
add64 a b = (a + b) % 2 ^ 64

-- A decoded JSON value, as json.Unmarshal gives it for map[string]any.
mutual
  pub data Json : Type 0 where
    null : Json
    bool : Bool → Json
    number : Text → Json
    string : Text → Json
    array : Items → Json
    object : Fields → Json

  pub data Items : Type 0 where
    nil : Items
    cons : Json → Items → Items

  pub data Fields : Type 0 where
    end : Fields
    field : Text → Json → Fields → Fields

-- A field of a decoded map.
unfoldable pub lookup_field : Text → Fields → Option Json
lookup_field key end = none
lookup_field key (field k v rest) = if text_eq k key then some v else lookup_field key rest

-- EventType is a string: its constants.
abbrev pub event_text : Text
event_text = lit "text"

abbrev pub event_thinking : Text
event_thinking = lit "thinking"

abbrev pub event_tool_use : Text
event_tool_use = lit "tool_use"

abbrev pub event_tool_result : Text
event_tool_result = lit "tool_result"

abbrev pub event_status : Text
event_status = lit "status"

abbrev pub event_error : Text
event_error = lit "error"

abbrev pub event_log : Text
event_log = lit "log"

abbrev pub event_result : Text
event_result = lit "result"

pub record TokenUsagePayload : Type 0 where
  pub input_tokens : ℕ
  pub output_tokens : ℕ
  pub cache_read_tokens : ℕ
  pub cache_write_tokens : ℕ

abbrev pub Usage : Type 0
Usage = List (Text × TokenUsagePayload)

pub record ResultPayload : Type 0 where
  pub status : Text
  pub output : Text
  pub error : Text
  pub duration_ms : ℕ
  pub session_id : Text
  pub usage : Usage

pub record Event : Type 0 where
  pub type : Text
  pub seq : ℕ
  pub content : Text
  pub tool : Text
  pub call_id : Text
  pub input : Text
  pub output : Text
  pub status : Text
  pub level : Text
  pub session_id : Text
  pub result : Option ResultPayload

-- protocol.Event{Seq: seq}
abbrev pub zero_event : ℕ → Event
zero_event seq = record {
  type = [];
  seq = seq;
  content = [];
  tool = [];
  call_id = [];
  input = [];
  output = [];
  status = [];
  level = [];
  session_id = [];
  result = none;
}

-- encoding/json at the types of this program. `none` is its error.
pub record Codec : Type 0 where
  pub marshal_event : Event → Option Text
  pub unmarshal_event : Text → Option Event
  pub marshal_input : Fields → Option Text
  pub marshal_usage : Usage → Option Text
