-- ===== src/Api/Messages.antt =====
-- internal/api/anthropic.go: the message of a run, as a stream of typed events and as one object. A
-- stream is modelled from its headers on.
pub mod Blocks
use aiclibridge.Prelude.{
  ℕ, Text, lit, List, [], ◌∷◌, ◌++◌, Option, none, some, if◌then◌else◌, text_eq, Bool, true, false,
}
use aiclibridge.Protocol.{Event, ResultPayload, event_text}
use aiclibridge.Facade.History.{last_result}
use aiclibridge.Api.{Tick, arrived, gone, aggregate_text}
use aiclibridge.Api.Chat.{input_sum, output_sum, content_of}

-- The events of the stream, with what changes in them.
pub data Frame : Type 0 where
  message_start : Text → Text → Frame
  content_block_start : Frame
  content_block_delta : Text → Frame
  content_block_stop : Frame
  message_delta : Text → Frame
  message_stop : Frame

-- The frames that the handler has written, and whether the run was cancelled.
pub record Sent : Type 0 where
  pub frames : List Frame
  pub cancelled : Bool

abbrev broken_off : Sent
broken_off = record { frames = []; cancelled = true }

abbrev after : Frame → Sent → Sent
after f s = record s { frames = f ∷ s.frames }

-- The write of a frame that ends the stream if it fails.
abbrev pub write : Bool → Frame → Sent → Sent
write true f rest = after f rest
write false f rest = broken_off

-- The three events of the end, whose write errors are ignored: which of them the connection takes.
pub record Closing : Type 0 where
  pub stop_ok : Bool
  pub delta_ok : Bool
  pub end_ok : Bool

abbrev try_write : Bool → Frame → List Frame → List Frame
try_write true f rest = f ∷ rest
try_write false f rest = rest

abbrev pub closing : Closing → List Frame
closing taken = try_write taken.stop_ok content_block_stop (
    try_write taken.delta_ok (message_delta (lit "end_turn"))
      (try_write taken.end_ok message_stop []))

-- An event that is no text is skipped.
unfoldable pub take_text : Event → Bool → Sent → Sent
unfolding text_eq
take_text ev ok rest =
    if text_eq ev.type event_text then write ok (content_block_delta ev.content) rest else rest

unfoldable pub pump : Closing → List Tick → Sent
unfolding take_text
pump taken [] = record { frames = closing taken; cancelled = false }
pump taken (arrived ev ok ∷ ts) = take_text ev ok (pump taken ts)
pump taken (gone ∷ ts) = broken_off

-- The Booleans: the connection takes the two frames of the start.
unfoldable pub stream_anthropic_messages : Text → Text → Bool → Bool → Closing → List Tick → Sent
unfolding pump
stream_anthropic_messages id model start_ok block_ok taken ts =
    write start_ok (message_start id model) (write block_ok content_block_start (pump taken ts))

pub record AnthropicContentBlock : Type 0 where
  pub type : Text
  pub text : Text

pub record AnthropicUsage : Type 0 where
  pub input_tokens : ℕ
  pub output_tokens : ℕ

pub record AnthropicMessage : Type 0 where
  pub id : Text
  pub type : Text
  pub role : Text
  pub model : Text
  pub content : List AnthropicContentBlock
  pub stop_reason : Text
  pub stop_sequence : Option Text
  pub usage : AnthropicUsage

abbrev usage_from : Option ResultPayload → AnthropicUsage
usage_from none = record { input_tokens = 0; output_tokens = 0 }
usage_from (some r) = record {
  input_tokens = input_sum r.usage;
  output_tokens = output_sum r.usage;
}

unfoldable pub build_anthropic_message : Text → Text → List Event → AnthropicMessage
build_anthropic_message id model events =
    let r = last_result events in
    record {
      id = id;
      type = lit "message";
      role = lit "assistant";
      model = model;
      content = record { type = lit "text"; text = content_of r events } ∷ [];
      stop_reason = lit "end_turn";
      stop_sequence = none;
      usage = usage_from r;
    }
