-- ===== src/Api/Chat.antt =====
-- internal/api/openai.go: the chat completion of a run, as a stream of chunks and as one object. A
-- stream is modelled from its headers on; the clock is an argument.
pub mod Streaming
use aiclibridge.Prelude.{
  ℕ, Text, lit, List, [], ◌∷◌, ◌++◌, Option, none, some, if◌then◌else◌, text_eq, is_empty, Bool,
  true, false, ◌||◌,
}
use aiclibridge.Protocol.{
  Event, ResultPayload, Usage, event_text, event_thinking, event_tool_use, add64,
}
use aiclibridge.Facade.History.{last_result}
use aiclibridge.Api.{Tick, arrived, gone, aggregate_text}

pub record ToolFunction : Type 0 where
  pub name : Text
  pub arguments : Text

pub record ToolCall : Type 0 where
  pub index : ℕ
  pub id : Text
  pub type : Text
  pub function : ToolFunction

pub record Delta : Type 0 where
  pub role : Text
  pub content : Text
  pub reasoning_content : Text
  pub tool_calls : List ToolCall

pub record Choice : Type 0 where
  pub index : ℕ
  pub delta : Delta
  pub finish_reason : Option Text

pub record Chunk : Type 0 where
  pub id : Text
  pub object : Text
  pub created : ℕ
  pub model : Text
  pub choices : List Choice

abbrev no_delta : Delta
no_delta = record { role = []; content = []; reasoning_content = []; tool_calls = [] }

-- What openaiDelta the event becomes, if it has one.
unfoldable pub delta_of : Event → Option Delta
unfolding text_eq
delta_of ev =
    if text_eq ev.type event_text
    then some (record no_delta { content = ev.content })
    else if text_eq ev.type event_thinking
    then some (record no_delta { reasoning_content = ev.content })
    else if text_eq ev.type event_tool_use
    then some (record no_delta {
      tool_calls =
          record {
            index = 0;
            id = ev.call_id;
            type = lit "function";
            function = record { name = ev.tool; arguments = ev.input };
          }
          ∷ [];
    })
    else none

-- A frame of the stream: a chunk in JSON, or the text of the sentinel.
pub data Frame : Type 0 where
  json : Chunk → Frame
  plain : Text → Frame

-- The frames that the connection took, and whether the run was cancelled.
pub record Sent : Type 0 where
  pub frames : List Frame
  pub cancelled : Bool

abbrev broken_off : Sent
broken_off = record { frames = []; cancelled = true }

abbrev pub after : Frame → Sent → Sent
after f s = record s { frames = f ∷ s.frames }

-- A write whose error is ignored: the connection may not take the frame.
abbrev pub try_write : Bool → Frame → List Frame → List Frame
try_write true f rest = f ∷ rest
try_write false f rest = rest

-- The frame of an event, if it has one, and what follows it.
unfoldable pub take_chunk : Option Chunk → Bool → Sent → Sent
take_chunk none ok rest = rest
take_chunk (some c) true rest = after (json c) rest
take_chunk (some c) false rest = broken_off

module _ (id model : Text) (created : ℕ) where
  abbrev pub chunk : Delta → Option Text → Chunk
  chunk delta finish = record {
    id = id;
    object = lit "chat.completion.chunk";
    created = created;
    model = model;
    choices = record { index = 0; delta = delta; finish_reason = finish } ∷ [];
  }

  unfoldable pub openai_chunk_from_event : Event → Option Chunk
  unfolding delta_of
  openai_chunk_from_event ev = elim (delta_of ev) [ none ↦ none | some d ↦ some (chunk d none) ]

  -- The Booleans: the connection takes the terminal chunk and the sentinel.
  unfoldable pub pump : Bool → Bool → List Tick → Sent
  unfolding openai_chunk_from_event take_chunk
  pump term_ok done_ok [] = record {
    frames =
        try_write term_ok (json (chunk no_delta (some (lit "stop"))))
          (try_write done_ok (plain (lit "[DONE]")) []);
    cancelled = false;
  }
  pump term_ok done_ok (arrived ev ok ∷ ts) =
      take_chunk (openai_chunk_from_event ev) ok (pump term_ok done_ok ts)
  pump term_ok done_ok (gone ∷ ts) = broken_off

  -- `lead_ok`: the connection takes the leading chunk.
  unfoldable pub stream_openai_chat : Bool → Bool → Bool → List Tick → Sent
  unfolding pump
  stream_openai_chat lead_ok term_ok done_ok ts =
      if lead_ok
      then after (json (chunk (record no_delta { role = lit "assistant" }) none))
          (pump term_ok done_ok ts)
      else broken_off

pub record OpenAiUsage : Type 0 where
  pub prompt_tokens : ℕ
  pub completion_tokens : ℕ
  pub total_tokens : ℕ

-- The sums over the models, on 64 bits.
abbrev pub input_sum : Usage → ℕ
input_sum [] = 0
input_sum ((m, u) ∷ us) = add64 u.input_tokens (input_sum us)

abbrev pub output_sum : Usage → ℕ
output_sum [] = 0
output_sum ((m, u) ∷ us) = add64 u.output_tokens (output_sum us)

unfoldable pub openai_usage_from_result : ResultPayload → OpenAiUsage
openai_usage_from_result r = record {
  prompt_tokens = input_sum r.usage;
  completion_tokens = output_sum r.usage;
  total_tokens = add64 (input_sum r.usage) (output_sum r.usage);
}

pub record ResponseMessage : Type 0 where
  pub role : Text
  pub content : Text

pub record ChoiceMessage : Type 0 where
  pub index : ℕ
  pub message : ResponseMessage
  pub finish_reason : Text

pub record ChatCompletion : Type 0 where
  pub id : Text
  pub object : Text
  pub created : ℕ
  pub model : Text
  pub choices : List ChoiceMessage
  pub usage : OpenAiUsage

-- The finish reason of a status.
unfoldable pub finish_of : Text → Text
unfolding text_eq
finish_of status =
    if text_eq status (lit "failed")
      || (text_eq status (lit "cancelled") || text_eq status (lit "timeout"))
    then status
    else lit "stop"

-- The output of the result, if it has one, and else the text of the run.
abbrev pub content_of : Option ResultPayload → List Event → Text
content_of none events = aggregate_text events
content_of (some r) events = if is_empty r.output then aggregate_text events else r.output

abbrev finish_from : Option ResultPayload → Text
finish_from none = lit "stop"
finish_from (some r) = finish_of r.status

abbrev usage_from : Option ResultPayload → OpenAiUsage
usage_from none = record { prompt_tokens = 0; completion_tokens = 0; total_tokens = 0 }
usage_from (some r) = openai_usage_from_result r

unfoldable pub build_openai_completion : Text → Text → ℕ → List Event → ChatCompletion
build_openai_completion id model created events =
    let r = last_result events in
    record {
      id = id;
      object = lit "chat.completion";
      created = created;
      model = model;
      choices =
          record {
            index = 0;
            message = record { role = lit "assistant"; content = content_of r events };
            finish_reason = finish_from r;
          }
          ∷ [];
      usage = usage_from r;
    }
