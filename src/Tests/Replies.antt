-- ===== src/Tests/Replies.antt =====
-- The HTTP APIs at concrete values.
use aiclibridge.Prelude.{
  ◌⊎◌, or_text, arith, ◌≡◌, ◌≢◌, refl, Text, lit, List, [], ◌∷◌, ◌++◌, none, some, map, any, All,
  text_eq, has_prefix, trim_space, trim_left, true, false, from_index,
}
use aiclibridge.Protocol.{zero_event, event_text, event_thinking}
use aiclibridge.Detect.Types.{CliInfo}
use aiclibridge.Api.{Tick, arrived, events_of, aggregate_text}
use aiclibridge.Api.Catalog.{resolve_model}
use aiclibridge.Api.Catalog.Listing.{offers, entries_of, listed_ids, resolve_model_sound}
use aiclibridge.Api.Chat.{
  stream_openai_chat, pump, take_chunk, openai_chunk_from_event, delta_of, build_openai_completion,
  ChoiceMessage,
}
use aiclibridge.Api.Chat.Streaming.{
  reply_text, finishes, taken, output_of, stream_openai_chat-whole,
  build_openai_completion-stream_openai_chat,
}
use aiclibridge.Api.Collect.{collect_events}
use aiclibridge.Api.Messages.{Closing, stream_anthropic_messages}
use aiclibridge.Api.Messages.Blocks.{
  read_frames, fresh, closed, deltas_text, HasOpenEnd, stream_anthropic_messages-whole,
}
use aiclibridge.Api.Prompt.{OpenAiMessage, string}
use aiclibridge.Api.Guard.{
  Host, sensitive, sensitive_system_paths, path_equal_or_under, validate_cwd, auth_passes,
}
use aiclibridge.Api.Guard.Access.{IsAbove, Shows, validate_cwd_sound, auth_passes_sound}

abbrev agents : List CliInfo
agents =
    record {
      name = lit "claude";
      version = [];
      available = true;
      path = [];
      providers =
          record {
            name = lit "anthropic";
            models = record { name = lit "opus"; display_name = [] } ∷ [];
          }
          ∷ [];
    }
    ∷ []

resolve_model_sound_example :
    ((id : Text)
      → resolve_model (some agents) (lit "opus") ≡ some id
      → (any (offers id (lit "opus")) (entries_of agents) ≡ true)
        × (any (text_eq id) (listed_ids agents) ≡ true))
    × (resolve_model (some agents) (lit "opus") ≡ none
        → All (λ e. e.1 ≢ lit "opus") (entries_of agents))
resolve_model_sound_example = resolve_model_sound agents (lit "opus") refl refl

abbrev reading : List Tick
reading =
    arrived (record (zero_event 0) { type = event_thinking; content = lit "hm" }) true
    ∷ arrived (record (zero_event 1) { type = event_text; content = lit "hi" }) true
    ∷ []

stream_openai_chat-whole_example :
    let sent = stream_openai_chat (lit "r1") (lit "m") 7 true true false reading in
    (sent.cancelled ≡ false
      → (reply_text sent.frames ≡ aggregate_text (events_of reading))
        × (finishes sent.frames ≡ taken true))
    × (sent.cancelled ≡ true → finishes sent.frames ≡ 0)
stream_openai_chat-whole_example =
    stream_openai_chat-whole (lit "r1") (lit "m") 7 true true false reading

kept : (stream_openai_chat (lit "r1") (lit "m") 7 true true false reading).cancelled ≡ false
unfolding stream_openai_chat pump take_chunk openai_chunk_from_event delta_of text_eq
kept = refl

build_openai_completion-stream_openai_chat_example :
    map
      (λ (c : ChoiceMessage). c.message.content)
      (build_openai_completion (lit "r1") (lit "m") 7 (collect_events reading).0).choices
    ≡ or_text
        (output_of (events_of reading))
        (reply_text (stream_openai_chat (lit "r1") (lit "m") 7 true true false reading).frames)
      ∷ []
build_openai_completion-stream_openai_chat_example =
    build_openai_completion-stream_openai_chat (lit "r1") (lit "m") 7 true false reading reading tt
      (omega arith) refl kept

-- Of the closing events the connection takes the first.
abbrev first_only : Closing
first_only = record { stop_ok = true; delta_ok = false; end_ok = false }

stream_anthropic_messages-whole_example :
    let sent = stream_anthropic_messages (lit "r1") (lit "m") true true first_only reading in
    (sent.cancelled ≡ false
      → (read_frames fresh sent.frames ≡ closed first_only)
        × (deltas_text sent.frames ≡ aggregate_text (events_of reading)))
    × (sent.cancelled ≡ true → HasOpenEnd (read_frames fresh sent.frames))
stream_anthropic_messages-whole_example =
    stream_anthropic_messages-whole (lit "r1") (lit "m") true true first_only reading

-- A host on which every path is clean and a directory.
abbrev host : Host
host = record {
  clean = λ p. p;
  is_dir = λ p. true;
  home = some (lit "/home/u");
  join_ssh = λ p. p ++ lit "/.ssh";
}

accepted : validate_cwd host (lit "/home/u/work") ≡ true
unfolding validate_cwd sensitive_system_paths path_equal_or_under text_eq has_prefix from_index
accepted = refl

validate_cwd_sound_example :
    (lit "/home/u/work" ≡ [])
    ⊎ ((host.is_dir (host.clean (lit "/home/u/work")) ≡ true)
        × (has_prefix (host.clean (lit "/home/u/work")) (lit "/") ≡ true)
        × All
            (λ sp. ¬ (IsAbove (host.clean (lit "/home/u/work")) (host.clean sp)))
            (sensitive host))
validate_cwd_sound_example = validate_cwd_sound host (lit "/home/u/work") accepted

trimmed : trim_space (lit "sk-1") ≡ lit "sk-1"
unfolding trim_space trim_left
trimmed = refl

auth_passes_sound_example :
    ((k a : Text) → auth_passes (lit "sk-1") k a ≡ true → Shows (lit "sk-1") k a)
    × ((a : Text) → auth_passes (lit "sk-1") (lit "sk-1") a ≡ true)
    × (auth_passes (lit "sk-1") [] (lit "Bearer " ++ lit "sk-1") ≡ true)
auth_passes_sound_example = auth_passes_sound (lit "sk-1") refl trimmed

abbrev says : Text → Text → OpenAiMessage
says role s = record { role = role; content = string s }

abbrev chat : List OpenAiMessage
chat =
    says (lit "system") (lit "be brief")
    ∷ says (lit "user") (lit "a")
    ∷ says (lit "assistant") (lit "b")
    ∷ []
