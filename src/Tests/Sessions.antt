-- ===== src/Tests/Sessions.antt =====
-- ACP turns, and scans of opencode, at concrete values.
use aiclibridge.Prelude.{
  ◌≡◌, refl, Text, lit, List, [], ◌∷◌, ◌++◌, none, some, text_eq, true, false, trim_space,
  trim_left, if◌then◌else◌, has_prefix, length, split, ◌≤◌, arith, Distinct, fields, to_upper, cut,
}
use aiclibridge.Prelude.Int.{pos}
use aiclibridge.Adapter.Scan.{read_line, completed}
use aiclibridge.Adapter.Scan.Invariant.{texts_of}
use aiclibridge.Adapter.Acp.{AcpDecoder, JsonrpcMessage, Turn, is_response, int_id}
use aiclibridge.Adapter.Acp.Driver.{process_acp_events}
use aiclibridge.Adapter.Acp.Outcome.{process_acp_events-Spoken}
use aiclibridge.Adapter.Acp.Dialogue.{
  initializing, prompting, Dialogue, quiet, notified, answered, handshake,
  process_acp_events-handshake, process_acp_events-finished,
}
use aiclibridge.Adapter.Opencode.{OpencodeEvent, EventDecoder}
use aiclibridge.Protocol.{Fields, field, string, end}
use aiclibridge.Adapter.Opencode.Models.{
  ModelDecoder, parse_models, parse_lines, take_line, parse_model_id_line, collect_json, skip_blank,
  add_model, annotate_at, annotate_metadata, provider_of,
}
use aiclibridge.Adapter.Opencode.Models.Progress.{ids, parse_models-settles}
use aiclibridge.Adapter.Opencode.Mcp.{
  McpPayload, McpDecoder, translate_payload, translate_server, native_entries, translate_servers,
  set_entry,
}
use aiclibridge.Adapter.Opencode.Mcp.Entries.{entry_at, translate_payload-server}

abbrev answer : Text → JsonrpcMessage
answer id = record { id = id; method = []; params = []; result = lit "{}"; error = none }

abbrev notice : Text → JsonrpcMessage
notice method = record { id = []; method = method; params = lit "{}"; result = []; error = none }

-- A decoder that takes "1" and "2" for answers, "end" for the end, and the rest for messages.
abbrev decoder : AcpDecoder
decoder = record {
  message = λ line.
      if text_eq line (lit "1")
      then some (answer (lit "1"))
      else if text_eq line (lit "2")
      then some (answer (lit "2"))
      else if text_eq line (lit "end")
      then some (notice (lit "session/finished"))
      else some (notice (lit "session/message"));
  int = λ raw. if text_eq raw (lit "1") then some (pos 1) else some (pos 2);
  string = λ raw. none;
  session_id = λ raw. some (lit "s1");
  session_id_alias = λ raw. none;
  error_text = λ raw. none;
  session_message = λ raw. some (record {
    type = lit "text";
    text = lit "hello";
    content = [];
    tool = [];
    id = [];
    input = [];
    tool_use_id = [];
    output = [];
    message = [];
    session_id = [];
  });
  envelope = λ raw. none;
  finished = λ raw. none;
  session_error = λ raw. none;
  per_model_usage = λ raw. none;
  flat_usage = λ raw. none;
  input = λ raw. none;
}

abbrev turn : Turn
turn = record {
  cli = lit "goose";
  prompt = lit "hi";
  resume_session_id = [];
  fallback_model = lit "unknown";
}

abbrev before : List Text
before = lit "1" ∷ lit "2" ∷ lit "m" ∷ []

dialogue : Dialogue decoder initializing before prompting
unfolding read_line trim_space trim_left is_response int_id text_eq
dialogue = answered (answer (lit "1")) refl refl refl refl (
    answered (answer (lit "2")) refl refl refl refl
      (notified (notice (lit "session/message")) refl refl refl quiet))

process_acp_events-handshake_example :
    let s = process_acp_events turn decoder none before in
    ((id : Text) × (s.written ≡ handshake turn id prompting)) × (s.stdin_open ≡ true)
process_acp_events-handshake_example =
    process_acp_events-handshake turn decoder none before prompting dialogue

reads_end : read_line decoder.message (lit "end") ≡ some (notice (lit "session/finished"))
unfolding read_line trim_space trim_left text_eq
reads_end = refl

end_notifies : is_response (notice (lit "session/finished")) ≡ false
unfolding is_response trim_space trim_left
end_notifies = refl

process_acp_events-finished_example :
    let s = process_acp_events turn decoder none (before ++ lit "end" ∷ lit "1" ∷ []) in
    (s.stdin_open ≡ false)
    × (s.status ≡ completed)
    × ((id : Text) × (s.written ≡ handshake turn id prompting))
    × (s ≡ process_acp_events turn decoder none (before ++ lit "end" ∷ []))
process_acp_events-finished_example =
    process_acp_events-finished turn decoder before (lit "end") (lit "1" ∷ [])
      (notice (lit "session/finished")) dialogue reads_end end_notifies refl

process_acp_events-Spoken_example :
    let s = process_acp_events turn decoder none before in s.output ≡ texts_of s.offered
process_acp_events-Spoken_example = process_acp_events-Spoken turn decoder none before

abbrev finished_step : OpencodeEvent
finished_step = record {
  type = lit "step_finish";
  session_id = lit "s1";
  part = record {
    type = [];
    text = [];
    tool = [];
    call_id = [];
    state = none;
    tokens = some (record { input = 7; output = 5; cache = none });
  };
  error = none;
}

abbrev steps : EventDecoder
steps = record { event = λ line. some finished_step; input = λ raw. none; marshal = λ value. none }

abbrev known_models : ModelDecoder
known_models = record {
  valid = λ raw. has_prefix raw (lit "{");
  metadata = λ raw. some (record { reasoning = true; variants = [] });
}

abbrev listing : Text
listing = lit "openai/gpt" ++ 10 ∷ lit "{}" ++ 10 ∷ lit "openai/gpt" ++ 10 ∷ lit "xai/grok"

four_lines : length (split 10 listing) ≤ 9
unfolding split
four_lines = omega arith

parse_models-settles_example :
    (parse_lines known_models 9 (split 10 listing) [] ≡ parse_models known_models listing)
    × Distinct (ids (parse_models known_models listing))
parse_models-settles_example = parse_models-settles known_models listing 9 four_lines

-- A run of the parser.
parsed : ids (parse_models known_models listing) ≡ lit "openai/gpt" ∷ lit "xai/grok" ∷ []
unfolding parse_models parse_lines split take_line parse_model_id_line collect_json skip_blank
    add_model annotate_at annotate_metadata fields trim_space trim_left has_prefix to_upper text_eq
    provider_of cut
parsed = refl

abbrev search_server : Fields
search_server = field (lit "url") (string (lit "http://mcp")) end

abbrev servers : McpPayload
servers = record {
  mcp_servers = (lit "search", search_server) ∷ [];
  mcp = (lit "search", lit "{}") ∷ [];
}

abbrev servers_decoder : McpDecoder
servers_decoder = record {
  payload = λ raw. some servers;
  entry = λ raw. some end;
  marshal = λ out. none;
}

abbrev translated : List (Text × Fields)
translated = (lit "search", translate_server search_server) ∷ []

translates : translate_payload servers_decoder servers ≡ some translated
unfolding translate_payload native_entries translate_servers set_entry text_eq
translates = refl

translate_payload-server_example :
    entry_at (lit "search") translated ≡ some (translate_server search_server)
translate_payload-server_example =
    translate_payload-server servers_decoder servers (lit "search") search_server [] [] translated
      refl tt translates
