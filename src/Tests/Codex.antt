-- ===== src/Tests/Codex.antt =====
-- The codex client at concrete values (internal/adapter/codex.go).
use aiclibridge.Prelude.{◌≡◌, refl, Text, lit, [], ◌∷◌, none, some, false, text_eq, has_prefix}
use aiclibridge.Prelude.Int.{pos}
use aiclibridge.Protocol.{Fields, end, field, string, object, null, lookup_field}
use aiclibridge.Adapter.Scan.{no_tokens, running_message, scan_lines, read_line}
use aiclibridge.Adapter.Codex.{
  CodexClient, turn_done, sent, unknown, is_foreign, is_completed, object_field, string_field,
  extract_nested_string, emit, codex_uncached_input_tokens,
}
use aiclibridge.Adapter.Codex.Notifications.{
  handle_notification, handle_raw_notification, handle_unless_legacy, start_turn, set_protocol,
}
use aiclibridge.Adapter.Codex.Lines.{
  CodexDecoder, handle_lines, handle_raw, hear_notification, granted,
}
use aiclibridge.Adapter.Codex.Once.{IsQuiet, handle_notification-once}

-- Every line is a turn/started without params.
abbrev decoder : CodexDecoder
decoder = record {
  line =
      λ s. some (record { id = none; result = none; error = none; method = some s; params = none });
  response_id = λ s. none;
  id = λ s. pos 7;
  method = λ s. s;
  params = λ s. end;
  permissions = λ s. end;
  rpc_error = λ s. record { code = pos 0; message = [] };
  numbers = record { is_zero = λ s. false; int64 = λ s. 5 };
}

abbrev client : CodexClient
client = record {
  pending = [];
  thread_id = lit "t1";
  turn_id = [];
  notification_protocol = unknown;
  turn_started = false;
  completed_turn_ids = [];
  usage = no_tokens;
  turn_error = [];
  effects = [];
}

abbrev turn_params : Text → Fields
turn_params status = field (lit "threadId") (string (lit "t1")) (
    field (lit "turn")
      (object (field (lit "id") (string (lit "u1")) (field (lit "status") (string status) end)))
      end)

handle_notification-once_example :
    let first = turn_params (lit "completed") in
    let again = turn_params (lit "failed") in
    let ended = handle_notification decoder.numbers (lit "turn/completed") first client in
    let later = handle_lines decoder (lit "turn/started" ∷ []) ended in
    let repeated = handle_notification decoder.numbers (lit "turn/completed") again later in
    (ended.effects ≡ turn_done false ∷ []) × IsQuiet again later repeated
unfolding is_foreign extract_nested_string string_field object_field lookup_field text_eq
    is_completed
handle_notification-once_example =
    handle_notification-once decoder client (turn_params (lit "completed"))
      (turn_params (lit "failed")) (lit "turn/started" ∷ []) refl refl refl refl refl

-- The line between is a new turn, told as a status.
restarted :
    (handle_lines decoder (lit "turn/started" ∷ []) client).effects
    ≡ sent (running_message (lit "t1")) ∷ []
unfolding handle_lines scan_lines read_line handle_raw hear_notification handle_notification
    handle_unless_legacy handle_raw_notification is_foreign lookup_field text_eq has_prefix
    start_turn emit set_protocol
restarted = refl

-- Of a permission request only the network and the file system are granted.
network_only :
    granted (
      field
        (lit "network")
        (string (lit "on"))
        (field (lit "camera") (string (lit "on")) (field (lit "fileSystem") null end)))
    ≡ field (lit "network") (string (lit "on")) end
unfolding granted text_eq
network_only = refl

-- More cached than input tokens count as none.
no_uncached : codex_uncached_input_tokens 3 5 ≡ 0
unfolding codex_uncached_input_tokens
no_uncached = refl
