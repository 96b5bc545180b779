-- ===== src/Tests/Adapters.antt =====
-- The drivers of the CLIs at concrete values.
use aiclibridge.Prelude.{
  ◌≡◌, ◌≢◌, refl, Text, lit, List, [], ◌∷◌, ◌++◌, none, some, text_eq, All, any, true, false,
  trim_space, trim_left, if◌then◌else◌,
}
use aiclibridge.Prelude.Int.{pos}
use aiclibridge.Protocol.{lookup_field, Fields, Json, end, field}
use aiclibridge.Adapter.{ExecOptions}
use aiclibridge.Adapter.Drivers.{DriverRun, qwen_run, result_of, result_of-Reported}
use aiclibridge.Adapter.Args.{blocked_mode}
use aiclibridge.Adapter.Args.Filtering.{Spells}
use aiclibridge.Adapter.Launch.Protected.{
  claude_cli, build_args, blocked_args, without_user_args, build_args-protected,
}
use aiclibridge.Adapter.Scan.{read_line, start_scan}
use aiclibridge.Adapter.Scan.Outcome.{Ending, alive}
use aiclibridge.Adapter.Scan.Settled.{Reported}
use aiclibridge.Adapter.StreamJson.{
  Decoder, ContentBlock, MessageContent, ControlRequest, answer_request, request_input,
}
use aiclibridge.Adapter.StreamJson.Qwen.{SdkMessage}
use aiclibridge.Adapter.StreamJson.Claude.{
  ClaudeMessage, execute_claude, handle_control_request, is_true, block_launches,
  tool_result_has_async_launch, value_has_async_launch, map_has_async_launch_status,
}
use aiclibridge.Adapter.StreamJson.Foreground.{
  background, line_launches, message_launches, content_launches, handle_control_request-foreground,
  execute_claude-async,
}

abbrev pub opts : ExecOptions
opts = record {
  cwd = lit "/work";
  model = lit "opus";
  system_prompt = [];
  thread_name = [];
  max_turns = pos 3;
  timeout = 0;
  semantic_inactivity_timeout = 0;
  resume_session_id = lit "s0";
  extra_args = lit "--output-format=text" ∷ [];
  custom_args = lit "-p" ∷ lit "--debug" ∷ [];
  mcp_config = [];
  thinking_level = [];
  openclaw_mode = [];
  permission_mode = [];
}

build_args-protected_example :
    (user : List Text) × (build_args claude_cli opts
      ≡ build_args claude_cli (without_user_args opts) ++ user)
    × ((f : Text) (mode : _)
        → blocked_mode f (blocked_args claude_cli) ≡ some mode
        → All (λ arg. ¬ (Spells f arg)) user)
build_args-protected_example = build_args-protected claude_cli opts

abbrev ending : Ending
ending = record {
  context = alive;
  timeout = lit "1h";
  write_error = none;
  exit_error = some (lit "exit status 3");
  stderr_tail = lit "no key";
  duration_ms = 12;
}

abbrev block : Text → Text → ContentBlock
block type text = record {
  type = type;
  text = text;
  id = [];
  name = [];
  input = [];
  tool_use_id = [];
  content = lit "launched";
}

abbrev blocks_of : List ContentBlock → MessageContent
blocks_of blocks = record { model = lit "opus"; content = blocks; usage = none }

abbrev background_input : Fields
background_input =
    field background (Json.bool true) (field (lit "command") (Json.string (lit "ls")) end)

-- A decoder that knows two messages, one request and one result.
abbrev decoder : Decoder
decoder = record {
  content = λ raw.
      if text_eq raw (lit "say")
      then some (blocks_of (block (lit "text") (lit "hello") ∷ []))
      else some (blocks_of (block (lit "tool_result") [] ∷ []));
  control_request = λ raw. some (record { subtype = []; tool_name = lit "Bash"; input = lit "in" });
  input = λ raw. some background_input;
  value = λ raw. some (Json.object (field (lit "status") (Json.string (lit "async_launched")) end));
  control_response = λ id input. some id;
}

abbrev sdk_event : Text → SdkMessage
sdk_event line = record {
  type = lit "assistant";
  subtype = [];
  session_id = lit "s1";
  message = line;
  request_id = [];
  request = [];
  result_text = [];
  is_error = false;
  usage = none;
  model_usage = [];
  error = none;
}

abbrev saying : DriverRun
saying = qwen_run decoder (λ line. some (sdk_event line)) none (lit "say" ∷ [])

result_of-Reported_example :
    Reported (result_of opts ending saying).status (result_of opts ending saying).error
result_of-Reported_example = result_of-Reported opts ending saying

abbrev command_request : ControlRequest
command_request = record { subtype = []; tool_name = lit "Bash"; input = lit "in" }

handle_control_request-foreground_example :
    (input : Fields) × (handle_control_request decoder (lit "r1") (lit "{}") (start_scan Text)
      ≡ answer_request decoder (lit "r1") input (start_scan Text))
    × (is_true (lookup_field background input) ≡ false)
    × ((key : Text)
        → key ≢ background
        → lookup_field key input ≡ lookup_field key (request_input decoder command_request))
handle_control_request-foreground_example =
    handle_control_request-foreground decoder (lit "r1") (lit "{}") command_request
      (start_scan Text) refl

abbrev user_message : Text → ClaudeMessage
user_message line = record {
  type = lit "user";
  message = line;
  subtype = [];
  session_id = [];
  model = [];
  result_text = [];
  is_error = false;
  usage = none;
  model_usage = [];
  log = none;
  request_id = [];
  request = [];
}

launches : any (line_launches decoder (λ line. some (user_message line))) (lit "go" ∷ []) ≡ true
unfolding line_launches message_launches content_launches block_launches
    tool_result_has_async_launch value_has_async_launch map_has_async_launch_status lookup_field
    read_line trim_space trim_left text_eq
launches = refl

execute_claude-async_example :
    (execute_claude opts decoder (λ line. some (user_message line)) ending (lit "go" ∷ [])).status
    ≢ lit "completed"
execute_claude-async_example =
    execute_claude-async opts decoder (λ line. some (user_message line)) ending (lit "go" ∷ [])
      launches
