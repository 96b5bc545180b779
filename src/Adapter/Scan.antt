-- ===== src/Adapter/Scan.antt =====
-- What the drivers of internal/adapter share: the state of a scan of the CLI's stdout, trySend
-- (backend.go), the token counts, the end of Execute, resolveSessionID (claude.go).
-- Counts are int64 patterns in ℕ (see Protocol). A scanner is its lines and its error.
pub mod Invariant
pub mod Outcome
pub mod Settled
use aiclibridge.Prelude.{
  ℕ, Text, lit, List, [], ◌∷◌, ◌++◌, Option, none, some, if◌then◌else◌, Bool, true, false, ◌&&◌,
  ◌||◌, ltb, text_eq, is_empty, not, trim_space, ◌^◌,
}
use aiclibridge.Protocol.{add64, Fields}
use aiclibridge.Adapter.{
  Message, TokenUsage, message_text, message_thinking, message_tool_use, message_tool_result,
  message_status, message_error,
}

abbrev pub TokenCounts : Type 0
TokenCounts = List (Text × TokenUsage)

-- The variables of a scan loop. `offered` holds the messages given to trySend, oldest first; the
-- channel may drop one when it is full. `written` holds what reached an open stdin.
pub record Scan (Frame : Type 0) : Type 0 where
  pub output : Text
  pub session_id : Text
  pub status : Text
  pub error : Text
  pub usage : TokenCounts
  pub offered : List Message
  pub written : List Frame
  pub stdin_open : Bool

abbrev pub completed : Text
completed = lit "completed"

abbrev pub failed : Text
failed = lit "failed"

abbrev pub start_scan : (Frame : Type 0) → Scan Frame
start_scan Frame = record {
  output = [];
  session_id = [];
  status = completed;
  error = [];
  usage = [];
  offered = [];
  written = [];
  stdin_open = true;
}

abbrev no_message : Text → Message
no_message type = record {
  type = type;
  content = [];
  tool = [];
  call_id = [];
  input = none;
  output = [];
  status = [];
  level = [];
  session_id = [];
}

abbrev pub text_message : Text → Message
text_message content = record (no_message message_text) { content = content }

abbrev pub thinking_message : Text → Message
thinking_message content = record (no_message message_thinking) { content = content }

abbrev pub error_message : Text → Message
error_message content = record (no_message message_error) { content = content }

abbrev pub log_message : Text → Text → Message
log_message level content = record (no_message (lit "log")) { level = level; content = content }

abbrev pub running_message : Text → Message
running_message session_id = record (no_message message_status) {
  status = lit "running";
  session_id = session_id;
}

abbrev pub tool_use_message : Text → Text → Option Fields → Message
tool_use_message tool call_id input = record (no_message message_tool_use) {
  tool = tool;
  call_id = call_id;
  input = input;
}

abbrev pub tool_result_message : Text → Text → Text → Message
tool_result_message tool call_id output = record (no_message message_tool_result) {
  tool = tool;
  call_id = call_id;
  output = output;
}

module _ {Frame : Type 0} where
  unfoldable pub try_send : Message → Scan Frame → Scan Frame
  try_send m s = record s { offered = s.offered ++ m ∷ [] }

  -- `if text != ""`: write the text to the output and send it.
  unfoldable pub say_text : Text → Scan Frame → Scan Frame
  unfolding try_send
  say_text text s =
      if is_empty text
      then s
      else try_send (text_message text) (record s { output = s.output ++ text })

  unfoldable pub say_thinking : Text → Scan Frame → Scan Frame
  unfolding try_send
  say_thinking text s = if is_empty text then s else try_send (thinking_message text) s

  -- A write to stdin; its error is logged only.
  unfoldable pub write_stdin : Frame → Scan Frame → Scan Frame
  write_stdin frame s = if s.stdin_open then record s { written = s.written ++ frame ∷ [] } else s

  abbrev pub close_stdin : Scan Frame → Scan Frame
  close_stdin s = record s { stdin_open = false }

  -- finalStatus = "failed"; finalError = message; the error message is sent.
  unfoldable pub fail_with : Text → Scan Frame → Scan Frame
  unfolding try_send
  fail_with message s =
      try_send (error_message message) (record s { status = failed; error = message })

  -- scanner.Err() after the loop.
  unfoldable pub scan_error : Option Text → Scan Frame → Scan Frame
  scan_error none s = s
  scan_error (some e) s =
      if text_eq s.status completed
      then record s { status = failed; error = lit "stdout read error: " ++ e }
      else s

-- `line := strings.TrimSpace(scanner.Text())`: a blank line and one that does not decode are
-- skipped.
unfoldable pub read_line : {Event : Type 0} → (Text → Option Event) → Text → Option Event
unfolding trim_space
read_line decode line = if is_empty (trim_space line) then none else decode (trim_space line)

-- The loops without an early exit.
unfoldable pub scan_lines :
    {Event State : Type 0}
    → (Text → Option Event)
    → (Event → State → State)
    → List Text
    → State
    → State
unfolding read_line
scan_lines decode step [] s = s
scan_lines decode step (line ∷ lines) s = elim (read_line decode line) [
  | none ↦ scan_lines decode step lines s
  | some event ↦ scan_lines decode step lines (step event s)
]

-- `n > 0` on an int64.
abbrev pub is_positive : ℕ → Bool
is_positive n = ltb 0 n && ltb n (2 ^ 63)

unfoldable pub has_tokens : TokenUsage → Bool
has_tokens u =
    is_positive u.input_tokens
    || (is_positive u.output_tokens
        || (is_positive u.cache_read_tokens || is_positive u.cache_write_tokens))

abbrev pub no_tokens : TokenUsage
no_tokens = record {
  input_tokens = 0;
  output_tokens = 0;
  cache_read_tokens = 0;
  cache_write_tokens = 0;
}

abbrev pub add_tokens : TokenUsage → TokenUsage → TokenUsage
add_tokens u v = record {
  input_tokens = add64 u.input_tokens v.input_tokens;
  output_tokens = add64 u.output_tokens v.output_tokens;
  cache_read_tokens = add64 u.cache_read_tokens v.cache_read_tokens;
  cache_write_tokens = add64 u.cache_write_tokens v.cache_write_tokens;
}

-- u := usage[model]; u += tokens; usage[model] = u
unfoldable pub count_tokens : Text → TokenUsage → TokenCounts → TokenCounts
count_tokens model u [] = (model, add_tokens no_tokens u) ∷ []
count_tokens model u ((m, v) ∷ counts) =
    let rest = count_tokens model u counts in
    if text_eq m model then (m, add_tokens v u) ∷ counts else (m, v) ∷ rest

-- usage[model], the zero value for a missing key.
unfoldable pub tokens_of : Text → TokenCounts → TokenUsage
tokens_of model [] = no_tokens
tokens_of model ((m, v) ∷ counts) = if text_eq m model then v else tokens_of model counts

-- The models of a per-model report that have tokens.
unfoldable pub reported : TokenCounts → TokenCounts
unfolding has_tokens
reported [] = []
reported ((model, u) ∷ counts) =
    let rest = reported counts in
    if is_empty model || not (has_tokens u) then rest else (model, u) ∷ rest

-- The report per model, else the flat one under the fallback model; nil is [].
unfoldable pub result_usage : TokenCounts → Option TokenUsage → Text → TokenCounts
unfolding reported has_tokens
result_usage per_model flat model = elim (reported per_model) [
  | c ∷ counts ↦ c ∷ counts
  | [] ↦ elim flat [
    | none ↦ []
    | some u ↦ if is_empty model || not (has_tokens u) then [] else (model, u) ∷ []
  ]
]
