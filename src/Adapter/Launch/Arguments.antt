-- ===== src/Adapter/Launch/Arguments.antt =====
-- The arguments of a CLI in internal/adapter: buildClaudeArgs, buildQwenArgs, buildCodebuddyArgs,
-- buildGeminiArgs, buildAcpArgs, buildOpenclawArgs and those of opencode's Execute, with the tables of blocked flags.
use aiclibridge.Prelude.{
  Bool, ◌||◌, ◌&&◌, any, text_eq, has_prefix, ltb, ◌^◌, ◌/◌, Text, lit, List, [], ◌∷◌, ◌++◌,
  if◌then◌else◌, is_empty,
}
use aiclibridge.Prelude.Int.{ℤ, pos, ltb_ℤ}
use aiclibridge.Prelude.Strconv.{format_int}
use aiclibridge.Adapter.{ExecOptions}
use aiclibridge.Adapter.Args.{
  Blocked, blocked_with_value, blocked_standalone, claude_blocked_args, filter_custom_args,
}
use aiclibridge.Adapter.Launch.{AcpBackendConfig}

abbrev pub qwen_blocked_args : Blocked
qwen_blocked_args =
    (lit "--bare", blocked_standalone)
    ∷ (lit "-p", blocked_with_value)
    ∷ (lit "--prompt", blocked_with_value)
    ∷ (lit "--output-format", blocked_with_value)
    ∷ (lit "--input-format", blocked_with_value)
    ∷ (lit "--yolo", blocked_standalone)
    ∷ (lit "--approval-mode", blocked_with_value)
    ∷ (lit "--mcp-config", blocked_with_value)
    ∷ (lit "--session-id", blocked_with_value)
    ∷ (lit "-m", blocked_with_value)
    ∷ (lit "--model", blocked_with_value)
    ∷ (lit "--system-prompt", blocked_with_value)
    ∷ (lit "--append-system-prompt", blocked_with_value)
    ∷ []

abbrev pub codebuddy_blocked_args : Blocked
codebuddy_blocked_args =
    (lit "--print", blocked_standalone)
    ∷ (lit "-p", blocked_standalone)
    ∷ (lit "--output-format", blocked_with_value)
    ∷ (lit "--input-format", blocked_with_value)
    ∷ (lit "-y", blocked_standalone)
    ∷ (lit "--dangerously-skip-permissions", blocked_standalone)
    ∷ (lit "--permission-mode", blocked_with_value)
    ∷ (lit "--mcp-config", blocked_with_value)
    ∷ (lit "--session-id", blocked_with_value)
    ∷ (lit "--model", blocked_with_value)
    ∷ (lit "--max-turns", blocked_with_value)
    ∷ (lit "--system-prompt", blocked_with_value)
    ∷ (lit "--bare", blocked_standalone)
    ∷ (lit "--prompt", blocked_with_value)
    ∷ (lit "--yolo", blocked_standalone)
    ∷ (lit "--approval-mode", blocked_with_value)
    ∷ (lit "-m", blocked_with_value)
    ∷ (lit "--max-session-turns", blocked_with_value)
    ∷ (lit "--append-system-prompt", blocked_with_value)
    ∷ []

abbrev pub gemini_blocked_args : Blocked
gemini_blocked_args =
    (lit "--bare", blocked_standalone)
    ∷ (lit "--output-format", blocked_with_value)
    ∷ (lit "--input-format", blocked_with_value)
    ∷ (lit "--yolo", blocked_standalone)
    ∷ (lit "--approval-mode", blocked_with_value)
    ∷ (lit "--mcp-config", blocked_with_value)
    ∷ (lit "--session-id", blocked_with_value)
    ∷ (lit "--resume", blocked_with_value)
    ∷ (lit "-p", blocked_standalone)
    ∷ (lit "--prompt", blocked_with_value)
    ∷ (lit "--model", blocked_with_value)
    ∷ (lit "--system-prompt", blocked_with_value)
    ∷ (lit "--append-system-prompt", blocked_with_value)
    ∷ (lit "--max-turns", blocked_with_value)
    ∷ []

abbrev pub opencode_blocked_args : Blocked
opencode_blocked_args =
    (lit "--format", blocked_with_value)
    ∷ (lit "--variant", blocked_with_value)
    ∷ (lit "--dangerously-skip-permissions", blocked_standalone)
    ∷ []

abbrev pub acp_blocked_args : Blocked
acp_blocked_args =
    (lit "--mcp-config", blocked_with_value)
    ∷ (lit "--additional-mcp-config", blocked_with_value)
    ∷ (lit "--acp", blocked_standalone)
    ∷ []

-- if value != "" { args = append(args, flag, value) }
unfoldable pub flag_value : Text → Text → List Text
flag_value flag value = if is_empty value then [] else flag ∷ value ∷ []

-- if n > 0 { args = append(args, flag, fmt.Sprintf("%d", n)) }
unfoldable pub flag_number : Text → ℤ → List Text
unfolding format_int
flag_number flag n = if ltb_ℤ (pos 0) n then flag ∷ format_int n ∷ [] else []

unfoldable pub user_args : Blocked → ExecOptions → List Text
user_args blocked opts =
    filter_custom_args opts.extra_args blocked ++ filter_custom_args opts.custom_args blocked

abbrev stream_json : List Text
stream_json =
    lit "--output-format" ∷ lit "stream-json" ∷ lit "--input-format" ∷ lit "stream-json" ∷ []

unfoldable pub claude_flags : ExecOptions → List Text
unfolding flag_value flag_number
claude_flags opts =
    (lit "-p" ∷ stream_json)
    ++ (lit "--verbose"
        ∷ lit "--strict-mcp-config"
        ∷ lit "--permission-mode"
        ∷ (if is_empty opts.permission_mode then lit "bypassPermissions" else opts.permission_mode)
        ∷ lit "--disallowedTools"
        ∷ lit "AskUserQuestion"
        ∷ [])
    ++ flag_value (lit "--model") opts.model
    ++ flag_value (lit "--effort") opts.thinking_level
    ++ flag_number (lit "--max-turns") opts.max_turns
    ++ flag_value (lit "--append-system-prompt") opts.system_prompt
    ++ flag_value (lit "--resume") opts.resume_session_id

unfoldable pub build_claude_args : ExecOptions → List Text
unfolding claude_flags user_args
build_claude_args opts = claude_flags opts ++ user_args claude_blocked_args opts

unfoldable pub qwen_flags : ExecOptions → List Text
unfolding flag_value flag_number
qwen_flags opts =
    (lit "--bare" ∷ stream_json)
    ++ (lit "--yolo" ∷ [])
    ++ flag_value (lit "-m") opts.model
    ++ flag_number (lit "--max-session-turns") opts.max_turns
    ++ flag_value (lit "--append-system-prompt") opts.system_prompt
    ++ flag_value (lit "--resume") opts.resume_session_id

unfoldable pub build_qwen_args : ExecOptions → List Text
unfolding qwen_flags user_args
build_qwen_args opts = qwen_flags opts ++ user_args qwen_blocked_args opts

unfoldable pub codebuddy_flags : ExecOptions → List Text
unfolding flag_value flag_number
codebuddy_flags opts =
    (lit "--print" ∷ stream_json)
    ++ (lit "--dangerously-skip-permissions" ∷ [])
    ++ flag_value (lit "--model") opts.model
    ++ flag_number (lit "--max-turns") opts.max_turns
    ++ flag_value (lit "--system-prompt") opts.system_prompt
    ++ flag_value (lit "--resume") opts.resume_session_id

unfoldable pub build_codebuddy_args : ExecOptions → List Text
unfolding codebuddy_flags user_args
build_codebuddy_args opts = codebuddy_flags opts ++ user_args codebuddy_blocked_args opts

unfoldable pub gemini_flags : ExecOptions → List Text
unfolding flag_value flag_number
gemini_flags opts =
    (lit "--bare" ∷ stream_json)
    ++ (lit "--yolo" ∷ [])
    ++ flag_value (lit "--model") opts.model
    ++ flag_value (lit "--append-system-prompt") opts.system_prompt
    ++ flag_number (lit "--max-turns") opts.max_turns
    ++ flag_value (lit "--resume") opts.resume_session_id

unfoldable pub build_gemini_args : ExecOptions → List Text
unfolding gemini_flags user_args
build_gemini_args opts = gemini_flags opts ++ user_args gemini_blocked_args opts

unfoldable pub build_acp_args : AcpBackendConfig → ExecOptions → List Text
unfolding user_args
build_acp_args bc opts = bc.acp_args ++ user_args acp_blocked_args opts

-- The arguments in opencode's Execute; extra_args is not read there.
unfoldable pub opencode_flags : ExecOptions → List Text
unfolding flag_value
opencode_flags opts =
    (lit "run" ∷ lit "--format" ∷ lit "json" ∷ lit "--dangerously-skip-permissions" ∷ [])
    ++ flag_value (lit "--dir") opts.cwd
    ++ flag_value (lit "--model") opts.model
    ++ flag_value (lit "--variant") opts.thinking_level
    ++ flag_value (lit "--prompt") opts.system_prompt
    ++ flag_value (lit "--session") opts.resume_session_id

unfoldable pub opencode_args : Text → ExecOptions → List Text
unfolding opencode_flags
opencode_args prompt opts =
    opencode_flags opts ++ filter_custom_args opts.custom_args opencode_blocked_args ++ prompt ∷ []

-- The MCP flag that Execute appends with the path of the temporary file that holds the config, for
-- claude, qwen, codebuddy, gemini ("--mcp-config") and the ACP CLIs (their own flag).
unfoldable pub mcp_args : Text → ExecOptions → Text → List Text
mcp_args flag opts path =
    if is_empty opts.mcp_config then [] else if is_empty flag then [] else flag ∷ path ∷ []

abbrev pub openclaw_blocked_args : Blocked
openclaw_blocked_args =
    (lit "--local", blocked_standalone)
    ∷ (lit "--json", blocked_standalone)
    ∷ (lit "--session-id", blocked_with_value)
    ∷ (lit "--message", blocked_with_value)
    ∷ (lit "--model", blocked_with_value)
    ∷ (lit "--system-prompt", blocked_with_value)
    ∷ []

-- An argument is the flag, or begins with the flag and `=`.
unfoldable pub custom_args_contains : Text → List Text → Bool
unfolding has_prefix
custom_args_contains flag args = any (λ a. text_eq a flag || has_prefix a (flag ++ b'=' ∷ [])) args

-- The whole seconds of a timeout that is positive as an int64 of nanoseconds; the floating-point
-- seconds of the code agree with it up to three months.
abbrev timeout_seconds : ExecOptions → List Text
timeout_seconds opts =
    if ltb 0 opts.timeout && ltb opts.timeout (2 ^ 63)
    then lit "--timeout" ∷ format_int (pos (opts.timeout / 1000000000)) ∷ []
    else []

unfoldable pub build_openclaw_args : Text → Text → ExecOptions → List Text
unfolding filter_custom_args custom_args_contains format_int
build_openclaw_args prompt session_id opts =
    let custom = filter_custom_args opts.custom_args openclaw_blocked_args in
    (lit "agent" ∷ [])
    ++ (if text_eq opts.openclaw_mode (lit "gateway") then [] else lit "--local" ∷ [])
    ++ (lit "--json" ∷ lit "--session-id" ∷ session_id ∷ [])
    ++ timeout_seconds opts
    ++ (if is_empty opts.model || custom_args_contains (lit "--agent") custom
        then []
        else lit "--agent" ∷ opts.model ∷ [])
    ++ custom
    ++ (lit "--message"
        ∷ (if is_empty opts.system_prompt then prompt else opts.system_prompt ++ 10 ∷ 10 ∷ prompt)
        ∷ [])
