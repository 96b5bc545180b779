-- ===== src/Adapter.antt =====
-- internal/adapter: the messages and results that an adapter hands to the facade, and the helpers
-- that all adapters share.
pub mod Acp
pub mod Args
pub mod Codex
pub mod Drivers
pub mod Env
pub mod Launch
pub mod Openclaw
pub mod Opencode
pub mod Scan
pub mod StreamJson
pub mod Tail
pub mod Versions
use aiclibridge.Prelude.{ℕ, Text, lit, List, Option}
use aiclibridge.Prelude.Int.{ℤ}
use aiclibridge.Protocol.{Fields}

-- MessageType is a string: its constants.
abbrev pub message_text : Text
message_text = lit "text"

abbrev pub message_thinking : Text
message_thinking = lit "thinking"

abbrev pub message_tool_use : Text
message_tool_use = lit "tool-use"

abbrev pub message_tool_result : Text
message_tool_result = lit "tool-result"

abbrev pub message_status : Text
message_status = lit "status"

abbrev pub message_error : Text
message_error = lit "error"

abbrev pub message_log : Text
message_log = lit "log"

pub record Message : Type 0 where
  pub type : Text
  pub content : Text
  pub tool : Text
  pub call_id : Text
  pub input : Option Fields
  pub output : Text
  pub status : Text
  pub level : Text
  pub session_id : Text

pub record TokenUsage : Type 0 where
  pub input_tokens : ℕ
  pub output_tokens : ℕ
  pub cache_read_tokens : ℕ
  pub cache_write_tokens : ℕ

pub record Result : Type 0 where
  pub status : Text
  pub output : Text
  pub error : Text
  pub duration_ms : ℕ
  pub session_id : Text
  pub usage : List (Text × TokenUsage)

-- A time.Duration is the 64-bit pattern of its nanoseconds.
pub record ExecOptions : Type 0 where
  pub cwd : Text
  pub model : Text
  pub system_prompt : Text
  pub thread_name : Text
  pub max_turns : ℤ
  pub timeout : ℕ
  pub semantic_inactivity_timeout : ℕ
  pub resume_session_id : Text
  pub extra_args : List Text
  pub custom_args : List Text
  pub mcp_config : Text
  pub thinking_level : Text
  pub openclaw_mode : Text
  pub permission_mode : Text
