-- ===== src/Adapter/Acp.antt =====
-- internal/adapter/acp.go: the JSON-RPC frames, the requests of a turn and the decoded
-- notifications. What encoding/json makes of a text is an argument.
pub mod Notifications
pub mod Driver
pub mod Kept
pub mod Outcome
pub mod Dialogue
use aiclibridge.Prelude.{
  ℕ, Text, lit, List, [], ◌∷◌, ◌++◌, Option, none, some, if◌then◌else◌, Bool, true, false, text_eq,
  is_empty, trim_space, not, ◌&&◌,
}
use aiclibridge.Prelude.Int.{ℤ, pos, eq_ℤ}
use aiclibridge.Prelude.Strconv.{format_int}
use aiclibridge.Protocol.{Fields}
use aiclibridge.Adapter.{TokenUsage}
use aiclibridge.Adapter.Scan.{TokenCounts}
use aiclibridge.Adapter.StreamJson.{ContentBlock}

pub record JsonrpcError : Type 0 where
  pub code : ℤ
  pub message : Text

-- A json.RawMessage is its text, [] for nil.
pub record JsonrpcMessage : Type 0 where
  pub id : Text
  pub method : Text
  pub params : Text
  pub result : Text
  pub error : Option JsonrpcError

pub record SessionMessageParams : Type 0 where
  pub type : Text
  pub text : Text
  pub content : Text
  pub tool : Text
  pub id : Text
  pub input : Text
  pub tool_use_id : Text
  pub output : Text
  pub message : Text
  pub session_id : Text

pub record SessionFinishedParams : Type 0 where
  pub session_id : Text
  pub usage : Text

pub record SessionErrorParams : Type 0 where
  pub session_id : Text
  pub message : Text
  pub error : Text

-- encoding/json at the types of acp.go; `none` is an error, for `input` also null. The blocks of
-- acpMessageEnvelope have the fields of ContentBlock.
pub record AcpDecoder : Type 0 where
  pub message : Text → Option JsonrpcMessage
  pub int : Text → Option ℤ
  pub string : Text → Option Text
  -- the fields sessionId, sessionID and message of an object
  pub session_id : Text → Option Text
  pub session_id_alias : Text → Option Text
  pub error_text : Text → Option Text
  pub session_message : Text → Option SessionMessageParams
  pub envelope : Text → Option (List ContentBlock)
  pub finished : Text → Option SessionFinishedParams
  pub session_error : Text → Option SessionErrorParams
  pub per_model_usage : Text → Option TokenCounts
  pub flat_usage : Text → Option TokenUsage
  pub input : Text → Option Fields

unfoldable pub is_response : JsonrpcMessage → Bool
unfolding trim_space
is_response m = not (is_empty (trim_space m.id)) && not (text_eq (trim_space m.id) (lit "null"))

-- 0 for an id that is no integer.
unfoldable pub int_id : AcpDecoder → JsonrpcMessage → ℤ
int_id d m = elim (d.int m.id) [ none ↦ pos 0 | some n ↦ n ]

pub data Params : Type 0 where
  initialize_params : Text → Text → Params
  session_new_params : Text → Params
  session_load_params : Text → Params
  session_prompt_params : Text → Text → Params
  cancel_params : Text → Params

-- jsonrpcRequest, whose version is always "2.0"
pub record Request : Type 0 where
  pub id : ℕ
  pub method : Text
  pub params : Params

abbrev pub acp_id_initialize : ℕ
acp_id_initialize = 1

abbrev pub acp_id_session : ℕ
acp_id_session = 2

abbrev pub acp_id_prompt : ℕ
acp_id_prompt = 3

abbrev pub acp_protocol_version : Text
acp_protocol_version = lit "1"

abbrev pub acp_client_capabilities : Text
acp_client_capabilities =
    lit "{\"text\":true,\"thinking\":true,\"tool_use\":true,\"tool_result\":true}"

-- What one turn is about: b.name, the prompt, the session to resume, the fallback model.
pub record Turn : Type 0 where
  pub cli : Text
  pub prompt : Text
  pub resume_session_id : Text
  pub fallback_model : Text

abbrev pub initialize_request : Request
initialize_request = record {
  id = acp_id_initialize;
  method = lit "initialize";
  params = initialize_params acp_protocol_version acp_client_capabilities;
}

unfoldable pub session_load_method : Text → Text
session_load_method resume = if is_empty resume then lit "session/new" else lit "session/load"

unfoldable pub session_request : Text → Request
unfolding session_load_method
session_request resume = record {
  id = acp_id_session;
  method = session_load_method resume;
  params = if is_empty resume then session_new_params [] else session_load_params resume;
}

unfoldable pub prompt_request : Text → Text → Request
prompt_request prompt session_id = record {
  id = acp_id_prompt;
  method = lit "session/prompt";
  params = session_prompt_params prompt session_id;
}

-- acpResponseErrorMessage of a response that carries an error
unfoldable pub response_error_message : JsonrpcError → Text
unfolding format_int
response_error_message e =
    let code = lit "acp response error (code " ++ format_int e.code in
    if is_empty e.message then code ++ lit ")" else code ++ lit "): " ++ e.message
