-- ===== src/Adapter/Launch.antt =====
-- How internal/adapter chooses a backend: New (backend.go), newAcpBackend and the table of the ACP
-- CLIs (acp.go).
pub mod Arguments
pub mod Protected
use aiclibridge.Prelude.{
  Text, lit, List, [], ◌∷◌, Option, none, some, if◌then◌else◌, Bool, true, false, text_eq,
}

pub record AcpBackendConfig : Type 0 where
  pub binary : Text
  pub acp_args : List Text
  pub mcp_flag : Text
  pub mcp_inline : Bool
  pub resume_mode : Text

abbrev plain_acp : Text → Text → AcpBackendConfig
plain_acp binary entry = record {
  binary = binary;
  acp_args = entry ∷ [];
  mcp_flag = lit "--mcp-config";
  mcp_inline = false;
  resume_mode = lit "none";
}

unfoldable pub acp_backends : List (Text × AcpBackendConfig)
acp_backends =
    (
      lit "copilot",
      record {
        binary = lit "copilot";
        acp_args = lit "--acp" ∷ [];
        mcp_flag = lit "--additional-mcp-config";
        mcp_inline = true;
        resume_mode = lit "session";
      },
    )
    ∷ (lit "goose", plain_acp (lit "goose") (lit "acp"))
    ∷ (lit "cursor", plain_acp (lit "cursor-agent") (lit "--acp"))
    ∷ (lit "kimi", plain_acp (lit "kimi") (lit "acp"))
    ∷ (lit "kiro", plain_acp (lit "kiro") (lit "--acp"))
    ∷ (lit "qoder", plain_acp (lit "qoder") (lit "--acp"))
    ∷ (lit "hermes", plain_acp (lit "hermes") (lit "--acp"))
    ∷ (lit "auggie", plain_acp (lit "auggie") (lit "--acp"))
    ∷ []

unfoldable pub acp_config : Text → List (Text × AcpBackendConfig) → Option AcpBackendConfig
acp_config name [] = none
acp_config name ((n, bc) ∷ table) = if text_eq n name then some bc else acp_config name table

-- The implementations of Backend.
pub data Backend : Type 0 where
  claude codex opencode openclaw qwen gemini codebuddy : Backend
  acp : Text → AcpBackendConfig → Backend
  stub : Text → Backend

-- newAcpBackend; `none` is its error.
unfoldable pub new_acp_backend : Text → Option Backend
unfolding acp_config acp_backends
new_acp_backend name = elim (acp_config name acp_backends) [
  | none ↦ none
  | some bc ↦ some (acp name bc)
]

abbrev one_of : Text → List Text → Bool
one_of name [] = false
one_of name (n ∷ names) = if text_eq name n then true else one_of name names

abbrev acp_names : List Text
acp_names =
    lit "copilot"
    ∷ lit "goose"
    ∷ lit "cursor"
    ∷ lit "kimi"
    ∷ lit "kiro"
    ∷ lit "qoder"
    ∷ lit "hermes"
    ∷ lit "auggie"
    ∷ []

abbrev stub_names : List Text
stub_names = lit "droid" ∷ lit "snow" ∷ lit "vibe" ∷ lit "aion" ∷ []

-- New of backend.go; `none` is "unknown agent type".
unfoldable pub new_backend : Text → Option Backend
unfolding new_acp_backend
new_backend agent_type =
    if text_eq agent_type (lit "claude")
    then some claude
    else if text_eq agent_type (lit "codex")
    then some codex
    else if text_eq agent_type (lit "opencode")
    then some opencode
    else if text_eq agent_type (lit "openclaw")
    then some openclaw
    else if text_eq agent_type (lit "qwen")
    then some qwen
    else if text_eq agent_type (lit "gemini")
    then some gemini
    else if text_eq agent_type (lit "codebuddy")
    then some codebuddy
    else if one_of agent_type acp_names
    then new_acp_backend agent_type
    else if one_of agent_type stub_names
    then some (stub agent_type)
    else none
