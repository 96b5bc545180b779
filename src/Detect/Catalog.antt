-- ===== src/Detect/Catalog.antt =====
-- internal/detect/catalog.go: the built-in catalog.
use Prim.Native.String.{String}
use aiclibridge.Prelude.{
  Text, lit, List, [], ◌∷◌, Option, none, some, if◌then◌else◌, text_eq, map, false,
}
use aiclibridge.Detect.Types.{ModelInfo, ProviderInfo, CliInfo}

unfoldable pub supported_clis : List Text
supported_clis =
    lit "claude"
    ∷ lit "codex"
    ∷ lit "opencode"
    ∷ lit "openclaw"
    ∷ lit "qwen"
    ∷ lit "gemini"
    ∷ lit "codebuddy"
    ∷ lit "copilot"
    ∷ lit "goose"
    ∷ lit "cursor"
    ∷ lit "kimi"
    ∷ lit "kiro"
    ∷ lit "qoder"
    ∷ lit "hermes"
    ∷ lit "auggie"
    ∷ lit "droid"
    ∷ lit "snow"
    ∷ lit "vibe"
    ∷ lit "aion"
    ∷ []

abbrev model : String → String → ModelInfo
model name display_name = record { name = lit name; display_name = lit display_name }

abbrev provider : String → List ModelInfo → ProviderInfo
provider name models = record { name = lit name; models = models }

-- A Go map literal; its keys are all different.
unfoldable pub hardcoded_catalog : List (Text × List ProviderInfo)
hardcoded_catalog =
    (
      lit "claude",
      provider "anthropic" (
            model "claude-sonnet-4.5" "Claude Sonnet 4.5"
            ∷ model "claude-opus-4.1" "Claude Opus 4.1"
            ∷ model "claude-haiku-4.5" "Claude Haiku 4.5"
            ∷ [])
          ∷ [],
    )
    ∷ (
      lit "codex",
      provider "openai"
            (model "gpt-5" "GPT-5" ∷ model "gpt-5-mini" "GPT-5 Mini" ∷ model "o3" "o3" ∷ [])
          ∷ provider "anthropic" (model "claude-sonnet-4.5" "Claude Sonnet 4.5" ∷ [])
          ∷ [],
    )
    ∷ (
      lit "opencode",
      provider "anthropic" (model "claude-sonnet-4.5" "Claude Sonnet 4.5" ∷ [])
          ∷ provider "openai" (model "gpt-5" "GPT-5" ∷ [])
          ∷ provider "google" (model "gemini-2.5-pro" "Gemini 2.5 Pro" ∷ [])
          ∷ [],
    )
    ∷ (
      lit "openclaw",
      provider "bytedance" (
            model "doubao-seedream-4-0" "Doubao Seedream 4.0"
            ∷ model "doubao-seedance-1-0" "Doubao Seedance 1.0"
            ∷ [])
          ∷ [],
    )
    ∷ (
      lit "qwen",
      provider "alibaba"
            (model "qwen3-coder-plus" "Qwen3 Coder Plus" ∷ model "qwen3-max" "Qwen3 Max" ∷ [])
          ∷ [],
    )
    ∷ (
      lit "gemini",
      provider "google" (
            model "gemini-2.5-pro" "Gemini 2.5 Pro"
            ∷ model "gemini-2.5-flash" "Gemini 2.5 Flash"
            ∷ [])
          ∷ [],
    )
    ∷ (
      lit "codebuddy",
      provider "tencent" (
            model "glm-5.2" "GLM 5.2"
            ∷ model "glm-5.1" "GLM 5.1"
            ∷ model "glm-5.0" "GLM 5.0"
            ∷ model "glm-5.0-turbo" "GLM 5.0 Turbo"
            ∷ model "glm-5v-turbo" "GLM 5V Turbo"
            ∷ model "glm-4.7" "GLM 4.7"
            ∷ model "minimax-m3" "MiniMax M3"
            ∷ model "minimax-m2.7" "MiniMax M2.7"
            ∷ model "kimi-k2.7" "Kimi K2.7"
            ∷ model "kimi-k2.6" "Kimi K2.6"
            ∷ model "kimi-k2.5" "Kimi K2.5"
            ∷ model "hy3-preview" "HY3 Preview"
            ∷ model "deepseek-v4-pro" "DeepSeek V4 Pro"
            ∷ model "deepseek-v4-flash" "DeepSeek V4 Flash"
            ∷ model "deepseek-v3-2-volc" "DeepSeek V3.2 Volc"
            ∷ [])
          ∷ [],
    )
    ∷ (
      lit "copilot",
      provider "github" (
            model "gpt-5" "GPT-5"
            ∷ model "claude-sonnet-4.5" "Claude Sonnet 4.5"
            ∷ model "gemini-2.5-pro" "Gemini 2.5 Pro"
            ∷ [])
          ∷ [],
    )
    ∷ (lit "goose", provider "block" (model "goose-1" "Goose 1" ∷ []) ∷ [])
    ∷ (lit "cursor", provider "cursor" (model "cursor-default" "Cursor Default" ∷ []) ∷ [])
    ∷ (lit "kimi", provider "moonshot" (model "kimi-k2" "Kimi K2" ∷ []) ∷ [])
    ∷ (lit "kiro", provider "aws" (model "kiro-default" "Kiro Default" ∷ []) ∷ [])
    ∷ (lit "qoder", provider "qoder" (model "qoder-default" "Qoder Default" ∷ []) ∷ [])
    ∷ (lit "hermes", provider "nous" (model "hermes-4" "Hermes 4" ∷ []) ∷ [])
    ∷ (lit "auggie", provider "auggie" (model "auggie-default" "Auggie Default" ∷ []) ∷ [])
    ∷ (lit "droid", [])
    ∷ (lit "snow", [])
    ∷ (lit "vibe", [])
    ∷ (lit "aion", [])
    ∷ []

unfoldable pub providers_of : Text → List (Text × List ProviderInfo) → Option (List ProviderInfo)
providers_of cli [] = none
providers_of cli ((name, ps) ∷ rest) = if text_eq name cli then some ps else providers_of cli rest

-- DiscoverModels of hardcodedDiscoverer; cloneProviders copies, which a value does not see.
unfoldable pub hardcoded_models : Text → List ProviderInfo
unfolding providers_of hardcoded_catalog text_eq
hardcoded_models cli = elim (providers_of cli hardcoded_catalog) [ none ↦ [] | some ps ↦ ps ]

abbrev default_info : Text → CliInfo
default_info name = record {
  name = name;
  version = [];
  available = false;
  path = [];
  providers = hardcoded_models name;
}

unfoldable pub default_catalog : List CliInfo
unfolding supported_clis hardcoded_models
default_catalog = map default_info supported_clis
