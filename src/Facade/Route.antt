-- ===== src/Facade/Route.antt =====
-- internal/facade/facade.go: resolveRoute, resolveDefault, ListProviders and buildExecOptions. The
-- adapters are the names that the facade has a backend for.
use mathlib.Core.Path.{subst}
use aiclibridge.Prelude.{
  ◌*◌, ◌%◌, ◌^◌, All, ◌≡◌, refl, ap, sym, ◌∙◌, Text, List, [], ◌∷◌, ◌++◌, Option, none, some,
  if◌then◌else◌, text_eq, text_eq_iff, any, find?, Bool, true, false, arith, inl, inr, Bool-cases,
}
use aiclibridge.Prelude.Int.{ℤ, pos_part}
use aiclibridge.Adapter.{ExecOptions}
use aiclibridge.Config.{AgentConfig, known_agents}
use aiclibridge.Detect.Types.{ProviderInfo, CliInfo}
use aiclibridge.Detect.Names.{Route, parse_model_name}
use aiclibridge.Detect.Catalog.{default_catalog}

-- `_, ok := f.adapters[name]`
unfoldable pub has_adapter : List Text → Text → Bool
has_adapter adapters name = any (text_eq name) adapters

-- The first provider that has a model, with its first model.
unfoldable pub first_model : List ProviderInfo → Option (Text × Text)
first_model [] = none
first_model (p ∷ ps) = elim p.models [ [] ↦ first_model ps | m ∷ ms ↦ some (p.name, m.name) ]

-- The search goes on through later catalog entries of the same name.
unfoldable pub catalog_model : Text → List CliInfo → Option (Text × Text)
catalog_model name [] = none
catalog_model name (info ∷ cat) =
    if text_eq info.name name
    then elim (first_model info.providers) [ none ↦ catalog_model name cat | some pm ↦ some pm ]
    else catalog_model name cat

abbrev pub catalog_or_default : List CliInfo → List CliInfo
catalog_or_default [] = default_catalog
catalog_or_default (info ∷ cat) = info ∷ cat

abbrev route_to : Text → Option (Text × Text) → Route
route_to name none = record { cli = name; provider = []; model = [] }
route_to name (some (p, m)) = record { cli = name; provider = p; model = m }

-- resolveDefault; `none` is "no agent configured".
unfoldable pub default_from : List Text → List Text → List CliInfo → Option Route
default_from [] adapters cat = none
default_from (name ∷ names) adapters cat =
    if has_adapter adapters name
    then some (route_to name (catalog_model name (catalog_or_default cat)))
    else default_from names adapters cat

unfoldable pub resolve_default : List Text → List CliInfo → Option Route
resolve_default adapters cat = default_from known_agents adapters cat

unfoldable pub resolve_route : List Text → List CliInfo → Text → Option Route
resolve_route adapters cat [] = resolve_default adapters cat
resolve_route adapters cat (c ∷ model) = parse_model_name (c ∷ model)

-- What Discover gives where the cache is empty is an argument, `none` for its error.
unfoldable pub list_providers :
    List CliInfo → Option (List CliInfo) → Text → Option (List ProviderInfo)
list_providers cat discovered cli =
    let source : List CliInfo = elim cat [
      | [] ↦ elim discovered [ none ↦ default_catalog | some d ↦ d ]
      | info ∷ rest ↦ info ∷ rest
    ] in
    elim (find? (λ (info : CliInfo). text_eq info.name cli) source) [
      | none ↦ none
      | some info ↦ some info.providers
    ]

pub record RunRequest : Type 0 where
  pub model : Text
  pub prompt : Text
  pub cwd : Text
  pub system_prompt : Text
  pub max_turns : ℤ
  pub timeout_ms : ℤ
  pub resume_session_id : Text
  pub custom_args : List Text
  pub stream : Bool

unfoldable pub build_exec_options : RunRequest → AgentConfig → Text → ExecOptions
build_exec_options req agent model_name = record {
  cwd = req.cwd;
  model = model_name;
  system_prompt = req.system_prompt;
  thread_name = [];
  max_turns = req.max_turns;
  timeout = (pos_part req.timeout_ms * 1000000) % 2 ^ 64;
  semantic_inactivity_timeout = 0;
  resume_session_id = req.resume_session_id;
  extra_args = agent.extra_args;
  custom_args = agent.custom_args ++ req.custom_args;
  mcp_config = agent.mcp_config;
  thinking_level = agent.thinking_level;
  openclaw_mode = agent.openclaw_mode;
  permission_mode = agent.permission_mode;
}

route_to-cli : (name : Text) (pm : Option (Text × Text)) → (route_to name pm).cli ≡ name
route_to-cli name none = refl
route_to-cli name (some pm) = refl

default_from-has_adapter :
    (names adapters : List Text) (cat : List CliInfo) (r : Route)
    → default_from names adapters cat ≡ some r
    → (has_adapter adapters r.cli ≡ true) × (any (text_eq r.cli) names ≡ true)
unfolding default_from
default_from-has_adapter [] adapters cat r h = cc
default_from-has_adapter (name ∷ names) adapters cat r h =
    elim (Bool-cases (has_adapter adapters name)) [
      | inl e ↦
          let same : route_to name (catalog_model name (catalog_or_default cat)) ≡ r =
            ground arith in
          let named : name ≡ r.cli = sym (route_to-cli name _) ∙ ap (λ (x : Route). x.cli) same in
          (
            subst (λ n. has_adapter adapters n ≡ true) named e,
            ground (arith, text_eq_iff r.cli name),
          )
      | inr e ↦
          let (live, known) = default_from-has_adapter names adapters cat r (ground arith) in
          (live, ground arith)
    ]

default_from-none :
    (names adapters : List Text) (cat : List CliInfo)
    → default_from names adapters cat ≡ none
    → All (λ n. has_adapter adapters n ≡ false) names
unfolding default_from
default_from-none [] adapters cat h = tt
default_from-none (name ∷ names) adapters cat h =
    (ground arith, default_from-none names adapters cat (ground arith))

-- An empty model name resolves to an agent that has a backend and is a known agent; it does not
-- resolve only if no known agent has a backend.
pub resolve_default_sound :
    (adapters : List Text) (cat : List CliInfo)
    → ((r : Route)
        → resolve_default adapters cat ≡ some r
        → (has_adapter adapters r.cli ≡ true) × (any (text_eq r.cli) known_agents ≡ true))
      × (resolve_default adapters cat ≡ none
          → All (λ n. has_adapter adapters n ≡ false) known_agents)
unfolding resolve_default
resolve_default_sound adapters cat = (
  λ r. default_from-has_adapter known_agents adapters cat r,
  default_from-none known_agents adapters cat,
)
