-- ===== src/Config.antt =====
-- internal/config/config.go. The YAML file is an argument: what reading and decoding it onto the
-- defaults gives. The environment is a function from names to values.
pub mod Limits
use aiclibridge.Prelude.{
  ℕ, ◌≡◌, ◌≢◌, Text, lit, List, [], ◌∷◌, ◌++◌, Option, none, some, if◌then◌else◌, is_empty, text_eq,
  map, to_upper, Bool, true, false, any,
}
use aiclibridge.Prelude.Strconv.{atoi, parse_bool}
use aiclibridge.Prelude.Int.{ℤ, pos, ltb_ℤ, eq_ℤ}

unfoldable pub known_agents : List Text
known_agents =
    lit "claude"
    ∷ lit "codex"
    ∷ lit "opencode"
    ∷ lit "openclaw"
    ∷ lit "qwen"
    ∷ lit "gemini"
    ∷ lit "codebuddy"
    ∷ lit "copilot"
    ∷ lit "goose"
    ∷ lit "cursor"
    ∷ lit "kimi"
    ∷ lit "kiro"
    ∷ lit "qoder"
    ∷ lit "hermes"
    ∷ lit "auggie"
    ∷ lit "droid"
    ∷ lit "snow"
    ∷ lit "vibe"
    ∷ lit "aion"
    ∷ []

unfoldable pub known_agent : Text → Bool
unfolding known_agents text_eq
known_agent name = any (text_eq name) known_agents

unfoldable pub valid_log_level : Text → Bool
unfolding text_eq
valid_log_level level =
    any (text_eq level) (lit "debug" ∷ lit "info" ∷ lit "warn" ∷ lit "error" ∷ [])

pub record AgentConfig : Type 0 where
  pub enabled : Bool
  pub executable_path : Text
  pub extra_args : List Text
  pub custom_args : List Text
  pub env : List (Text × Text)
  pub mcp_config : Text
  pub thinking_level : Text
  pub openclaw_mode : Text
  pub permission_mode : Text

-- AgentConfig{Enabled: true}
abbrev pub enabled_agent : AgentConfig
enabled_agent = record {
  enabled = true;
  executable_path = [];
  extra_args = [];
  custom_args = [];
  env = [];
  mcp_config = [];
  thinking_level = [];
  openclaw_mode = [];
  permission_mode = [];
}

-- AgentConfig{}: what a map gives for a missing key.
abbrev pub zero_agent : AgentConfig
zero_agent = record enabled_agent { enabled = false }

abbrev pub Agents : Type 0
Agents = List (Text × AgentConfig)

pub record Config : Type 0 where
  pub listen : Text
  pub api_key : Text
  pub data_dir : Text
  pub log_level : Text
  pub default_timeout_ms : ℤ
  pub max_concurrent_runs : ℤ
  pub queue_timeout_ms : ℤ
  pub agents : Agents

unfoldable pub agent? : Text → Agents → Option AgentConfig
agent? name [] = none
agent? name ((k, a) ∷ rest) = if text_eq k name then some a else agent? name rest

-- c.Agents[name] = a
unfoldable pub set_agent : Text → AgentConfig → Agents → Agents
set_agent name a [] = (name, a) ∷ []
set_agent name a ((k, b) ∷ rest) =
    if text_eq k name then (k, a) ∷ rest else (k, b) ∷ set_agent name a rest

unfoldable pub defaults : Config
unfolding known_agents
defaults = record {
  listen = lit "127.0.0.1:8787";
  api_key = [];
  data_dir = lit "./data";
  log_level = lit "info";
  default_timeout_ms = pos 0;
  max_concurrent_runs = pos 0;
  queue_timeout_ms = pos 0;
  agents = map (λ name. (name, enabled_agent)) known_agents;
}

-- The loop that backfills the known agents that the file leaves out.
unfoldable pub backfill : List Text → Agents → Agents
backfill [] agents = agents
backfill (name ∷ names) agents = elim (agent? name agents) [
  | some a ↦ backfill names agents
  | none ↦ backfill names (set_agent name enabled_agent agents)
]

pub data ConfigError : Type 0 where
  unreadable unparsable empty_listen : ConfigError
  invalid_log_level : Text → ConfigError
  negative_queue_timeout : ConfigError
  unknown_agent : Text → ConfigError

-- os.LookupEnv
abbrev pub Environment : Type 0
Environment = Text → Option Text

abbrev override {ℓ} : {A : Type ℓ} → Option A → A → A
override none old = old
override (some v) old = v

abbrev parsed {ℓ} : {A : Type ℓ} → (Text → Option A) → Option Text → Option A
parsed parse none = none
parsed parse (some v) = parse v

override_agent : Environment → Text → AgentConfig → AgentConfig
unfolding to_upper parse_bool
override_agent e name a =
    let prefix = lit "AICLIBRIDGE_AGENTS_" ++ (to_upper name ++ lit "_") in
    record a {
      enabled = override (parsed parse_bool (e (prefix ++ lit "ENABLED"))) a.enabled;
      executable_path = override (e (prefix ++ lit "EXECUTABLE_PATH")) a.executable_path;
      thinking_level = override (e (prefix ++ lit "THINKING_LEVEL")) a.thinking_level;
    }

unfoldable pub override_agents : Environment → List Text → Agents → Agents
unfolding override_agent
override_agents e [] agents = agents
override_agents e (name ∷ names) agents =
    override_agents e names
      (set_agent name (override_agent e name (override (agent? name agents) zero_agent)) agents)

unfoldable pub apply_env_overrides : Environment → Config → Config
unfolding override_agents atoi
apply_env_overrides e c = record c {
  listen = override (e (lit "AICLIBRIDGE_LISTEN")) c.listen;
  api_key = override (e (lit "AICLIBRIDGE_API_KEY")) c.api_key;
  data_dir = override (e (lit "AICLIBRIDGE_DATA_DIR")) c.data_dir;
  log_level = override (e (lit "AICLIBRIDGE_LOG_LEVEL")) c.log_level;
  default_timeout_ms =
      override (parsed atoi (e (lit "AICLIBRIDGE_DEFAULT_TIMEOUT_MS"))) c.default_timeout_ms;
  agents = override_agents e known_agents c.agents;
}

pub data Loaded {ℓ} (A : Type ℓ) : Type ℓ where
  ok : A → Loaded A
  err : ConfigError → Loaded A

-- What os.ReadFile and yaml.Unmarshal do with the file: yaml.Unmarshal writes onto the defaults.
pub data File : Type 0 where
  missing broken garbled : File
  decoded : (Config → Config) → File

unfoldable pub read_file : File → Config → Loaded Config
unfolding backfill
read_file missing c = ok c
read_file broken c = err unreadable
read_file garbled c = err unparsable
read_file (decoded f) c = let d = f c in ok (record d { agents = backfill known_agents d.agents })

unfoldable pub with_overrides : Environment → Loaded Config → Loaded Config
with_overrides e (ok c) = ok (apply_env_overrides e c)
with_overrides e (err x) = err x

-- The path is empty where there is no file to read.
unfoldable pub load : Environment → Option File → Loaded Config
load e none = ok (apply_env_overrides e defaults)
load e (some file) = with_overrides e (read_file file defaults)

unfoldable pub first_unknown : Agents → Option Text
first_unknown [] = none
first_unknown ((name, a) ∷ rest) = if known_agent name then first_unknown rest else some name

unfoldable pub check_agents : Config → Loaded Config
check_agents c = elim (first_unknown c.agents) [
  | none ↦ ok c
  | some name ↦ err (unknown_agent name)
]

unfoldable pub with_limits : Config → Config
with_limits c = record c {
  max_concurrent_runs =
      if ltb_ℤ c.max_concurrent_runs (pos 0) then pos 8 else c.max_concurrent_runs;
  queue_timeout_ms = if eq_ℤ c.queue_timeout_ms (pos 0) then pos 60000 else c.queue_timeout_ms;
}

unfoldable pub check_timeout : Config → Loaded Config
check_timeout c =
    if ltb_ℤ c.queue_timeout_ms (pos 0) then err negative_queue_timeout else check_agents c

-- Validate changes its receiver: the result is the config that it leaves.
unfoldable pub validate : Config → Loaded Config
validate c =
    if is_empty c.listen
    then err empty_listen
    else if valid_log_level c.log_level
    then check_timeout (with_limits c)
    else err (invalid_log_level c.log_level)
