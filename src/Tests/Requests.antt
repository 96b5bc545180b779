-- ===== src/Tests/Requests.antt =====
-- Requests at concrete values: what StartRun answers, model names, limits, the slots, the catalog.
use aiclibridge.Prelude.{
  ◌+◌, Option, select, ◌≡◌, refl, Text, lit, List, [], ◌∷◌, none, some, Bool, true, false, All,
  arith, text_eq, ◌≤◌, Lacks, any, ◌==◌, ==_iff, if◌then◌else◌,
}
use aiclibridge.Prelude.Int.{pos, negsuc}
use aiclibridge.Protocol.{Codec, Usage}
use aiclibridge.Config.{
  Config, apply_env_overrides, backfill, check_timeout, with_limits, check_agents, first_unknown,
  Environment, File, decoded, defaults, validate, load, read_file, with_overrides, override_agents,
  known_agent, agent?, set_agent, ok, known_agents, valid_log_level,
}
use aiclibridge.Config.Limits.{IsValid, validate-IsValid, validate-load_unlimited}
use aiclibridge.Store
use aiclibridge.Store.{Store}
use aiclibridge.Store.Usage.{get_usage_stats, in_window}
use aiclibridge.Store.Usage.Tally
use aiclibridge.Store.Usage.Totals.{total_runs}
use aiclibridge.Api.Summary.{stats_summary}
use aiclibridge.Api.Summary.Breakdown.{stats_summary-get_usage_stats}
use aiclibridge.Facade.Forward.{Env}
use aiclibridge.Adapter.{ExecOptions}
use aiclibridge.Facade.Route.{RunRequest, resolve_default, resolve_default_sound, has_adapter}
use aiclibridge.Facade.Start.{Facade, Execution, failure}
use aiclibridge.Facade.Slots.{
  System, Reach, start, next, arrive, acquire, give_up, leave_queue, dequeue, activate, release,
  deactivate, idle, queued, running, ended, executes, blocked, leaving, concurrency_status,
}
use aiclibridge.Facade.Slots.Counts.{total, Reach-capped, Reach-no_leak}
use aiclibridge.Detect.Types.{Model}
use aiclibridge.Detect.Names.{
  Route, normalize_cli_name, parse_model_name, model_name, IsRoute, parse_model_name-model_name,
  parse_model_name_sound,
}
use aiclibridge.Detect.Groups.{group_adapter_models}
use aiclibridge.Detect.Groups.Coverage.{IsGrouped, group_adapter_models-IsGrouped}

abbrev quiet : Codec
quiet = record {
  marshal_event = λ e. none;
  unmarshal_event = λ t. none;
  marshal_input = λ i. none;
  marshal_usage = λ u. none;
}

abbrev working : Env
working = record {
  codec = quiet;
  disk = λ n. true;
  finish_ok = true;
  session_ok = true;
  now = 100;
  consumer_alive = true;
}

abbrev request : RunRequest
request = record {
  model = lit "claude/anthropic/opus";
  prompt = lit "hi";
  cwd = [];
  system_prompt = [];
  max_turns = pos 0;
  timeout_ms = pos 0;
  resume_session_id = [];
  custom_args = [];
  stream = false;
}

abbrev daemon : Facade
daemon = record { adapters = lit "claude" ∷ []; catalog = []; agents = [] }

abbrev no_backend : Text → ExecOptions → Execution
no_backend cli opts = failure (lit "no binary")

-- Two runs under a cap of one: the second blocked, leaving while the first runs.
abbrev busy : System
busy = record { tokens = 1; queued_count = 1; active_count = 1; runs = running ∷ queued ∷ [] }

busy-Reach : Reach 1 busy
busy-Reach =
    next
      (next (next (next (next start arrive) (acquire 0 refl (omega arith))) (dequeue 0 refl))
        (activate 0 refl))
      arrive

Reach-capped_example :
    (total executes busy.runs ≤ 1)
    × ((concurrency_status 1 busy).queued ≡ total blocked busy.runs + total leaving busy.runs)
Reach-capped_example = Reach-capped busy-Reach

-- The second gives up, and the first ends.
abbrev over : System
over = record idle { runs = ended ∷ ended ∷ [] }

over-Reach : Reach 1 over
over-Reach =
    next (next (next (next busy-Reach (give_up 1 refl)) (release 0 refl)) (leave_queue 1 refl))
      (deactivate 0 refl)

Reach-no_leak_example : (over.tokens ≡ 0) × (over.queued_count ≡ 0) × (over.active_count ≡ 0)
Reach-no_leak_example = Reach-no_leak over-Reach (refl, (refl, tt))

-- No slash in a text, by trying.
abbrev plain : Text → Bool
plain [] = true
plain (c ∷ s) = if c == b'/' then false else plain s

Lacks-of_plain : (s : Text) → plain s ≡ true → Lacks b'/' s
Lacks-of_plain [] h = tt
Lacks-of_plain (c ∷ s) h =
    (ground (arith, ==_iff c b'/'), Lacks-of_plain s (ground (arith, ==_iff c b'/')))

parse_model_name-model_name_example :
    parse_model_name (model_name (lit " Claude ") (lit "anthropic") (lit "opus"))
    ≡ some (record { cli = lit "claude"; provider = lit "anthropic"; model = lit "opus" })
unfolding normalize_cli_name
parse_model_name-model_name_example =
    parse_model_name-model_name (lit " Claude ") (lit "anthropic") (lit "opus")
      (Lacks-of_plain (lit " Claude ") refl) (Lacks-of_plain (lit "anthropic") refl)
      (Lacks-of_plain (lit "opus") refl) refl refl refl

abbrev route : Route
route = record { cli = lit "claude"; provider = lit "anthropic"; model = lit "opus" }

parsed : parse_model_name (lit "Claude/anthropic/opus") ≡ some route
unfolding parse_model_name
parsed = refl

parse_model_name_sound_example : IsRoute (lit "Claude/anthropic/opus") route
parse_model_name_sound_example = parse_model_name_sound (lit "Claude/anthropic/opus") route parsed

resolve_default_sound_example :
    ((r : Route)
      → resolve_default (lit "codex" ∷ []) [] ≡ some r
      → (has_adapter (lit "codex" ∷ []) r.cli ≡ true) × (any (text_eq r.cli) known_agents ≡ true))
    × (resolve_default (lit "codex" ∷ []) [] ≡ none
        → All (λ n. has_adapter (lit "codex" ∷ []) n ≡ false) known_agents)
resolve_default_sound_example = resolve_default_sound (lit "codex" ∷ []) []

abbrev no_variables : Environment
no_variables n = none

abbrev limited : Config
limited = record {
  listen = lit ":80";
  api_key = [];
  data_dir = [];
  log_level = lit "info";
  default_timeout_ms = pos 0;
  max_concurrent_runs = pos 4;
  queue_timeout_ms = pos 9;
  agents = [];
}

abbrev unset : Config
unset = record limited { max_concurrent_runs = negsuc 0; queue_timeout_ms = pos 0 }

abbrev replaced : Config
replaced = record limited { max_concurrent_runs = pos 8; queue_timeout_ms = pos 60000 }

validated : validate unset ≡ ok replaced
unfolding validate valid_log_level check_timeout with_limits check_agents first_unknown
validated = refl

validate-IsValid_example : IsValid replaced
validate-IsValid_example = validate-IsValid unset replaced validated

-- A file that sets the log level only.
abbrev verbose : File
verbose = decoded (λ c. record c { log_level = lit "debug" })

abbrev debug : Config
debug = record defaults { log_level = lit "debug" }

abbrev loaded : Config
loaded =
    apply_env_overrides no_variables (record debug { agents = backfill known_agents debug.agents })

loads : load no_variables (some verbose) ≡ ok loaded
unfolding load read_file with_overrides
loads = refl

loaded_validates : validate loaded ≡ ok (with_limits loaded)
unfolding validate valid_log_level check_timeout with_limits check_agents first_unknown load
    backfill apply_env_overrides override_agents known_agents known_agent agent? set_agent defaults
loaded_validates = refl

validate-load_unlimited_example : (with_limits loaded).max_concurrent_runs ≡ pos 0
validate-load_unlimited_example =
    validate-load_unlimited no_variables verbose loaded (with_limits loaded) refl loads
      loaded_validates

abbrev listed : List Model
listed =
    record {
      id = lit "openai/gpt-5";
      label = lit "GPT-5";
      provider = lit "openai";
      default = false;
    }
    ∷ record { id = lit "local"; label = []; provider = []; default = false }
    ∷ []

group_adapter_models-IsGrouped_example : IsGrouped (group_adapter_models listed)
group_adapter_models-IsGrouped_example = group_adapter_models-IsGrouped listed

abbrev priced : Store
priced = record Store.empty {
  runs =
      record (Store.pending_run 5 (lit "r1") (lit "claude") (lit "opus") []) {
        usage_json = lit "{}";
      }
      ∷ Store.pending_run 9 (lit "r2") (lit "codex") (lit "gpt-5") []
      ∷ [];
}

abbrev one_model : Text → Option Usage
one_model t = some (
    (
      lit "opus",
      record { input_tokens = 3; output_tokens = 4; cache_read_tokens = 0; cache_write_tokens = 0 },
    )
    ∷ [])

stats_summary-get_usage_stats_example :
    ((stats_summary 0 10 (get_usage_stats one_model 0 10 priced)).totals
      ≡ total_runs one_model (select (in_window 0 10) priced.runs))
    × (Tally.total (stats_summary 0 10 (get_usage_stats one_model 0 10 priced)).by_adapter
        ≡ total_runs one_model (select (in_window 0 10) priced.runs))
stats_summary-get_usage_stats_example = stats_summary-get_usage_stats one_model 0 10 priced
