-- ===== src/Config/Limits.antt =====
-- What Validate accepts, and what Load leaves in the limits on concurrent runs.
use mathlib.Core.Path.{subst}
use aiclibridge.Prelude.{
  ◌≡◌, refl, ap, sym, ◌∙◌, Text, [], ◌∷◌, none, some, is_empty, true, false, All, arith,
}
use aiclibridge.Prelude.Int.{ℤ, pos, ltb_ℤ}
use aiclibridge.Config.{
  Config, ok, validate, valid_log_level, with_limits, check_timeout, check_agents, first_unknown,
  known_agent, known_agents, Environment, load, File, decoded, missing, read_file, with_overrides,
  apply_env_overrides, defaults, backfill, Agents, AgentConfig, broken, garbled,
}

-- A config that Validate lets pass.
pub record IsValid (c : Config) : Type 0 where
  pub listen : is_empty c.listen ≡ false
  pub log_level : valid_log_level c.log_level ≡ true
  pub runs : ltb_ℤ c.max_concurrent_runs (pos 0) ≡ false
  pub timeout : ltb_ℤ (pos 0) c.queue_timeout_ms ≡ true
  pub agents : All (λ (kv : Text × AgentConfig). known_agent kv.0 ≡ true) c.agents

known_of_first_unknown :
    (agents : Agents)
    → first_unknown agents ≡ none
    → All (λ (kv : Text × AgentConfig). known_agent kv.0 ≡ true) agents
unfolding first_unknown
known_of_first_unknown [] h = tt
known_of_first_unknown ((name, a) ∷ rest) h =
    (ground arith, known_of_first_unknown rest (ground arith))

check_agents-ok : (c d : Config) → check_agents c ≡ ok d → (d ≡ c) × (first_unknown c.agents ≡ none)
unfolding check_agents
check_agents-ok c d h = (ground arith, ground arith)

-- The steps that a successful Validate has gone through.
record Passed (c d : Config) : Type 0 where
  listen : is_empty c.listen ≡ false
  log_level : valid_log_level c.log_level ≡ true
  timeout : ltb_ℤ (with_limits c).queue_timeout_ms (pos 0) ≡ false
  known : first_unknown (with_limits c).agents ≡ none
  result : d ≡ with_limits c

Passed-of_validate : (c d : Config) → validate c ≡ ok d → Passed c d
unfolding validate check_timeout
Passed-of_validate c d h =
    let e : check_agents (with_limits c) ≡ ok d = ground arith in
    let (result, known) = check_agents-ok (with_limits c) d e in
    record {
      listen = ground arith;
      log_level = ground arith;
      timeout = ground arith;
      known = known;
      result = result;
    }

with_limits-runs : (c : Config) → ltb_ℤ (with_limits c).max_concurrent_runs (pos 0) ≡ false
unfolding with_limits
with_limits-runs c = ground arith

with_limits-timeout :
    (c : Config)
    → ltb_ℤ (with_limits c).queue_timeout_ms (pos 0) ≡ false
    → ltb_ℤ (pos 0) (with_limits c).queue_timeout_ms ≡ true
unfolding with_limits
with_limits-timeout c h = ground arith

with_limits-others :
    (c : Config)
    → ((with_limits c).listen ≡ c.listen)
      × ((with_limits c).agents ≡ c.agents)
      × ((with_limits c).log_level ≡ c.log_level)
unfolding with_limits
with_limits-others c = (refl, refl, refl)

-- What Validate lets pass is well-formed: it listens somewhere, has a known log level, a cap that is
-- not negative, a positive queue timeout and known agents only.
pub validate-IsValid : (c d : Config) → validate c ≡ ok d → IsValid d
validate-IsValid c d h =
    let p = Passed-of_validate c d h in
    let (listen, agents, level) = with_limits-others c in
    subst IsValid (sym p.result) (record {
      listen = rw listen p.listen;
      log_level = rw level p.log_level;
      runs = with_limits-runs c;
      timeout = with_limits-timeout c p.timeout;
      agents = known_of_first_unknown (with_limits c).agents p.known;
    })

first_unknown_of_known :
    (agents : Agents)
    → All (λ (kv : Text × AgentConfig). known_agent kv.0 ≡ true) agents
    → first_unknown agents ≡ none
unfolding first_unknown
first_unknown_of_known [] h = refl
first_unknown_of_known ((name, a) ∷ rest) (p, h) = rw p (first_unknown_of_known rest h)

check_agents_of_known : (c : Config) → first_unknown c.agents ≡ none → check_agents c ≡ ok c
unfolding check_agents
check_agents_of_known c h = ground arith

with_limits_of_IsValid : (c : Config) → IsValid c → with_limits c ≡ c
unfolding with_limits
with_limits_of_IsValid c v = ground arith

-- Validate lets a well-formed config pass as it is, so validating twice is validating once.
pub validate_of_IsValid : (c : Config) → IsValid c → validate c ≡ ok c
unfolding validate check_timeout
validate_of_IsValid c v =
    rw (v.listen, v.log_level, with_limits_of_IsValid c v)
      (rw (not_negative c.queue_timeout_ms v.timeout)
        (check_agents_of_known c (first_unknown_of_known c.agents v.agents)))
  where
    not_negative : (t : ℤ) → ltb_ℤ (pos 0) t ≡ true → ltb_ℤ t (pos 0) ≡ false
    not_negative t h = ground arith

runs-apply_env_overrides :
    (e : Environment) (c : Config)
    → (apply_env_overrides e c).max_concurrent_runs ≡ c.max_concurrent_runs
unfolding apply_env_overrides
runs-apply_env_overrides e c = refl

-- A file that does not set max_concurrent_runs.
abbrev pub LeavesRuns : File → Type 0
LeavesRuns (decoded f) = (f defaults).max_concurrent_runs ≡ defaults.max_concurrent_runs
LeavesRuns _ = Unit

runs-load :
    (e : Environment) (file : File) (c : Config)
    → LeavesRuns file
    → load e (some file) ≡ ok c
    → c.max_concurrent_runs ≡ defaults.max_concurrent_runs
unfolding load read_file with_overrides
runs-load e missing c l h = ground (arith, runs-apply_env_overrides e defaults)
runs-load e broken c l h = cc
runs-load e garbled c l h = cc
runs-load e (decoded f) c l h =
    let d = record (f defaults) { agents = backfill known_agents (f defaults).agents } in
    let same : apply_env_overrides e d ≡ c = ground arith in
    ap (λ (x : Config). x.max_concurrent_runs) (sym same) ∙ runs-apply_env_overrides e d ∙ l

-- A config file that does not set max_concurrent_runs, and none of the environment does, leaves the
-- daemon without a cap: the value after Load and Validate is 0, which is "unlimited", and not 8.
pub validate-load_unlimited :
    (e : Environment) (file : File) (c d : Config)
    → LeavesRuns file
    → load e (some file) ≡ ok c
    → validate c ≡ ok d
    → d.max_concurrent_runs ≡ pos 0
unfolding with_limits defaults
validate-load_unlimited e file c d l h v =
    let p = Passed-of_validate c d v in
    let zero_runs : c.max_concurrent_runs ≡ pos 0 = runs-load e file c l h in
    ap (λ (x : Config). x.max_concurrent_runs) p.result ∙ rw zero_runs
