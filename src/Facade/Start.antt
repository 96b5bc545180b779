-- ===== src/Facade/Start.antt =====
-- StartRun and safeExecute of internal/facade/facade.go. What the select on the semaphore and the
-- adapter do is an argument; Facade/Slots has the semaphore itself.
use aiclibridge.Prelude.{
  ◌≡◌, Text, lit, List, [], ◌++◌, Option, none, some, if◌then◌else◌, Bool, true, false,
}
use aiclibridge.Config.{AgentConfig, Agents, agent?, zero_agent}
use aiclibridge.Detect.Types.{CliInfo}
use aiclibridge.Detect.Names.{Route}
use aiclibridge.Store
use aiclibridge.Store.{Store, Run}
use aiclibridge.Facade.Forward.{Env, Session, finish_run}
use aiclibridge.Facade.Forward.Finish.{EndsAs}
use aiclibridge.Adapter.{ExecOptions}
use aiclibridge.Facade.Route.{RunRequest, resolve_route, has_adapter, build_exec_options}

-- How the wait for a slot ends; `unlimited` where there is no semaphore.
pub data Admission : Type 0 where
  unlimited acquired timed_out : Admission
  cancelled : Text → Admission

-- backend.Execute: a session, an error, or a panic with its value.
pub data Execution : Type 0 where
  session : Session → Execution
  failure panic : Text → Execution

pub data StartError : Type 0 where
  no_route : StartError
  not_enabled : Text → StartError
  queue_timeout : StartError
  context_done : Text → StartError
  adapter_failed : Text → StartError

pub record Handle : Type 0 where
  pub id : Text
  pub adapter : Text
  pub model : Text
  pub session : Session

pub data Started : Type 0 where
  started : Handle → Started
  refused : StartError → Started

-- What StartRun returns, the store behind it, and whether the run still holds a slot.
pub record Outcome : Type 0 where
  pub result : Started
  pub store : Store
  pub holds_slot : Bool

pub record Facade : Type 0 where
  pub adapters : List Text
  pub catalog : List CliInfo
  pub agents : Agents

abbrev queue_timeout_text : Text
queue_timeout_text = lit "facade: concurrency queue timeout (server busy; retry later)"

-- The error text of safeExecute.
unfoldable pub safe_execute : Text → Execution → Execution
safe_execute cli (panic v) = failure (lit "adapter " ++ (cli ++ (lit " panicked: " ++ v)))
safe_execute cli e = e

-- A failing CreateRun is logged, and the run goes on without a row.
unfoldable pub create_row : Env → Bool → Text → Route → RunRequest → Store → Store
create_row env create_ok run_id r req st =
    if create_ok
    then elim (Store.create_run env.now run_id r.cli r.model req.cwd st) [
      | none ↦ st
      | some st' ↦ st'
    ]
    else st

abbrev failed_row : Env → Text → Text → Store → Store
failed_row env run_id message st = finish_run env run_id (lit "failed") [] message [] st

-- Step 7 and 8, with or without a slot.
unfoldable pub execute : Env → Text → Route → Bool → Execution → Store → Outcome
execute env run_id r slot (session s) st = record {
  result = started (record { id = run_id; adapter = r.cli; model = r.model; session = s });
  store = st;
  holds_slot = slot;
}
execute env run_id r slot (failure message) st = record {
  result = refused (adapter_failed message);
  store = failed_row env run_id message st;
  holds_slot = false;
}
execute env run_id r slot (panic v) st = record {
  result = refused (adapter_failed v);
  store = failed_row env run_id v st;
  holds_slot = false;
}

unfoldable pub admit : Env → Text → Route → Admission → Execution → Store → Outcome
unfolding execute
admit env run_id r unlimited e st = execute env run_id r false e st
admit env run_id r acquired e st = execute env run_id r true e st
admit env run_id r timed_out e st = record {
  result = refused queue_timeout;
  store = failed_row env run_id queue_timeout_text st;
  holds_slot = false;
}
admit env run_id r (cancelled message) e st = record {
  result = refused (context_done message);
  store = failed_row env run_id (lit "cancelled while queued") st;
  holds_slot = false;
}

-- The agent's config, and the adapter called with the options that it and the request make.
unfoldable pub call_backend :
    Facade → RunRequest → Route → (Text → ExecOptions → Execution) → Execution
unfolding safe_execute build_exec_options
call_backend f req r backend =
    let agent : AgentConfig = elim (agent? r.cli f.agents) [ none ↦ zero_agent | some a ↦ a ] in
    safe_execute r.cli (backend r.cli (build_exec_options req agent r.model))

module _ (env : Env) (create_ok : Bool) (f : Facade) (req : RunRequest) (run_id : Text)
    (adm : Admission) (backend : Text → ExecOptions → Execution) (st : Store) where
  -- With a backend for the agent, or with none.
  unfoldable pub start_at : Route → Bool → Outcome
  start_at r true =
      admit env run_id r adm (call_backend f req r backend)
        (create_row env create_ok run_id r req st)
  start_at r false = record { result = refused (not_enabled r.cli); store = st; holds_slot = false }

  unfoldable pub start_on : Option Route → Outcome
  start_on none = record { result = refused no_route; store = st; holds_slot = false }
  start_on (some r) = start_at r (has_adapter f.adapters r.cli)

  unfoldable pub start_run : Outcome
  start_run = start_on (resolve_route f.adapters f.catalog req.model)

-- What the caller can tell of a refused run: it was refused before its row was made, and then the
-- store is as it was, or its row has ended as "failed".
abbrev pub Refused : Env → Text → StartError → Store → Store → Type 0
Refused env id no_route before after = after ≡ before
Refused env id (not_enabled cli) before after = after ≡ before
Refused env id _ before after = EndsAs env.now id (lit "failed") after

-- A run that was started has a pending row.
abbrev pub IsPending : Text → Route → Store → Type 0
IsPending id r st =
    (row : Run) × (Store.get_run id st ≡ some row)
    × (row.status ≡ lit "pending")
    × (row.adapter ≡ r.cli)
    × (row.model ≡ r.model)

abbrev pub Honest : Env → Text → Route → Store → Outcome → Type 0
Honest env id r before o = elim o.result [
  | started h ↦ IsPending id r o.store
  | refused e ↦ Refused env id e before o.store × (o.holds_slot ≡ false)
]

-- The row of a run stands in the store, as CreateRun made it.
abbrev Created : Env → Text → Route → RunRequest → Store → Type 0
Created env id r req st =
    Store.get_run id st ≡ some (Store.pending_run env.now id r.cli r.model req.cwd)

-- The outcome of StartRun for the route that its request resolves to.
abbrev pub StartHonest : Env → Text → Facade → RunRequest → Store → Outcome → Type 0
StartHonest env id f req before o =
    ((r : Route) → resolve_route f.adapters f.catalog req.model ≡ some r → Honest env id r before o)
    × (resolve_route f.adapters f.catalog req.model ≡ none → o.result ≡ refused no_route)
