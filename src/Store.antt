-- ===== src/Store.antt =====
-- internal/store/store.go: the tables and the statements on them, with what schema.sql makes each
-- statement refuse (`none`): a second row with the primary key, an update of no row. An error of
-- the database itself is the caller's environment (Facade/Forward). The clock is an argument.
pub mod Timeline
pub mod Usage
use aiclibridge.Prelude.{
  ℕ, zero, Text, lit, List, [], ◌∷◌, ◌++◌, Option, none, some, if◌then◌else◌, text_eq, find?, any,
  select, ◌==◌, ◌&&◌, ltb, Bool, true, false, map,
}

-- One row of `runs`; finished_at is 0 until the run ends (COALESCE).
pub record Run : Type 0 where
  pub id : Text
  pub adapter : Text
  pub model : Text
  pub status : Text
  pub started_at : ℕ
  pub finished_at : ℕ
  pub cwd : Text
  pub cli_session_id : Text
  pub error : Text
  pub usage_json : Text

pub record EventRow : Type 0 where
  pub seq : ℕ
  pub type : Text
  pub payload : Text

pub record SessionRow : Type 0 where
  pub id : Text
  pub adapter : Text
  pub cli_session_id : Text
  pub created_at : ℕ

pub record Store : Type 0 where
  pub runs : List Run
  pub events : List (Text × EventRow)
  pub sessions : List SessionRow

abbrev pub empty : Store
empty = record { runs = []; events = []; sessions = [] }

abbrev pub has_id : Text → Run → Bool
has_id id r = text_eq r.id id

abbrev pub pending_run : ℕ → Text → Text → Text → Text → Run
pending_run now id adapter model cwd = record {
  id = id;
  adapter = adapter;
  model = model;
  status = lit "pending";
  started_at = now;
  finished_at = 0;
  cwd = cwd;
  cli_session_id = [];
  error = [];
  usage_json = [];
}

unfoldable pub create_run : ℕ → Text → Text → Text → Text → Store → Option Store
create_run now id adapter model cwd s =
    if any (has_id id) s.runs
    then none
    else some (record s { runs = s.runs ++ pending_run now id adapter model cwd ∷ [] })

abbrev pub is_event : Text → ℕ → Text × EventRow → Bool
is_event run_id seq (id, row) = text_eq id run_id && row.seq == seq

unfoldable pub append_event : Text → ℕ → Text → Text → Store → Option Store
append_event run_id seq type payload s =
    if any (is_event run_id seq) s.events
    then none
    else some (record s {
      events = s.events ++ (run_id, record { seq = seq; type = type; payload = payload }) ∷ [];
    })

unfoldable pub finish_row : ℕ → Text → Text → Text → Text → Text → Run → Run
finish_row now id status cli_session_id err_msg usage_json r =
    if text_eq r.id id
    then record r {
      status = status;
      cli_session_id = cli_session_id;
      error = err_msg;
      finished_at = now;
      usage_json = usage_json;
    }
    else r

unfoldable pub finish_run_with_usage : ℕ → Text → Text → Text → Text → Text → Store → Option Store
unfolding finish_row
finish_run_with_usage now id status cli_session_id err_msg usage_json s =
    if any (has_id id) s.runs
    then some (record s {
      runs = map (finish_row now id status cli_session_id err_msg usage_json) s.runs;
    })
    else none

unfoldable pub get_run : Text → Store → Option Run
get_run id s = find? (has_id id) s.runs

-- ORDER BY seq ASC
unfoldable pub insert_row : EventRow → List EventRow → List EventRow
insert_row e [] = e ∷ []
insert_row e (r ∷ rows) = if ltb e.seq r.seq then e ∷ r ∷ rows else r ∷ insert_row e rows

unfoldable pub sort_rows : List EventRow → List EventRow
unfolding insert_row
sort_rows [] = []
sort_rows (r ∷ rows) = insert_row r (sort_rows rows)

-- WHERE run_id = ?
unfoldable pub rows_of : Text → List (Text × EventRow) → List EventRow
rows_of run_id [] = []
rows_of run_id ((id, row) ∷ es) =
    let rest = rows_of run_id es in if text_eq id run_id then row ∷ rest else rest

unfoldable pub list_events : Text → Store → List EventRow
unfolding sort_rows rows_of
list_events run_id s = sort_rows (rows_of run_id s.events)

-- INSERT ... ON CONFLICT(id) DO UPDATE keeps created_at.
unfoldable pub upsert : ℕ → Text → Text → Text → List SessionRow → List SessionRow
upsert now id adapter cli_session_id [] =
    record { id = id; adapter = adapter; cli_session_id = cli_session_id; created_at = now } ∷ []
upsert now id adapter cli_session_id (r ∷ rows) =
    if text_eq r.id id
    then record r { adapter = adapter; cli_session_id = cli_session_id } ∷ rows
    else r ∷ upsert now id adapter cli_session_id rows

unfoldable pub save_session : ℕ → Text → Text → Text → Store → Store
unfolding upsert
save_session now id adapter cli_session_id s = record s {
  sessions = upsert now id adapter cli_session_id s.sessions;
}

unfoldable pub get_session : Text → Store → Option SessionRow
get_session id s = find? (λ r. text_eq r.id id) s.sessions
