-- ===== src/Facade/History.antt =====
-- GetRun of internal/facade/facade.go: the run and its events, read back from the store.
pub mod Replay
use aiclibridge.Prelude.{
  ℕ, Text, List, [], ◌∷◌, Option, none, some, if◌then◌else◌, text_eq, is_empty, ◌>>=◌,
}
use aiclibridge.Protocol.{Codec, Event, ResultPayload, Usage, event_result}
use aiclibridge.Store
use aiclibridge.Store.{Store, Run, EventRow}

pub record RunResult : Type 0 where
  pub id : Text
  pub status : Text
  pub output : Text
  pub error : Text
  pub duration_ms : ℕ
  pub session_id : Text
  pub usage : Usage
  pub events : List Event

abbrev with_type : EventRow → Event → Event
with_type row ev = if is_empty ev.type then record ev { type = row.type } else ev

-- A malformed row is skipped.
unfoldable pub decode_rows : Codec → List EventRow → List Event
decode_rows c [] = []
decode_rows c (row ∷ rows) = elim (c.unmarshal_event row.payload) [
  | none ↦ decode_rows c rows
  | some ev ↦ with_type row ev ∷ decode_rows c rows
]

abbrev pub result_of : Event → Option ResultPayload
result_of e = if text_eq e.type event_result then e.result else none

-- The last result event of the timeline.
unfoldable pub last_result : List Event → Option ResultPayload
last_result [] = none
last_result (e ∷ es) = elim (last_result es) [ none ↦ result_of e | some r ↦ some r ]

fill : Option ResultPayload → RunResult → RunResult
fill none r = r
fill (some p) r = record r { output = p.output; duration_ms = p.duration_ms; usage = p.usage }

unfoldable pub get_run : Codec → Text → Store → Option RunResult
unfolding fill
get_run c id st = do
  run ← Store.get_run id st
  let events = decode_rows c (Store.list_events id st)
  some (
      fill (last_result events) (record {
        id = run.id;
        status = run.status;
        output = [];
        error = run.error;
        duration_ms = 0;
        session_id = run.cli_session_id;
        usage = [];
        events = events;
      }))
