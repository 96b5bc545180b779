-- ===== src/Api/Collect.antt =====
-- collectEvents and buildRunResult of internal/api/native.go.
pub mod Bounds
pub mod Reply
use aiclibridge.Prelude.{
  ℕ, Text, lit, List, [], ◌∷◌, ◌++◌, Option, none, some, if◌then◌else◌, text_eq, leb, length, Bool,
  true, false, ◌&&◌, ◌||◌, not,
}
use aiclibridge.Protocol.{Event, ResultPayload, event_result}
use aiclibridge.Facade.History.{RunResult, last_result}
use aiclibridge.Api.{Tick, arrived, gone}

abbrev pub max_collect_events : ℕ
max_collect_events = 10000

abbrev pub is_result : Event → Bool
is_result ev = text_eq ev.type event_result

-- One event: capReached and the slice behind it.
unfoldable pub keep : Bool → List Event → Event → Bool × List Event
keep cap_reached events ev =
    if cap_reached && not (is_result ev)
    then (cap_reached, events)
    else (cap_reached || leb max_collect_events (length (events ++ ev ∷ [])), events ++ ev ∷ [])

unfoldable pub collect_from : Bool → List Event → List Tick → List Event × Bool
unfolding keep
collect_from cap_reached events [] = (events, true)
collect_from cap_reached events (arrived ev ok ∷ ts) =
    let (cap_reached', events') = keep cap_reached events ev in collect_from cap_reached' events' ts
collect_from cap_reached events (gone ∷ ts) = (events, false)

unfoldable pub collect_events : List Tick → List Event × Bool
collect_events ts = collect_from false [] ts

abbrev fill : Option ResultPayload → RunResult → RunResult
fill none r = r
fill (some p) r = record r {
  status = p.status;
  output = p.output;
  error = p.error;
  duration_ms = p.duration_ms;
  session_id = p.session_id;
  usage = p.usage;
}

unfoldable pub build_run_result : Text → List Event → RunResult
unfolding last_result
build_run_result id events = fill (last_result events) (record {
  id = id;
  status = lit "completed";
  output = [];
  error = [];
  duration_ms = 0;
  session_id = [];
  usage = [];
  events = events;
})
