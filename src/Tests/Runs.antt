-- ===== src/Tests/Runs.antt =====
-- Runs of internal/facade/facade.go from their request to their replay.
use aiclibridge.Prelude.{
  sym, ℕ, ◌≡◌, refl, Text, lit, List, [], ◌∷◌, ◌++◌, Option, none, some, true, false, All,
  get_elem?, arith, text_eq,
}
use aiclibridge.Protocol.{zero_event, Codec, Event}
use aiclibridge.Adapter.{Message, Result, message_text, message_tool_use}
use aiclibridge.Store
use aiclibridge.Store.{Store, Run}
use aiclibridge.Protocol
use aiclibridge.Facade.Events.{message_to_event, result_to_event}
use aiclibridge.Facade.Forward.{
  Env, Session, deliver, consumer_reads, convert_panic, sent, no_fault, in_finish_run,
  forward_events,
}
use aiclibridge.Facade.Forward.Persist.{full_timeline, Encodes}
use aiclibridge.Facade.Forward.Finish.{EndsAs, final_status, forward_events-EndsAs}
use aiclibridge.Facade.Forward.Live.{
  contents, panic_event, failed_event, forward_events_complete, forward_events-second_result,
}
use aiclibridge.Facade.Forward.Isolation.{live, other, live-forward_events}
use aiclibridge.Facade.History.{get_run, last_result}
use aiclibridge.Api.{Tick, arrived, events_of}
use aiclibridge.Api.Collect.{collect_events, collect_from, keep, build_run_result}
use aiclibridge.Api.Collect.Bounds.{last_result-collect_events}
use aiclibridge.Api.Collect.Reply.{get_run-build_run_result}
use aiclibridge.Facade.History.Replay.{shown, get_run-forward_events}

abbrev run_id : Text
run_id = lit "r1"

abbrev hello : Message
hello = record {
  type = message_text;
  content = lit "hello";
  tool = [];
  call_id = [];
  input = none;
  output = [];
  status = [];
  level = [];
  session_id = [];
}

abbrev list_files : Message
list_files = record hello {
  type = message_tool_use;
  content = [];
  tool = lit "ls";
  call_id = lit "c1";
  input = some Protocol.end;
}

abbrev finished : Result
finished = record {
  status = lit "aborted";
  output = lit "hello";
  error = [];
  duration_ms = 12;
  session_id = lit "s9";
  usage =
      (
        lit "m",
        record {
          input_tokens = 3;
          output_tokens = 4;
          cache_read_tokens = 0;
          cache_write_tokens = 0;
        },
      )
      ∷ [];
}

abbrev session : Session
session = record {
  messages = some (deliver hello ∷ consumer_reads ∷ deliver list_files ∷ []);
  result = sent finished;
  fault = no_fault;
}

abbrev crashing : Session
crashing = record session { messages = some (deliver hello ∷ convert_panic (lit "boom") ∷ []) }

abbrev failing : Session
failing = record session { fault = in_finish_run (lit "disk") }

-- A codec that numbers the events of this run.
abbrev writer : Codec
writer = record {
  marshal_event = λ e. some (e.seq ∷ []);
  unmarshal_event = λ t. none;
  marshal_input = λ i. some (lit "{}");
  marshal_usage = λ u. some (lit "{usage}");
}

abbrev events : List Event
events = full_timeline writer session

abbrev nth : Text → Option Event
nth [] = none
nth (n ∷ t) = get_elem? events n

abbrev codec : Codec
codec = record writer { unmarshal_event = nth }

abbrev payload : Event → Text
payload e = e.seq ∷ []

abbrev env : Env
env = record {
  codec = codec;
  disk = λ n. true;
  finish_ok = true;
  session_ok = true;
  now = 100;
  consumer_alive = true;
}

abbrev row : Run
row = Store.pending_run 90 run_id (lit "claude") (lit "opus") []

abbrev store : Store
store = record { runs = row ∷ []; events = []; sessions = [] }

encoded : All (Encodes codec payload) (full_timeline codec session)
unfolding message_to_event result_to_event text_eq
encoded = ((refl, refl), ((refl, refl), ((refl, refl), tt)))

created : Store.get_run run_id store ≡ some row
unfolding Store.get_run text_eq
created = refl

fresh : Store.rows_of run_id store.events ≡ []
unfolding Store.rows_of
fresh = refl

get_run-forward_events_example :
    get_run codec run_id (forward_events env run_id (lit "claude") session store []).forward.store
    ≡ some (shown run_id env session)
get_run-forward_events_example =
    get_run-forward_events env payload run_id (lit "claude") session store [] row (λ n. refl) refl
      tt refl encoded fresh created

forward_events-EndsAs_example :
    EndsAs 100 run_id
      (final_status crashing)
      (forward_events env run_id (lit "claude") crashing store []).forward.store
forward_events-EndsAs_example =
    forward_events-EndsAs env refl run_id (lit "claude") row crashing store [] created

forward_events_complete_example :
    (contents (forward_events env run_id (lit "claude") session store []).forward.stream
      ≡ full_timeline codec session)
    × ((forward_events env run_id (lit "claude") session store []).events_closed ≡ true)
forward_events_complete_example =
    forward_events_complete env run_id (lit "claude") session store [] tt refl (omega arith)

forward_events-second_result_example :
    contents (forward_events env run_id (lit "claude") failing store []).forward.stream
    ≡ (full_timeline codec failing ++ panic_event 2 (lit "disk") ∷ [])
      ++ failed_event 3 (lit "disk") ∷ []
forward_events-second_result_example =
    forward_events-second_result env run_id (lit "claude") failing store [] (lit "disk") tt refl
      (omega arith)

live-forward_events_example :
    live
      (forward_events
        (other env (λ n. false) false false 0)
        run_id
        (lit "claude")
        crashing
        Store.empty
        []).forward
    ≡ live (forward_events env run_id (lit "claude") crashing store []).forward
live-forward_events_example =
    live-forward_events env (λ n. false) false false 0 run_id (lit "claude") crashing store
      Store.empty []

abbrev nth_event : ℕ → Event
nth_event n = elim (get_elem? events n) [ none ↦ zero_event n | some e ↦ e ]

-- The client reads all of it.
abbrev reading : List Tick
reading = arrived (nth_event 0) true ∷ arrived (nth_event 1) true ∷ arrived (nth_event 2) true ∷ []

sent_events :
    events_of reading
    ≡ contents (forward_events env run_id (lit "claude") session store []).forward.stream
unfolding message_to_event
sent_events =
    sym (forward_events_complete env run_id (lit "claude") session store [] tt refl (omega arith)).0

read_whole : (collect_events reading).1 ≡ true
unfolding collect_events collect_from keep text_eq
read_whole = refl

get_run-build_run_result_example :
    get_run codec run_id (forward_events env run_id (lit "claude") session store []).forward.store
    ≡ some (build_run_result run_id (collect_events reading).0)
get_run-build_run_result_example =
    get_run-build_run_result env payload run_id (lit "claude") session store [] row reading
      (λ n. refl) refl tt refl encoded fresh created (omega arith) tt sent_events

last_result-collect_events_example :
    last_result (collect_events reading).0 ≡ last_result (events_of reading)
last_result-collect_events_example = last_result-collect_events reading read_whole
