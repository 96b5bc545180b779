-- ===== src/Facade/Forward.antt =====
-- forwardEvents of internal/facade/facade.go with the helpers that it calls: appendEvent, finishRun,
-- saveSession, trySendEvent, and the channels between the adapter, the forwarder and the consumer.
-- What the surroundings choose is an argument: the order in which messages arrive and the consumer
-- reads (`Feed`), whether a statement reaches the database (`Env`), where a panic strikes (`Feed`,
-- `Fault`), and what the result channel does.
pub mod Persist
pub mod Live
pub mod Finish
pub mod Isolation
use aiclibridge.Prelude.{
  ℕ, ◌+◌, Text, lit, List, [], ◌∷◌, ◌++◌, Option, none, some, if◌then◌else◌, ltb, length, Bool,
  true, false, is_empty, select, not, text_eq,
}
use aiclibridge.Protocol.{Codec, Event, zero_event, ResultPayload, event_error, event_result, Usage}
use aiclibridge.Adapter.{Message, Result}
use aiclibridge.Store
use aiclibridge.Store.{Store}
use aiclibridge.Facade.Events.{
  message_to_event, result_to_event, normalize_status, convert_usage, marshal_usage,
}

abbrev pub events_chan_buffer : ℕ
events_chan_buffer = 1024

pub record Env : Type 0 where
  pub codec : Codec
  -- whether the INSERT of the event with this seq reaches the database
  pub disk : ℕ → Bool
  -- whether the UPDATE of the run, and the session's INSERT, reach it
  pub finish_ok : Bool
  pub session_ok : Bool
  pub now : ℕ
  -- whether the consumer reads while the terminal send is blocked, before its timeout
  pub consumer_alive : Bool

-- eventsCh: what it holds, oldest first, and what the consumer has taken.
pub record Stream : Type 0 where
  pub buffer : List Event
  pub received : List Event

pub record Forward : Type 0 where
  pub seq : ℕ
  pub store : Store
  pub stream : Stream

unfoldable pub push : Event → Stream → Stream
push ev s = record s { buffer = s.buffer ++ ev ∷ [] }

unfoldable pub has_room : Stream → Bool
has_room s = ltb (length s.buffer) events_chan_buffer

unfoldable pub try_send_event : Event → Stream → Stream
unfolding push has_room
try_send_event ev s = if has_room s then push ev s else s

take_head : List Event → Stream → Stream
take_head [] s = s
take_head (e ∷ rest) s = record { buffer = rest; received = s.received ++ e ∷ [] }

-- One receive of the consumer; with nothing to read it only waits.
unfoldable pub consume : Stream → Stream
unfolding take_head
consume s = take_head s.buffer s

-- The send of a terminal event: blocking, with a timeout.
unfoldable pub send_terminal : Env → Event → Stream → Stream
unfolding push has_room consume
send_terminal env ev s =
    if has_room s then push ev s else if env.consumer_alive then push ev (consume s) else s

or_else : Option Store → Store → Store
or_else none st = st
or_else (some st') st = st'

-- Errors of the store are logged and swallowed.
unfoldable pub append_event : Env → Text → Event → Store → Store
unfolding or_else Store.append_event
append_event env run_id ev st = elim (env.codec.marshal_event ev) [
  | none ↦ st
  | some payload ↦
      if env.disk ev.seq
      then or_else (Store.append_event run_id ev.seq ev.type payload st) st
      else st
]

unfoldable pub finish_run : Env → Text → Text → Text → Text → Text → Store → Store
unfolding or_else Store.finish_run_with_usage
finish_run env run_id status session_id err_msg usage_json st =
    if env.finish_ok
    then or_else
        (Store.finish_run_with_usage env.now run_id status session_id err_msg usage_json st) st
    else st

unfoldable pub save_session : Env → Text → Text → Text → Store → Store
unfolding Store.save_session
save_session env id adapter cli_session_id st =
    if is_empty cli_session_id
    then st
    else if env.session_ok
    then Store.save_session env.now id adapter cli_session_id st
    else st

-- What happens on session.Messages and at its consumer. A panic is either in messageToEvent (the
-- message has no seq yet) or in appendEvent (seq is already counted).
pub data Feed : Type 0 where
  deliver : Message → Feed
  consumer_reads : Feed
  convert_panic : Text → Feed
  append_panic : Message → Text → Feed

-- session.Result: nil, closed with no value, silent until the timeout, or one value.
pub data ResultChan : Type 0 where
  nil_chan closed silent : ResultChan
  sent : Result → ResultChan

-- A panic behind the message loop.
pub data Fault : Type 0 where
  no_fault : Fault
  in_terminal_append in_finish_run in_save_session : Text → Fault

pub record Session : Type 0 where
  -- nil is `none`
  pub messages : Option (List Feed)
  pub result : ResultChan
  pub fault : Fault

unfoldable pub forward_message : Env → Text → Message → Forward → Forward
forward_message env run_id msg f =
    let ev = message_to_event env.codec msg f.seq in
    record {
      seq = f.seq + 1;
      store = append_event env run_id ev f.store;
      stream = try_send_event ev f.stream;
    }

-- The message loop, and the panic that ended it, if any.
unfoldable pub forward_feed : Env → Text → List Feed → Forward → Forward × Option Text
forward_feed env run_id [] f = (f, none)
forward_feed env run_id (deliver msg ∷ feed) f =
    forward_feed env run_id feed (forward_message env run_id msg f)
forward_feed env run_id (consumer_reads ∷ feed) f =
    forward_feed env run_id feed (record f { stream = consume f.stream })
forward_feed env run_id (convert_panic v ∷ feed) f = (f, some v)
forward_feed env run_id (append_panic msg v ∷ feed) f = (record f { seq = f.seq + 1 }, some v)

failed_result : Text → Result
failed_result message = record {
  status = lit "failed";
  output = [];
  error = message;
  duration_ms = 0;
  session_id = [];
  usage = [];
}

unfoldable pub await_result : ResultChan → Result
unfolding failed_result
await_result nil_chan = failed_result (lit "adapter returned nil result channel")
await_result closed = record (failed_result []) { status = [] }
await_result silent = failed_result (lit "adapter did not produce result within 30s")
await_result (sent res) = res

abbrev pub internal_error : Text → Text
internal_error v = lit "facade internal error: " ++ v

-- The deferred recover, with terminalSent false.
unfoldable pub recover : Env → Text → Text → Forward → Forward
recover env run_id v f =
    let err_ev = record (zero_event f.seq) { type = event_error; content = internal_error v } in
    let terminal_ev = record (zero_event (f.seq + 1)) {
      type = event_result;
      result = some (record {
        status = lit "failed";
        output = [];
        error = internal_error v;
        duration_ms = 0;
        session_id = [];
        usage = [];
      });
    } in
    record {
      seq = f.seq + 1;
      store =
          finish_run env run_id (lit "failed") [] (internal_error v) []
            (append_event env run_id terminal_ev (append_event env run_id err_ev f.store));
      stream = send_terminal env terminal_ev (try_send_event err_ev f.stream);
    }

-- Step 3: the terminal event, persisted first.
unfoldable pub emit_terminal : Env → Text → Result → Forward → Forward
emit_terminal env run_id res f = record f {
  store = append_event env run_id (result_to_event res f.seq) f.store;
  stream = send_terminal env (result_to_event res f.seq) f.stream;
}

-- Step 4, up to the panic that strikes in it.
unfoldable pub finish_result : Env → Text → Result → Forward → Forward
finish_result env run_id res f = record f {
  store =
      finish_run env run_id (normalize_status res.status) res.session_id res.error
        (marshal_usage env.codec (convert_usage res.usage)) f.store;
}

unfoldable pub save_result : Env → Text → Text → Result → Forward → Forward
save_result env run_id cli res f = record f {
  store = save_session env run_id cli res.session_id f.store;
}

-- Steps 2 to 4. terminalSent is set behind the last of them, so that every panic recovers.
unfoldable pub conclude : Env → Text → Text → Fault → Result → Forward → Forward
conclude env run_id cli no_fault res f =
    save_result env run_id cli res (finish_result env run_id res (emit_terminal env run_id res f))
conclude env run_id cli (in_terminal_append v) res f = recover env run_id v f
conclude env run_id cli (in_finish_run v) res f =
    recover env run_id v (emit_terminal env run_id res f)
conclude env run_id cli (in_save_session v) res f =
    recover env run_id v (finish_result env run_id res (emit_terminal env run_id res f))

abbrev pub feed_of : Option (List Feed) → List Feed
feed_of none = []
feed_of (some feed) = feed

abbrev pub after_feed : Env → Text → Text → Session → Forward × Option Text → Forward
after_feed env run_id cli session (f, none) =
    conclude env run_id cli session.fault (await_result session.result) f
after_feed env run_id cli session (f, some v) = recover env run_id v f

-- The body of forwardEvents with its recover.
unfoldable pub forward_body : Env → Text → Text → Session → Forward → Forward
forward_body env run_id cli session f =
    after_feed env run_id cli session (forward_feed env run_id (feed_of session.messages) f)

-- seq 0 and the empty channel
abbrev pub start : Store → Forward
start store = record { seq = 0; store = store; stream = record { buffer = []; received = [] } }

-- The run's handle, the live map and the slot, as the deferred calls leave them.
pub record Exit : Type 0 where
  pub forward : Forward
  pub events_closed : Bool
  pub done_closed : Bool
  pub runs : List Text
  pub cancelled : Bool
  pub slot_released : Bool

-- The whole goroutine: the body, then the deferred calls, the last registered first.
unfoldable pub forward_events : Env → Text → Text → Session → Store → List Text → Exit
forward_events env run_id cli session store runs =
    let f = forward_body env run_id cli session (start store) in
    record {
      forward = f;
      events_closed = true;
      done_closed = true;
      runs = select (λ id. not (text_eq id run_id)) runs;
      cancelled = true;
      slot_released = true;
    }
