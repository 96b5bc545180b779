-- ===== src/Facade/Forward/Live.antt =====
-- What the consumer of a run's Events channel gets.
use aiclibridge.Prelude.{
  ℕ, ◌+◌, ◌<◌, ◌≤◌, ◌≡◌, refl, sym, ap, ◌∙◌, Text, lit, List, [], ◌∷◌, ◌++◌, Option, none, some,
  arith, true, length, append-nil, append_assoc, length-append,
}
use aiclibridge.Protocol.{Event, zero_event, event_error, event_result}
use aiclibridge.Adapter.{Result}
use aiclibridge.Store.{Store}
use aiclibridge.Facade.Events.{message_to_event, result_to_event}
use aiclibridge.Facade.Forward.{
  Env, Forward, Stream, Feed, deliver, consumer_reads, convert_panic, append_panic, Session, push,
  try_send_event, consume, take_head, send_terminal, forward_message, forward_feed, forward_body,
  forward_events, recover, emit_terminal, finish_result, save_result, conclude, await_result,
  after_feed, feed_of, start, no_fault, in_finish_run, internal_error,
}
use aiclibridge.Facade.Forward.Persist.{
  after_feed_of_calm, delivered, HasNoPanic, timeline, full_timeline,
}

-- All that the channel has let through: received, then waiting.
abbrev pub contents : Stream → List Event
contents s = s.received ++ s.buffer

contents-push : (ev : Event) (s : Stream) → contents (push ev s) ≡ contents s ++ ev ∷ []
unfolding push
contents-push ev s = sym (append_assoc s.received s.buffer (ev ∷ []))

contents-take_head :
    (b : List Event) (s : Stream) → s.buffer ≡ b → contents (take_head b s) ≡ contents s
unfolding take_head
contents-take_head [] s h = refl
contents-take_head (e ∷ rest) s h =
    append_assoc s.received (e ∷ []) rest ∙ ap (λ b. s.received ++ b) (sym h)

contents-consume : (s : Stream) → contents (consume s) ≡ contents s
unfolding consume
contents-consume s = contents-take_head s.buffer s refl

length-take_head :
    (b : List Event) (s : Stream) → s.buffer ≡ b → length (take_head b s).buffer ≤ length s.buffer
unfolding take_head
length-take_head [] s h = omega arith
length-take_head (e ∷ rest) s h = omega (arith, ap length h)

length-consume : (s : Stream) → length (consume s).buffer ≤ length s.buffer
unfolding consume
length-consume s = length-take_head s.buffer s refl

push-room : (ev : Event) (s : Stream) → length s.buffer < 1024 → try_send_event ev s ≡ push ev s
unfolding try_send_event
push-room ev s h = ground arith

length-push : (ev : Event) (s : Stream) → length (push ev s).buffer ≡ length s.buffer + 1
unfolding push
length-push ev s = length-append s.buffer (ev ∷ [])

send_terminal-room :
    (env : Env) (ev : Event) (s : Stream)
    → length s.buffer < 1024
    → send_terminal env ev s ≡ push ev s
unfolding send_terminal
send_terminal-room env ev s h = ground arith

-- While the buffer has room, the loop lets every event through.
contents-forward_feed :
    (env : Env) (id : Text) (feed : List Feed) (f : Forward)
    → HasNoPanic feed
    → length f.stream.buffer + length (delivered feed) ≤ 1024
    → ((forward_feed env id feed f).1 ≡ none)
      × ((forward_feed env id feed f).0.seq ≡ f.seq + length (delivered feed))
      × (contents (forward_feed env id feed f).0.stream
          ≡ contents f.stream ++ timeline env.codec f.seq (delivered feed))
      × (length (forward_feed env id feed f).0.stream.buffer
          ≤ length f.stream.buffer + length (delivered feed))
unfolding forward_feed forward_message
contents-forward_feed env id [] f p h = (refl, omega arith, sym (append-nil _), omega arith)
contents-forward_feed env id (consumer_reads ∷ feed) f p h =
    let (calm, seq, all, len) =
      contents-forward_feed env id feed (record f { stream = consume f.stream }) p
        (omega (arith, length-consume f.stream)) in
    (
      calm,
      seq,
      all ∙ ap (λ c. c ++ timeline env.codec f.seq (delivered feed)) (contents-consume f.stream),
      omega (arith, length-consume f.stream),
    )
contents-forward_feed env id (deliver m ∷ feed) f p h =
    let ev = message_to_event env.codec m f.seq in
    let pushed : try_send_event ev f.stream ≡ push ev f.stream =
      push-room ev f.stream (omega arith) in
    let longer : length (try_send_event ev f.stream).buffer ≡ length f.stream.buffer + 1 =
      ap (λ (s : Stream). length s.buffer) pushed ∙ length-push ev f.stream in
    let (calm, seq, all, len) =
      contents-forward_feed env id feed (forward_message env id m f) p (omega arith) in
    (
      calm,
      omega arith,
      all
          ∙ ap (λ s. contents s ++ timeline env.codec (f.seq + 1) (delivered feed)) pushed
          ∙ ap (λ c. c ++ timeline env.codec (f.seq + 1) (delivered feed))
              (contents-push ev f.stream)
          ∙ append_assoc (contents f.stream) (ev ∷ [])
              (timeline env.codec (f.seq + 1) (delivered feed)),
      omega arith,
    )
contents-forward_feed env id (convert_panic v ∷ feed) f p h = absurd p
contents-forward_feed env id (append_panic m v ∷ feed) f p h = absurd p

contents-emit_terminal :
    (env : Env) (id : Text) (res : Result) (f : Forward)
    → length f.stream.buffer < 1024
    → (contents (emit_terminal env id res f).stream
        ≡ contents f.stream ++ result_to_event res f.seq ∷ [])
      × (length (emit_terminal env id res f).stream.buffer ≡ length f.stream.buffer + 1)
unfolding emit_terminal
contents-emit_terminal env id res f h =
    let e = send_terminal-room env (result_to_event res f.seq) f.stream h in
    (
      ap contents e ∙ contents-push (result_to_event res f.seq) f.stream,
      ap (λ (s : Stream). length s.buffer) e ∙ length-push (result_to_event res f.seq) f.stream,
    )

stream-finished :
    (env : Env) (id cli : Text) (res : Result) (f : Forward)
    → (save_result env id cli res (finish_result env id res f)).stream ≡ f.stream
unfolding save_result finish_result
stream-finished env id cli res f = refl

-- The events of the recover: an error, then a failed result.
abbrev pub panic_event : ℕ → Text → Event
panic_event n v = record (zero_event n) { type = event_error; content = internal_error v }

abbrev pub failed_event : ℕ → Text → Event
failed_event n v = record (zero_event n) {
  type = event_result;
  result = some (record {
    status = lit "failed";
    output = [];
    error = internal_error v;
    duration_ms = 0;
    session_id = [];
    usage = [];
  });
}

contents-recover :
    (env : Env) (id v : Text) (f : Forward)
    → length f.stream.buffer + 1 < 1024
    → contents (recover env id v f).stream
      ≡ (contents f.stream ++ panic_event f.seq v ∷ []) ++ failed_event (f.seq + 1) v ∷ []
unfolding recover
contents-recover env id v f h =
    let e = push-room (panic_event f.seq v) f.stream (omega arith) in
    let s = try_send_event (panic_event f.seq v) f.stream in
    let one : length s.buffer ≡ length f.stream.buffer + 1 =
      ap (λ (t : Stream). length t.buffer) e ∙ length-push (panic_event f.seq v) f.stream in
    ap contents (send_terminal-room env (failed_event (f.seq + 1) v) s (omega arith))
    ∙ contents-push (failed_event (f.seq + 1) v) s
    ∙ ap (λ c. c ++ failed_event (f.seq + 1) v ∷ [])
        (ap contents e ∙ contents-push (panic_event f.seq v) f.stream)

module _ (env : Env) (id cli : Text) (session : Session) (store : Store) (runs : List Text) where
  abbrev looped : Forward × Option Text
  looped = forward_feed env id (feed_of session.messages) (start store)

  abbrev count : ℕ
  count = length (delivered (feed_of session.messages))

  -- The state behind the terminal event, which has found room.
  emitted :
      HasNoPanic (feed_of session.messages)
      → count < 1024
      → (looped.1 ≡ none)
        × (looped.0.seq ≡ count)
        × (contents (emit_terminal env id (await_result session.result) looped.0).stream
            ≡ full_timeline env.codec session)
        × (length (emit_terminal env id (await_result session.result) looped.0).stream.buffer
            ≤ count + 1)
  emitted p h =
      let (calm, seq, all, len) =
        contents-forward_feed env id (feed_of session.messages) (start store) p (omega arith) in
      let seq' : looped.0.seq ≡ count = omega arith in
      let (more, longer) =
        contents-emit_terminal env id (await_result session.result) looped.0 (omega arith) in
      (
        calm,
        seq',
        more
            ∙ ap (λ c. c ++ result_to_event (await_result session.result) looped.0.seq ∷ []) all
            ∙ ap
                (λ n.
                  timeline env.codec 0 (delivered (feed_of session.messages))
                  ++ result_to_event (await_result session.result) n ∷ [])
                seq',
        omega arith,
      )

  -- A run of fewer than 1024 messages that meets no panic loses no event: whenever the consumer
  -- reads, and whatever the store does, the Events channel lets through the whole timeline, one event
  -- a message and then the terminal one, and is closed at the end.
  pub forward_events_complete :
      HasNoPanic (feed_of session.messages)
      → session.fault ≡ no_fault
      → count < 1024
      → (contents (forward_events env id cli session store runs).forward.stream
          ≡ full_timeline env.codec session)
        × ((forward_events env id cli session store runs).events_closed ≡ true)
  unfolding forward_events forward_body
  forward_events_complete p fine h =
      let (calm, seq, all, len) = emitted p h in
      (
        ap (λ (f : Forward). contents f.stream)
              (after_feed_of_calm env id cli session looped calm fine)
            ∙ ap contents (stream-finished env id cli (await_result session.result) _)
            ∙ all,
        refl,
      )

  -- In a run of fewer than 1022 messages that meets no panic before its end, a panic in the final
  -- UPDATE of the run comes after the terminal event but before terminalSent is set: after the whole
  -- timeline the consumer gets an error event with the terminal event's own sequence number, and a
  -- second result event, "failed".
  pub forward_events-second_result :
      (v : Text)
      → HasNoPanic (feed_of session.messages)
      → session.fault ≡ in_finish_run v
      → count + 2 < 1024
      → contents (forward_events env id cli session store runs).forward.stream
        ≡ (full_timeline env.codec session ++ panic_event count v ∷ [])
          ++ failed_event (count + 1) v ∷ []
  unfolding forward_events forward_body conclude emit_terminal
  forward_events-second_result v p fault h =
      let (calm, seq, all, len) = emitted p (omega arith) in
      let g = emit_terminal env id (await_result session.result) looped.0 in
      ap (λ (f : Forward). contents f.stream) (after_feed_of_fault looped calm)
      ∙ contents-recover env id v g (omega arith)
      ∙ ap (λ c. (c ++ panic_event looped.0.seq v ∷ []) ++ failed_event (looped.0.seq + 1) v ∷ [])
          all
      ∙ ap
          (λ n.
            (full_timeline env.codec session ++ panic_event n v ∷ [])
            ++ failed_event (n + 1) v ∷ [])
          seq
    where
      after_feed_of_fault :
          (out : Forward × Option Text)
          → out.1 ≡ none
          → after_feed env id cli session out
            ≡ recover env id v (emit_terminal env id (await_result session.result) out.0)
      after_feed_of_fault (f, none) e = rw fault
      after_feed_of_fault (f, some w) e = cc
