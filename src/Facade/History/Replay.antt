-- ===== src/Facade/History/Replay.antt =====
-- What GetRun reads of a run that forwardEvents has carried to its end.
use mathlib.Core.Path.{subst}
use native.Mathlib.Nat.{zero-add}
use aiclibridge.Prelude.{
  ℕ, suc, ◌+◌, ◌≡◌, refl, ap, sym, ◌∙◌, Text, List, [], ◌∷◌, ◌++◌, none, some, arith, true, false,
  All, All-append, is_empty, text_eq, length,
}
use aiclibridge.Protocol.{Codec, Event, ResultPayload}
use aiclibridge.Adapter.{Message, Result}
use aiclibridge.Store
use aiclibridge.Store.{Store, Run, EventRow, list_events, rows_of, sort_rows}
use aiclibridge.Store.Timeline.{Ascends, sort_rows-Ascends}
use aiclibridge.Facade.Events.{
  message_to_event-no_result, result_to_event, result_to_event-seq, marshal_usage, normalize_status,
  convert_usage,
}
use aiclibridge.Facade.Forward.{
  Env, start, Session, Forward, forward_events, forward_feed, forward_body, feed_of, await_result,
  no_fault, forward_message, consume, Feed, deliver, consumer_reads, convert_panic, append_panic,
}
use aiclibridge.Facade.Forward.Persist.{
  delivered, HasNoPanic, timeline, full_timeline, Encodes, rows, rows_of-forward_body,
  after_feed_of_calm,
}
use aiclibridge.Facade.Forward.Finish.{
  get_run-save_result, get_run_of_runs, runs-forward_feed, ended,
}
use aiclibridge.Facade.History.{RunResult, decode_rows, last_result, get_run}

-- An event with a type, which JSON gives back.
abbrev HasType : Event → Type 0
HasType e = is_empty e.type ≡ false

decode_rows-rows :
    (c : Codec) (payload : Event → Text) (es : List Event)
    → All (Encodes c payload) es
    → All HasType es
    → decode_rows c (rows payload es) ≡ es
unfolding decode_rows
decode_rows-rows c payload [] h t = refl
decode_rows-rows c payload (e ∷ es) ((_, h), hs) (t, ts) =
    ground (arith, h, decode_rows-rows c payload es hs ts)

timeline-HasType : (c : Codec) (n : ℕ) (ms : List Message) → All HasType (timeline c n ms)
timeline-HasType c n [] = tt
timeline-HasType c n (m ∷ ms) =
    ((message_to_event-no_result c m n).2, timeline-HasType c (n + 1) ms)

Ascends-timeline :
    (c : Codec) (payload : Event → Text) (n : ℕ) (ms : List Message) (e : Event)
    → e.seq ≡ n + length ms
    → Ascends n (rows payload (timeline c n ms ++ e ∷ []))
Ascends-timeline c payload n [] e h = (omega arith, tt)
Ascends-timeline c payload n (m ∷ ms) e h =
    let same = (message_to_event-no_result c m n).1 in
    (
      omega arith,
      subst (λ k. Ascends k (rows payload (timeline c (n + 1) ms ++ e ∷ []))) (next n _ same)
          (Ascends-timeline c payload (n + 1) ms e (omega arith)),
    )
  where
    next : (n k : ℕ) → k ≡ n → n + 1 ≡ suc k
    next n k p = omega arith

last_result-append :
    (es : List Event) (e : Event) (r : ResultPayload)
    → last_result (e ∷ []) ≡ some r
    → last_result (es ++ e ∷ []) ≡ some r
unfolding last_result
last_result-append [] e r h = h
last_result-append (d ∷ es) e r h = rw (last_result-append es e r h)

-- The result of a run that went well, as GetRun shows it.
abbrev pub shown : Text → Env → Session → RunResult
shown id env session =
    let res = await_result session.result in
    record {
      id = id;
      status = normalize_status res.status;
      output = res.output;
      error = res.error;
      duration_ms = res.duration_ms;
      session_id = res.session_id;
      usage = convert_usage res.usage;
      events = full_timeline env.codec session;
    }

-- The payload of the terminal event of a result.
abbrev pub payload_of : Result → ResultPayload
payload_of res = record {
  status = normalize_status res.status;
  output = res.output;
  error = res.error;
  duration_ms = res.duration_ms;
  session_id = res.session_id;
  usage = convert_usage res.usage;
}

pub last_result-result_to_event :
    (es : List Event) (res : Result) (n : ℕ)
    → last_result (es ++ result_to_event res n ∷ []) ≡ some (payload_of res)
unfolding result_to_event text_eq
last_result-result_to_event es res n =
    last_result-append es (result_to_event res n) (payload_of res) (unfold last_result in refl)

-- GetRun of a run whose row and events are known.
get_run_of :
    (c : Codec) (payload : Event → Text) (id : Text) (st : Store) (r : Run) (es : List Event)
    (p : ResultPayload)
    → Store.get_run id st ≡ some r
    → list_events id st ≡ rows payload es
    → All (Encodes c payload) es
    → All HasType es
    → last_result es ≡ some p
    → get_run c id st
      ≡ some (record {
        id = r.id;
        status = r.status;
        output = p.output;
        error = r.error;
        duration_ms = p.duration_ms;
        session_id = r.cli_session_id;
        usage = p.usage;
        events = es;
      })
unfolding get_run
get_run_of c payload id st r es p h l encodes typed last =
    rw (h, l, decode_rows-rows c payload es encodes typed, last)

calm_feed :
    (env : Env) (id : Text) (feed : List Feed) (f : Forward)
    → HasNoPanic feed
    → (forward_feed env id feed f).1 ≡ none
unfolding forward_feed
calm_feed env id [] f h = refl
calm_feed env id (deliver m ∷ feed) f h = calm_feed env id feed (forward_message env id m f) h
calm_feed env id (consumer_reads ∷ feed) f h =
    calm_feed env id feed (record f { stream = consume f.stream }) h
calm_feed env id (convert_panic v ∷ feed) f h = absurd h
calm_feed env id (append_panic m v ∷ feed) f h = absurd h

full_timeline-HasType : (c : Codec) (session : Session) → All HasType (full_timeline c session)
unfolding result_to_event
full_timeline-HasType c session =
    All-append HasType _ _ (timeline-HasType c 0 (delivered (feed_of session.messages))) (refl, tt)

module _ (env : Env) (payload : Event → Text) (id cli : Text) (session : Session) (store : Store)
    (runs : List Text) where
  abbrev final : Store
  final = (forward_events env id cli session store runs).forward.store

  list_events-final :
      ((n : ℕ) → env.disk n ≡ true)
      → HasNoPanic (feed_of session.messages)
      → session.fault ≡ no_fault
      → All (Encodes env.codec payload) (full_timeline env.codec session)
      → rows_of id store.events ≡ []
      → list_events id final ≡ rows payload (full_timeline env.codec session)
  unfolding forward_events list_events
  list_events-final disk_ok calm fine encodes fresh =
      ap sort_rows
        (rows_of-forward_body env payload id cli session store disk_ok calm fine encodes fresh)
      ∙ sort_rows-Ascends 0 _ (
          Ascends-timeline env.codec payload 0 (delivered (feed_of session.messages))
            (result_to_event (await_result session.result)
              (length (delivered (feed_of session.messages))))
            (result_to_event-seq _ _ ∙ sym (zero-add _)))

  get_run-final :
      (r : Run)
      → env.finish_ok ≡ true
      → HasNoPanic (feed_of session.messages)
      → session.fault ≡ no_fault
      → Store.get_run id store ≡ some r
      → Store.get_run id final
        ≡ some (
            ended env.now
              (normalize_status (await_result session.result).status)
              (await_result session.result).session_id
              (await_result session.result).error
              (marshal_usage env.codec (convert_usage (await_result session.result).usage))
              r)
  unfolding forward_events forward_body
  get_run-final r finish_ok calm fine created =
      let feed = feed_of session.messages in
      ap (λ (f : Forward). Store.get_run id f.store)
        (after_feed_of_calm env id cli session (forward_feed env id feed (start store))
          (calm_feed env id feed (start store) calm) fine)
      ∙ get_run-save_result env finish_ok id cli r (await_result session.result) _
          (get_run_of_runs id _ _ (runs-forward_feed env id feed (start store)) ∙ created)

  -- After a run without panics on a healthy database, GetRun returns the whole timeline: one event
  -- for each message that the adapter delivered, in order and numbered from 0, then the terminal
  -- result event. Its other fields are those of the adapter's result. It is assumed that no event of
  -- the run was there before, that the run's row was, and that the JSON of these events reads back.
  pub get_run-forward_events :
      (r : Run)
      → ((n : ℕ) → env.disk n ≡ true)
      → env.finish_ok ≡ true
      → HasNoPanic (feed_of session.messages)
      → session.fault ≡ no_fault
      → All (Encodes env.codec payload) (full_timeline env.codec session)
      → rows_of id store.events ≡ []
      → Store.get_run id store ≡ some r
      → get_run env.codec id (forward_events env id cli session store runs).forward.store
        ≡ some (shown r.id env session)
  get_run-forward_events r disk_ok finish_ok calm fine encodes fresh created =
      get_run_of env.codec payload id final _ (full_timeline env.codec session)
        (payload_of (await_result session.result)) (get_run-final r finish_ok calm fine created)
        (list_events-final disk_ok calm fine encodes fresh) encodes
        (full_timeline-HasType env.codec session)
        (last_result-result_to_event _ (await_result session.result) _)
