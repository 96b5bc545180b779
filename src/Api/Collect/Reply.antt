-- ===== src/Api/Collect/Reply.antt =====
-- The reply of POST /v1/runs and that of GET /v1/runs/{id}.
use aiclibridge.Prelude.{
  ℕ, ◌+◌, ◌<◌, ◌≡◌, refl, ap, sym, ◌∙◌, Text, List, [], ◌∷◌, some, length, length-append, All,
  arith, true, text_eq_iff, find?, Bool-cases, inl, inr,
}
use aiclibridge.Protocol.{Codec, Event}
use aiclibridge.Adapter.{Message}
use aiclibridge.Store
use aiclibridge.Store.{Store, Run, rows_of, has_id}
use aiclibridge.Facade.Events.{result_to_event}
use aiclibridge.Facade.Forward.{Env, Session, forward_events, feed_of, no_fault, await_result}
use aiclibridge.Facade.Forward.Persist.{timeline, full_timeline, delivered, HasNoPanic, Encodes}
use aiclibridge.Facade.Forward.Live.{contents, forward_events_complete}
use aiclibridge.Facade.History.{get_run}
use aiclibridge.Facade.History.Replay.{shown, last_result-result_to_event, get_run-forward_events}
use aiclibridge.Api.{Tick, events_of, Attended}
use aiclibridge.Api.Collect.{collect_events, build_run_result}
use aiclibridge.Api.Collect.Bounds.{collect_from-all}

length-timeline : (c : Codec) (n : ℕ) (ms : List Message) → length (timeline c n ms) ≡ length ms
length-timeline c n [] = refl
length-timeline c n (m ∷ ms) = omega (arith, length-timeline c (n + 1) ms)

build_run_result-full_timeline :
    (id : Text) (env : Env) (session : Session)
    → build_run_result id (full_timeline env.codec session) ≡ shown id env session
unfolding build_run_result
build_run_result-full_timeline id env session =
    rw (last_result-result_to_event _ (await_result session.result) _)

length-full_timeline :
    (c : Codec) (session : Session)
    → length (full_timeline c session) ≡ length (delivered (feed_of session.messages)) + 1
length-full_timeline c session =
    let ms = delivered (feed_of session.messages) in
    omega (
      arith,
      length-append (timeline c 0 ms)
          (result_to_event (await_result session.result) (length ms) ∷ []),
      length-timeline c 0 ms,
    )

find?-true :
    (id : Text) (rs : List Run) (r : Run) → find? (has_id id) rs ≡ some r → has_id id r ≡ true
find?-true id [] r h = cc
find?-true id (q ∷ rs) r h = elim (Bool-cases (has_id id q)) [
  | inl e ↦ ground arith
  | inr e ↦ find?-true id rs r (ground arith)
]

id-get_run : (id : Text) (st : Store) (r : Run) → Store.get_run id st ≡ some r → r.id ≡ id
unfolding Store.get_run
id-get_run id st r h = (text_eq_iff r.id id).0 (find?-true id st.runs r h)

module _ (env : Env) (payload : Event → Text) (id cli : Text) (session : Session) (store : Store)
    (runs : List Text) where
  -- A client that waits for a run to end, and reads it again later, gets the same answer twice: the
  -- reply that is collected from the live channel is the one that GetRun makes from the database. It
  -- is assumed that the run meets no panic, has fewer than 1024 messages, and is stored on a healthy
  -- database, as for the replay of a run.
  pub get_run-build_run_result :
      (r : Run) (ts : List Tick)
      → ((n : ℕ) → env.disk n ≡ true)
      → env.finish_ok ≡ true
      → HasNoPanic (feed_of session.messages)
      → session.fault ≡ no_fault
      → All (Encodes env.codec payload) (full_timeline env.codec session)
      → rows_of id store.events ≡ []
      → Store.get_run id store ≡ some r
      → length (delivered (feed_of session.messages)) < 1024
      → Attended ts
      → events_of ts ≡ contents (forward_events env id cli session store runs).forward.stream
      → get_run env.codec id (forward_events env id cli session store runs).forward.store
        ≡ some (build_run_result id (collect_events ts).0)
  unfolding collect_events
  get_run-build_run_result r ts disk_ok finish_ok calm fine encodes fresh created few stays sent =
      let events = full_timeline env.codec session in
      let whole = sent ∙ (forward_events_complete env id cli session store runs calm fine few).0 in
      let long = length-full_timeline env.codec session in
      let kept = collect_from-all [] ts stays (omega (arith, few, long, ap length whole)) in
      get_run-forward_events env payload id cli session store runs r disk_ok finish_ok calm fine
        encodes fresh created
      ∙ ap (λ i. some (shown i env session)) (id-get_run id store r created)
      ∙ ap some (
          sym (
            ap (λ k. build_run_result id k.0) kept
            ∙ ap (build_run_result id) whole
            ∙ build_run_result-full_timeline id env session))
