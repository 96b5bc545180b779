-- ===== src/Facade/Forward/Finish.antt =====
-- What forwardEvents writes to the row of its run.
use aiclibridge.Prelude.{
  ℕ, ◌≡◌, refl, ap, ◌∙◌, Text, lit, List, [], ◌∷◌, Option, none, some, arith, true, find?, any, map,
}
use mathlib.Core.Path.{subst}
use aiclibridge.Protocol.{Event}
use aiclibridge.Adapter.{Result}
use aiclibridge.Store
use aiclibridge.Store.{Store, Run, has_id, finish_run_with_usage, finish_row}
use aiclibridge.Facade.Events.{normalize_status, marshal_usage, convert_usage}
use aiclibridge.Facade.Forward.{
  Env, Forward, Feed, deliver, consumer_reads, convert_panic, append_panic, Session, append_event,
  finish_run, save_session, start, forward_events, forward_message, forward_feed, forward_body,
  consume, recover, emit_terminal, finish_result, save_result, conclude, await_result, after_feed,
  feed_of, internal_error, Fault, no_fault, in_terminal_append, in_finish_run, in_save_session,
}

-- The row of a run when it has ended.
abbrev pub ended : ℕ → Text → Text → Text → Text → Run → Run
ended now status session_id err usage r = record r {
  status = status;
  cli_session_id = session_id;
  error = err;
  finished_at = now;
  usage_json = usage;
}

runs-append_event :
    (env : Env) (id : Text) (ev : Event) (st : Store) → (append_event env id ev st).runs ≡ st.runs
unfolding append_event
runs-append_event env id ev st = ground arith

runs-save_session :
    (env : Env) (id cli session : Text) (st : Store)
    → (save_session env id cli session st).runs ≡ st.runs
unfolding save_session
runs-save_session env id cli session st = ground arith

pub runs-forward_feed :
    (env : Env) (id : Text) (feed : List Feed) (f : Forward)
    → (forward_feed env id feed f).0.store.runs ≡ f.store.runs
unfolding forward_feed forward_message
runs-forward_feed env id [] f = refl
runs-forward_feed env id (deliver m ∷ feed) f =
    runs-forward_feed env id feed (forward_message env id m f) ∙ runs-append_event env id _ f.store
runs-forward_feed env id (consumer_reads ∷ feed) f =
    runs-forward_feed env id feed (record f { stream = consume f.stream })
runs-forward_feed env id (convert_panic v ∷ feed) f = refl
runs-forward_feed env id (append_panic m v ∷ feed) f = refl

find?-map-finish_row :
    (now : ℕ) (id status session err usage : Text) (rs : List Run) (r : Run)
    → find? (has_id id) rs ≡ some r
    → find? (has_id id) (map (finish_row now id status session err usage) rs)
      ≡ some (ended now status session err usage r)
unfolding finish_row
find?-map-finish_row now id status session err usage [] r h = cc
find?-map-finish_row now id status session err usage (q ∷ rs) r h =
    ground (arith, find?-map-finish_row now id status session err usage rs r)

any_of_find? :
    (id : Text) (rs : List Run) (r : Run)
    → find? (has_id id) rs ≡ some r
    → any (has_id id) rs ≡ true
any_of_find? id [] r h = cc
any_of_find? id (q ∷ rs) r h = ground (arith, any_of_find? id rs r)

module _ (env : Env) (finish_ok : env.finish_ok ≡ true) (id : Text) where
  -- A healthy finishRun ends the run's row.
  pub get_run-finish_run :
      (status session err usage : Text) (st : Store) (r : Run)
      → Store.get_run id st ≡ some r
      → Store.get_run id (finish_run env id status session err usage st)
        ≡ some (ended env.now status session err usage r)
  unfolding finish_run Store.get_run
  get_run-finish_run status session err usage st r h = ground (
    arith,
    any_of_find? id st.runs r h,
    find?-map-finish_row env.now id status session err usage st.runs r h,
  )

-- GetRun of the store reads the runs table alone.
pub get_run_of_runs :
    (id : Text) (s t : Store) → s.runs ≡ t.runs → Store.get_run id s ≡ Store.get_run id t
unfolding Store.get_run
get_run_of_runs id s t e = ap (find? (has_id id)) e

abbrev pub failed : ℕ → Text → Run → Run
failed now v r = ended now (lit "failed") [] (internal_error v) [] r

module _ (env : Env) (finish_ok : env.finish_ok ≡ true) (id cli : Text) (r : Run) where
  get_run-append_event :
      (ev : Event) (st : Store)
      → Store.get_run id st ≡ some r
      → Store.get_run id (append_event env id ev st) ≡ some r
  get_run-append_event ev st h = get_run_of_runs id _ st (runs-append_event env id ev st) ∙ h

  get_run-recover :
      (v : Text) (f : Forward)
      → Store.get_run id f.store ≡ some r
      → Store.get_run id (recover env id v f).store ≡ some (failed env.now v r)
  unfolding recover
  get_run-recover v f h =
      get_run-finish_run env finish_ok id _ _ _ _ _ r
        (get_run-append_event _ _ (get_run-append_event _ f.store h))

  get_run-emit_terminal :
      (res : Result) (f : Forward)
      → Store.get_run id f.store ≡ some r
      → Store.get_run id (emit_terminal env id res f).store ≡ some r
  unfolding emit_terminal
  get_run-emit_terminal res f h = get_run-append_event _ f.store h

  abbrev pub finished : Result → Run
  finished res =
      ended env.now (normalize_status res.status) res.session_id res.error
        (marshal_usage env.codec (convert_usage res.usage)) r

  pub get_run-finish_result :
      (res : Result) (f : Forward)
      → Store.get_run id f.store ≡ some r
      → Store.get_run id (finish_result env id res (emit_terminal env id res f)).store
        ≡ some (finished res)
  unfolding finish_result
  get_run-finish_result res f h =
      get_run-finish_run env finish_ok id _ _ _ _ _ r (get_run-emit_terminal res f h)

  pub get_run-save_result :
      (res : Result) (f : Forward)
      → Store.get_run id f.store ≡ some r
      → Store.get_run id
          (save_result env id cli res (finish_result env id res (emit_terminal env id res f))).store
        ≡ some (finished res)
  unfolding save_result
  get_run-save_result res f h =
      get_run_of_runs id _ _ (runs-save_session env id cli res.session_id _)
      ∙ get_run-finish_result res f h

-- The panic of a feed.
abbrev pub panic_of : List Feed → Option Text
panic_of [] = none
panic_of (deliver m ∷ feed) = panic_of feed
panic_of (consumer_reads ∷ feed) = panic_of feed
panic_of (convert_panic v ∷ feed) = some v
panic_of (append_panic m v ∷ feed) = some v

panic-forward_feed :
    (env : Env) (id : Text) (feed : List Feed) (f : Forward)
    → (forward_feed env id feed f).1 ≡ panic_of feed
unfolding forward_feed
panic-forward_feed env id [] f = refl
panic-forward_feed env id (deliver m ∷ feed) f =
    panic-forward_feed env id feed (forward_message env id m f)
panic-forward_feed env id (consumer_reads ∷ feed) f =
    panic-forward_feed env id feed (record f { stream = consume f.stream })
panic-forward_feed env id (convert_panic v ∷ feed) f = refl
panic-forward_feed env id (append_panic m v ∷ feed) f = refl

-- The status that a run ends with: that of its result, or "failed" if a panic struck anywhere.
abbrev status_of : Fault → Option Text → Result → Text
status_of no_fault none res = normalize_status res.status
status_of _ _ res = lit "failed"

abbrev pub final_status : Session → Text
final_status session =
    status_of session.fault (panic_of (feed_of session.messages)) (await_result session.result)

-- The row of a run has ended with a status.
abbrev pub EndsAs : ℕ → Text → Text → Store → Type 0
EndsAs now id status st =
    (row : Run) × (Store.get_run id st ≡ some row) × (row.status ≡ status) × (row.finished_at ≡ now)

module _ (env : Env) (finish_ok : env.finish_ok ≡ true) (id cli : Text) (r : Run) where
  conclude-EndsAs :
      (fault : Fault) (res : Result) (f : Forward)
      → Store.get_run id f.store ≡ some r
      → EndsAs env.now id (status_of fault none res) (conclude env id cli fault res f).store
  unfolding conclude
  conclude-EndsAs no_fault res f h =
      (_, get_run-save_result env finish_ok id cli r res f h, refl, refl)
  conclude-EndsAs (in_terminal_append v) res f h =
      (_, get_run-recover env finish_ok id cli r v f h, refl, refl)
  conclude-EndsAs (in_finish_run v) res f h = (
    _,
    get_run-recover env finish_ok id cli r v _
        (get_run-emit_terminal env finish_ok id cli r res f h),
    refl,
    refl,
  )
  conclude-EndsAs (in_save_session v) res f h = (
    _,
    get_run-recover env finish_ok id cli (finished env finish_ok id cli r res) v _
        (get_run-finish_result env finish_ok id cli r res f h),
    refl,
    refl,
  )

  after_feed-EndsAs :
      (session : Session) (out : Forward × Option Text)
      → Store.get_run id out.0.store ≡ some r
      → EndsAs env.now id
          (status_of session.fault out.1 (await_result session.result))
          (after_feed env id cli session out).store
  after_feed-EndsAs session (f, none) h =
      conclude-EndsAs session.fault (await_result session.result) f h
  after_feed-EndsAs session (f, some v) h = recovered session.fault
    where
      recovered :
          (fault : Fault)
          → EndsAs env.now id
              (status_of fault (some v) (await_result session.result))
              (recover env id v f).store
      recovered no_fault = (_, get_run-recover env finish_ok id cli r v f h, refl, refl)
      recovered _ = (_, get_run-recover env finish_ok id cli r v f h, refl, refl)

  -- Whatever the session does, panics included, if the UPDATE reaches the database then the row of
  -- the run has ended: with the normalized status of the result when no panic struck, and with
  -- "failed" otherwise.
  pub forward_events-EndsAs :
      (session : Session) (store : Store) (runs : List Text)
      → Store.get_run id store ≡ some r
      → EndsAs env.now id
          (final_status session)
          (forward_events env id cli session store runs).forward.store
  unfolding forward_events forward_body
  forward_events-EndsAs session store runs h =
      let f = start store in
      let out = forward_feed env id (feed_of session.messages) f in
      let e = panic-forward_feed env id (feed_of session.messages) f in
      subst
        (λ p.
          EndsAs env.now id (status_of session.fault p (await_result session.result))
            (after_feed env id cli session out).store)
        e
        (after_feed-EndsAs session out
          (get_run_of_runs id _ _ (runs-forward_feed env id (feed_of session.messages) f) ∙ h))
