-- ===== src/Adapter/Codex/Once.antt =====
-- A turn of codex ends once: what completedTurnIDs is for (internal/adapter/codex.go).
use aiclibridge.Prelude.{
  ◌≡◌, refl, Text, lit, List, [], ◌∷◌, Bool, true, false, Bool-cases, inl, inr, ◌⊎◌, text_eq,
  is_empty, text_eq_refl, ◌++◌, ap, ◌∙◌, has_prefix,
}
use aiclibridge.Protocol.{Fields}
use aiclibridge.Adapter.Codex.{
  NotificationProtocol, unknown, legacy, raw, CodexClient, Numbers, Effect, turn_done, emit,
  object_field, set_turn_error, extract_usage_from_map, is_completed, is_foreign, first_object,
}
use aiclibridge.Adapter.Codex.Notifications.{
  start_turn, fail_turn, finish_turn, mark_completed, turn_completed, handle_raw_notification,
  set_protocol, handle_unless_legacy, handle_notification, turn_id_of, turn_status, is_aborted,
  turn_failure,
}
use aiclibridge.Adapter.Codex.Lines.{CodexDecoder, settle, handle_lines}
use aiclibridge.Adapter.Codex.Kept.{
  Keeps, if-keeps, option-keeps, fail_turn-keeps, finish_turn-keeps, handle_lines-keeps,
}

abbrev pub is_legacy : NotificationProtocol → Bool
is_legacy legacy = true
is_legacy unknown = false
is_legacy raw = false

abbrev usage_keys : List Text
usage_keys = lit "usage" ∷ lit "token_usage" ∷ lit "tokens" ∷ []

-- The turn has been marked.
abbrev Marked : Text → CodexClient → Type 0
Marked id c = is_completed id c.completed_turn_ids ≡ true

marked_now : (id : Text) (ids : List Text) → is_completed id (id ∷ ids) ≡ true
unfolding is_completed
marked_now id ids = rw (text_eq_refl id) refl

marked_again :
    (id other : Text) (ids : List Text)
    → is_completed id ids ≡ true
    → is_completed id (other ∷ ids) ≡ true
unfolding is_completed
marked_again id other ids h = elim (Bool-cases (text_eq other id)) [
  | inl e ↦ rw e refl
  | inr e ↦ rw e h
]

Marked-Keeps : (id : Text) → Keeps (Marked id)
unfolding emit set_turn_error extract_usage_from_map start_turn mark_completed set_protocol settle
Marked-Keeps id = record {
  emits = λ e c h. h;
  fails = λ msg c h.
      if-keeps (Marked id) (is_empty msg) h (if-keeps (Marked id) (is_empty c.turn_error) h h);
  spends = λ d m c h. option-keeps (Marked id) (first_object m usage_keys) h (λ counts. h);
  starts = λ turn_id c h. h;
  marks = λ other c h. marked_again id other c.completed_turn_ids h;
  switches = λ p c h. h;
  settles = λ d request method m c h. h;
}

turn_completed-Marked :
    (d : Numbers) (params : Fields) (c : CodexClient)
    → is_empty (turn_id_of params) ≡ false
    → Marked (turn_id_of params) (turn_completed d params c)
unfolding turn_completed mark_completed is_completed
turn_completed-Marked d params c named =
    let id = turn_id_of params in
    let noted = fail_turn params c in
    elim (Bool-cases (is_completed id noted.completed_turn_ids)) [
      | inl e ↦ rw (turn_completed, named, e) e
      | inr e ↦
          rw (turn_completed, named, e)
            (finish_turn-keeps (Marked id) (Marked-Keeps id) d params (mark_completed id noted)
              (marked_now id noted.completed_turn_ids))
    ]

-- A client that differs by an error of the turn at most: the first one, from a turn that has failed.
pub record IsQuiet (params : Fields) (before c : CodexClient) : Type 0 where
  pub effects : c.effects ≡ before.effects
  pub usage : c.usage ≡ before.usage
  pub completed_turn_ids : c.completed_turn_ids ≡ before.completed_turn_ids
  pub pending : c.pending ≡ before.pending
  pub turn_id : c.turn_id ≡ before.turn_id
  pub turn_started : c.turn_started ≡ before.turn_started
  pub turn_error :
      (c.turn_error ≡ before.turn_error)
      ⊎ ((text_eq (turn_status params) (lit "failed") ≡ true)
          × (is_empty before.turn_error ≡ true)
          × (c.turn_error ≡ turn_failure params))

unchanged : (params : Fields) (c : CodexClient) → IsQuiet params c c
unchanged params c = record {
  effects = refl;
  usage = refl;
  completed_turn_ids = refl;
  pending = refl;
  turn_id = refl;
  turn_started = refl;
  turn_error = inl refl;
}

fail_turn-IsQuiet : (params : Fields) (c : CodexClient) → IsQuiet params c (fail_turn params c)
unfolding fail_turn set_turn_error
fail_turn-IsQuiet params c =
    let same = unchanged params c in
    elim (Bool-cases (text_eq (turn_status params) (lit "failed"))) [
      | inr e ↦ rw (fail_turn, e) same
      | inl e ↦ elim (Bool-cases (is_empty c.turn_error)) [
        | inr q ↦
            rw (fail_turn, e, set_turn_error, q)
              (if-keeps (IsQuiet params c) (is_empty (turn_failure params)) same same)
        | inl q ↦
            rw (fail_turn, e, set_turn_error, q)
              (if-keeps (IsQuiet params c) (is_empty (turn_failure params)) same (record {
                effects = refl;
                usage = refl;
                completed_turn_ids = refl;
                pending = refl;
                turn_id = refl;
                turn_started = refl;
                turn_error = inr (e, q, refl);
              }))
      ]
    ]

turn_completed-IsQuiet :
    (d : Numbers) (params : Fields) (c : CodexClient)
    → is_empty (turn_id_of params) ≡ false
    → Marked (turn_id_of params) c
    → IsQuiet params c (turn_completed d params c)
unfolding turn_completed
turn_completed-IsQuiet d params c named marked =
    let id = turn_id_of params in
    let noted = fail_turn-keeps (Marked id) (Marked-Keeps id) params c marked in
    rw (turn_completed, named, noted) (fail_turn-IsQuiet params c)

abbrev ended_by : Fields → List Effect
ended_by params = turn_done (is_aborted (turn_status params)) ∷ []

finish_turn-effects :
    (d : Numbers) (params : Fields) (c : CodexClient)
    → (finish_turn d params c).effects ≡ c.effects ++ ended_by params
unfolding finish_turn emit extract_usage_from_map
finish_turn-effects d params c =
    ap (λ es. es ++ ended_by params)
      (option-keeps (λ (x : CodexClient). x.effects ≡ c.effects) (object_field (lit "turn") params)
        refl
        (λ turn.
          option-keeps (λ (x : CodexClient). x.effects ≡ c.effects) (first_object turn usage_keys)
            refl (λ counts. refl)))

turn_completed-effects :
    (d : Numbers) (params : Fields) (c : CodexClient)
    → is_empty (turn_id_of params) ≡ false
    → is_completed (turn_id_of params) c.completed_turn_ids ≡ false
    → (turn_completed d params c).effects ≡ c.effects ++ ended_by params
unfolding turn_completed mark_completed
turn_completed-effects d params c named fresh =
    let id = turn_id_of params in
    let noted = fail_turn params c in
    let same = fail_turn-IsQuiet params c in
    let fresh_noted : is_completed id noted.completed_turn_ids ≡ false =
      ap (is_completed id) same.completed_turn_ids ∙ fresh in
    rw (turn_completed, named, fresh_noted)
      (finish_turn-effects d params (mark_completed id noted)
        ∙ ap (λ es. es ++ ended_by params) same.effects)

-- The notification in a protocol that is not legacy.
abbrev pub complete : Numbers → Fields → CodexClient → CodexClient
complete d params c = handle_notification d (lit "turn/completed") params c

-- It is turn_completed, where the notification is the client's.
complete-ours :
    (P : CodexClient → Type 0) (d : Numbers) (params : Fields) (c : CodexClient)
    (p : NotificationProtocol)
    → is_legacy p ≡ false
    → is_foreign c params ≡ false
    → P (turn_completed d params c)
    → P (turn_completed d params (set_protocol raw c))
    → P (handle_unless_legacy d p (lit "turn/completed") params c)
unfolding handle_unless_legacy handle_raw_notification set_protocol is_foreign text_eq
complete-ours P d params c raw known ours h k = rw ours h
complete-ours P d params c unknown known ours h k = rw ours k
complete-ours P d params c legacy known ours h k = cc

complete-again :
    (d : Numbers) (params : Fields) (c : CodexClient) (p : NotificationProtocol)
    → is_empty (turn_id_of params) ≡ false
    → Marked (turn_id_of params) c
    → IsQuiet params c (handle_unless_legacy d p (lit "turn/completed") params c)
unfolding handle_unless_legacy handle_raw_notification set_protocol is_foreign text_eq
complete-again d params c legacy named marked = unchanged params c
complete-again d params c raw named marked =
    if-keeps (IsQuiet params c) (is_foreign c params) (unchanged params c)
      (turn_completed-IsQuiet d params c named marked)
complete-again d params c unknown named marked =
    if-keeps (IsQuiet params c) (is_foreign (set_protocol raw c) params)
      (switched (set_protocol raw c) (unchanged params (set_protocol raw c)))
      (switched _ (turn_completed-IsQuiet d params (set_protocol raw c) named marked))
  where
    switched : (c' : CodexClient) → IsQuiet params (set_protocol raw c) c' → IsQuiet params c c'
    switched c' v = record {
      effects = v.effects;
      usage = v.usage;
      completed_turn_ids = v.completed_turn_ids;
      pending = v.pending;
      turn_id = v.turn_id;
      turn_started = v.turn_started;
      turn_error = v.turn_error;
    }

-- A turn/completed of codex is told once. Where the protocol is not legacy, the one of the client's
-- thread with a turn id that is not marked yet is told as the end of that turn. After any further
-- lines whatever, another turn/completed with the same id tells nothing, answers nothing and counts
-- no tokens, and leaves the turn, the pending requests and the marks as they are; all it may add is
-- the error of the turn, if it says failed and no error is recorded yet. Lines of other kinds, which
-- can tell the end of a turn too, are not spoken of.
pub handle_notification-once :
    (d : CodexDecoder) (c : CodexClient) (first again : Fields) (lines : List Text)
    → is_legacy c.notification_protocol ≡ false
    → is_foreign c first ≡ false
    → is_empty (turn_id_of first) ≡ false
    → is_completed (turn_id_of first) c.completed_turn_ids ≡ false
    → turn_id_of again ≡ turn_id_of first
    → let ended = handle_notification d.numbers (lit "turn/completed") first c in
      let later = handle_lines d lines ended in
      let repeated = handle_notification d.numbers (lit "turn/completed") again later in
      (ended.effects ≡ c.effects ++ turn_done (is_aborted (turn_status first)) ∷ [])
      × IsQuiet again later repeated
unfolding handle_notification set_protocol text_eq has_prefix
handle_notification-once d c first again lines known ours named fresh same =
    let id = turn_id_of first in
    let n = d.numbers in
    let tells : CodexClient → Type 0 =
      λ (x : CodexClient). x.effects ≡ c.effects ++ ended_by first in
    let ended = complete n first c in
    let ends : tells ended =
      complete-ours tells n first c c.notification_protocol known ours
        (turn_completed-effects n first c named fresh)
        (turn_completed-effects n first (set_protocol raw c) named fresh) in
    let marked : Marked id ended =
      complete-ours (Marked id) n first c c.notification_protocol known ours
        (turn_completed-Marked n first c named)
        (turn_completed-Marked n first (set_protocol raw c) named) in
    let later = handle_lines d lines ended in
    let still = handle_lines-keeps (Marked id) (Marked-Keeps id) d lines ended marked in
    (ends, complete-again n again later later.notification_protocol (rw same named) (rw same still))
