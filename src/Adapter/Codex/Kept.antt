-- ===== src/Adapter/Codex/Kept.antt =====
-- What every line of the codex app-server keeps (internal/adapter/codex.go).
use aiclibridge.Prelude.{
  Text, lit, List, Option, none, some, if◌then◌else◌, Bool, true, false, is_empty, or_nil,
}
use aiclibridge.Prelude.Int.{ℤ}
use aiclibridge.Protocol.{Fields}
use aiclibridge.Adapter.Scan.Invariant.{scan_lines-keeps}
use aiclibridge.Adapter.Codex.{
  NotificationProtocol, unknown, legacy, raw, CodexClient, Numbers, Effect, emit, set_turn_error,
  object_field, extract_usage_from_map,
}
use aiclibridge.Adapter.Codex.Notifications.{
  tell_text, start_turn, handle_event, hear_agent, handle_item, handle_item_notification, fail_turn,
  finish_turn, mark_completed, turn_completed, note_error, thread_status, handle_raw_notification,
  set_protocol, handle_unless_legacy, handle_notification, turn_failure, notified_error,
  is_legacy_event, is_raw_start,
}
use aiclibridge.Adapter.Codex.Lines.{
  RawMessage, CodexDecoder, handle_server_request, settle, handle_response, hear_notification,
  answer, handle_raw, handle_lines, pending_method,
}

-- A property of the client that its elementary steps keep.
pub record Keeps (P : CodexClient → Type 0) : Type 0 where
  pub emits : (e : Effect) (c : CodexClient) → P c → P (emit e c)
  pub fails : (msg : Text) (c : CodexClient) → P c → P (set_turn_error msg c)
  pub spends : (d : Numbers) (m : Fields) (c : CodexClient) → P c → P (extract_usage_from_map d m c)
  pub starts : (id : Text) (c : CodexClient) → P c → P (start_turn id c)
  pub marks : (id : Text) (c : CodexClient) → P c → P (mark_completed id c)
  pub switches : (p : NotificationProtocol) (c : CodexClient) → P c → P (set_protocol p c)
  pub settles :
      (d : CodexDecoder) (id : ℤ) (method : Text) (m : RawMessage) (c : CodexClient)
      → P c
      → P (settle d id method m c)

pub if-keeps :
    {State : Type 0} (P : State → Type 0) (b : Bool) {x y : State}
    → P x
    → P y
    → P (if b then x else y)
if-keeps P true h k = h
if-keeps P false h k = k

pub option-keeps :
    {A State : Type 0} (P : State → Type 0) (o : Option A) {x : State} {f : A → State}
    → P x
    → ((a : A) → P (f a))
    → P (elim o [ none ↦ x | some a ↦ f a ])
option-keeps P none h k = h
option-keeps P (some a) h k = k a

module _ (P : CodexClient → Type 0) (keeps : Keeps P) where
  tell_text-keeps : (text : Text) (c : CodexClient) → P c → P (tell_text text c)
  unfolding tell_text
  tell_text-keeps text c h = if-keeps P (is_empty text) h (keeps.emits _ c h)

  handle_event-keeps : (d : Numbers) (m : Fields) (c : CodexClient) → P c → P (handle_event d m c)
  unfolding handle_event
  handle_event-keeps d m c h =
      search (h, if-keeps P, tell_text-keeps, keeps.emits, keeps.starts, keeps.spends) depth 20

  hear_agent-keeps : (item : Fields) (c : CodexClient) → P c → P (hear_agent item c)
  unfolding hear_agent
  hear_agent-keeps item c h =
      let heard = tell_text-keeps _ c h in if-keeps P _ (keeps.emits _ _ heard) heard

  handle_item-keeps :
      (method : Text) (item : Fields) (c : CodexClient) → P c → P (handle_item method item c)
  unfolding handle_item
  handle_item-keeps method item c h = search (h, if-keeps P, keeps.emits, hear_agent-keeps) depth 20

  handle_item_notification-keeps :
      (method : Text) (params : Fields) (c : CodexClient)
      → P c
      → P (handle_item_notification method params c)
  unfolding handle_item_notification
  handle_item_notification-keeps method params c h =
      option-keeps P (object_field (lit "item") params) (keeps.emits _ c h)
        (λ item. handle_item-keeps method item _ (keeps.emits _ c h))

  pub fail_turn-keeps : (params : Fields) (c : CodexClient) → P c → P (fail_turn params c)
  unfolding fail_turn
  fail_turn-keeps params c h = if-keeps P _ (keeps.fails (turn_failure params) c h) h

  pub finish_turn-keeps :
      (d : Numbers) (params : Fields) (c : CodexClient) → P c → P (finish_turn d params c)
  unfolding finish_turn
  finish_turn-keeps d params c h =
      keeps.emits _ _
        (option-keeps P (object_field (lit "turn") params) h (λ turn. keeps.spends d turn c h))

  turn_completed-keeps :
      (d : Numbers) (params : Fields) (c : CodexClient) → P c → P (turn_completed d params c)
  unfolding turn_completed
  turn_completed-keeps d params c h =
      let noted = fail_turn-keeps params c h in
      if-keeps P _ (finish_turn-keeps d params _ noted)
        (if-keeps P _ noted (finish_turn-keeps d params _ (keeps.marks _ _ noted)))

  note_error-keeps : (params : Fields) (c : CodexClient) → P c → P (note_error params c)
  unfolding note_error
  note_error-keeps params c h = if-keeps P _ h (
      if-keeps P _ (keeps.emits _ c h)
        (keeps.emits _ _ (keeps.fails (notified_error params) _ (keeps.emits _ c h))))

  handle_raw_notification-keeps :
      (d : Numbers) (method : Text) (params : Fields) (c : CodexClient)
      → P c
      → P (handle_raw_notification d method params c)
  unfolding handle_raw_notification thread_status
  handle_raw_notification-keeps d method params c h =
      search
        (
          h,
          if-keeps P,
          keeps.emits,
          keeps.starts,
          turn_completed-keeps,
          note_error-keeps,
          handle_item_notification-keeps,
        )
        depth 20

  handle_unless_legacy-keeps :
      (d : Numbers) (p : NotificationProtocol) (method : Text) (params : Fields) (c : CodexClient)
      → P c
      → P (handle_unless_legacy d p method params c)
  unfolding handle_unless_legacy
  handle_unless_legacy-keeps d legacy method params c h = h
  handle_unless_legacy-keeps d raw method params c h =
      handle_raw_notification-keeps d method params c h
  handle_unless_legacy-keeps d unknown method params c h =
      if-keeps P (is_raw_start method)
        (handle_raw_notification-keeps d method params _ (keeps.switches raw c h)) h

  handle_notification-keeps :
      (d : Numbers) (method : Text) (params : Fields) (c : CodexClient)
      → P c
      → P (handle_notification d method params c)
  unfolding handle_notification
  handle_notification-keeps d method params c h =
      let switched = keeps.switches legacy c h in
      if-keeps P (is_legacy_event method)
        (option-keeps P (object_field (lit "msg") params) switched
          (λ msg. handle_event-keeps d msg _ switched))
        (handle_unless_legacy-keeps d c.notification_protocol method params c h)

  handle_server_request-keeps :
      (d : CodexDecoder) (m : RawMessage) (c : CodexClient) → P c → P (handle_server_request d m c)
  unfolding handle_server_request
  handle_server_request-keeps d m c h = search (h, if-keeps P, keeps.emits, keeps.fails) depth 20

  handle_response-keeps :
      (d : CodexDecoder) (m : RawMessage) (c : CodexClient) → P c → P (handle_response d m c)
  unfolding handle_response
  handle_response-keeps d m c h = option-keeps P (d.response_id (or_nil m.id)) h (λ id.
      option-keeps P (pending_method id c.pending) h (λ method. keeps.settles d id method m c h))

  answer-keeps : (d : CodexDecoder) (m : RawMessage) (c : CodexClient) → P c → P (answer d m c)
  unfolding answer
  answer-keeps d m c h =
      option-keeps P m.result
        (option-keeps P m.error
          (option-keeps P m.method h (λ method. handle_server_request-keeps d m c h))
          (λ e. handle_response-keeps d m c h))
        (λ r. handle_response-keeps d m c h)

  handle_raw-keeps :
      (d : CodexDecoder) (m : RawMessage) (c : CodexClient) → P c → P (handle_raw d m c)
  unfolding handle_raw hear_notification
  handle_raw-keeps d m c h =
      option-keeps P m.id
        (option-keeps P m.method h
          (λ method. handle_notification-keeps d.numbers (d.method method) _ c h))
        (λ id. answer-keeps d m c h)

  pub handle_lines-keeps :
      (d : CodexDecoder) (lines : List Text) (c : CodexClient) → P c → P (handle_lines d lines c)
  unfolding handle_lines
  handle_lines-keeps d lines c h =
      scan_lines-keeps P d.line (handle_raw d) (handle_raw-keeps d) lines c h
