-- ===== src/Adapter/Acp/Kept.antt =====
-- What the handlers of an ACP turn keep.
use aiclibridge.Prelude.{
  or_text-filled, ◌≡◌, refl, Text, lit, List, [], ◌∷◌, ◌++◌, is_empty, text_eq, false, Bool-cases,
  Option-cases, inl, inr,
}
use aiclibridge.Prelude.Int.{pos, eq_ℤ}
use aiclibridge.Adapter.Scan.{
  Scan, TokenCounts, tool_use_message, tool_result_message, running_message, fail_with, read_line,
}
use aiclibridge.Adapter.Scan.Settled.{filled-append}
use aiclibridge.Adapter.Scan.Invariant.{Invariant, StdinInvariant, say_thinking-keeps}
use aiclibridge.Adapter.StreamJson.{ContentBlock}
use aiclibridge.Adapter.Acp.{
  AcpDecoder, JsonrpcMessage, JsonrpcError, Request, Turn, SessionMessageParams, is_response,
  int_id, acp_id_initialize, acp_id_session, session_request, prompt_request,
  response_error_message,
}
use aiclibridge.Adapter.Acp.Notifications.{
  acp_string_content, acp_input, block_output, handle_acp_content_block, handle_acp_content_blocks,
  handle_direct, nested_blocks, note_session, unpack_message, handle_acp_session_message,
  acp_extract_usage, take_usage, handle_acp_finished,
}
use aiclibridge.Adapter.Acp.Driver.{
  established, open_session, handle_response, session_error, handle_notification, step, drive,
}

session_error-filled :
    (t : Turn) (d : AcpDecoder) (params : Text) → is_empty (session_error t d params) ≡ false
unfolding session_error
session_error-filled t d params =
    or_text-filled _ (t.cli ++ lit " reported session/error") (filled-append t.cli _ refl)

response_error_message-filled : (e : JsonrpcError) → is_empty (response_error_message e) ≡ false
unfolding response_error_message
response_error_message-filled e = elim (Bool-cases (is_empty e.message)) [
  | inl q ↦ rw q refl
  | inr q ↦ rw q refl
]

module _ (P : Scan Request → Type 0) (inv : Invariant P) (d : AcpDecoder) where
  handle_acp_content_block-keeps :
      (block : ContentBlock) (s : Scan Request) → P s → P (handle_acp_content_block d block s)
  unfolding handle_acp_content_block text_eq
  handle_acp_content_block-keeps block s h = elim (Bool-cases (text_eq block.type (lit "text"))) [
    | inl e ↦ rw e (inv.says block.text s h)
    | inr e ↦ rw e (elim (Bool-cases (text_eq block.type (lit "thinking"))) [
      | inl q ↦ rw q (say_thinking-keeps P inv block.text s h)
      | inr q ↦ rw q (elim (Bool-cases (text_eq block.type (lit "tool_use"))) [
        | inl r ↦
            rw r
              (inv.sends (tool_use_message block.name block.id (acp_input d block.input)) s refl h)
        | inr r ↦ rw r (elim (Bool-cases (text_eq block.type (lit "tool_result"))) [
          | inl t ↦ rw t (
              inv.sends (tool_result_message [] block.tool_use_id (block_output d block.content)) s
                refl h)
          | inr t ↦ rw t h
        ])
      ])
    ])
  ]

  handle_acp_content_blocks-keeps :
      (blocks : List ContentBlock) (s : Scan Request)
      → P s
      → P (handle_acp_content_blocks d blocks s)
  unfolding handle_acp_content_blocks
  handle_acp_content_blocks-keeps [] s h = h
  handle_acp_content_blocks-keeps (block ∷ blocks) s h =
      handle_acp_content_blocks-keeps blocks (handle_acp_content_block d block s)
        (handle_acp_content_block-keeps block s h)

  handle_direct-keeps :
      (p : SessionMessageParams) (s : Scan Request) → P s → P (handle_direct d p s)
  unfolding handle_direct text_eq
  handle_direct-keeps p s h = elim (Bool-cases (text_eq p.type (lit "text"))) [
    | inl e ↦ rw e (inv.says (acp_string_content d p.text p.content) s h)
    | inr e ↦ rw e (elim (Bool-cases (text_eq p.type (lit "thinking"))) [
      | inl q ↦ rw q (say_thinking-keeps P inv (acp_string_content d p.text p.content) s h)
      | inr q ↦ rw q (elim (Bool-cases (text_eq p.type (lit "tool_use"))) [
        | inl r ↦ rw r (inv.sends (tool_use_message p.tool p.id (acp_input d p.input)) s refl h)
        | inr r ↦ rw r (elim (Bool-cases (text_eq p.type (lit "tool_result"))) [
          | inl t ↦ rw t (
              inv.sends (tool_result_message [] p.tool_use_id (acp_string_content d [] p.output)) s
                refl h)
          | inr t ↦ rw t h
        ])
      ])
    ])
  ]

  note_session-keeps : (id : Text) (s : Scan Request) → P s → P (note_session id s)
  unfolding note_session
  note_session-keeps id s h = elim (Bool-cases (is_empty id)) [
    | inl e ↦ rw e h
    | inr e ↦ rw e (inv.notes id s h)
  ]

  unpack_message-keeps :
      (p : SessionMessageParams) (s : Scan Request) → P s → P (unpack_message d p s)
  unfolding unpack_message
  unpack_message-keeps p s h =
      elim (nested_blocks d p)
        as (λ (blocks : List ContentBlock). P (elim blocks [
          | [] ↦ handle_direct d p s
          | block ∷ rest ↦ handle_acp_content_blocks d (block ∷ rest) s
        ])) [
          | [] ↦ handle_direct-keeps p s h
          | block ∷ rest ↦ handle_acp_content_blocks-keeps (block ∷ rest) s h
        ]

  pub handle_acp_session_message-keeps :
      (params : Text) (s : Scan Request) → P s → P (handle_acp_session_message d params s)
  unfolding handle_acp_session_message
  handle_acp_session_message-keeps params s h = elim (Bool-cases (is_empty params)) [
    | inl e ↦ rw e h
    | inr e ↦ rw e (elim (Option-cases (d.session_message params)) [
      | inl q ↦ rw q h
      | inr (p, q) ↦ rw q (
          unpack_message-keeps p (note_session p.session_id s)
            (note_session-keeps p.session_id s h))
    ])
  ]

  take_usage-keeps : (usage : TokenCounts) (s : Scan Request) → P s → P (take_usage usage s)
  take_usage-keeps [] s h = h
  take_usage-keeps (c ∷ counts) s h = inv.counts (c ∷ counts) s h

  pub handle_acp_finished-keeps :
      (model params : Text) (s : Scan Request) → P s → P (handle_acp_finished d model params s)
  unfolding handle_acp_finished
  handle_acp_finished-keeps model params s h = elim (Bool-cases (is_empty params)) [
    | inl e ↦ rw e h
    | inr e ↦ rw e (elim (Option-cases (d.finished params)) [
      | inl q ↦ rw q h
      | inr (p, q) ↦ rw q (
          take_usage-keeps (acp_extract_usage d p.usage model) (note_session p.session_id s)
            (note_session-keeps p.session_id s h))
    ])
  ]

  module _ (io : StdinInvariant P) where
    open_session-keeps :
        (t : Turn) (result : Text) (s : Scan Request) → P s → P (open_session t d result s)
    unfolding open_session text_eq
    open_session-keeps t result s h =
        let id = established d t.resume_session_id result s.session_id in
        inv.sends (running_message id) _ refl
          (io.writes (prompt_request t.prompt id) _ (inv.notes id s h))

    handle_response-keeps :
        (t : Turn) (m : JsonrpcMessage) (s : Scan Request) → P s → P (handle_response t d m s)
    unfolding handle_response
    handle_response-keeps t m s h = elim (Bool-cases (eq_ℤ (int_id d m) (pos acp_id_initialize))) [
      | inl e ↦ rw (handle_response, e) (io.writes (session_request t.resume_session_id) s h)
      | inr e ↦
          rw (handle_response, e)
            (elim (Bool-cases (eq_ℤ (int_id d m) (pos acp_id_session))) [
              | inl q ↦ rw q (open_session-keeps t m.result s h)
              | inr q ↦ rw q h
            ])
    ]

    module _ (t : Turn)
        (fails : (e : Text) (s : Scan Request) → is_empty e ≡ false → P s → P (fail_with e s)) where
      handle_notification-keeps :
          (m : JsonrpcMessage) (s : Scan Request) → P s → P (handle_notification t d m s).0
      unfolding handle_notification
      handle_notification-keeps m s h =
          elim (Bool-cases (text_eq m.method (lit "session/message"))) [
            | inl e ↦ rw (handle_notification, e) (handle_acp_session_message-keeps m.params s h)
            | inr e ↦
                rw (handle_notification, e)
                  (elim (Bool-cases (text_eq m.method (lit "session/finished"))) [
                    | inl q ↦
                        rw q (io.closes _ (handle_acp_finished-keeps t.fallback_model m.params s h))
                    | inr q ↦ rw q (elim (Bool-cases (text_eq m.method (lit "session/error"))) [
                      | inl r ↦ rw r (
                          io.closes _ (
                            fails (session_error t d m.params) s (session_error-filled t d m.params)
                              h))
                      | inr r ↦ rw r h
                    ])
                  ])
          ]

      -- A step keeps what its failures keep.
      step-keeps : (m : JsonrpcMessage) (s : Scan Request) → P s → P (step t d m s).0
      unfolding step
      step-keeps m s h = elim (Bool-cases (is_response m)) [
        | inl e ↦
            rw (step, e)
              (elim (Option-cases m.error) [
                | inl q ↦ rw q (handle_response-keeps t m s h)
                | inr (x, q) ↦ rw q (
                    io.closes _
                      (fails (response_error_message x) s (response_error_message-filled x) h))
              ])
        | inr e ↦ rw (step, e) (handle_notification-keeps m s h)
      ]

      pub drive-keeps : (lines : List Text) (s : Scan Request) → P s → P (drive t d lines s).0
      unfolding drive
      drive-keeps [] s h = h
      drive-keeps (line ∷ lines) s h = elim (Option-cases (read_line d.message line)) [
        | inl e ↦ rw (drive, e) (drive-keeps lines s h)
        | inr (m, e) ↦
            let next = step-keeps m s h in
            rw (drive, e)
              (elim (Bool-cases (step t d m s).1) [
                | inl q ↦ rw q next
                | inr q ↦ rw q (drive-keeps lines (step t d m s).0 next)
              ])
      ]
