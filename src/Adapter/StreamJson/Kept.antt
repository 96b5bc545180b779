-- ===== src/Adapter/StreamJson/Kept.antt =====
-- What the handlers of the stream-json dialect keep.
use aiclibridge.Prelude.{
  refl, Text, lit, List, [], ◌∷◌, is_empty, text_eq, Bool-cases, Option-cases, inl, inr, ◌++◌,
}
use aiclibridge.Protocol.{Fields}
use aiclibridge.Adapter.Scan.{Scan, tool_use_message, tool_result_message, running_message}
use aiclibridge.Adapter.Scan.Invariant.{Invariant, StdinInvariant, say_thinking-keeps}
use aiclibridge.Adapter.StreamJson.{
  Decoder, ContentBlock, decode_input, handle_block, handle_blocks, count_usage, handle_assistant,
  handle_user_block, handle_user_blocks, handle_user, request_input, answer_request,
  handle_control_request,
}
use aiclibridge.Adapter.StreamJson.Qwen.{SdkMessage, handle_result, note_session, dispatch, step}

module _ (P : Scan Text → Type 0) (inv : Invariant P) (d : Decoder) where
  handle_block-keeps : (block : ContentBlock) (s : Scan Text) → P s → P (handle_block d block s)
  unfolding handle_block text_eq
  handle_block-keeps block s h = elim (Bool-cases (text_eq block.type (lit "text"))) [
    | inl e ↦ rw e (inv.says block.text s h)
    | inr e ↦ rw e (elim (Bool-cases (text_eq block.type (lit "thinking"))) [
      | inl q ↦ rw q (say_thinking-keeps P inv block.text s h)
      | inr q ↦ rw q (elim (Bool-cases (text_eq block.type (lit "tool_use"))) [
        | inl r ↦
            rw r (
              inv.sends (tool_use_message block.name block.id (decode_input d block.input)) s refl
                h)
        | inr r ↦ rw r h
      ])
    ])
  ]

  handle_blocks-keeps :
      (blocks : List ContentBlock) (s : Scan Text) → P s → P (handle_blocks d blocks s)
  unfolding handle_blocks
  handle_blocks-keeps [] s h = h
  handle_blocks-keeps (block ∷ blocks) s h =
      handle_blocks-keeps blocks (handle_block d block s) (handle_block-keeps block s h)

  pub handle_assistant-keeps :
      (message : Text) (s : Scan Text) → P s → P (handle_assistant d message s)
  unfolding handle_assistant
  handle_assistant-keeps message s h = elim (Bool-cases (is_empty message)) [
    | inl e ↦ rw e h
    | inr e ↦ rw e (elim (Option-cases (d.content message)) [
      | inl q ↦ rw q h
      | inr (content, q) ↦ rw q (
          handle_blocks-keeps content.content (record s { usage = count_usage content s.usage })
            (inv.counts (count_usage content s.usage) s h))
    ])
  ]

  pub handle_user_block-keeps :
      (block : ContentBlock) (s : Scan Text) → P s → P (handle_user_block block s)
  unfolding handle_user_block text_eq
  handle_user_block-keeps block s h = elim (Bool-cases (text_eq block.type (lit "tool_result"))) [
    | inl e ↦ rw e (inv.sends (tool_result_message [] block.tool_use_id block.content) s refl h)
    | inr e ↦ rw e h
  ]

  handle_user_blocks-keeps :
      (blocks : List ContentBlock) (s : Scan Text) → P s → P (handle_user_blocks blocks s)
  unfolding handle_user_blocks
  handle_user_blocks-keeps [] s h = h
  handle_user_blocks-keeps (block ∷ blocks) s h =
      handle_user_blocks-keeps blocks (handle_user_block block s)
        (handle_user_block-keeps block s h)

  handle_user-keeps : (message : Text) (s : Scan Text) → P s → P (handle_user d message s)
  unfolding handle_user
  handle_user-keeps message s h = elim (Bool-cases (is_empty message)) [
    | inl e ↦ rw e h
    | inr e ↦ rw e (elim (Option-cases (d.content message)) [
      | inl q ↦ rw q h
      | inr (content, q) ↦ rw q (handle_user_blocks-keeps content.content s h)
    ])
  ]

  module _ (io : StdinInvariant P) where
    pub answer_request-keeps :
        (id : Text) (input : Fields) (s : Scan Text) → P s → P (answer_request d id input s)
    unfolding answer_request
    answer_request-keeps id input s h = elim (Option-cases (d.control_response id input)) [
      | inl e ↦ rw (answer_request, e) h
      | inr (frame, e) ↦ rw (answer_request, e) (io.writes (frame ++ 10 ∷ []) s h)
    ]

    handle_control_request-keeps :
        (id request : Text) (s : Scan Text) → P s → P (handle_control_request d id request s)
    unfolding handle_control_request
    handle_control_request-keeps id request s h = elim (Bool-cases (is_empty request)) [
      | inl e ↦ rw e h
      | inr e ↦ rw e (elim (Option-cases (d.control_request request)) [
        | inl q ↦ rw q h
        | inr (req, q) ↦ rw q (answer_request-keeps id (request_input d req) s h)
      ])
    ]

    note_session-keeps : (event : SdkMessage) (s : Scan Text) → P s → P (note_session event s)
    unfolding note_session
    note_session-keeps event s h = elim (Bool-cases (is_empty event.session_id)) [
      | inl e ↦ rw e h
      | inr e ↦ rw e (inv.notes event.session_id s h)
    ]

    -- A step keeps what the handling of results keeps.
    pub step-keeps :
        (cli model : Text) (event : SdkMessage)
        → ((s : Scan Text) → P s → P (handle_result cli model event s))
        → (s : Scan Text) → P s
        → P (step cli model d event s)
    unfolding step dispatch text_eq
    step-keeps cli model event result s h =
        let noted = note_session-keeps event s h in
        elim (Bool-cases (text_eq event.type (lit "assistant"))) [
          | inl e ↦ rw e (handle_assistant-keeps event.message _ noted)
          | inr e ↦ rw e (elim (Bool-cases (text_eq event.type (lit "user"))) [
            | inl q ↦ rw q (handle_user-keeps event.message _ noted)
            | inr q ↦ rw q (elim (Bool-cases (text_eq event.type (lit "system"))) [
              | inl r ↦
                  rw r (inv.sends (running_message (note_session event s).session_id) _ refl noted)
              | inr r ↦ rw r (elim (Bool-cases (text_eq event.type (lit "result"))) [
                | inl t ↦ rw t (result _ noted)
                | inr t ↦ rw t (elim (Bool-cases (text_eq event.type (lit "control_request"))) [
                  | inl u ↦
                      rw u (handle_control_request-keeps event.request_id event.request _ noted)
                  | inr u ↦ rw u noted
                ])
              ])
            ])
          ])
        ]
