-- ===== src/Adapter/StreamJson/Foreground.antt =====
-- Claude runs its tools in the foreground: what the answers to control requests carry, and what
-- becomes of a run that launched a background task all the same.
use aiclibridge.Prelude.{
  ◌≡◌, ◌≢◌, refl, ap, sym, ◌∙◌, Text, lit, List, [], ◌∷◌, Option, none, some, text_eq, text_eq_iff,
  text_eq_refl, Bool, true, false, Bool-cases, Option-cases, inl, inr, arith, if◌then◌else◌, ◌||◌,
  any,
}
use aiclibridge.Protocol.{lookup_field, Fields, Json, end, field}
use aiclibridge.Adapter.{ExecOptions}
use aiclibridge.Adapter.Scan.{Scan, completed, scan_lines, read_line}
use aiclibridge.Adapter.Scan.Outcome.{Ending, Verdict, report}
use aiclibridge.Adapter.StreamJson.{
  Decoder, ContentBlock, ControlRequest, request_input, answer_request,
}
use aiclibridge.Adapter.StreamJson.Claude.{
  ClaudeMessage, ClaudeScan, set_field, is_true, force_foreground, handle_control_request,
  block_launches, handle_user_content, handle_user, step, scan_claude, refuse_async_launch,
  conclude_claude, execute_claude,
}

abbrev pub background : Text
background = lit "run_in_background"

lookup_field-set_field :
    (key : Text) (value : Json) (input : Fields)
    → is_true (lookup_field key input) ≡ true
    → lookup_field key (set_field key value input) ≡ some value
unfolding lookup_field set_field
lookup_field-set_field key value end h = cc
lookup_field-set_field key value (field k v rest) h = elim (Bool-cases (text_eq k key)) [
  | inl e ↦ rw (e, e) refl
  | inr e ↦ rw (e, e) (lookup_field-set_field key value rest (ground arith))
]

lookup_field-set_field_other :
    (key other : Text) (value : Json) (input : Fields)
    → text_eq key other ≡ false
    → lookup_field other (set_field key value input) ≡ lookup_field other input
unfolding lookup_field set_field
lookup_field-set_field_other key other value end h = refl
lookup_field-set_field_other key other value (field k v rest) h =
    elim (Bool-cases (text_eq k key)) [
      | inl e ↦
          let same : k ≡ key = ground (arith, text_eq_iff k key) in
          let apart : text_eq k other ≡ false = ap (λ t. text_eq t other) same ∙ h in
          rw (e, apart) refl
      | inr e ↦ rw e (
          ap (λ (o : Option Json). if text_eq k other then some v else o)
            (lookup_field-set_field_other key other value rest h))
    ]

foreground_lookup :
    (input : Fields) → is_true (lookup_field background (force_foreground input)) ≡ false
unfolding force_foreground
foreground_lookup input = elim (Bool-cases (is_true (lookup_field background input))) [
  | inl e ↦ rw (e, lookup_field-set_field background (Json.bool false) input e) refl
  | inr e ↦ rw (e, e) refl
]

foreground_other :
    (input : Fields) (key : Text)
    → key ≢ background
    → lookup_field key (force_foreground input) ≡ lookup_field key input
unfolding force_foreground
foreground_other input key apart = elim (Bool-cases (is_true (lookup_field background input))) [
  | inl e ↦ rw e (
      lookup_field-set_field_other background key (Json.bool false) input
        (ground (arith, text_eq_iff background key)))
  | inr e ↦ rw e refl
]

-- A control request of claude that decodes is answered with an input that does not ask for the
-- background, and that agrees with the requested input at every other key.
pub handle_control_request-foreground :
    (d : Decoder) (id request : Text) (req : ControlRequest) (s : Scan Text)
    → d.control_request request ≡ some req
    → (input : Fields) × (handle_control_request d id request s ≡ answer_request d id input s)
      × (is_true (lookup_field background input) ≡ false)
      × ((key : Text)
          → key ≢ background
          → lookup_field key input ≡ lookup_field key (request_input d req))
unfolding handle_control_request
handle_control_request-foreground d id request req s h = (
  force_foreground (request_input d req),
  rw (handle_control_request, h) refl,
  foreground_lookup (request_input d req),
  foreground_other (request_input d req),
)

-- A line that decodes to a user message with a tool result that reports an async launch.
unfoldable pub content_launches : Decoder → List ContentBlock → Bool
content_launches d blocks = any (block_launches d) blocks

unfoldable pub message_launches : Decoder → ClaudeMessage → Bool
unfolding content_launches
message_launches d msg =
    if text_eq msg.type (lit "user")
    then elim (d.content msg.message) [
      | none ↦ false
      | some content ↦ content_launches d content.content
    ]
    else false

unfoldable pub line_launches : Decoder → (Text → Option ClaudeMessage) → Text → Bool
unfolding message_launches
line_launches d decode line = elim (read_line decode line) [
  | none ↦ false
  | some msg ↦ message_launches d msg
]

handle_user_content-saw :
    (d : Decoder) (blocks : List ContentBlock) (s : ClaudeScan)
    → (handle_user_content d blocks s).saw_async_launch
      ≡ (s.saw_async_launch || content_launches d blocks)
unfolding handle_user_content content_launches
handle_user_content-saw d [] s = ground arith
handle_user_content-saw d (block ∷ blocks) s = handle_user_content-saw d blocks _ ∙ ground arith

step-saw :
    (model : Text) (d : Decoder) (msg : ClaudeMessage) (s : ClaudeScan)
    → (step model d msg s).saw_async_launch ≡ (s.saw_async_launch || message_launches d msg)
unfolding step handle_user message_launches
step-saw model d msg s = elim (Bool-cases (text_eq msg.type (lit "user"))) [
  | inl e ↦ rw e (elim (Option-cases (d.content msg.message)) [
    | inl q ↦ rw (handle_user, q) (ground arith)
    | inr (content, q) ↦ rw (handle_user, q) (handle_user_content-saw d content.content s)
  ])
  | inr e ↦ rw e (ground arith)
]

scan_lines-saw :
    (model : Text) (d : Decoder) (decode : Text → Option ClaudeMessage) (lines : List Text)
    (s : ClaudeScan)
    → (scan_lines decode (step model d) lines s).saw_async_launch
      ≡ (s.saw_async_launch || any (line_launches d decode) lines)
unfolding scan_lines line_launches
scan_lines-saw model d decode [] s = ground arith
scan_lines-saw model d decode (line ∷ lines) s = elim (Option-cases (read_line decode line)) [
  | inl e ↦ rw (scan_lines, line_launches, e) (scan_lines-saw model d decode lines s)
  | inr (msg, e) ↦
      rw (scan_lines, line_launches, e)
        (scan_lines-saw model d decode lines (step model d msg s)
          ∙ rw (step-saw model d msg s) (ground arith))
]

refused : (v : Verdict) → text_eq (refuse_async_launch true v).status completed ≡ false
unfolding refuse_async_launch text_eq
refused v = elim (Bool-cases (text_eq v.status completed)) [ inl e ↦ rw e refl | inr e ↦ rw e e ]

saw_async_launch-scan_claude :
    (model : Text) (d : Decoder) (decode : Text → Option ClaudeMessage) (lines : List Text)
    → any (line_launches d decode) lines ≡ true
    → (scan_claude model d decode lines).saw_async_launch ≡ true
unfolding scan_claude
saw_async_launch-scan_claude model d decode lines h = scan_lines-saw model d decode lines _ ∙ h

conclude_claude-async :
    (resume : Text) (ending : Ending) (s : ClaudeScan)
    → s.saw_async_launch ≡ true
    → text_eq (conclude_claude resume ending s).status completed ≡ false
unfolding conclude_claude report
conclude_claude-async resume ending s h = rw h (refused _)

-- A run of claude in which some line decodes to a user message with a tool result that reports an
-- async launch is never reported as completed, however it ends.
pub execute_claude-async :
    (opts : ExecOptions) (d : Decoder) (decode : Text → Option ClaudeMessage) (ending : Ending)
    (lines : List Text)
    → any (line_launches d decode) lines ≡ true
    → (execute_claude opts d decode ending lines).status ≢ completed
unfolding execute_claude
execute_claude-async opts d decode ending lines h e =
    let apart =
      conclude_claude-async opts.resume_session_id ending (scan_claude opts.model d decode lines)
        (saw_async_launch-scan_claude opts.model d decode lines h) in
    ground (arith, apart, sym (ap (λ t. text_eq t completed) e), text_eq_refl completed)
