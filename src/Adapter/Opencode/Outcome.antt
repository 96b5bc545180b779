-- ===== src/Adapter/Opencode/Outcome.antt =====
-- How runs of opencode and gemini are reported.
use aiclibridge.Prelude.{
  or_text-filled, ◌≡◌, refl, Text, lit, List, ◌++◌, Option, none, is_empty, text_eq, false,
  Bool-cases, Option-cases, inl, inr,
}
use aiclibridge.Adapter.{ExecOptions}
use aiclibridge.Adapter.Scan.{Scan, start_scan, no_tokens, try_send}
use aiclibridge.Adapter.Scan.Outcome.{Ending}
use aiclibridge.Adapter.Scan.Settled.{
  SettledScan, Reported, scan_error-Settled, judge-Reported, describe_error-Reported,
}
use aiclibridge.Adapter.Scan.Invariant.{Settled-invariant, fail_with-SettledScan, scan_lines-keeps}
use aiclibridge.Adapter.Opencode.{
  OpencodeEvent, EventPart, EventDecoder, OpencodeScan, dispatch, note_session, step,
  process_events, process_opencode_events, process_gemini_events, event_error, handle_error_event,
  handle_tool_use_event, send_tool_output, execute_opencode, execute_gemini, report_spent,
}

event_error-filled : (cli : Text) (event : OpencodeEvent) → is_empty (event_error cli event) ≡ false
unfolding event_error
event_error-filled cli event = or_text-filled _ (lit "unknown " ++ cli ++ lit " error") refl

abbrev Fine : Scan Text → Type 0
Fine s = SettledScan s

note_session-Settled :
    (event : OpencodeEvent) (s : Scan Text) → Fine s → Fine (note_session event s)
unfolding note_session
note_session-Settled event s h = elim (Bool-cases (is_empty event.session_id)) [
  | inl e ↦ rw e h
  | inr e ↦ rw e h
]

send_tool_output-Settled :
    (d : EventDecoder) (part : EventPart) (s : Scan Text)
    → Fine s
    → Fine (send_tool_output d part s)
unfolding send_tool_output try_send
send_tool_output-Settled d part s h = elim (Option-cases part.state) [
  | inl e ↦ rw e h
  | inr (state, e) ↦ rw e (elim (Bool-cases (text_eq state.status (lit "completed"))) [
    | inl q ↦ rw q h
    | inr q ↦ rw q h
  ])
]

dispatch-Settled :
    (cli : Text) (d : EventDecoder) (event : OpencodeEvent) (s : Scan Text)
    → Fine s
    → Fine (dispatch cli d event s)
unfolding dispatch handle_tool_use_event handle_error_event try_send
dispatch-Settled cli d event s h = elim (Bool-cases (text_eq event.type (lit "text"))) [
  | inl e ↦ rw e (Settled-invariant.says event.part.text s h)
  | inr e ↦ rw e (elim (Bool-cases (text_eq event.type (lit "tool_use"))) [
    | inl q ↦ rw q (send_tool_output-Settled d event.part _ h)
    | inr q ↦ rw q (elim (Bool-cases (text_eq event.type (lit "error"))) [
      | inl r ↦
          rw r (fail_with-SettledScan (event_error cli event) s (event_error-filled cli event))
      | inr r ↦ rw r (elim (Bool-cases (text_eq event.type (lit "step_start"))) [
        | inl t ↦ rw t h
        | inr t ↦ rw t h
      ])
    ])
  ])
]

process_events-Settled :
    (cli : Text) (d : EventDecoder) (read_error : Option Text) (lines : List Text)
    → Fine (process_events cli d read_error lines).scan
unfolding process_events step
process_events-Settled cli d read_error lines = scan_error-Settled read_error _ (
    scan_lines-keeps (λ (s : OpencodeScan). Fine s.scan) d.event (step cli d)
      (λ event s h.
        dispatch-Settled cli d event (note_session event s.scan)
          (note_session-Settled event s.scan h))
      lines (record { scan = start_scan Text; spent = no_tokens }) (inl (refl, refl)))

-- Of a run of opencode or of gemini, whatever the CLI prints and however it ends: it is reported
-- as completed with no error, or as failed, timeout or aborted with an error that is not empty.
pub execute_opencode-Reported :
    (opts : ExecOptions) (d : EventDecoder) (read_error : Option Text) (ending : Ending)
    (lines : List Text)
    → let opencode = execute_opencode opts d read_error ending lines in
      let gemini = execute_gemini opts d read_error ending lines in
      Reported opencode.status opencode.error × Reported gemini.status gemini.error
unfolding execute_opencode execute_gemini report_spent process_opencode_events process_gemini_events
execute_opencode-Reported opts d read_error ending lines = (
  judge-Reported (lit "opencode") (process_opencode_events d read_error lines).scan.session_id
      (record ending { write_error = none }) _
      (process_events-Settled (lit "opencode") d read_error lines),
  describe_error-Reported (lit "gemini") _ _ ending.stderr_tail (
      judge-Reported (lit "gemini") _ ending _
        (process_events-Settled (lit "gemini") d read_error lines)),
)
