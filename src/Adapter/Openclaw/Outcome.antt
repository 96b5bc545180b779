-- ===== src/Adapter/Openclaw/Outcome.antt =====
-- How a run of openclaw is reported.
use aiclibridge.Prelude.{
  ◌≡◌, refl, Text, lit, List, [], ◌∷◌, Option, none, some, is_empty, text_eq, trim_space, join,
  split, false, Bool-cases, Option-cases, inl, inr, or_text-filled,
}
use aiclibridge.Adapter.{ExecOptions}
use aiclibridge.Adapter.Scan.{Scan, start_scan, try_send, say_text}
use aiclibridge.Adapter.Scan.Outcome.{Ending}
use aiclibridge.Adapter.Scan.Settled.{SettledScan, Reported, judge-Reported}
use aiclibridge.Adapter.Scan.Invariant.{Settled-invariant, fail_with-SettledScan}
use aiclibridge.Adapter.Openclaw.{
  OpenclawDecoder, OpenclawEvent, OpenclawScan, error_message_of, is_failure, take_event,
  note_session, handle_event, try_parse_event, try_parse_result,
}
use aiclibridge.Adapter.Openclaw.Output.{
  say_payloads, payload_texts, result_session, handle_result, handle_line, handle_lines,
  start_output, settle_output, whole_result, scan_output, process_output, parse_whole_buffer,
  execute_openclaw,
}

abbrev Fine : Scan Text → Type 0
Fine s = SettledScan s

error_message_of-filled : (event : OpenclawEvent) → is_empty (error_message_of event) ≡ false
unfolding error_message_of
error_message_of-filled event =
    or_text-filled _ _ (
      or_text-filled event.text _
        (or_text-filled event.message (lit "unknown openclaw error") refl))

take_event-Fine :
    (d : OpenclawDecoder) (event : OpenclawEvent) (s : Scan Text)
    → Fine s
    → Fine (take_event d event s)
unfolding take_event try_send
take_event-Fine d event s h =
    let failing =
      fail_with-SettledScan (error_message_of event) s (error_message_of-filled event) in
    elim (Bool-cases (text_eq event.type (lit "text"))) [
      | inl e ↦ rw e (Settled-invariant.says event.text s h)
      | inr e ↦ rw e (elim (Bool-cases (text_eq event.type (lit "tool_use"))) [
        | inl q ↦ rw q h
        | inr q ↦ rw q (elim (Bool-cases (text_eq event.type (lit "tool_result"))) [
          | inl r ↦ rw r h
          | inr r ↦ rw r (elim (Bool-cases (text_eq event.type (lit "error"))) [
            | inl t ↦ rw t failing
            | inr t ↦ rw t (elim (Bool-cases (text_eq event.type (lit "lifecycle"))) [
              | inl u ↦ rw u (elim (Bool-cases (is_failure event.phase)) [
                | inl v ↦ rw v failing
                | inr v ↦ rw v h
              ])
              | inr u ↦ rw u (elim (Bool-cases (text_eq event.type (lit "step_start"))) [
                | inl v ↦ rw v h
                | inr v ↦ rw v h
              ])
            ])
          ])
        ])
      ])
    ]

note_session-Fine : (id : Text) (s : Scan Text) → Fine s → Fine (note_session id s)
unfolding note_session
note_session-Fine id s h = elim (Bool-cases (is_empty id)) [ inl e ↦ rw e h | inr e ↦ rw e h ]

say_payloads-Fine : (texts : List Text) (s : Scan Text) → Fine s → Fine (say_payloads texts s)
unfolding say_payloads
say_payloads-Fine [] s h = h
say_payloads-Fine (text ∷ texts) s h =
    say_payloads-Fine texts (say_text text s) (Settled-invariant.says text s h)

abbrev FineOutput : OpenclawScan → Type 0
FineOutput s = Fine s.scan

handle_line-Fine :
    (d : OpenclawDecoder) (line : Text) (s : OpenclawScan)
    → FineOutput s
    → FineOutput (handle_line d line s)
unfolding handle_line handle_event handle_result
handle_line-Fine d line s h = elim (Option-cases (try_parse_event d line)) [
  | inr (event, e) ↦
      rw (handle_line, e) (take_event-Fine d event _ (note_session-Fine event.session_id s.scan h))
  | inl e ↦
      rw (handle_line, e)
        (elim (Option-cases (try_parse_result d line)) [
          | inr (r, q) ↦ rw q (
              note_session-Fine (result_session r) (say_payloads (payload_texts r) s.scan)
                (say_payloads-Fine (payload_texts r) s.scan h))
          | inl q ↦ rw q h
        ])
]

handle_lines-Fine :
    (d : OpenclawDecoder) (lines : List Text) (s : OpenclawScan)
    → FineOutput s
    → FineOutput (handle_lines d lines s)
unfolding handle_lines
handle_lines-Fine d [] s h = h
handle_lines-Fine d (line ∷ lines) s h = elim (Bool-cases (is_empty (trim_space line))) [
  | inl e ↦ rw (handle_lines, e) (handle_lines-Fine d lines s h)
  | inr e ↦
      rw (handle_lines, e)
        (handle_lines-Fine d lines (handle_line d (trim_space line) s)
          (handle_line-Fine d (trim_space line) s h))
]

settle_output-Fine : (s : OpenclawScan) → FineOutput s → FineOutput (settle_output s)
unfolding settle_output
settle_output-Fine s h = elim (Bool-cases s.got_events) [
  | inl e ↦ rw e h
  | inr e ↦
      rw (settle_output, e)
        (elim (Bool-cases (is_empty (trim_space (join (10 ∷ []) s.raw_lines)))) [
          | inl q ↦ rw q (inr (refl, refl))
          | inr q ↦ rw q (inl (refl, refl))
        ])
]

scan_output-Fine :
    (d : OpenclawDecoder) (scan_error : Option Text) (buf : Text)
    → FineOutput (scan_output d scan_error buf)
unfolding scan_output
scan_output-Fine d none buf =
    settle_output-Fine _ (handle_lines-Fine d (split 10 buf) start_output (inl (refl, refl)))
scan_output-Fine d (some e) buf = inr (refl, refl)

process_output-Fine :
    (d : OpenclawDecoder) (read_error scan_error : Option Text) (buf : Text)
    → FineOutput (process_output d read_error scan_error buf)
unfolding process_output whole_result
process_output-Fine d (some e) scan_error buf = inr (refl, refl)
process_output-Fine d none scan_error buf = elim (Option-cases (parse_whole_buffer d buf)) [
  | inl e ↦ rw (process_output, e) (scan_output-Fine d scan_error buf)
  | inr (r, e) ↦
      rw (process_output, e)
        (say_payloads-Fine (payload_texts r) (start_scan Text) (inl (refl, refl)))
]

-- Of a run of openclaw, whatever the CLI prints and however it ends: it is reported as completed
-- with no error, or as failed, timeout or aborted with an error that is not empty.
pub execute_openclaw-Reported :
    (opts : ExecOptions) (d : OpenclawDecoder) (read_error scan_error : Option Text)
    (ending : Ending) (buf : Text)
    → let res = execute_openclaw opts d read_error scan_error ending buf in
      Reported res.status res.error
unfolding execute_openclaw
execute_openclaw-Reported opts d read_error scan_error ending buf =
    judge-Reported (lit "openclaw") (process_output d read_error scan_error buf).scan.session_id
      (record ending { write_error = none }) _ (process_output-Fine d read_error scan_error buf)
