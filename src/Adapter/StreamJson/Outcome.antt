-- ===== src/Adapter/StreamJson/Outcome.antt =====
-- The outcome and the output of a run of qwen or codebuddy.
use aiclibridge.Prelude.{
  or_text-filled, ◌≡◌, refl, Text, lit, List, Option, is_empty, Bool, true, false, Bool-cases, inl,
  inr, ◌++◌,
}
use aiclibridge.Adapter.{ExecOptions}
use aiclibridge.Adapter.Scan.{Scan, scan_lines, start_scan}
use aiclibridge.Adapter.Scan.Outcome.{Ending}
use aiclibridge.Adapter.Scan.Settled.{
  SettledScan, Reported, scan_error-Settled, conclude-Reported, filled-append,
}
use aiclibridge.Adapter.Scan.Invariant.{
  scan_lines-keeps, scan_lines-keeps_where, all_events, Spoken, Spoken-invariant, Spoken-stdin,
  Settled-invariant, Settled-stdin, fail_with-Spoken, fail_with-SettledScan, scan_error-Spoken,
  texts_of,
}
use aiclibridge.Adapter.StreamJson.{Decoder}
use aiclibridge.Adapter.StreamJson.Qwen.{
  SdkMessage, result_error, take_result, handle_result, step, process_events, fallback, execute,
}
use aiclibridge.Adapter.StreamJson.Kept.{step-keeps}

result_error-filled :
    (cli so_far : Text) (event : SdkMessage) → is_empty (result_error cli event so_far) ≡ false
unfolding result_error
result_error-filled cli so_far event =
    or_text-filled _ (cli ++ lit " reported error result") (filled-append cli _ refl)

handle_result-Settled :
    (cli model : Text) (event : SdkMessage) (s : Scan Text)
    → SettledScan s
    → SettledScan (handle_result cli model event s)
unfolding handle_result take_result
handle_result-Settled cli model event s h = elim (Bool-cases event.is_error) [
  | inl e ↦ rw e (
      fail_with-SettledScan (result_error cli event s.error) (take_result model event s)
        (result_error-filled cli s.error event))
  | inr e ↦ rw e h
]

process_events-Settled :
    (cli model : Text) (d : Decoder) (decode : Text → Option SdkMessage) (read_error : Option Text)
    (lines : List Text)
    → SettledScan (process_events cli model d decode read_error lines)
unfolding process_events
process_events-Settled cli model d decode read_error lines = scan_error-Settled read_error _ (
    scan_lines-keeps (λ s. SettledScan s) decode (step cli model d)
      (λ event.
        step-keeps _ Settled-invariant d Settled-stdin cli model event
          (handle_result-Settled cli model event))
      lines (start_scan Text) (inl (refl, refl)))

-- Of a run of qwen or codebuddy, whatever the CLI prints and however it ends: it is reported as
-- completed with no error, or as failed, timeout or aborted with an error that is not empty.
pub execute-Reported :
    (cli : Text) (opts : ExecOptions) (d : Decoder) (decode : Text → Option SdkMessage)
    (read_error : Option Text) (ending : Ending) (lines : List Text)
    → let res = execute cli opts d decode read_error ending lines in Reported res.status res.error
unfolding execute
execute-Reported cli opts d decode read_error ending lines =
    conclude-Reported cli opts.resume_session_id ending
      (process_events cli (fallback opts.model) d decode read_error lines)
      (process_events-Settled cli (fallback opts.model) d decode read_error lines)

-- An event that is no result with a text.
abbrev pub no_result_text : SdkMessage → Bool
no_result_text event = is_empty event.result_text

handle_result-Spoken :
    (cli model : Text) (event : SdkMessage)
    → no_result_text event ≡ true
    → (s : Scan Text) → Spoken s
    → Spoken (handle_result cli model event s)
unfolding handle_result take_result
handle_result-Spoken cli model event quiet s h = elim (Bool-cases event.is_error) [
  | inl e ↦
      rw e
        (fail_with-Spoken (result_error cli event s.error) (take_result model event s) (rw quiet h))
  | inr e ↦ rw (e, quiet) h
]

-- Of qwen and codebuddy: when no line that the CLI prints decodes to an event with a result text,
-- the output of the scan is the contents of the text messages that it sent, one after the other,
-- also where the scanner ends with an error.
pub process_events-Spoken :
    (cli model : Text) (d : Decoder) (decode : Text → Option SdkMessage) (read_error : Option Text)
    (lines : List Text)
    → all_events decode no_result_text lines ≡ true
    → let s = process_events cli model d decode read_error lines in s.output ≡ texts_of s.offered
unfolding process_events texts_of
process_events-Spoken cli model d decode read_error lines quiet =
    scan_error-Spoken read_error (scan_lines decode (step cli model d) lines (start_scan Text)) (
      scan_lines-keeps_where (λ s. Spoken s) decode (step cli model d) no_result_text
        (λ event q.
          step-keeps _ Spoken-invariant d Spoken-stdin cli model event
            (handle_result-Spoken cli model event q))
        lines (start_scan Text) quiet refl)
