-- ===== src/Adapter/Acp/Outcome.antt =====
-- The outcome and the output of an ACP turn.
use aiclibridge.Prelude.{◌≡◌, refl, Text, lit, List, Option, none, inl, is_empty, if◌then◌else◌}
use aiclibridge.Adapter.{ExecOptions}
use aiclibridge.Adapter.Scan.{Scan, write_stdin, start_scan}
use aiclibridge.Adapter.Scan.Outcome.{Ending}
use aiclibridge.Adapter.Scan.Settled.{SettledScan, Reported, scan_error-Settled, conclude-Reported}
use aiclibridge.Adapter.Scan.Invariant.{
  Spoken, Spoken-invariant, Spoken-stdin, Settled-invariant, Settled-stdin, fail_with-Spoken,
  fail_with-SettledScan, scan_error-Spoken, texts_of,
}
use aiclibridge.Adapter.Acp.{AcpDecoder, Request, Turn, initialize_request}
use aiclibridge.Adapter.Acp.Driver.{process_acp_events, execute_acp, drive}
use aiclibridge.Adapter.Acp.Kept.{drive-keeps}

abbrev greeted : Scan Request
greeted = write_stdin initialize_request (start_scan Request)

process_acp_events-Settled :
    (t : Turn) (d : AcpDecoder) (read_error : Option Text) (lines : List Text)
    → SettledScan (process_acp_events t d read_error lines)
unfolding process_acp_events write_stdin
process_acp_events-Settled t d read_error lines =
    scan_error-Settled read_error (drive t d lines greeted).0 (
      drive-keeps (λ s. SettledScan s) Settled-invariant d Settled-stdin t
        (λ e s filled h. fail_with-SettledScan e s filled) lines greeted (inl (refl, refl)))

-- Of a run of an ACP CLI, whatever the CLI prints and however it ends: it is reported as completed
-- with no error, or as failed, timeout or aborted with an error that is not empty.
pub execute_acp-Reported :
    (cli prompt : Text) (opts : ExecOptions) (d : AcpDecoder) (read_error : Option Text)
    (ending : Ending) (lines : List Text)
    → let res = execute_acp cli prompt opts d read_error ending lines in
      Reported res.status res.error
unfolding execute_acp
execute_acp-Reported cli prompt opts d read_error ending lines =
    let t : Turn = record {
      cli = cli;
      prompt = prompt;
      resume_session_id = opts.resume_session_id;
      fallback_model = if is_empty opts.model then lit "unknown" else opts.model;
    } in
    conclude-Reported cli opts.resume_session_id (record ending { write_error = none })
      (process_acp_events t d read_error lines) (process_acp_events-Settled t d read_error lines)

-- The output of an ACP turn is the contents of the text messages that it sent, one after the
-- other, however the turn ends.
pub process_acp_events-Spoken :
    (t : Turn) (d : AcpDecoder) (read_error : Option Text) (lines : List Text)
    → let s = process_acp_events t d read_error lines in s.output ≡ texts_of s.offered
unfolding process_acp_events write_stdin texts_of
process_acp_events-Spoken t d read_error lines =
    scan_error-Spoken read_error (drive t d lines greeted).0 (
      drive-keeps (λ s. Spoken s) Spoken-invariant d Spoken-stdin t
        (λ e s filled h. fail_with-Spoken e s h) lines greeted refl)
