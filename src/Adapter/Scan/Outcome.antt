-- ===== src/Adapter/Scan/Outcome.antt =====
-- The end of Execute in the drivers of internal/adapter: the switch over the context, the prompt's
-- write and the exit of the process; resolveSessionID and withXStderr.
use aiclibridge.Prelude.{
  ℕ, Text, lit, [], ◌++◌, Option, none, some, if◌then◌else◌, Bool, ◌&&◌, text_eq, is_empty, not,
}
use aiclibridge.Adapter.{Result}
use aiclibridge.Adapter.Scan.{Scan, completed, failed}

-- runCtx.Err() when the process has ended.
pub data ContextEnd : Type 0 where
  alive deadline_exceeded canceled : ContextEnd

-- What the end of Execute finds; `timeout` is the printed duration.
pub record Ending : Type 0 where
  pub context : ContextEnd
  pub timeout : Text
  pub write_error : Option Text
  pub exit_error : Option Text
  pub stderr_tail : Text
  pub duration_ms : ℕ

-- A claim of resume that failed with a fresh session is not reported.
unfoldable pub resolve_session_id : Text → Text → Bool → Text
resolve_session_id requested emitted is_failed =
    if is_failed
      && (not (is_empty requested) && (not (is_empty emitted) && not (text_eq emitted requested)))
    then []
    else emitted

unfoldable pub with_stderr : Text → Text → Text → Text
with_stderr cli message tail =
    if is_empty tail then message else message ++ lit "; " ++ cli ++ lit " stderr: " ++ tail

-- status and errMsg after the scan, and the session id that the scan found
pub record Verdict : Type 0 where
  pub status : Text
  pub error : Text

abbrev pub exit_verdict : Text → Option Text → Verdict → Verdict
exit_verdict cli none v = v
exit_verdict cli (some e) v =
    if text_eq v.status completed
    then record { status = failed; error = cli ++ lit " exited with error: " ++ e }
    else v

abbrev pub write_verdict : Text → Option Text → Text → Option Text → Verdict → Verdict
write_verdict cli none session_id exit_error v = exit_verdict cli exit_error v
write_verdict cli (some e) session_id exit_error v =
    let other = exit_verdict cli exit_error v in
    if text_eq v.status completed && is_empty session_id
    then record { status = failed; error = lit "write " ++ cli ++ lit " input: " ++ e }
    else other

abbrev context_verdict : Text → ContextEnd → Text → Verdict → Verdict
context_verdict cli alive timeout v = v
context_verdict cli deadline_exceeded timeout v = record {
  status = lit "timeout";
  error = cli ++ lit " timed out after " ++ timeout;
}
context_verdict cli canceled timeout v = record {
  status = lit "aborted";
  error = lit "execution cancelled";
}

-- The switch.
unfoldable pub judge : Text → Ending → Text → Verdict → Verdict
judge cli end session_id v = elim end.context [
  | alive ↦ write_verdict cli end.write_error session_id end.exit_error v
  | deadline_exceeded ↦ context_verdict cli deadline_exceeded end.timeout v
  | canceled ↦ context_verdict cli canceled end.timeout v
]

unfoldable pub describe_error : Text → Text → Text → Text
unfolding with_stderr
describe_error cli error tail = if is_empty error then error else with_stderr cli error tail

unfoldable pub report : {Frame : Type 0} → Text → Text → Ending → Scan Frame → Verdict → Result
unfolding resolve_session_id describe_error
report cli resume end s v = record {
  status = v.status;
  output = s.output;
  error = describe_error cli v.error end.stderr_tail;
  duration_ms = end.duration_ms;
  session_id = resolve_session_id resume s.session_id (text_eq v.status failed);
  usage = s.usage;
}

-- The end of Execute: the switch and the Result.
unfoldable pub conclude : {Frame : Type 0} → Text → Text → Ending → Scan Frame → Result
unfolding judge report
conclude cli resume end s =
    report cli resume end s
      (judge cli end s.session_id (record { status = s.status; error = s.error }))
