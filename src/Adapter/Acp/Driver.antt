-- ===== src/Adapter/Acp/Driver.antt =====
-- processAcpEvents and Execute of internal/adapter/acp.go. A write whose error is only logged goes
-- to an open stdin; the cancel watcher, which may write session/cancel at any time after the
-- context has ended, is not part of the scan.
use aiclibridge.Prelude.{
  or_text, Text, lit, List, [], ◌∷◌, ◌++◌, Option, none, some, if◌then◌else◌, Bool, true, false,
  text_eq, is_empty,
}
use aiclibridge.Prelude.Int.{pos, eq_ℤ}
use aiclibridge.Adapter.{Result, ExecOptions}
use aiclibridge.Adapter.Scan.{
  Scan, try_send, running_message, write_stdin, close_stdin, fail_with, scan_error, start_scan,
  read_line,
}
use aiclibridge.Adapter.Scan.Outcome.{Ending, conclude}
use aiclibridge.Adapter.Acp.{
  AcpDecoder, JsonrpcMessage, Request, Turn, is_response, int_id, initialize_request,
  session_request, prompt_request, response_error_message, acp_id_initialize, acp_id_session,
}
use aiclibridge.Adapter.Acp.Notifications.{
  extract_session_id, handle_acp_session_message, handle_acp_finished, extract_acp_error,
}

-- The session id after the response to session/new or session/load.
unfoldable pub established : AcpDecoder → Text → Text → Text → Text
unfolding extract_session_id
established d resume result session_id =
    if is_empty (extract_session_id d result)
    then if is_empty session_id then resume else session_id
    else extract_session_id d result

-- case acpIDSession
unfoldable pub open_session : Turn → AcpDecoder → Text → Scan Request → Scan Request
unfolding established try_send write_stdin
open_session t d result s =
    let id = established d t.resume_session_id result s.session_id in
    try_send (running_message id)
      (write_stdin (prompt_request t.prompt id) (record s { session_id = id }))

-- A response without an error.
unfoldable pub handle_response : Turn → AcpDecoder → JsonrpcMessage → Scan Request → Scan Request
unfolding write_stdin open_session int_id
handle_response t d m s =
    if eq_ℤ (int_id d m) (pos acp_id_initialize)
    then write_stdin (session_request t.resume_session_id) s
    else if eq_ℤ (int_id d m) (pos acp_id_session)
    then open_session t d m.result s
    else s

unfoldable pub session_error : Turn → AcpDecoder → Text → Text
unfolding extract_acp_error
session_error t d params =
    or_text (extract_acp_error d params) (t.cli ++ lit " reported session/error")

-- A notification; the Boolean is `terminal`.
unfoldable pub handle_notification :
    Turn → AcpDecoder → JsonrpcMessage → Scan Request → Scan Request × Bool
unfolding session_error fail_with
handle_notification t d m s =
    if text_eq m.method (lit "session/message")
    then (handle_acp_session_message d m.params s, false)
    else if text_eq m.method (lit "session/finished")
    then (close_stdin (handle_acp_finished d t.fallback_model m.params s), true)
    else if text_eq m.method (lit "session/error")
    then (close_stdin (fail_with (session_error t d m.params) s), true)
    else (s, false)

-- A message of the CLI. The break after an error response leaves the loop, like `terminal`.
unfoldable pub step : Turn → AcpDecoder → JsonrpcMessage → Scan Request → Scan Request × Bool
unfolding fail_with handle_response handle_notification is_response
step t d m s =
    if is_response m
    then elim m.error [
      | some e ↦ (close_stdin (fail_with (response_error_message e) s), true)
      | none ↦ (handle_response t d m s, false)
    ]
    else handle_notification t d m s

-- The loop; it ends with the first terminal message, or with stdout.
unfoldable pub drive : Turn → AcpDecoder → List Text → Scan Request → Scan Request × Bool
unfolding read_line step
drive t d [] s = (s, false)
drive t d (line ∷ lines) s = elim (read_line d.message line) [
  | none ↦ drive t d lines s
  | some m ↦
      let rest = drive t d lines (step t d m s).0 in if (step t d m s).1 then step t d m s else rest
]

unfoldable pub process_acp_events : Turn → AcpDecoder → Option Text → List Text → Scan Request
unfolding drive scan_error write_stdin
process_acp_events t d read_error lines =
    scan_error read_error (drive t d lines (write_stdin initialize_request (start_scan Request))).0

-- The end of Execute; there is no separate write of the prompt.
unfoldable pub execute_acp :
    Text → Text → ExecOptions → AcpDecoder → Option Text → Ending → List Text → Result
unfolding process_acp_events conclude
execute_acp cli prompt opts d read_error ending lines =
    let t : Turn = record {
      cli = cli;
      prompt = prompt;
      resume_session_id = opts.resume_session_id;
      fallback_model = if is_empty opts.model then lit "unknown" else opts.model;
    } in
    conclude cli opts.resume_session_id (record ending { write_error = none })
      (process_acp_events t d read_error lines)
