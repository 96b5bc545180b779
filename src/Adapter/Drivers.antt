-- ===== src/Adapter/Drivers.antt =====
-- The drivers of internal/adapter side by side, but for claude and codex.
use aiclibridge.Prelude.{Text, lit, List, Option}
use aiclibridge.Adapter.{ExecOptions, Result}
use aiclibridge.Adapter.Scan.Outcome.{Ending}
use aiclibridge.Adapter.Scan.Settled.{Reported}
use aiclibridge.Adapter.StreamJson.{Decoder}
use aiclibridge.Adapter.StreamJson.Qwen.{SdkMessage, execute_qwen, execute_codebuddy}
use aiclibridge.Adapter.StreamJson.Outcome.{execute-Reported}
use aiclibridge.Adapter.Acp.{AcpDecoder}
use aiclibridge.Adapter.Acp.Driver.{execute_acp}
use aiclibridge.Adapter.Acp.Outcome.{execute_acp-Reported}
use aiclibridge.Adapter.Opencode.{EventDecoder, execute_opencode, execute_gemini}
use aiclibridge.Adapter.Opencode.Outcome.{execute_opencode-Reported}
use aiclibridge.Adapter.Openclaw.{OpenclawDecoder}
use aiclibridge.Adapter.Openclaw.Output.{execute_openclaw}
use aiclibridge.Adapter.Openclaw.Outcome.{execute_openclaw-Reported}

-- What a CLI prints and what becomes of its stdout.
pub data DriverRun : Type 0 where
  qwen_run codebuddy_run :
      Decoder → (Text → Option SdkMessage) → Option Text → List Text → DriverRun
  acp_run : Text → Text → AcpDecoder → Option Text → List Text → DriverRun
  opencode_run gemini_run : EventDecoder → Option Text → List Text → DriverRun
  openclaw_run : OpenclawDecoder → Option Text → Option Text → Text → DriverRun

unfoldable pub result_of : ExecOptions → Ending → DriverRun → Result
result_of opts ending (qwen_run d decode e lines) = execute_qwen opts d decode e ending lines
result_of opts ending (codebuddy_run d decode e lines) =
    execute_codebuddy opts d decode e ending lines
result_of opts ending (acp_run cli prompt d e lines) = execute_acp cli prompt opts d e ending lines
result_of opts ending (opencode_run d e lines) = execute_opencode opts d e ending lines
result_of opts ending (gemini_run d e lines) = execute_gemini opts d e ending lines
result_of opts ending (openclaw_run d e scan_error buf) =
    execute_openclaw opts d e scan_error ending buf

-- Of a run of qwen, codebuddy, an ACP CLI, opencode, gemini or openclaw, whatever the CLI prints
-- and however it ends: it is reported as completed with no error, or as failed, timeout or aborted
-- with an error that is not empty.
pub result_of-Reported :
    (opts : ExecOptions) (ending : Ending) (run : DriverRun)
    → Reported (result_of opts ending run).status (result_of opts ending run).error
unfolding result_of execute_qwen execute_codebuddy
result_of-Reported opts ending (qwen_run d decode e lines) =
    execute-Reported (lit "qwen") opts d decode e ending lines
result_of-Reported opts ending (codebuddy_run d decode e lines) =
    execute-Reported (lit "codebuddy") opts d decode e ending lines
result_of-Reported opts ending (acp_run cli prompt d e lines) =
    execute_acp-Reported cli prompt opts d e ending lines
result_of-Reported opts ending (opencode_run d e lines) =
    (execute_opencode-Reported opts d e ending lines).0
result_of-Reported opts ending (gemini_run d e lines) =
    (execute_opencode-Reported opts d e ending lines).1
result_of-Reported opts ending (openclaw_run d e scan_error buf) =
    execute_openclaw-Reported opts d e scan_error ending buf
