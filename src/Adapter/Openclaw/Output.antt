-- ===== src/Adapter/Openclaw/Output.antt =====
-- processOutput of internal/adapter/openclaw.go, with parseWholeBufferOpenclawResult and
-- buildOpenclawEventResult, and the end of Execute. The errors of io.ReadAll and of the scanner (a
-- line that is too long) are arguments.
use aiclibridge.Prelude.{
  Text, lit, List, [], ◌∷◌, ◌++◌, Option, none, some, if◌then◌else◌, true, false, is_empty,
  trim_space, split, join, or_text,
}
use aiclibridge.Protocol.{Json, string, object, lookup_field}
use aiclibridge.Adapter.{TokenUsage, Result, ExecOptions}
use aiclibridge.Adapter.Scan.{
  Scan, TokenCounts, completed, failed, say_text, start_scan, no_tokens, has_tokens,
}
use aiclibridge.Adapter.Scan.Outcome.{Ending, judge}
use aiclibridge.Adapter.Openclaw.{
  OpenclawDecoder, OpenclawResult, OpenclawScan, handle_event, is_object, note_session,
  parse_openclaw_usage, try_parse_event, try_parse_result,
}

-- The lines from the first that begins an object, as one text.
unfoldable pub from_object : List Text → Option Text
from_object [] = none
from_object (line ∷ lines) =
    if is_object line then some (trim_space (join (10 ∷ []) (line ∷ lines))) else from_object lines

unfoldable pub parse_whole_buffer : OpenclawDecoder → Text → Option OpenclawResult
unfolding try_parse_result from_object split trim_space
parse_whole_buffer d buf =
    if is_empty (trim_space buf) then none else elim (try_parse_result d (trim_space buf)) [
      | some r ↦ some r
      | none ↦ elim (from_object (split 10 (trim_space buf))) [
        | none ↦ none
        | some candidate ↦ try_parse_result d candidate
      ]
    ]

unfoldable pub say_payloads : List Text → Scan Text → Scan Text
unfolding say_text
say_payloads [] s = s
say_payloads (text ∷ texts) s = say_payloads texts (say_text text s)

abbrev pub payload_texts : OpenclawResult → List Text
payload_texts r = elim r.payloads [ none ↦ [] | some texts ↦ texts ]

abbrev string_of : Option Json → Text
string_of (some (string s)) = s
string_of _ = []

abbrev meta_field : Text → OpenclawResult → Option Json
meta_field key r = elim r.agent_meta [ none ↦ none | some meta ↦ lookup_field key meta ]

abbrev meta_usage : OpenclawDecoder → Option Json → TokenUsage
meta_usage d (some (object usage)) = parse_openclaw_usage d usage
meta_usage d _ = no_tokens

-- buildOpenclawEventResult: what a result says, its session, model and usage.
unfoldable pub result_session : OpenclawResult → Text
unfolding lookup_field
result_session r = string_of (meta_field (lit "sessionId") r)

unfoldable pub result_model : OpenclawResult → Text
unfolding lookup_field trim_space
result_model r = trim_space (string_of (meta_field (lit "model") r))

unfoldable pub result_tokens : OpenclawDecoder → OpenclawResult → TokenUsage
unfolding lookup_field
result_tokens d r = meta_usage d (meta_field (lit "usage") r)

-- A result on a line of its own.
unfoldable pub handle_result : OpenclawDecoder → OpenclawResult → OpenclawScan → OpenclawScan
unfolding say_payloads note_session result_session result_model result_tokens has_tokens
handle_result d r s = record s {
  got_events = true;
  scan = note_session (result_session r) (say_payloads (payload_texts r) s.scan);
  model = or_text (result_model r) s.model;
  spent = if has_tokens (result_tokens d r) then result_tokens d r else s.spent;
}

-- A line that is neither an event nor a result is kept.
unfoldable pub handle_line : OpenclawDecoder → Text → OpenclawScan → OpenclawScan
unfolding handle_event handle_result try_parse_event try_parse_result
handle_line d line s = elim (try_parse_event d line) [
  | some event ↦ handle_event d event s
  | none ↦ elim (try_parse_result d line) [
    | some r ↦ handle_result d r s
    | none ↦ record s { raw_lines = s.raw_lines ++ line ∷ [] }
  ]
]

unfoldable pub handle_lines : OpenclawDecoder → List Text → OpenclawScan → OpenclawScan
unfolding handle_line trim_space
handle_lines d [] s = s
handle_lines d (line ∷ lines) s =
    handle_lines d lines
      (if is_empty (trim_space line) then s else handle_line d (trim_space line) s)

abbrev pub start_output : OpenclawScan
start_output = record {
  scan = start_scan Text;
  spent = no_tokens;
  model = [];
  got_events = false;
  raw_lines = [];
}

-- A return of a result that holds a status, an output and an error alone; messages that were sent
-- stay sent.
abbrev pub bare : Text → Text → Text → OpenclawScan → OpenclawScan
bare status output error s = record start_output {
  scan = record (start_scan Text) {
    status = status;
    output = output;
    error = error;
    offered = s.scan.offered;
  };
}

-- Whether any event was read; else the raw lines are the output.
unfoldable pub settle_output : OpenclawScan → OpenclawScan
unfolding trim_space
settle_output s =
    let raw = trim_space (join (10 ∷ []) s.raw_lines) in
    if s.got_events
    then s
    else if is_empty raw
    then bare failed [] (lit "openclaw returned no parseable output") s
    else bare completed raw [] s

-- The result that is the whole output.
unfoldable pub whole_result : OpenclawDecoder → OpenclawResult → OpenclawScan
unfolding say_payloads result_session result_model result_tokens
whole_result d r = record start_output {
  scan = record (say_payloads (payload_texts r) (start_scan Text)) {
    session_id = result_session r;
  };
  model = result_model r;
  spent = result_tokens d r;
}

unfoldable pub scan_output : OpenclawDecoder → Option Text → Text → OpenclawScan
unfolding handle_lines settle_output split
scan_output d scan_error buf =
    let s = handle_lines d (split 10 buf) start_output in
    elim scan_error [
      | none ↦ settle_output s
      | some e ↦ bare failed [] (lit "read stdout: " ++ e) s
    ]

unfoldable pub process_output : OpenclawDecoder → Option Text → Option Text → Text → OpenclawScan
unfolding parse_whole_buffer whole_result scan_output
process_output d (some e) scan_error buf = bare failed [] (lit "read stdout: " ++ e) start_output
process_output d none scan_error buf = elim (parse_whole_buffer d buf) [
  | some r ↦ whole_result d r
  | none ↦ scan_output d scan_error buf
]

abbrev usage_of : ExecOptions → OpenclawScan → TokenCounts
usage_of opts s =
    if has_tokens s.spent
    then (or_text s.model (or_text opts.model (lit "unknown")), s.spent) ∷ []
    else []

-- The end of Execute.
unfoldable pub execute_openclaw :
    ExecOptions → OpenclawDecoder → Option Text → Option Text → Ending → Text → Result
unfolding process_output judge has_tokens
execute_openclaw opts d read_error scan_error ending buf =
    let s = process_output d read_error scan_error buf in
    let v =
      judge (lit "openclaw") (record ending { write_error = none }) s.scan.session_id
        (record { status = s.scan.status; error = s.scan.error }) in
    record {
      status = v.status;
      output = s.scan.output;
      error = v.error;
      duration_ms = ending.duration_ms;
      session_id = s.scan.session_id;
      usage = usage_of opts s;
    }
