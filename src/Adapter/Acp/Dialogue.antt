-- ===== src/Adapter/Acp/Dialogue.antt =====
-- The handshake of an ACP turn as a protocol of its own: the client asks, the CLI answers what was
-- asked last, and notifies at any time.
use mathlib.Core.Path.{subst}
use aiclibridge.Prelude.{
  ◌≡◌, refl, ap, sym, ◌∙◌, Text, lit, List, [], ◌∷◌, ◌++◌, Option, none, some, is_empty, text_eq,
  Bool, true, false, Bool-cases, inl, inr, arith, ◌||◌,
}
use aiclibridge.Prelude.Int.{ℤ, pos}
use aiclibridge.Adapter.Scan.{
  Scan, completed, try_send, say_text, write_stdin, close_stdin, start_scan, read_line, scan_error,
}
use aiclibridge.Adapter.Scan.Invariant.{Invariant}
use aiclibridge.Adapter.Acp.Kept.{handle_acp_session_message-keeps, handle_acp_finished-keeps}
use aiclibridge.Adapter.Acp.{
  AcpDecoder, JsonrpcMessage, Request, Turn, is_response, int_id, initialize_request,
  session_request, prompt_request, acp_id_initialize, acp_id_session, acp_id_prompt,
}
use aiclibridge.Adapter.Acp.Notifications.{handle_acp_finished}
use aiclibridge.Adapter.Acp.Driver.{
  established, open_session, handle_response, handle_notification, step, drive, process_acp_events,
}

-- Which request waits for its answer; `prompting` is also the rest of the turn.
pub data Phase : Type 0 where
  initializing opening prompting : Phase

abbrev pub next_phase : Phase → Phase
next_phase initializing = opening
next_phase opening = prompting
next_phase prompting = prompting

abbrev pub awaited : Phase → ℤ
awaited initializing = pos acp_id_initialize
awaited opening = pos acp_id_session
awaited prompting = pos acp_id_prompt

-- The methods that end a turn.
abbrev pub ends_turn : Text → Bool
ends_turn method = text_eq method (lit "session/finished") || text_eq method (lit "session/error")

-- What the CLI prints from one phase to another while the turn goes on.
pub data Dialogue (d : AcpDecoder) : Phase → List Text → Phase → Type 0 where
  quiet : {p : Phase} → Dialogue d p [] p
  skipped :
      {p q : Phase} {line : Text} {lines : List Text}
      → read_line d.message line ≡ none
      → Dialogue d p lines q
      → Dialogue d p (line ∷ lines) q
  notified :
      {p q : Phase} {line : Text} {lines : List Text} (m : JsonrpcMessage)
      → read_line d.message line ≡ some m
      → is_response m ≡ false
      → ends_turn m.method ≡ false
      → Dialogue d p lines q
      → Dialogue d p (line ∷ lines) q
  answered :
      {p q : Phase} {line : Text} {lines : List Text} (m : JsonrpcMessage)
      → read_line d.message line ≡ some m
      → is_response m ≡ true
      → m.error ≡ none
      → int_id d m ≡ awaited p
      → Dialogue d (next_phase p) lines q
      → Dialogue d p (line ∷ lines) q

-- The requests that the protocol has the client write up to a phase, the last for some session.
abbrev pub handshake : Turn → Text → Phase → List Request
handshake t id initializing = initialize_request ∷ []
handshake t id opening = initialize_request ∷ session_request t.resume_session_id ∷ []
handshake t id prompting =
    initialize_request ∷ session_request t.resume_session_id ∷ prompt_request t.prompt id ∷ []

-- The client is in a phase: nothing has failed, it has written these requests, its stdin is open.
abbrev pub At : Turn → Phase → Scan Request → Type 0
At t p s =
    ((s.stdin_open ≡ true) × (s.status ≡ completed))
    × ((id : Text) × (s.written ≡ handshake t id p))

module _ (t : Turn) (p : Phase) where
  say_text-At : (text : Text) (s : Scan Request) → At t p s → At t p (say_text text s)
  unfolding say_text try_send
  say_text-At text s h = elim (Bool-cases (is_empty text)) [ inl e ↦ rw e h | inr e ↦ rw e h ]

  At-invariant : Invariant (At t p)
  unfolding try_send
  At-invariant = record {
    sends = λ m s e h. h;
    says = say_text-At;
    counts = λ usage s h. h;
    notes = λ id s h. h;
  }

module _ (t : Turn) (d : AcpDecoder) where
  handle_notification-At :
      (p : Phase) (m : JsonrpcMessage) (s : Scan Request)
      → ends_turn m.method ≡ false
      → At t p s
      → (At t p (handle_notification t d m s).0) × ((handle_notification t d m s).1 ≡ false)
  unfolding handle_notification
  handle_notification-At p m s e h =
      let kept = handle_acp_session_message-keeps (At t p) (At-invariant t p) d m.params s h in
      let open_end : text_eq m.method (lit "session/finished") ≡ false = ground (arith, e) in
      let no_error : text_eq m.method (lit "session/error") ≡ false = ground (arith, e) in
      elim (Bool-cases (text_eq m.method (lit "session/message"))) [
        | inl q ↦ rw (handle_notification, q) (kept, refl)
        | inr q ↦ rw (handle_notification, q, open_end, no_error) (h, refl)
      ]

  handle_response-At :
      (p : Phase) (m : JsonrpcMessage) (s : Scan Request)
      → int_id d m ≡ awaited p
      → At t p s
      → At t (next_phase p) (handle_response t d m s)
  unfolding handle_response open_session write_stdin try_send
  handle_response-At initializing m s e ((o, c), (id, w)) =
      rw (handle_response, e, o, w) ((refl, c), (id, refl))
  handle_response-At opening m s e ((o, c), (id, w)) =
      rw (handle_response, e, o, w)
        ((refl, c), (established d t.resume_session_id m.result s.session_id, refl))
  handle_response-At prompting m s e h = rw (handle_response, e) h

  step-At :
      (p : Phase) (m : JsonrpcMessage) (s : Scan Request)
      → is_response m ≡ true
      → m.error ≡ none
      → int_id d m ≡ awaited p
      → At t p s
      → (At t (next_phase p) (step t d m s).0) × ((step t d m s).1 ≡ false)
  unfolding step
  step-At p m s r e i h = rw (step, r, e) (handle_response-At p m s i h, refl)

  drive-skipped :
      (line : Text) (lines : List Text) (s : Scan Request)
      → read_line d.message line ≡ none
      → drive t d (line ∷ lines) s ≡ drive t d lines s
  unfolding drive
  drive-skipped line lines s e = rw (drive, e) refl

  drive-on :
      (line : Text) (lines : List Text) (m : JsonrpcMessage) (s : Scan Request)
      → read_line d.message line ≡ some m
      → (step t d m s).1 ≡ false
      → drive t d (line ∷ lines) s ≡ drive t d lines (step t d m s).0
  unfolding drive
  drive-on line lines m s e on = rw (drive, e, on) refl

  -- The driver comes to `r` by the lines of a dialogue and reads on from there.
  abbrev Leads : Phase → List Text → Scan Request → Scan Request × Bool → Type 0
  Leads q lines s r =
      (At t q r.0) × ((rest : List Text) → drive t d (lines ++ rest) s ≡ drive t d rest r.0)

  abbrev Reaches : Phase → List Text → Scan Request → Type 0
  Reaches q lines s = Leads q lines s (drive t d lines s)

  Reaches-skipped :
      (q : Phase) (line : Text) (lines : List Text) (s : Scan Request)
      → read_line d.message line ≡ none
      → Reaches q lines s
      → Reaches q (line ∷ lines) s
  Reaches-skipped q line lines s e (here, there) =
      subst (λ (r : Scan Request × Bool). Leads q (line ∷ lines) s r)
        (sym (drive-skipped line lines s e))
        (here, λ rest. drive-skipped line (lines ++ rest) s e ∙ there rest)

  Reaches-on :
      (q : Phase) (line : Text) (lines : List Text) (m : JsonrpcMessage) (s : Scan Request)
      → read_line d.message line ≡ some m
      → (step t d m s).1 ≡ false
      → Reaches q lines (step t d m s).0
      → Reaches q (line ∷ lines) s
  Reaches-on q line lines m s e on (here, there) =
      subst (λ (r : Scan Request × Bool). Leads q (line ∷ lines) s r)
        (sym (drive-on line lines m s e on))
        (here, λ rest. drive-on line (lines ++ rest) m s e on ∙ there rest)

  step-notified :
      (p : Phase) (m : JsonrpcMessage) (s : Scan Request)
      → is_response m ≡ false
      → ends_turn m.method ≡ false
      → At t p s
      → (At t p (step t d m s).0) × ((step t d m s).1 ≡ false)
  unfolding step
  step-notified p m s r n h = rw (step, r) (handle_notification-At p m s n h)

  drive-At :
      (p q : Phase) (lines : List Text)
      → Dialogue d p lines q
      → (s : Scan Request) → At t p s
      → Reaches q lines s
  unfolding drive
  drive-At p q [] quiet s h = (h, λ rest. refl)
  drive-At p q (line ∷ lines) (skipped e more) s h =
      Reaches-skipped q line lines s e (drive-At p q lines more s h)
  drive-At p q (line ∷ lines) (notified m e r n more) s h =
      let (kept, on) = step-notified p m s r n h in
      Reaches-on q line lines m s e on (drive-At p q lines more (step t d m s).0 kept)
  drive-At p q (line ∷ lines) (answered m e r x i more) s h =
      let (kept, on) = step-At p m s r x i h in
      Reaches-on q line lines m s e on (drive-At (next_phase p) q lines more (step t d m s).0 kept)

abbrev greeted : Scan Request
greeted = write_stdin initialize_request (start_scan Request)

greeted-At : (t : Turn) → At t initializing greeted
unfolding write_stdin
greeted-At t = ((refl, refl), ([], refl))

scan_error-written :
    (e : Option Text) (s : Scan Request)
    → ((scan_error e s).written ≡ s.written) × ((scan_error e s).stdin_open ≡ s.stdin_open)
unfolding scan_error
scan_error-written none s = (refl, refl)
scan_error-written (some e) s = elim (Bool-cases (text_eq s.status completed)) [
  | inl q ↦ rw q (refl, refl)
  | inr q ↦ rw q (refl, refl)
]

-- The driver keeps to the protocol: when the CLI only answers the request that waits for its
-- answer, without an error, and notifies of anything but the end, then what the client has written
-- is exactly initialize, then session/new or session/load, then session/prompt, as far as the
-- answers allow, each once; and its stdin is still open.
pub process_acp_events-handshake :
    (t : Turn) (d : AcpDecoder) (read_error : Option Text) (lines : List Text) (q : Phase)
    → Dialogue d initializing lines q
    → let s = process_acp_events t d read_error lines in
      ((id : Text) × (s.written ≡ handshake t id q)) × (s.stdin_open ≡ true)
unfolding process_acp_events
process_acp_events-handshake t d read_error lines q dialogue =
    let (((o, c), (id, w)), on) =
      drive-At t d initializing q lines dialogue greeted (greeted-At t) in
    let (same, open_still) = scan_error-written read_error (drive t d lines greeted).0 in
    ((id, same ∙ w), open_still ∙ o)

drive-finished :
    (t : Turn) (d : AcpDecoder) (line : Text) (rest : List Text) (m : JsonrpcMessage)
    (s : Scan Request)
    → read_line d.message line ≡ some m
    → is_response m ≡ false
    → m.method ≡ lit "session/finished"
    → drive t d (line ∷ rest) s
      ≡ (close_stdin (handle_acp_finished d t.fallback_model m.params s), true)
unfolding drive step handle_notification text_eq
drive-finished t d line rest m s e r f = rw (drive, e, step, r, handle_notification, f) refl

-- A turn ends when the CLI says so: after a dialogue that has come to the prompt, a session/finished
-- has the client close its stdin, with the three requests written and the status completed,
-- whatever the CLI prints afterwards.
pub process_acp_events-finished :
    (t : Turn) (d : AcpDecoder) (before : List Text) (line : Text) (rest : List Text)
    (m : JsonrpcMessage)
    → Dialogue d initializing before prompting
    → read_line d.message line ≡ some m
    → is_response m ≡ false
    → m.method ≡ lit "session/finished"
    → let s = process_acp_events t d none (before ++ line ∷ rest) in
      (s.stdin_open ≡ false)
      × (s.status ≡ completed)
      × ((id : Text) × (s.written ≡ handshake t id prompting))
      × (s ≡ process_acp_events t d none (before ++ line ∷ []))
unfolding process_acp_events scan_error
process_acp_events-finished t d before line rest m dialogue e r f =
    let (here, on) = drive-At t d initializing prompting before dialogue greeted (greeted-At t) in
    let s = (drive t d before greeted).0 in
    let stops = λ (more : List Text). on (line ∷ more) ∙ drive-finished t d line more m s e r f in
    let ((o, c), (id, w)) =
      handle_acp_finished-keeps (At t prompting) (At-invariant t prompting) d t.fallback_model
        m.params s here in
    (
      ap (λ (r : Scan Request × Bool). r.0.stdin_open) (stops rest),
      ap (λ (r : Scan Request × Bool). r.0.status) (stops rest) ∙ c,
      (id, ap (λ (r : Scan Request × Bool). r.0.written) (stops rest) ∙ w),
      ap (λ (r : Scan Request × Bool). r.0) (stops rest ∙ sym (stops [])),
    )
