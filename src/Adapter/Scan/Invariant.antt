-- ===== src/Adapter/Scan/Invariant.antt =====
-- Properties of a scan that its elementary operations keep, and two of them: that the output is
-- what the text messages say, and how status and error fit.
use aiclibridge.Prelude.{
  ◌≡◌, refl, ap, sym, ◌∙◌, inl, inr, Text, List, [], ◌∷◌, ◌++◌, Option, none, some, is_empty,
  text_eq, Bool, true, false, Bool-cases, Option-cases, arith, if◌then◌else◌, append-nil,
  append_assoc, ◌&&◌,
}
use aiclibridge.Adapter.{Message, message_text}
use aiclibridge.Adapter.Scan.{
  Scan, TokenCounts, completed, failed, scan_error, fail_with, try_send, say_text, say_thinking,
  write_stdin, close_stdin, scan_lines, read_line, text_message, thinking_message, error_message,
}
use aiclibridge.Adapter.Scan.Settled.{SettledScan}

abbrev pub is_text : Message → Bool
is_text m = text_eq m.type message_text

pub record Invariant {Frame : Type 0} (P : Scan Frame → Type 0) : Type 0 where
  pub sends : (m : Message) (s : Scan Frame) → is_text m ≡ false → P s → P (try_send m s)
  pub says : (text : Text) (s : Scan Frame) → P s → P (say_text text s)
  pub counts : (usage : TokenCounts) (s : Scan Frame) → P s → P (record s { usage = usage })
  pub notes : (id : Text) (s : Scan Frame) → P s → P (record s { session_id = id })

-- The same for what happens on stdin.
pub record StdinInvariant {Frame : Type 0} (P : Scan Frame → Type 0) : Type 0 where
  pub writes : (frame : Frame) (s : Scan Frame) → P s → P (write_stdin frame s)
  pub closes : (s : Scan Frame) → P s → P (close_stdin s)

module _ {Frame : Type 0} (P : Scan Frame → Type 0) (inv : Invariant P) where
  pub say_thinking-keeps : (text : Text) (s : Scan Frame) → P s → P (say_thinking text s)
  unfolding say_thinking text_eq
  say_thinking-keeps text s h = elim (Bool-cases (is_empty text)) [
    | inl e ↦ rw e h
    | inr e ↦ rw e (inv.sends (thinking_message text) s refl h)
  ]

pub scan_lines-keeps :
    {Event State : Type 0} (P : State → Type 0) (decode : Text → Option Event)
    (step : Event → State → State)
    → ((event : Event) (s : State) → P s → P (step event s))
    → (lines : List Text) (s : State) → P s
    → P (scan_lines decode step lines s)
unfolding scan_lines
scan_lines-keeps P decode step keeps [] s h = h
scan_lines-keeps P decode step keeps (line ∷ lines) s h =
    elim (Option-cases (read_line decode line)) [
      | inl e ↦ rw (scan_lines, e) (scan_lines-keeps P decode step keeps lines s h)
      | inr (event, e) ↦
          rw (scan_lines, e)
            (scan_lines-keeps P decode step keeps lines (step event s) (keeps event s h))
    ]

-- Every line that decodes passes a test.
unfoldable pub all_events :
    {Event : Type 0} → (Text → Option Event) → (Event → Bool) → List Text → Bool
all_events decode ok [] = true
all_events decode ok (line ∷ lines) = elim (read_line decode line) [
  | none ↦ all_events decode ok lines
  | some event ↦ ok event && all_events decode ok lines
]

pub scan_lines-keeps_where :
    {Event State : Type 0} (P : State → Type 0) (decode : Text → Option Event)
    (step : Event → State → State) (ok : Event → Bool)
    → ((event : Event) → ok event ≡ true → (s : State) → P s → P (step event s))
    → (lines : List Text) (s : State) → all_events decode ok lines ≡ true
    → P s
    → P (scan_lines decode step lines s)
unfolding scan_lines all_events
scan_lines-keeps_where P decode step ok keeps [] s t h = h
scan_lines-keeps_where P decode step ok keeps (line ∷ lines) s t h =
    elim (Option-cases (read_line decode line)) [
      | inl e ↦
          let rest : all_events decode ok lines ≡ true = ground (arith, e, t) in
          rw (scan_lines, e) (scan_lines-keeps_where P decode step ok keeps lines s rest h)
      | inr (event, e) ↦
          let here : ok event ≡ true = ground (arith, e, t) in
          let rest : all_events decode ok lines ≡ true = ground (arith, e, t) in
          rw (scan_lines, e)
            (scan_lines-keeps_where P decode step ok keeps lines (step event s) rest
              (keeps event here s h))
    ]

-- The text of a list of messages: the contents of the text messages, one after the other.
unfoldable pub texts_of : List Message → Text
texts_of [] = []
texts_of (m ∷ ms) = if is_text m then m.content ++ texts_of ms else texts_of ms

texts_of-append :
    (ms : List Message) (m : Message) → texts_of (ms ++ m ∷ []) ≡ texts_of ms ++ texts_of (m ∷ [])
unfolding texts_of
texts_of-append [] m = refl
texts_of-append (x ∷ ms) m = elim (Bool-cases (is_text x)) [
  | inl e ↦ rw (e, texts_of-append ms m) (sym (append_assoc x.content (texts_of ms) _))
  | inr e ↦ rw e (texts_of-append ms m)
]

-- The output of a scan is what its text messages say.
abbrev pub Spoken : {Frame : Type 0} → Scan Frame → Type 0
Spoken s = s.output ≡ texts_of s.offered

module _ {Frame : Type 0} where
  pub try_send-Spoken :
      (m : Message) (s : Scan Frame) → is_text m ≡ false → Spoken s → Spoken (try_send m s)
  unfolding try_send texts_of
  try_send-Spoken m s e h = h ∙ sym (texts_of-append s.offered m ∙ rw e (append-nil _))

  pub say_text-Spoken : (text : Text) (s : Scan Frame) → Spoken s → Spoken (say_text text s)
  unfolding say_text try_send texts_of text_eq
  say_text-Spoken text s h = elim (Bool-cases (is_empty text)) [
    | inl e ↦ rw e h
    | inr e ↦ rw e (
        ap (λ (front : Text). front ++ text) h
        ∙ sym (
            texts_of-append s.offered (text_message text)
            ∙ ap (λ (t : Text). texts_of s.offered ++ t) (append-nil text)))
  ]

  write_stdin-Spoken : (frame : Frame) (s : Scan Frame) → Spoken s → Spoken (write_stdin frame s)
  unfolding write_stdin
  write_stdin-Spoken frame s h = elim (Bool-cases s.stdin_open) [ inl e ↦ rw e h | inr e ↦ rw e h ]

  pub Spoken-invariant : Invariant (λ (s : Scan Frame). Spoken s)
  Spoken-invariant = record {
    sends = try_send-Spoken;
    says = say_text-Spoken;
    counts = λ usage s h. h;
    notes = λ id s h. h;
  }

  pub Spoken-stdin : StdinInvariant (λ (s : Scan Frame). Spoken s)
  Spoken-stdin = record { writes = write_stdin-Spoken; closes = λ s h. h }

  pub fail_with-Spoken : (e : Text) (s : Scan Frame) → Spoken s → Spoken (fail_with e s)
  unfolding fail_with text_eq
  fail_with-Spoken e s h =
      try_send-Spoken (error_message e) (record s { status = failed; error = e }) refl h

  pub scan_error-Spoken : (e : Option Text) (s : Scan Frame) → Spoken s → Spoken (scan_error e s)
  unfolding scan_error
  scan_error-Spoken none s h = h
  scan_error-Spoken (some e) s h = elim (Bool-cases (text_eq s.status completed)) [
    | inl q ↦ rw q h
    | inr q ↦ rw q h
  ]

  settled-say_text : (text : Text) (s : Scan Frame) → SettledScan s → SettledScan (say_text text s)
  unfolding say_text try_send
  settled-say_text text s h = elim (Bool-cases (is_empty text)) [ inl e ↦ rw e h | inr e ↦ rw e h ]

  settled-write_stdin :
      (frame : Frame) (s : Scan Frame) → SettledScan s → SettledScan (write_stdin frame s)
  unfolding write_stdin
  settled-write_stdin frame s h = elim (Bool-cases s.stdin_open) [ inl e ↦ rw e h | inr e ↦ rw e h ]

  pub Settled-invariant : Invariant (λ (s : Scan Frame). SettledScan s)
  unfolding try_send
  Settled-invariant = record {
    sends = λ m s e h. h;
    says = settled-say_text;
    counts = λ usage s h. h;
    notes = λ id s h. h;
  }

  pub Settled-stdin : StdinInvariant (λ (s : Scan Frame). SettledScan s)
  Settled-stdin = record { writes = settled-write_stdin; closes = λ s h. h }

  pub fail_with-SettledScan :
      (e : Text) (s : Scan Frame) → is_empty e ≡ false → SettledScan (fail_with e s)
  unfolding fail_with try_send
  fail_with-SettledScan e s h = inr (refl, h)
