-- ===== src/Api/Chat/Streaming.antt =====
-- What a client reads out of a stream of chunks.
use aiclibridge.Prelude.{
  ℕ, ◌+◌, ◌≡◌, refl, ap, sym, ◌∙◌, Text, List, [], ◌∷◌, ◌++◌, Option, none, some, if◌then◌else◌,
  text_eq, append-nil, map, Bool, ◌<◌, length, or_text, true, false, arith, Bool-cases, inl, inr,
}
use aiclibridge.Protocol.{Event, event_text, ResultPayload}
use aiclibridge.Facade.History.{last_result}
use aiclibridge.Api.{Tick, arrived, gone, events_of, aggregate_text, Attended}
use aiclibridge.Api.Collect.{collect_events}
use aiclibridge.Api.Collect.Bounds.{collect_from-all}
use aiclibridge.Api.Chat.{
  Delta, Choice, Chunk, Frame, json, plain, Sent, delta_of, openai_chunk_from_event, chunk,
  take_chunk, pump, stream_openai_chat, content_of, build_openai_completion, ChoiceMessage,
}

-- The text of the choices, and their finish reasons.
abbrev pub choices_text : List Choice → Text
choices_text [] = []
choices_text (c ∷ cs) = c.delta.content ++ choices_text cs

abbrev reasons : List Choice → ℕ
reasons [] = 0
reasons (c ∷ cs) = elim c.finish_reason [ none ↦ reasons cs | some t ↦ 1 + reasons cs ]

abbrev pub reply_text : List Frame → Text
reply_text [] = []
reply_text (json c ∷ fs) = choices_text c.choices ++ reply_text fs
reply_text (plain t ∷ fs) = reply_text fs

abbrev pub finishes : List Frame → ℕ
finishes [] = 0
finishes (json c ∷ fs) = reasons c.choices + finishes fs
finishes (plain t ∷ fs) = finishes fs

-- The text that an event adds.
abbrev text_of : Event → Text
text_of ev = if text_eq ev.type event_text then ev.content else []

abbrev delta_text : Option Delta → Text
delta_text none = []
delta_text (some d) = d.content

delta_text-delta_of : (ev : Event) → delta_text (delta_of ev) ≡ text_of ev
unfolding delta_of
delta_text-delta_of ev = ground arith

aggregate_text-cons :
    (ev : Event) (evs : List Event) → aggregate_text (ev ∷ evs) ≡ text_of ev ++ aggregate_text evs
unfolding aggregate_text
aggregate_text-cons ev evs = elim (Bool-cases (text_eq ev.type event_text)) [
  | inl e ↦ rw e
  | inr e ↦ rw e
]

-- One for a frame that the connection takes.
abbrev pub taken : Bool → ℕ
taken ok = if ok then 1 else 0

-- A stream that is not broken off has the whole text and the finish reason of the terminal chunk, if
-- the connection takes that; one that is broken off has no finish reason.
record IsHonest (term_ok : Bool) (evs : List Event) (s : Sent) : Type 0 where
  whole :
      s.cancelled ≡ false
      → (reply_text s.frames ≡ aggregate_text evs) × (finishes s.frames ≡ taken term_ok)
  open_ended : s.cancelled ≡ true → finishes s.frames ≡ 0

-- What the chunk of an event adds to both.
record IsPiece (ev : Event) (o : Option Chunk) : Type 0 where
  text : (c : Chunk) → o ≡ some c → (choices_text c.choices ≡ text_of ev) × (reasons c.choices ≡ 0)
  no_text : o ≡ none → text_of ev ≡ []

take_chunk-IsHonest :
    (term_ok : Bool) (ev : Event) (evs : List Event) (o : Option Chunk) (ok : Bool) (rest : Sent)
    → IsPiece ev o
    → IsHonest term_ok evs rest
    → IsHonest term_ok (ev ∷ evs) (take_chunk o ok rest)
unfolding take_chunk
take_chunk-IsHonest term_ok ev evs none ok rest p v = record {
  whole = λ e. (
    (v.whole e).0
        ∙ sym (aggregate_text-cons ev evs ∙ ap (λ t. t ++ aggregate_text evs) (p.no_text refl)),
    (v.whole e).1,
  );
  open_ended = v.open_ended;
}
take_chunk-IsHonest term_ok ev evs (some c) true rest p v =
    let (text, none_yet) = p.text c refl in
    record {
      whole = λ e. (
        rw (text, (v.whole e).0) (sym (aggregate_text-cons ev evs)),
        omega (arith, none_yet, (v.whole e).1),
      );
      open_ended = λ e. omega (arith, none_yet, v.open_ended e);
    }
take_chunk-IsHonest term_ok ev evs (some c) false rest p v = record {
  whole = λ e. cc;
  open_ended = λ e. refl;
}

module _ (id model : Text) (created : ℕ) where
  openai_chunk_from_event-IsPiece :
      (ev : Event) → IsPiece ev (openai_chunk_from_event id model created ev)
  unfolding openai_chunk_from_event
  openai_chunk_from_event-IsPiece ev = of_delta (delta_of ev) (delta_text-delta_of ev)
    where
      of_delta :
          (d : Option Delta)
          → delta_text d ≡ text_of ev
          → IsPiece ev (elim d [ none ↦ none | some x ↦ some (chunk id model created x none) ])
      of_delta none h = record { text = λ c e. cc; no_text = λ e. sym h }
      of_delta (some d) h = record {
        text = λ c e. (ground (arith, append-nil d.content), ground arith);
        no_text = λ e. cc;
      }

  pump-IsHonest :
      (term_ok done_ok : Bool) (ts : List Tick)
      → IsHonest term_ok (events_of ts) (pump id model created term_ok done_ok ts)
  unfolding pump
  pump-IsHonest term_ok done_ok [] = record {
    whole = λ e.
        (unfold aggregate_text in closing_text term_ok done_ok, closing_finish term_ok done_ok);
    open_ended = λ e. cc;
  }
    where
      closing_text :
          (term_ok done_ok : Bool)
          → reply_text (pump id model created term_ok done_ok []).frames ≡ []
      closing_text true true = refl
      closing_text true false = refl
      closing_text false true = refl
      closing_text false false = refl

      closing_finish :
          (term_ok done_ok : Bool)
          → finishes (pump id model created term_ok done_ok []).frames ≡ taken term_ok
      closing_finish true true = refl
      closing_finish true false = refl
      closing_finish false true = refl
      closing_finish false false = refl
  pump-IsHonest term_ok done_ok (arrived ev ok ∷ ts) =
      take_chunk-IsHonest term_ok ev (events_of ts) (openai_chunk_from_event id model created ev) ok
        (pump id model created term_ok done_ok ts) (openai_chunk_from_event-IsPiece ev)
        (pump-IsHonest term_ok done_ok ts)
  pump-IsHonest term_ok done_ok (gone ∷ ts) = record { whole = λ e. cc; open_ended = λ e. refl }

  -- A chat stream that is not broken off carries the text of the run, piece by piece, and exactly
  -- one finish reason if the connection takes the terminal chunk, none if it does not. A stream that
  -- is broken off, by the client or by a failing write before the run has ended, carries none, and
  -- its run is cancelled.
  pub stream_openai_chat-whole :
      (lead_ok term_ok done_ok : Bool) (ts : List Tick)
      → let sent = stream_openai_chat id model created lead_ok term_ok done_ok ts in
        (sent.cancelled ≡ false
          → (reply_text sent.frames ≡ aggregate_text (events_of ts))
            × (finishes sent.frames ≡ taken term_ok))
        × (sent.cancelled ≡ true → finishes sent.frames ≡ 0)
  unfolding stream_openai_chat
  stream_openai_chat-whole true term_ok done_ok ts =
      let v = pump-IsHonest term_ok done_ok ts in
      (λ e. ((v.whole e).0, omega (arith, (v.whole e).1)), λ e. omega (arith, v.open_ended e))
  stream_openai_chat-whole false term_ok done_ok ts = (λ e. cc, λ e. refl)

-- The output of the last result, empty where there is none.
abbrev pub output_of : List Event → Text
output_of events = elim (last_result events) [ none ↦ [] | some r ↦ r.output ]

content_of-output_of :
    (r : Option ResultPayload) (events : List Event)
    → content_of r events
      ≡ or_text (elim r [ none ↦ [] | some p ↦ p.output ]) (aggregate_text events)
content_of-output_of none events = refl
content_of-output_of (some r) events = refl

-- Of a run of fewer than 10000 events that is read to its end: the reply without a stream, made of
-- what collectEvents keeps, is the output of the run's last result, and where that is empty or
-- missing it is the very text that a client gets out of a stream of the same events which is not
-- broken off.
pub build_openai_completion-stream_openai_chat :
    (id model : Text) (created : ℕ) (term_ok done_ok : Bool) (ts us : List Tick)
    → Attended us
    → length (events_of us) < 10000
    → events_of us ≡ events_of ts
    → (stream_openai_chat id model created true term_ok done_ok ts).cancelled ≡ false
    → map
        (λ (c : ChoiceMessage). c.message.content)
        (build_openai_completion id model created (collect_events us).0).choices
      ≡ or_text
          (output_of (events_of us))
          (reply_text (stream_openai_chat id model created true term_ok done_ok ts).frames)
        ∷ []
unfolding build_openai_completion collect_events
build_openai_completion-stream_openai_chat id model created term_ok done_ok ts us stays few same
      kept =
    let streamed = ((stream_openai_chat-whole id model created true term_ok done_ok ts).0 kept).0 in
    let whole = collect_from-all [] us stays (omega arith) in
    ap (λ (k : List Event × Bool). content_of (last_result k.0) k.0 ∷ []) whole
    ∙ ap (λ t. t ∷ [])
        (content_of-output_of (last_result (events_of us)) (events_of us)
          ∙ ap (or_text (output_of (events_of us))) (ap aggregate_text same ∙ sym streamed))
