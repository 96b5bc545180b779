-- ===== src/Api/Messages/Blocks.antt =====
-- The order of the events of a message stream, and the text in them.
use aiclibridge.Prelude.{
  ◌≡◌, refl, ap, Text, List, [], ◌∷◌, ◌++◌, Option, none, some, text_eq, Bool, true, false,
  Bool-cases, ◌⊎◌, inl, inr,
}
use aiclibridge.Protocol.{event_text}
use aiclibridge.Api.{Tick, arrived, gone, events_of, aggregate_text}
use aiclibridge.Api.Messages.{
  Frame, message_start, content_block_start, content_block_delta, content_block_stop, message_delta,
  message_stop, Sent, Closing, closing, write, take_text, pump, stream_anthropic_messages,
}

abbrev pub deltas_text : List Frame → Text
deltas_text [] = []
deltas_text (content_block_delta t ∷ fs) = t ++ deltas_text fs
deltas_text (_ ∷ fs) = deltas_text fs

-- Where a client stands in the protocol, and the state behind a frame; `none` is a protocol error.
pub data Place : Type 0 where
  fresh opened in_block block_done delta_done stopped : Place

abbrev pub advance : Place → Frame → Option Place
advance fresh (message_start id model) = some opened
advance opened content_block_start = some in_block
advance in_block (content_block_delta t) = some in_block
advance in_block content_block_stop = some block_done
advance block_done (message_delta reason) = some delta_done
advance delta_done message_stop = some stopped
advance _ _ = none

abbrev pub read_frames : Place → List Frame → Option Place
read_frames p [] = some p
read_frames p (f ∷ fs) = elim (advance p f) [ none ↦ none | some q ↦ read_frames q fs ]

-- Where the closing events that the connection takes leave a client whose block is open: it has come
-- to the end if they are all there, and misses what is missing at the end; one that is missing before
-- another is a protocol error.
abbrev closed_by : Bool → Bool → Bool → Option Place
closed_by true true true = some stopped
closed_by true true false = some delta_done
closed_by true false false = some block_done
closed_by false false false = some in_block
closed_by _ _ _ = none

abbrev pub closed : Closing → Option Place
closed taken = closed_by taken.stop_ok taken.delta_ok taken.end_ok

read_frames-closing :
    (stop_ok delta_ok end_ok : Bool)
    → let taken : Closing = record { stop_ok = stop_ok; delta_ok = delta_ok; end_ok = end_ok } in
      (read_frames in_block (closing taken) ≡ closed taken) × (deltas_text (closing taken) ≡ [])
read_frames-closing true true true = (refl, refl)
read_frames-closing true true false = (refl, refl)
read_frames-closing true false true = (refl, refl)
read_frames-closing true false false = (refl, refl)
read_frames-closing false true true = (refl, refl)
read_frames-closing false true false = (refl, refl)
read_frames-closing false false true = (refl, refl)
read_frames-closing false false false = (refl, refl)

-- Inside the block: all of the text and then the closing events, if the stream is not broken off.
record IsBlock (taken : Closing) (text : Text) (s : Sent) : Type 0 where
  whole :
      s.cancelled ≡ false
      → (read_frames in_block s.frames ≡ closed taken) × (deltas_text s.frames ≡ text)
  broken : s.cancelled ≡ true → read_frames in_block s.frames ≡ some in_block

write-IsBlock :
    (taken : Closing) (t text : Text) (ok : Bool) (rest : Sent)
    → IsBlock taken text rest
    → IsBlock taken (t ++ text) (write ok (content_block_delta t) rest)
write-IsBlock taken t text true rest v = record {
  whole = λ e. ((v.whole e).0, ap (λ u. t ++ u) (v.whole e).1);
  broken = v.broken;
}
write-IsBlock taken t text false rest v = record { whole = λ e. cc; broken = λ e. refl }

pump-IsBlock :
    (taken : Closing) (ts : List Tick)
    → IsBlock taken (aggregate_text (events_of ts)) (pump taken ts)
unfolding pump take_text aggregate_text
pump-IsBlock taken [] = record {
  whole = λ e. read_frames-closing taken.stop_ok taken.delta_ok taken.end_ok;
  broken = λ e. cc;
}
pump-IsBlock taken (arrived ev ok ∷ ts) = elim (Bool-cases (text_eq ev.type event_text)) [
  | inl e ↦ rw e (write-IsBlock taken ev.content _ ok (pump taken ts) (pump-IsBlock taken ts))
  | inr e ↦ rw e (pump-IsBlock taken ts)
]
pump-IsBlock taken (gone ∷ ts) = record { whole = λ e. cc; broken = λ e. refl }

-- Where a stream ends that is broken off: before the block is closed.
abbrev pub HasOpenEnd : Option Place → Type 0
HasOpenEnd o = (o ≡ some fresh) ⊎ ((o ≡ some opened) ⊎ (o ≡ some in_block))

-- A message stream that is not broken off gives a client message_start, content_block_start and the
-- deltas, which make up the text of the run, without a protocol error; where it ends is then a
-- matter of the closing events that the connection takes: with all three at message_stop. A stream
-- that is broken off, by the client or by a failing write before the end of the run, keeps the order
-- too, leaves the block open or never opens it, and its run is cancelled.
pub stream_anthropic_messages-whole :
    (id model : Text) (start_ok block_ok : Bool) (taken : Closing) (ts : List Tick)
    → let sent = stream_anthropic_messages id model start_ok block_ok taken ts in
      (sent.cancelled ≡ false
        → (read_frames fresh sent.frames ≡ closed taken)
          × (deltas_text sent.frames ≡ aggregate_text (events_of ts)))
      × (sent.cancelled ≡ true → HasOpenEnd (read_frames fresh sent.frames))
unfolding stream_anthropic_messages
stream_anthropic_messages-whole id model true true taken ts =
    let v = pump-IsBlock taken ts in (v.whole, λ e. inr (inr (v.broken e)))
stream_anthropic_messages-whole id model true false taken ts = (λ e. cc, λ e. inr (inl refl))
stream_anthropic_messages-whole id model false block_ok taken ts = (λ e. cc, λ e. inl refl)
