-- ===== src/Facade/Forward/Persist.antt =====
-- What forwardEvents writes to the events table.
use aiclibridge.Prelude.{
  ℕ, suc, ◌+◌, ◌≡◌, refl, sym, ap, ◌∙◌, Text, List, [], ◌∷◌, ◌++◌, Option, none, some, arith, true,
  All, All-of-append, length, append-nil, append_assoc,
}
use native.Mathlib.Nat.{add-zero, zero-add}
use mathlib.Core.Path.{subst}
use aiclibridge.Protocol.{Codec, Event}
use aiclibridge.Adapter.{Message, Result}
use aiclibridge.Store.{Store, EventRow, rows_of}
use aiclibridge.Store.Timeline.{Below, rows_of-append, no_event_of_Below}
use aiclibridge.Facade.Events.{
  message_to_event, message_to_event-no_result, result_to_event, result_to_event-seq,
}
use aiclibridge.Facade.Forward.{
  Env, start, Forward, Feed, deliver, consumer_reads, convert_panic, append_panic, append_event,
  forward_message, forward_feed, consume, Session, forward_body, feed_of, await_result, no_fault,
  finish_run, save_session, conclude, emit_terminal, finish_result, save_result, after_feed,
}

-- The messages of a feed that the adapter delivers to the end.
abbrev pub delivered : List Feed → List Message
delivered [] = []
delivered (deliver m ∷ feed) = m ∷ delivered feed
delivered (consumer_reads ∷ feed) = delivered feed
delivered (convert_panic v ∷ feed) = []
delivered (append_panic m v ∷ feed) = []

abbrev pub HasNoPanic : List Feed → Type 0
HasNoPanic [] = Unit
HasNoPanic (deliver m ∷ feed) = HasNoPanic feed
HasNoPanic (consumer_reads ∷ feed) = HasNoPanic feed
HasNoPanic (convert_panic v ∷ feed) = ⊥
HasNoPanic (append_panic m v ∷ feed) = ⊥

-- The events of a list of messages, numbered from `n`.
abbrev pub timeline : Codec → ℕ → List Message → List Event
timeline c n [] = []
timeline c n (m ∷ ms) = message_to_event c m n ∷ timeline c (n + 1) ms

-- `payload` is the JSON of an event, and reads back as the event.
abbrev pub Encodes : Codec → (Event → Text) → Event → Type 0
Encodes c payload e =
    (c.marshal_event e ≡ some (payload e)) × (c.unmarshal_event (payload e) ≡ some e)

abbrev pub row_of : (Event → Text) → Event → EventRow
row_of payload e = record { seq = e.seq; type = e.type; payload = payload e }

abbrev pub rows : (Event → Text) → List Event → List EventRow
rows payload [] = []
rows payload (e ∷ es) = row_of payload e ∷ rows payload es

Below-mono : (n : ℕ) (rs : List EventRow) → Below n rs → Below (n + 1) rs
Below-mono n [] h = tt
Below-mono n (r ∷ rs) (p, h) = (omega arith, Below-mono n rs h)

shift : (a b : ℕ) → a + suc b ≡ a + 1 + b
shift a b = omega arith

Below-append :
    (n : ℕ) (rs : List EventRow) (r : EventRow)
    → Below n rs
    → r.seq ≡ n
    → Below (n + 1) (rs ++ r ∷ [])
Below-append n [] r h e = (omega arith, tt)
Below-append n (q ∷ rs) r (p, h) e = (omega arith, Below-append n rs r h e)

module _ (env : Env) (payload : Event → Text) (id : Text)
    (disk_ok : (n : ℕ) → env.disk n ≡ true) where
  -- One healthy append adds the event's row to the run's rows.
  pub rows_of-append_event :
      (ev : Event) (st : Store)
      → Encodes env.codec payload ev
      → Below ev.seq (rows_of id st.events)
      → rows_of id (append_event env id ev st).events
        ≡ rows_of id st.events ++ row_of payload ev ∷ []
  unfolding append_event
  rows_of-append_event ev st (h, _) b = ground (
    arith,
    h,
    disk_ok ev.seq,
    no_event_of_Below id ev.seq st.events b,
    rows_of-append id st.events (row_of payload ev),
  )

  -- The loop writes the rows of the delivered messages, in order.
  pub rows_of-forward_feed :
      (feed : List Feed) (f : Forward)
      → HasNoPanic feed
      → All (Encodes env.codec payload) (timeline env.codec f.seq (delivered feed))
      → Below f.seq (rows_of id f.store.events)
      → ((forward_feed env id feed f).1 ≡ none)
        × ((forward_feed env id feed f).0.seq ≡ f.seq + length (delivered feed))
        × (rows_of id (forward_feed env id feed f).0.store.events
            ≡ rows_of id f.store.events ++ rows payload (timeline env.codec f.seq (delivered feed)))
        × Below
            (f.seq + length (delivered feed))
            (rows_of id (forward_feed env id feed f).0.store.events)
  unfolding forward_feed forward_message
  rows_of-forward_feed [] f p h b = (refl, omega arith, sym (append-nil _), rw (add-zero f.seq) b)
  rows_of-forward_feed (consumer_reads ∷ feed) f p h b =
      rows_of-forward_feed feed (record f { stream = consume f.stream }) p h b
  rows_of-forward_feed (deliver m ∷ feed) f p (e, h) b =
      let written =
        rows_of-append_event (message_to_event env.codec m f.seq) f.store e
          (rw (message_to_event-no_result env.codec m f.seq).1 b) in
      let f' = forward_message env id m f in
      let below : Below (f.seq + 1) (rows_of id f'.store.events) = rw written (
        Below-append f.seq (rows_of id f.store.events) _ b
          (message_to_event-no_result env.codec m f.seq).1) in
      let (calm, counted, all, last) = rows_of-forward_feed feed f' p h below in
      (
        calm,
        omega arith,
        all
            ∙ ap (λ rs. rs ++ rows payload (timeline env.codec (f.seq + 1) (delivered feed)))
                written
            ∙ append_assoc (rows_of id f.store.events)
                (row_of payload (message_to_event env.codec m f.seq) ∷ [])
                (rows payload (timeline env.codec (f.seq + 1) (delivered feed))),
        rw (shift f.seq (length (delivered feed))) last,
      )
  rows_of-forward_feed (convert_panic _ ∷ feed) f p h b = elim p [ ]
  rows_of-forward_feed (append_panic _ _ ∷ feed) f p h b = elim p [ ]

rows-append :
    (payload : Event → Text) (es : List Event) (e : Event)
    → rows payload es ++ row_of payload e ∷ [] ≡ rows payload (es ++ e ∷ [])
rows-append payload [] e = refl
rows-append payload (d ∷ es) e = ap (λ rs. row_of payload d ∷ rs) (rows-append payload es e)

-- The events that a run leaves behind: those of its messages, then the terminal one.
abbrev pub full_timeline : Codec → Session → List Event
full_timeline c session =
    timeline c 0 (delivered (feed_of session.messages))
    ++ result_to_event (await_result session.result) (length (delivered (feed_of session.messages)))
      ∷ []

-- Nothing else of the run touches the events table.
events-finish_run :
    (env : Env) (id status session err usage : Text) (st : Store)
    → (finish_run env id status session err usage st).events ≡ st.events
unfolding finish_run
events-finish_run env id status session err usage st = ground arith

events-save_session :
    (env : Env) (id cli session : Text) (st : Store)
    → (save_session env id cli session st).events ≡ st.events
unfolding save_session
events-save_session env id cli session st = ground arith

-- A run without panics ends by the last of its steps.
pub after_feed_of_calm :
    (env : Env) (id cli : Text) (session : Session) (out : Forward × Option Text)
    → out.1 ≡ none
    → session.fault ≡ no_fault
    → after_feed env id cli session out
      ≡ save_result env id cli (await_result session.result) (
          finish_result env id
            (await_result session.result)
            (emit_terminal env id (await_result session.result) out.0))
unfolding conclude
after_feed_of_calm env id cli session (f, none) h e = rw e
after_feed_of_calm env id cli session (f, some v) h e = cc

events-finished :
    (env : Env) (id cli : Text) (res : Result) (f : Forward)
    → (save_result env id cli res (finish_result env id res f)).store.events ≡ f.store.events
unfolding save_result finish_result
events-finished env id cli res f = events-save_session _ _ _ _ _ ∙ events-finish_run _ _ _ _ _ _ _

module _ (env : Env) (payload : Event → Text) (id cli : Text) (session : Session)
    (store : Store) where
  -- The rows of a fresh run, after a run without panics on a healthy database.
  pub rows_of-forward_body :
      ((n : ℕ) → env.disk n ≡ true)
      → HasNoPanic (feed_of session.messages)
      → session.fault ≡ no_fault
      → All (Encodes env.codec payload) (full_timeline env.codec session)
      → rows_of id store.events ≡ []
      → rows_of id (forward_body env id cli session (start store)).store.events
        ≡ rows payload (full_timeline env.codec session)
  unfolding forward_body emit_terminal
  rows_of-forward_body disk_ok calm fine encodes fresh =
      let msgs = delivered (feed_of session.messages) in
      let res = await_result session.result in
      let (before, (terminal, _)) =
        All-of-append (Encodes env.codec payload) (timeline env.codec 0 msgs)
          (result_to_event res (length msgs) ∷ []) encodes in
      let (no_panic, counted, written, below) =
        rows_of-forward_feed env payload id disk_ok (feed_of session.messages) (start store) calm
          before (rw fresh tt) in
      let f = (forward_feed env id (feed_of session.messages) (start store)).0 in
      let counted' : f.seq ≡ length msgs = omega arith in
      rw
        (after_feed_of_calm env id cli session
          (forward_feed env id (feed_of session.messages) (start store)) no_panic fine)
        (ap (rows_of id) (events-finished env id cli res (emit_terminal env id res f))
          ∙ rw counted' (
              rows_of-append_event env payload id disk_ok (result_to_event res (length msgs))
                f.store terminal
                (subst (λ n. Below n (rows_of id f.store.events))
                  (zero-add (length msgs) ∙ sym (result_to_event-seq res (length msgs))) below)
              ∙ ap (λ rs. rs ++ row_of payload (result_to_event res (length msgs)) ∷ [])
                  (written ∙ ap (λ rs. rs ++ rows payload (timeline env.codec 0 msgs)) fresh)
              ∙ rows-append payload (timeline env.codec 0 msgs)
                  (result_to_event res (length msgs))))
