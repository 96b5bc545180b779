-- ===== src/Facade/Forward/Isolation.antt =====
-- What the store has to do with the live stream.
use aiclibridge.Prelude.{ℕ, ◌≡◌, refl, ap, Text, List, [], ◌∷◌, Option, none, some, Bool, arith}
use mathlib.Core.Path.{subst}
use aiclibridge.Store.{Store}
use aiclibridge.Facade.Forward.{
  Env, Forward, Stream, Feed, deliver, consumer_reads, convert_panic, append_panic, Session, start,
  consume, forward_message, forward_feed, forward_body, forward_events, recover, emit_terminal,
  finish_result, save_result, conclude, await_result, after_feed, feed_of, Fault, no_fault,
  in_terminal_append, in_finish_run, in_save_session, send_terminal,
}

-- What the consumer can see.
abbrev pub live : Forward → ℕ × Stream
live f = (f.seq, f.stream)

-- A loop's state with another store.
abbrev with_store : Store → Forward → Forward
with_store st f = record f { store = st }

module _ (env : Env) (disk : ℕ → Bool) (finish_ok session_ok : Bool) (now : ℕ) where
  -- The same surroundings over another database.
  abbrev pub other : Env
  other = record env { disk = disk; finish_ok = finish_ok; session_ok = session_ok; now = now }

  live-forward_feed :
      (id : Text) (feed : List Feed) (f : Forward) (st : Store)
      → (live (forward_feed other id feed (with_store st f)).0
          ≡ live (forward_feed env id feed f).0)
        × ((forward_feed other id feed (with_store st f)).1 ≡ (forward_feed env id feed f).1)
  unfolding forward_feed forward_message
  live-forward_feed id [] f st = (refl, refl)
  live-forward_feed id (deliver m ∷ feed) f st =
      live-forward_feed id feed (forward_message env id m f) _
  live-forward_feed id (consumer_reads ∷ feed) f st =
      live-forward_feed id feed (record f { stream = consume f.stream }) st
  live-forward_feed id (convert_panic v ∷ feed) f st = (refl, refl)
  live-forward_feed id (append_panic m v ∷ feed) f st = (refl, refl)

  live-after_feed :
      (id cli : Text) (session : Session) (f g : Forward) (p q : Option Text)
      → live f ≡ live g
      → p ≡ q
      → live (after_feed other id cli session (f, p)) ≡ live (after_feed env id cli session (g, q))
  unfolding conclude recover emit_terminal finish_result save_result send_terminal
  live-after_feed id cli session f g none none h e = concluded session.fault
    where
      concluded :
          (fault : Fault)
          → live (conclude other id cli fault (await_result session.result) f)
            ≡ live (conclude env id cli fault (await_result session.result) g)
      concluded no_fault =
          ap
            (λ (ls : ℕ × Stream). live (
              conclude env id cli no_fault (await_result session.result)
                (record { seq = ls.0; store = g.store; stream = ls.1 })))
            h
      concluded (in_terminal_append v) =
          ap
            (λ (ls : ℕ × Stream). live (
              conclude env id cli (in_terminal_append v) (await_result session.result)
                (record { seq = ls.0; store = g.store; stream = ls.1 })))
            h
      concluded (in_finish_run v) =
          ap
            (λ (ls : ℕ × Stream). live (
              conclude env id cli (in_finish_run v) (await_result session.result)
                (record { seq = ls.0; store = g.store; stream = ls.1 })))
            h
      concluded (in_save_session v) =
          ap
            (λ (ls : ℕ × Stream). live (
              conclude env id cli (in_save_session v) (await_result session.result)
                (record { seq = ls.0; store = g.store; stream = ls.1 })))
            h
  live-after_feed id cli session f g (some v) (some w) h e =
      let v_eq_w : v ≡ w = ground arith in
      subst (λ x. live (recover other id v f) ≡ live (recover env id x g)) v_eq_w
        (ap
          (λ (ls : ℕ × Stream).
            live (recover env id v (record { seq = ls.0; store = g.store; stream = ls.1 })))
          h)
  live-after_feed id cli session f g none (some w) h e = cc
  live-after_feed id cli session f g (some v) none h e = cc

  -- Whatever the store does (its rows, failing statements, its clock), the run's Events channel lets
  -- the same events through, the same are received, and the next sequence number is the same: also
  -- when events are dropped, and when a panic ends the run.
  pub live-forward_events :
      (id cli : Text) (session : Session) (st st' : Store) (runs : List Text)
      → live (forward_events other id cli session st' runs).forward
        ≡ live (forward_events env id cli session st runs).forward
  unfolding forward_events forward_body
  live-forward_events id cli session st st' runs =
      let (same, fault) = live-forward_feed id (feed_of session.messages) (start st) st' in
      live-after_feed id cli session _ _ _ _ same fault
