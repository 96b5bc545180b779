-- ===== src/Facade/Slots/Counts.antt =====
-- What the counters have to do with the runs, in the states that interleaved runs reach.
use aiclibridge.Prelude.{
  ℕ, zero, suc, ◌+◌, ◌≤◌, ◌≡◌, refl, ap, ◌∙◌, List, [], ◌∷◌, ◌++◌, some, get_elem?, All, arith,
}
use aiclibridge.Facade.Slots.{
  Phase, queued, gave_up, admitted, dequeued, running, released, ended, token, blocked, leaving,
  counted, executes, System, set_phase, Step, arrive, acquire, give_up, leave_queue, dequeue,
  activate, release, deactivate, Reach, start, next, concurrency_status,
}

-- The runs of a weight.
abbrev pub total : (Phase → ℕ) → List Phase → ℕ
total w [] = 0
total w (p ∷ ps) = w p + total w ps

total-set_phase :
    (w : Phase → ℕ) (ps : List Phase) (i : ℕ) (p q : Phase)
    → get_elem? ps i ≡ some p
    → total w (set_phase ps i q) + w p ≡ total w ps + w q
total-set_phase w [] i p q h = cc
total-set_phase w (r ∷ ps) zero p q h = let same : w r ≡ w p = ap w (ground arith) in omega arith
total-set_phase w (r ∷ ps) (suc i) p q h = omega (arith, total-set_phase w ps i p q h)

total-snoc :
    (w : Phase → ℕ) (ps : List Phase) (q : Phase) → total w (ps ++ q ∷ []) ≡ total w ps + w q
total-snoc w [] q = omega arith
total-snoc w (p ∷ ps) q = omega (arith, total-snoc w ps q)

-- What queuedCount counts.
abbrev waits : Phase → ℕ
waits p = blocked p + leaving p

-- One run goes from one phase to another.
moved :
    (ps : List Phase) (i : ℕ) (p q : Phase)
    → get_elem? ps i ≡ some p
    → (total token (set_phase ps i q) + token p ≡ total token ps + token q)
      × (total waits (set_phase ps i q) + waits p ≡ total waits ps + waits q)
      × (total counted (set_phase ps i q) + counted p ≡ total counted ps + counted q)
moved ps i p q h = (
  total-set_phase token ps i p q h,
  total-set_phase waits ps i p q h,
  total-set_phase counted ps i p q h,
)

pub record IsCounted (cap : ℕ) (s : System) : Type 0 where
  pub tokens : s.tokens ≡ total token s.runs
  pub queue : s.queued_count ≡ total waits s.runs
  pub active : s.active_count ≡ total counted s.runs
  pub room : s.tokens ≤ cap

Step-IsCounted : {cap : ℕ} {s t : System} → Step cap s t → IsCounted cap s → IsCounted cap t
Step-IsCounted {s} arrive v = omega (
  arith,
  total-snoc token s.runs queued,
  total-snoc waits s.runs queued,
  total-snoc counted s.runs queued,
)
Step-IsCounted {s} (acquire i h r) v = omega (arith, moved s.runs i queued admitted h)
Step-IsCounted {s} (give_up i h) v = omega (arith, moved s.runs i queued gave_up h)
Step-IsCounted {s} (leave_queue i h) v = omega (arith, moved s.runs i gave_up ended h)
Step-IsCounted {s} (dequeue i h) v = omega (arith, moved s.runs i admitted dequeued h)
Step-IsCounted {s} (activate i h) v = omega (arith, moved s.runs i dequeued running h)
Step-IsCounted {s} (release i h) v = omega (arith, moved s.runs i running released h)
Step-IsCounted {s} (deactivate i h) v = omega (arith, moved s.runs i released ended h)

pub Reach-IsCounted : {cap : ℕ} {s : System} → Reach cap s → IsCounted cap s
Reach-IsCounted start = record { tokens = refl; queue = refl; active = refl; room = omega arith }
Reach-IsCounted (next r st) = Step-IsCounted st (Reach-IsCounted r)

executes-le : (ps : List Phase) → total executes ps ≤ total token ps
executes-le [] = omega arith
executes-le (p ∷ ps) = omega (arith, below p, executes-le ps)
  where
    below : (p : Phase) → executes p ≤ token p
    below running = omega arith
    below _ = omega arith

total-waits : (ps : List Phase) → total waits ps ≡ total blocked ps + total leaving ps
total-waits [] = omega arith
total-waits (p ∷ ps) = omega (arith, total-waits ps)

-- However the runs interleave, and however their adapters fail, at most as many runs execute at one
-- time as the cap allows. ConcurrencyStatus shows as queued the requests that are blocked waiting
-- for a slot, together with those that are through the select, some of them with a slot, and have
-- not yet taken themselves off the counter.
pub Reach-capped :
    {cap : ℕ} {s : System}
    → Reach cap s
    → (total executes s.runs ≤ cap)
      × ((concurrency_status cap s).queued ≡ total blocked s.runs + total leaving s.runs)
unfolding concurrency_status
Reach-capped {s} r =
    let v = Reach-IsCounted r in (omega (arith, executes-le s.runs), v.queue ∙ total-waits s.runs)

weightless :
    (w : Phase → ℕ) (ps : List Phase) → w ended ≡ 0 → All (λ p. p ≡ ended) ps → total w ps ≡ 0
weightless w [] e h = refl
weightless w (p ∷ ps) e (q, h) =
    let same : w p ≡ w ended = ap w q in omega (arith, weightless w ps e h)

-- No slot is lost: when every run has ended, whether it finished, failed, or gave up in the queue,
-- the semaphore is empty and both counters are back at 0.
pub Reach-no_leak :
    {cap : ℕ} {s : System}
    → Reach cap s
    → All (λ p. p ≡ ended) s.runs
    → (s.tokens ≡ 0) × (s.queued_count ≡ 0) × (s.active_count ≡ 0)
Reach-no_leak {s} r h =
    let v = Reach-IsCounted r in
    (
      v.tokens ∙ weightless token s.runs refl h,
      v.queue ∙ weightless waits s.runs refl h,
      v.active ∙ weightless counted s.runs refl h,
    )
