-- ===== src/Facade/Slots.antt =====
-- The concurrency cap of StartRun and forwardEvents (internal/facade/facade.go): the semaphore, the
-- two counters and ConcurrencyStatus. The runs are threads whose steps interleave; a step is one
-- operation on the channel or on a counter. A run that times out or is cancelled in the queue takes
-- the same steps; so do a run whose adapter fails and one whose forwarder ends, since slotOnce lets
-- one of the two releases through.
pub mod Counts
use aiclibridge.Prelude.{
  ℕ, zero, suc, ◌+◌, ◌-◌, ◌<◌, ◌≤◌, ◌≡◌, refl, ap, List, [], ◌∷◌, ◌++◌, Option, none, some, Bool,
  true, false, get_elem?, All, arith,
}

-- Where StartRun and the forwarder of a run stand.
pub data Phase : Type 0 where
  -- queuedCount counts it, and it waits in the select
  queued : Phase
  -- the timeout or the cancellation won the select
  gave_up : Phase
  -- it has put its token into concurrencySem
  admitted : Phase
  -- it has left queuedCount
  dequeued : Phase
  -- activeCount counts it: it executes and forwards
  running : Phase
  -- it has taken its token out again
  released : Phase
  ended : Phase

-- It has a token in the semaphore.
abbrev pub token : Phase → ℕ
token admitted = 1
token dequeued = 1
token running = 1
token _ = 0

-- It is blocked in the select, waiting for a slot.
abbrev pub blocked : Phase → ℕ
blocked queued = 1
blocked _ = 0

-- It is through the select, with or without a slot, and has not yet taken itself off queuedCount.
abbrev pub leaving : Phase → ℕ
leaving gave_up = 1
leaving admitted = 1
leaving _ = 0

-- activeCount counts it.
abbrev pub counted : Phase → ℕ
counted running = 1
counted released = 1
counted _ = 0

-- Its adapter executes.
abbrev pub executes : Phase → ℕ
executes running = 1
executes _ = 0

pub record System : Type 0 where
  -- len(concurrencySem)
  pub tokens : ℕ
  pub queued_count : ℕ
  pub active_count : ℕ
  pub runs : List Phase

abbrev pub idle : System
idle = record { tokens = 0; queued_count = 0; active_count = 0; runs = [] }

abbrev pub set_phase : List Phase → ℕ → Phase → List Phase
set_phase [] i p = []
set_phase (q ∷ qs) zero p = p ∷ qs
set_phase (q ∷ qs) (suc i) p = q ∷ set_phase qs i p

abbrev pub At : System → ℕ → Phase → Type 0
At s i p = get_elem? s.runs i ≡ some p

abbrev to : Phase → ℕ → System → System
to p i s = record s { runs = set_phase s.runs i p }

-- One step of one run under a cap. A send on the channel wants room in it.
pub data Step (cap : ℕ) (s : System) : System → Type 0 where
  arrive : Step cap s (record s { queued_count = s.queued_count + 1; runs = s.runs ++ queued ∷ [] })
  acquire :
      (i : ℕ)
      → At s i queued
      → s.tokens < cap
      → Step cap s (record (to admitted i s) { tokens = s.tokens + 1 })
  give_up : (i : ℕ) → At s i queued → Step cap s (to gave_up i s)
  leave_queue :
      (i : ℕ)
      → At s i gave_up
      → Step cap s (record (to ended i s) { queued_count = s.queued_count - 1 })
  dequeue :
      (i : ℕ)
      → At s i admitted
      → Step cap s (record (to dequeued i s) { queued_count = s.queued_count - 1 })
  activate :
      (i : ℕ)
      → At s i dequeued
      → Step cap s (record (to running i s) { active_count = s.active_count + 1 })
  release :
      (i : ℕ) → At s i running → Step cap s (record (to released i s) { tokens = s.tokens - 1 })
  deactivate :
      (i : ℕ)
      → At s i released
      → Step cap s (record (to ended i s) { active_count = s.active_count - 1 })

pub data Reach (cap : ℕ) : System → Type 0 where
  start : Reach cap idle
  next : {s t : System} → Reach cap s → Step cap s t → Reach cap t

pub record ConcurrencyStatus : Type 0 where
  pub max : ℕ
  pub active : ℕ
  pub queued : ℕ
  pub unlimited : Bool

-- The snapshot of a facade with a cap.
unfoldable pub concurrency_status : ℕ → System → ConcurrencyStatus
concurrency_status cap s = record {
  max = cap;
  active = s.active_count;
  queued = s.queued_count;
  unlimited = false;
}
