-- ===== src/Api/Collect/Bounds.antt =====
-- What the cap of collectEvents keeps and what it drops.
use aiclibridge.Prelude.{
  ℕ, ◌+◌, ◌≤◌, ◌<◌, ◌≡◌, refl, ap, sym, ◌∙◌, List, [], ◌∷◌, ◌++◌, none, some, if◌then◌else◌, leb,
  length, length-append, Bool, true, false, arith, Bool-cases, inl, inr, append_assoc, append-nil,
}
use aiclibridge.Protocol.{Event}
use aiclibridge.Facade.History.{last_result, result_of}
use aiclibridge.Api.{Tick, arrived, gone, events_of, Attended}
use aiclibridge.Api.Collect.{max_collect_events, is_result, keep, collect_from, collect_events}

-- The events that are not results.
abbrev pub others : List Event → ℕ
others [] = 0
others (ev ∷ evs) = (if is_result ev then 0 else 1) + others evs

others-append :
    (xs : List Event) (ev : Event)
    → others (xs ++ ev ∷ []) ≡ others xs + (if is_result ev then 0 else 1)
others-append [] ev = omega arith
others-append (x ∷ xs) ev = omega (arith, others-append xs ev)

others-le : (xs : List Event) → others xs ≤ length xs
others-le [] = omega arith
others-le (x ∷ xs) = ground (arith, others-le xs)

-- Below the cap as long as it is not reached.
record IsBounded (cap_reached : Bool) (events : List Event) : Type 0 where
  few : others events ≤ max_collect_events
  room : cap_reached ≡ false → length events < max_collect_events

keep-IsBounded :
    (b : Bool) (events : List Event) (ev : Event)
    → IsBounded b events
    → IsBounded (keep b events ev).0 (keep b events ev).1
unfolding keep
keep-IsBounded true events ev v = elim (Bool-cases (is_result ev)) [
  | inl e ↦ rw e (record { few = ground (arith, v.few, others-append events ev); room = λ h. cc })
  | inr e ↦ rw e v
]
keep-IsBounded false events ev v = record {
  few = omega (arith, v.room refl, others-le (events ++ ev ∷ []), length-append events (ev ∷ []));
  room = λ h. ground arith;
}

collect_from-few :
    (b : Bool) (events : List Event) (ts : List Tick)
    → IsBounded b events
    → others (collect_from b events ts).0 ≤ max_collect_events
unfolding collect_from
collect_from-few b events [] v = v.few
collect_from-few b events (arrived ev ok ∷ ts) v =
    collect_from-few (keep b events ev).0 (keep b events ev).1 ts (keep-IsBounded b events ev v)
collect_from-few b events (gone ∷ ts) v = v.few

-- However many events a run sends, a reply holds at most 10000 that are not results.
pub collect_events_few : (ts : List Tick) → others (collect_events ts).0 ≤ 10000
unfolding collect_events
collect_events_few ts =
    collect_from-few false [] ts (record { few = omega arith; room = λ h. omega arith })

last_result-skip :
    (xs : List Event) (ev : Event) (ys : List Event)
    → is_result ev ≡ false
    → last_result (xs ++ ev ∷ ys) ≡ last_result (xs ++ ys)
unfolding last_result
last_result-skip [] ev ys h =
    elim (last_result ys) as (λ o. elim o [ none ↦ result_of ev | some r ↦ some r ] ≡ o) [
      | none ↦ rw h
      | some r ↦ refl
    ]
last_result-skip (x ∷ xs) ev ys h = rw (last_result-skip xs ev ys h)

last_result-keep :
    (b : Bool) (events : List Event) (ev : Event) (ys : List Event)
    → last_result ((keep b events ev).1 ++ ys) ≡ last_result (events ++ ev ∷ ys)
unfolding keep
last_result-keep true events ev ys = elim (Bool-cases (is_result ev)) [
  | inl e ↦ rw e (ap last_result (append_assoc events (ev ∷ []) ys))
  | inr e ↦ rw e (sym (last_result-skip events ev ys e))
]
last_result-keep false events ev ys = ap last_result (append_assoc events (ev ∷ []) ys)

last_result-collect_from :
    (b : Bool) (events : List Event) (ts : List Tick)
    → (collect_from b events ts).1 ≡ true
    → last_result (collect_from b events ts).0 ≡ last_result (events ++ events_of ts)
unfolding collect_from
last_result-collect_from b events [] h = ap last_result (sym (append-nil events))
last_result-collect_from b events (arrived ev ok ∷ ts) h =
    last_result-collect_from (keep b events ev).0 (keep b events ev).1 ts h
    ∙ last_result-keep b events ev (events_of ts)
last_result-collect_from b events (gone ∷ ts) h = cc

-- The cap does not cost a reply its result: of a run that is read to its end, the last result event
-- that is kept is the last one that was sent.
pub last_result-collect_events :
    (ts : List Tick)
    → (collect_events ts).1 ≡ true
    → last_result (collect_events ts).0 ≡ last_result (events_of ts)
unfolding collect_events
last_result-collect_events ts h = last_result-collect_from false [] ts h

-- A short run is kept whole.
pub collect_from-all :
    (events : List Event) (ts : List Tick)
    → Attended ts
    → length events + length (events_of ts) < max_collect_events
    → collect_from false events ts ≡ (events ++ events_of ts, true)
unfolding collect_from keep
collect_from-all events [] a h = rw (append-nil events)
collect_from-all events (arrived ev ok ∷ ts) a h =
    let len = length-append events (ev ∷ []) in
    let below : leb max_collect_events (length (events ++ ev ∷ [])) ≡ false = ground (arith, len) in
    rw below (
      collect_from-all (events ++ ev ∷ []) ts a (omega (arith, len))
      ∙ rw (append_assoc events (ev ∷ []) (events_of ts)))
collect_from-all events (gone ∷ ts) a h = absurd a
