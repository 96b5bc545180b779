-- ===== src/Adapter/Scan/Settled.antt =====
-- When a driver of internal/adapter calls a run completed, and when it names an error.
use aiclibridge.Prelude.{
  ◌≡◌, refl, ◌⊎◌, inl, inr, Text, lit, [], ◌∷◌, ◌++◌, Option, none, some, is_empty, text_eq, true,
  false, Bool-cases, arith, ◌&&◌,
}
use aiclibridge.Adapter.Scan.{Scan, completed, failed, scan_error}
use aiclibridge.Adapter.Scan.Outcome.{
  ContextEnd, alive, deadline_exceeded, canceled, Ending, Verdict, judge, exit_verdict,
  write_verdict, describe_error, with_stderr, report, conclude,
}

-- Completed with no error, or failed with one.
abbrev pub Settled : Text → Text → Type 0
Settled status error =
    ((status ≡ completed) × (error ≡ [])) ⊎ ((status ≡ failed) × (is_empty error ≡ false))

abbrev pub SettledScan : {Frame : Type 0} → Scan Frame → Type 0
SettledScan s = Settled s.status s.error

-- The four outcomes that a driver reports.
abbrev pub Reported : Text → Text → Type 0
Reported status error =
    ((status ≡ completed) × (error ≡ []))
    ⊎ (((status ≡ failed) ⊎ ((status ≡ lit "timeout") ⊎ (status ≡ lit "aborted")))
        × (is_empty error ≡ false))

pub scan_error-Settled :
    {Frame : Type 0} (e : Option Text) (s : Scan Frame)
    → SettledScan s
    → SettledScan (scan_error e s)
unfolding scan_error
scan_error-Settled none s h = h
scan_error-Settled (some e) s h = elim (Bool-cases (text_eq s.status completed)) [
  | inl q ↦ rw q (inr (refl, refl))
  | inr q ↦ rw q h
]

pub filled-append : (s t : Text) → is_empty t ≡ false → is_empty (s ++ t) ≡ false
filled-append [] t h = h
filled-append (c ∷ s) t h = refl

filled-append_left : (s t : Text) → is_empty s ≡ false → is_empty (s ++ t) ≡ false
filled-append_left [] t h = cc
filled-append_left (c ∷ s) t h = refl

filled-front : (s t u : Text) → is_empty t ≡ false → is_empty ((s ++ t) ++ u) ≡ false
filled-front s t u h = filled-append_left (s ++ t) u (filled-append s t h)

pub is_empty_nil : (s : Text) → is_empty s ≡ true → s ≡ []
is_empty_nil [] h = refl
is_empty_nil (c ∷ s) h = cc

describe_error-filled :
    (cli error tail : Text)
    → is_empty error ≡ false
    → is_empty (describe_error cli error tail) ≡ false
unfolding describe_error with_stderr
describe_error-filled cli error tail h =
    ground (arith, filled-append_left error (lit "; " ++ cli ++ lit " stderr: " ++ tail) h)

-- What `Settled` and `Reported` allow for, in one step of the switch.
Reported-of_Settled : (status error : Text) → Settled status error → Reported status error
Reported-of_Settled status error (inl h) = inl h
Reported-of_Settled status error (inr (p, q)) = inr (inl p, q)

abbrev SettledVerdict : Verdict → Type 0
SettledVerdict v = Settled v.status v.error

exit_verdict-Settled :
    (cli : Text) (e : Option Text) (v : Verdict)
    → SettledVerdict v
    → SettledVerdict (exit_verdict cli e v)
exit_verdict-Settled cli none v h = h
exit_verdict-Settled cli (some e) v h = elim (Bool-cases (text_eq v.status completed)) [
  | inl q ↦ rw q (inr (refl, filled-front cli (lit " exited with error: ") e refl))
  | inr q ↦ rw q h
]

write_verdict-Settled :
    (cli : Text) (w : Option Text) (session_id : Text) (e : Option Text) (v : Verdict)
    → SettledVerdict v
    → SettledVerdict (write_verdict cli w session_id e v)
write_verdict-Settled cli none session_id e v h = exit_verdict-Settled cli e v h
write_verdict-Settled cli (some w) session_id e v h =
    elim (Bool-cases (text_eq v.status completed && is_empty session_id)) [
      | inl q ↦ rw q (inr (refl, refl))
      | inr q ↦ rw q (exit_verdict-Settled cli e v h)
    ]

abbrev ReportedVerdict : Verdict → Type 0
ReportedVerdict v = Reported v.status v.error

pub judge-Reported :
    (cli session_id : Text) (ending : Ending) (v : Verdict)
    → SettledVerdict v
    → ReportedVerdict (judge cli ending session_id v)
unfolding judge
judge-Reported cli session_id ending v h = at_context ending.context refl
  where
    at_context :
        (c : ContextEnd) → ending.context ≡ c → ReportedVerdict (judge cli ending session_id v)
    at_context alive e = rw e (
        Reported-of_Settled _ _
          (write_verdict-Settled cli ending.write_error session_id ending.exit_error v h))
    at_context deadline_exceeded e =
        rw e (inr (inr (inl refl), filled-front cli (lit " timed out after ") ending.timeout refl))
    at_context canceled e = rw e (inr (inr (inr refl), refl))

pub describe_error-Reported :
    (cli status error tail : Text)
    → Reported status error
    → Reported status (describe_error cli error tail)
unfolding describe_error
describe_error-Reported cli status error tail (inl (p, q)) = inl (p, rw q refl)
describe_error-Reported cli status error tail (inr (p, q)) =
    inr (p, describe_error-filled cli error tail q)

pub conclude-Reported :
    {Frame : Type 0} (cli resume : Text) (ending : Ending) (s : Scan Frame)
    → SettledScan s
    → Reported (conclude cli resume ending s).status (conclude cli resume ending s).error
unfolding conclude report
conclude-Reported cli resume ending s h =
    describe_error-Reported cli _ _ ending.stderr_tail
      (judge-Reported cli s.session_id ending (record { status = s.status; error = s.error }) h)
