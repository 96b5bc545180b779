-- ===== src/Adapter/Tail/Kept.antt =====
-- What stderrTail keeps of a sequence of writes.
use aiclibridge.Prelude.{
  ℕ, zero, suc, ◌+◌, ◌-◌, ◌≤◌, ◌≡◌, refl, ap, sym, ◌∙◌, Text, List, [], ◌∷◌, ◌++◌, ltb, drop,
  length, length-append, length-drop, Bool, true, false, arith, Bool-cases, inl, inr, append_assoc,
  append-nil,
}
use aiclibridge.Prelude.Int.{ℤ}
use aiclibridge.Adapter.Tail.{StderrTail, new_stderr_tail, cut_front, write}

drop-append : (n : ℕ) (s t : Text) → n ≤ length s → drop n (s ++ t) ≡ drop n s ++ t
drop-append zero s t h = refl
drop-append (suc n) [] t h = absurd (omega arith)
drop-append (suc n) (a ∷ s) t h = drop-append n s t (omega arith)

drop-nil : (n : ℕ) → drop {A = ℕ} n [] ≡ []
drop-nil zero = refl
drop-nil (suc n) = refl

drop_add : (m n k : ℕ) (s : Text) → k ≡ m + n → drop n (drop m s) ≡ drop k s
drop_add zero n k s h = ap (λ i. drop i s) (omega arith)
drop_add (suc m) n zero s h = absurd (omega arith)
drop_add (suc m) n (suc k) [] h = drop-nil n
drop_add (suc m) n (suc k) (a ∷ s) h = drop_add m n k s (omega arith)

-- The same without the test.
cut_front-drop : (max : ℕ) (s : Text) → cut_front max s ≡ drop (length s - max) s
cut_front-drop max s = elim (Bool-cases (ltb max (length s))) [
  | inl e ↦ rw e
  | inr e ↦ rw e (ap (λ i. drop i s) (zero_diff (ground arith)))
]
  where
    zero_diff : length s ≤ max → 0 ≡ length s - max
    zero_diff h = omega arith

cut_front-cut_front :
    (max : ℕ) (s t : Text) → cut_front max (cut_front max s ++ t) ≡ cut_front max (s ++ t)
cut_front-cut_front max s t =
    let k = length s - max in
    let short = length-drop k s in
    let long = length-append s t in
    let joined : cut_front max s ++ t ≡ drop k (s ++ t) =
      ap (λ u. u ++ t) (cut_front-drop max s) ∙ sym (drop-append k s t (omega arith)) in
    let rest = length-drop k (s ++ t) in
    ap (cut_front max) joined
    ∙ cut_front-drop max (drop k (s ++ t))
    ∙ drop_add k (length (drop k (s ++ t)) - max) (length (s ++ t) - max) (s ++ t)
        (omega (arith, rest, long))
    ∙ sym (cut_front-drop max (s ++ t))

cut_front-nil : (max : ℕ) → cut_front max [] ≡ []
cut_front-nil max = cut_front-drop max [] ∙ drop-nil (0 - max)

buf-new_stderr_tail : (max : ℤ) → (new_stderr_tail max).buf ≡ []
unfolding new_stderr_tail
buf-new_stderr_tail max = refl

-- The writes of a process, each with whether the inner writer took it, one after the other.
abbrev pub write_all : List (Bool × Text) → StderrTail → StderrTail
write_all [] s = s
write_all ((ok, p) ∷ ps) s = write_all ps (write ok p s)

abbrev pub taken : List (Bool × Text) → Text
taken [] = []
taken ((true, p) ∷ ps) = p ++ taken ps
taken ((false, p) ∷ ps) = taken ps

write_all-cut_front :
    (ps : List (Bool × Text)) (s : StderrTail) (all : Text)
    → s.buf ≡ cut_front s.max all
    → (write_all ps s).buf ≡ cut_front s.max (all ++ taken ps)
unfolding write
write_all-cut_front [] s all h = h ∙ ap (cut_front s.max) (sym (append-nil all))
write_all-cut_front ((true, p) ∷ ps) s all h =
    write_all-cut_front ps (write true p s) (all ++ p)
      (ap (λ b. cut_front s.max (b ++ p)) h ∙ cut_front-cut_front s.max all p)
    ∙ ap (cut_front s.max) (append_assoc all p (taken ps))
write_all-cut_front ((false, p) ∷ ps) s all h = write_all-cut_front ps s all h

-- The buffer is the end of all bytes that the inner writer took, of at most the bytes that it was
-- made for (2048 where that is not positive), however the process cut them into writes.
pub write_all-new_stderr_tail :
    (max : ℤ) (ps : List (Bool × Text))
    → ((write_all ps (new_stderr_tail max)).buf ≡ cut_front (new_stderr_tail max).max (taken ps))
      × (length (write_all ps (new_stderr_tail max)).buf ≤ (new_stderr_tail max).max)
write_all-new_stderr_tail max ps =
    let s = new_stderr_tail max in
    let whole : (write_all ps s).buf ≡ cut_front s.max (taken ps) =
      write_all-cut_front ps s [] (start max) in
    (whole, omega (arith, ap length whole, short s.max (taken ps)))
  where
    start : (max : ℤ) → (new_stderr_tail max).buf ≡ cut_front (new_stderr_tail max).max []
    start max = buf-new_stderr_tail max ∙ sym (cut_front-nil (new_stderr_tail max).max)

    short : (n : ℕ) (t : Text) → length (cut_front n t) ≤ n
    short n t = omega (arith, ap length (cut_front-drop n t), length-drop (length t - n) t)
