-- ===== src/Prelude/StringLaws.antt =====
-- Laws of the string functions.
use Prim.Native.Nat.{ℕ}
use mathlib.Core.Path.{◌≡◌, refl, ap, ap₂, sym, ◌∙◌}
use mathlib.Core.Logic.{◌↔◌, ◌≢◌}
use mathlib.Core.Bool.{true, false}
use mathlib.Core.List.{List, [], ◌∷◌, ◌++◌}
use native.Mathlib.Omega.{arith}
use aiclibridge.Prelude.Tests.{◌==◌, ==_iff, Bool-cases}
use mathlib.Core.Logic.{inl, inr}
use aiclibridge.Prelude.Lists.{All}
use aiclibridge.Prelude.Strings.{or_text, is_empty, Text, text_eq, split, join, push_head}

pub text_eq_refl : (s : Text) → text_eq s s ≡ true
unfolding text_eq
text_eq_refl [] = refl
text_eq_refl (a ∷ s) = ground (arith, text_eq_refl s)

eq_of_text_eq : (s t : Text) → text_eq s t ≡ true → s ≡ t
unfolding text_eq
eq_of_text_eq [] [] h = refl
eq_of_text_eq [] (b ∷ t) h = cc
eq_of_text_eq (a ∷ s) [] h = cc
eq_of_text_eq (a ∷ s) (b ∷ t) h = ground (arith, eq_of_text_eq s t)

pub text_eq_iff : (s t : Text) → (text_eq s t ≡ true) ↔ (s ≡ t)
text_eq_iff s t = (eq_of_text_eq s t, λ e. rw e (text_eq_refl t))

-- A text holds no byte `c`.
abbrev pub Lacks : ℕ → Text → Type 0
Lacks c s = All (λ a. a ≢ c) s

pub split_of_Lacks : (c : ℕ) (s : Text) → Lacks c s → split c s ≡ s ∷ []
unfolding split
split_of_Lacks c [] h = refl
split_of_Lacks c (a ∷ s) (p, h) = ground (arith, split_of_Lacks c s h)

-- A piece without the separator, then the separator: the piece is the first one.
pub split-append : (c : ℕ) (s t : Text) → Lacks c s → split c (s ++ c ∷ t) ≡ s ∷ split c t
unfolding split
split-append c [] t h = ground arith
split-append c (a ∷ s) t (p, h) = ground (arith, split-append c s t h)

join-push_head :
    (c a : ℕ) (ws : List Text) → ws ≢ [] → join (c ∷ []) (push_head a ws) ≡ a ∷ join (c ∷ []) ws
unfolding join push_head
join-push_head c a [] h = absurd (h refl)
join-push_head c a (w ∷ []) h = refl
join-push_head c a (w ∷ v ∷ ws) h = refl

split-ne-nil : (c : ℕ) (s : Text) → split c s ≢ []
unfolding split push_head
split-ne-nil c [] h = cc
split-ne-nil c (a ∷ s) h = ground (arith, split-ne-nil c s)

-- Splitting loses nothing.
pub join-split : (c : ℕ) (s : Text) → join (c ∷ []) (split c s) ≡ s
unfolding split
join-split c [] = unfold join in refl
join-split c (a ∷ s) = elim (Bool-cases (a == c)) [
  | inl e ↦ rw e (
      join-nil_head c (split c s) (split-ne-nil c s)
      ∙ ap₂ (λ (b : ℕ) (t : Text). b ∷ t) (sym ((==_iff a c).0 e)) (join-split c s))
  | inr e ↦
      rw e (join-push_head c a (split c s) (split-ne-nil c s) ∙ ap (λ t. a ∷ t) (join-split c s))
]
  where
    join-nil_head :
        (c : ℕ) (ws : List Text) → ws ≢ [] → join (c ∷ []) ([] ∷ ws) ≡ c ∷ join (c ∷ []) ws
    join-nil_head c [] h = absurd (h refl)
    join-nil_head c (w ∷ ws) h = unfold join in refl

Lacks-push_head :
    (c a : ℕ) (ws : List Text) → a ≢ c → All (Lacks c) ws → All (Lacks c) (push_head a ws)
unfolding push_head
Lacks-push_head c a [] p h = ((p, tt), tt)
Lacks-push_head c a (w ∷ ws) p (q, h) = ((p, q), h)

-- The pieces hold no separator.
pub Lacks-split : (c : ℕ) (s : Text) → All (Lacks c) (split c s)
unfolding split
Lacks-split c [] = (tt, tt)
Lacks-split c (a ∷ s) = elim (Bool-cases (a == c)) [
  | inl e ↦ rw e (tt, Lacks-split c s)
  | inr e ↦
      rw e (Lacks-push_head c a (split c s) (λ p. ground (arith, ==_iff a c)) (Lacks-split c s))
]

pub or_text-filled :
    (first second : Text) → is_empty second ≡ false → is_empty (or_text first second) ≡ false
or_text-filled [] second h = h
or_text-filled (c ∷ first) second h = refl
