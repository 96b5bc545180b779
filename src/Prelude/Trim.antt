-- ===== src/Prelude/Trim.antt =====
-- Laws of trimming and lower-casing.
use Prim.Native.Nat.{ℕ}
use mathlib.Core.Path.{◌≡◌, refl, ap, ap₂, sym, ◌∙◌}
use mathlib.Core.Logic.{◌⊎◌, inl, inr, ◌≢◌}
use mathlib.Core.Bool.{false}
use mathlib.Core.List.{
  [], ◌∷◌, ◌++◌, map, reverse, reverse-cons, reverse-append, reverse-reverse, map-append,
}
use native.Mathlib.Omega.{arith}
use aiclibridge.Prelude.Tests.{Bool-cases}
use aiclibridge.Prelude.Lists.{All, All-append}
use aiclibridge.Prelude.Strings.{Text, is_space, trim_left, trim_space, lower_byte, to_lower}
use aiclibridge.Prelude.StringLaws.{Lacks}

trim_left_idem : (s : Text) → trim_left (trim_left s) ≡ trim_left s
unfolding trim_left
trim_left_idem [] = refl
trim_left_idem (c ∷ s) = elim (Bool-cases (is_space c)) [
  | inl e ↦ rw e (trim_left_idem s)
  | inr e ↦ rw (e, e)
]

trim_left-append_solid :
    (s : Text) (c : ℕ) → is_space c ≡ false → trim_left (s ++ c ∷ []) ≡ trim_left s ++ c ∷ []
unfolding trim_left
trim_left-append_solid [] c h = rw h
trim_left-append_solid (d ∷ s) c h = elim (Bool-cases (is_space d)) [
  | inl e ↦ rw e (trim_left-append_solid s c h)
  | inr e ↦ rw e
]

trim_left-cases :
    (s : Text)
    → (trim_left s ≡ []) ⊎ ((c : ℕ) × (r : Text) × (trim_left s ≡ c ∷ r) × (is_space c ≡ false))
unfolding trim_left
trim_left-cases [] = inl refl
trim_left-cases (c ∷ s) = elim (Bool-cases (is_space c)) [
  | inl e ↦ rw e (trim_left-cases s)
  | inr e ↦ inr (c, s, rw e, e)
]

-- A text that does not begin with a space keeps its first byte when its end is trimmed.
reverse-trim_left_solid :
    (c : ℕ) (r : Text)
    → is_space c ≡ false
    → reverse (trim_left (reverse (c ∷ r))) ≡ c ∷ reverse (trim_left (reverse r))
reverse-trim_left_solid c r h =
    rw (reverse-cons, trim_left-append_solid (reverse r) c h)
      (reverse-append (trim_left (reverse r)) (c ∷ []))

trim_left_solid : (c : ℕ) (r : Text) → is_space c ≡ false → trim_left (c ∷ r) ≡ c ∷ r
unfolding trim_left
trim_left_solid c r h = rw h

trim_end_idem :
    (t : Text)
    → reverse (trim_left (reverse (reverse (trim_left (reverse t)))))
      ≡ reverse (trim_left (reverse t))
trim_end_idem t =
    ap reverse (ap trim_left (reverse-reverse (trim_left (reverse t))) ∙ trim_left_idem (reverse t))

pub trim_space_idem : (s : Text) → trim_space (trim_space s) ≡ trim_space s
unfolding trim_space
trim_space_idem s = elim (trim_left-cases s) [
  | inl e ↦ rw e (unfold trim_left in refl)
  | inr (c, r, e, h) ↦ rw e (
      ap (λ t. reverse (trim_left (reverse t)))
        (ap trim_left (reverse-trim_left_solid c r h)
          ∙ trim_left_solid c (reverse (trim_left (reverse r))) h
          ∙ sym (reverse-trim_left_solid c r h))
      ∙ trim_end_idem (c ∷ r))
]

trim_left-map : (s : Text) → trim_left (map lower_byte s) ≡ map lower_byte (trim_left s)
unfolding trim_left
trim_left-map [] = refl
trim_left-map (c ∷ s) = ground (arith, trim_left-map s)

map-reverse : (f : ℕ → ℕ) (s : Text) → map f (reverse s) ≡ reverse (map f s)
map-reverse f [] = refl
map-reverse f (c ∷ s) =
    ap (map f) (reverse-cons c s)
    ∙ map-append f (reverse s) (c ∷ [])
    ∙ ap (λ t. t ++ f c ∷ []) (map-reverse f s)
    ∙ sym (reverse-cons (f c) (map f s))

pub trim_space-to_lower : (s : Text) → trim_space (to_lower s) ≡ to_lower (trim_space s)
unfolding trim_space to_lower
trim_space-to_lower s =
    ap (λ t. reverse (trim_left (reverse t))) (trim_left-map s)
    ∙ ap (λ t. reverse (trim_left t)) (sym (map-reverse lower_byte (trim_left s)))
    ∙ ap reverse (trim_left-map (reverse (trim_left s)))
    ∙ sym (map-reverse lower_byte (trim_left (reverse (trim_left s))))

pub to_lower_idem : (s : Text) → to_lower (to_lower s) ≡ to_lower s
unfolding to_lower
to_lower_idem [] = refl
to_lower_idem (c ∷ s) = ap₂ (λ (a : ℕ) (t : Text). a ∷ t) (lower_twice c) (to_lower_idem s)
  where
    lower_twice : (c : ℕ) → lower_byte (lower_byte c) ≡ lower_byte c
    lower_twice c = ground arith

All-trim_left : (P : ℕ → Type 0) (s : Text) → All P s → All P (trim_left s)
unfolding trim_left
All-trim_left P [] h = tt
All-trim_left P (c ∷ s) (p, h) = elim (Bool-cases (is_space c)) [
  | inl e ↦ rw e (All-trim_left P s h)
  | inr e ↦ rw e (p, h)
]

All-reverse : (P : ℕ → Type 0) (s : Text) → All P s → All P (reverse s)
All-reverse P [] h = tt
All-reverse P (c ∷ s) (p, h) =
    rw reverse-cons (All-append P (reverse s) (c ∷ []) (All-reverse P s h) (p, tt))

-- Trimming and lower-casing bring in no slash.
pub Lacks-trim_space : (c : ℕ) (s : Text) → Lacks c s → Lacks c (trim_space s)
unfolding trim_space
Lacks-trim_space c s h =
    All-reverse _ _ (All-trim_left _ _ (All-reverse _ _ (All-trim_left (λ a. a ≢ c) s h)))

pub slash-to_lower : (s : Text) → Lacks b'/' s → Lacks b'/' (to_lower s)
unfolding to_lower
slash-to_lower [] h = tt
slash-to_lower (c ∷ s) (p, h) = (not_slash c p, slash-to_lower s h)
  where
    not_slash : (c : ℕ) → c ≢ b'/' → lower_byte c ≢ b'/'
    not_slash c p = ground arith
