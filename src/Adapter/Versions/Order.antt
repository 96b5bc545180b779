-- ===== src/Adapter/Versions/Order.antt =====
-- The order that compareDotVersions makes.
use aiclibridge.Prelude.{
  ℕ, zero, suc, ◌+◌, ◌≤◌, ◌≡◌, refl, ap, sym, ◌∙◌, Text, List, [], ◌∷◌, Option, none, some,
  if◌then◌else◌, split, length, false, arith, Bool-cases, inl, inr, ◌>>=◌,
}
use aiclibridge.Prelude.Int.{ℤ, pos, negsuc, ltb_ℤ}
use aiclibridge.Adapter.Versions.{
  numbers, part_or_zero, parts_after, max, compare_parts, compare_numbers, compare_dot_versions,
}

compare_parts-nil : (n : ℕ) → compare_parts n [] [] ≡ pos 0
unfolding compare_parts
compare_parts-nil zero = refl
compare_parts-nil (suc n) = compare_parts-nil n

length-parts_after : (n : ℕ) (a : List ℤ) → length a ≤ suc n → length (parts_after a) ≤ n
length-parts_after n [] h = omega arith
length-parts_after n (x ∷ a) h = omega arith

-- Past the end of both lists nothing changes.
compare_parts-long :
    (m n : ℕ) (a b : List ℤ)
    → length a ≤ n
    → length b ≤ n
    → n ≤ m
    → compare_parts m a b ≡ compare_parts n a b
unfolding compare_parts
compare_parts-long zero zero a b la lb h = refl
compare_parts-long zero (suc n) a b la lb h = absurd (omega arith)
compare_parts-long (suc m) zero [] [] la lb h = compare_parts-nil m
compare_parts-long (suc m) zero [] (y ∷ b) la lb h = absurd (omega arith)
compare_parts-long (suc m) zero (x ∷ a) b la lb h = absurd (omega arith)
compare_parts-long (suc m) (suc n) a b la lb h = rw (
    compare_parts-long m n (parts_after a) (parts_after b) (length-parts_after n a la)
      (length-parts_after n b lb) (omega arith))

-- The loop's answer from the comparison of two components and the answer of the rest.
abbrev first_difference : ℤ → ℤ → ℤ → ℤ
first_difference x y rest = if ltb_ℤ x y then negsuc 0 else if ltb_ℤ y x then pos 1 else rest

abbrev pub opposite : ℤ → ℤ
opposite (pos zero) = pos 0
opposite (pos (suc n)) = negsuc n
opposite (negsuc n) = pos (suc n)

first_difference-opposite :
    (x y r s : ℤ) → s ≡ opposite r → first_difference y x s ≡ opposite (first_difference x y r)
first_difference-opposite x y r s h = elim (Bool-cases (ltb_ℤ x y)) [
  | inl e ↦ let f : ltb_ℤ y x ≡ false = ground arith in rw (e, f) refl
  | inr e ↦ elim (Bool-cases (ltb_ℤ y x)) [ inl f ↦ rw (e, f) refl | inr f ↦ rw (e, f) h ]
]

first_difference_trans :
    (x y z r s t : ℤ)
    → (r ≡ negsuc 0 → s ≡ negsuc 0 → t ≡ negsuc 0)
    → first_difference x y r ≡ negsuc 0
    → first_difference y z s ≡ negsuc 0
    → first_difference x z t ≡ negsuc 0
first_difference_trans x y z r s t rest h k = ground arith

compare_parts-opposite :
    (n : ℕ) (a b : List ℤ) → compare_parts n b a ≡ opposite (compare_parts n a b)
unfolding compare_parts
compare_parts-opposite zero a b = refl
compare_parts-opposite (suc n) a b =
    first_difference-opposite (part_or_zero a) (part_or_zero b) _ _
      (compare_parts-opposite n (parts_after a) (parts_after b))

compare_parts_trans :
    (n : ℕ) (a b c : List ℤ)
    → compare_parts n a b ≡ negsuc 0
    → compare_parts n b c ≡ negsuc 0
    → compare_parts n a c ≡ negsuc 0
unfolding compare_parts
compare_parts_trans zero a b c h k = cc
compare_parts_trans (suc n) a b c h k =
    first_difference_trans (part_or_zero a) (part_or_zero b) (part_or_zero c) _ _ _
      (compare_parts_trans n (parts_after a) (parts_after b) (parts_after c)) h k

-- Any number of components that covers both versions will do.
compare_numbers-parts :
    (n : ℕ) (a b : List ℤ) → length a ≤ n → length b ≤ n → compare_numbers a b ≡ compare_parts n a b
unfolding compare_numbers
compare_numbers-parts n a b la lb = sym (
    compare_parts-long n (max (length a) (length b)) a b (ground arith) (ground arith)
      (ground arith))

compare_numbers-opposite : (a b : List ℤ) → compare_numbers b a ≡ opposite (compare_numbers a b)
compare_numbers-opposite a b =
    let n = length a + length b in
    compare_numbers-parts n b a (omega arith) (omega arith)
    ∙ compare_parts-opposite n a b
    ∙ ap opposite (sym (compare_numbers-parts n a b (omega arith) (omega arith)))

compare_numbers_trans :
    (a b c : List ℤ)
    → compare_numbers a b ≡ negsuc 0
    → compare_numbers b c ≡ negsuc 0
    → compare_numbers a c ≡ negsuc 0
compare_numbers_trans a b c h k =
    let n = length a + (length b + length c) in
    compare_numbers-parts n a c (omega arith) (omega arith)
    ∙ compare_parts_trans n a b c
        (sym (compare_numbers-parts n a b (omega arith) (omega arith)) ∙ h)
        (sym (compare_numbers-parts n b c (omega arith) (omega arith)) ∙ k)

-- The comparison of texts whose numbers are known.
compared : Option (List ℤ) → Option (List ℤ) → Option ℤ
compared an bn = do a ← an; b ← bn; some (compare_numbers a b)

abbrev pub opposite_of : Option ℤ → Option ℤ
opposite_of none = none
opposite_of (some o) = some (opposite o)

compared-opposite : (a b : Option (List ℤ)) → compared b a ≡ opposite_of (compared a b)
unfolding compared
compared-opposite none none = refl
compared-opposite none (some b) = refl
compared-opposite (some a) none = refl
compared-opposite (some a) (some b) = ap some (compare_numbers-opposite a b)

compared_trans :
    (a b c : Option (List ℤ))
    → compared a b ≡ some (negsuc 0)
    → compared b c ≡ some (negsuc 0)
    → compared a c ≡ some (negsuc 0)
unfolding compared
compared_trans none b c h k = cc
compared_trans (some a) none c h k = cc
compared_trans (some a) (some b) none h k = cc
compared_trans (some a) (some b) (some c) h k =
    ap some (compare_numbers_trans a b c (ground arith) (ground arith))

-- Comparing two versions the other way round gives the opposite answer, or none just the same; and
-- if one version is older than a second, and that is older than a third, so is the first.
pub compare_dot_versions_ordered :
    (a b c : Text)
    → (compare_dot_versions b a ≡ opposite_of (compare_dot_versions a b))
      × (compare_dot_versions a b ≡ some (negsuc 0)
          → compare_dot_versions b c ≡ some (negsuc 0)
          → compare_dot_versions a c ≡ some (negsuc 0))
unfolding compare_dot_versions compared
compare_dot_versions_ordered a b c = (
  compared-opposite (numbers (split b'.' a)) (numbers (split b'.' b)),
  compared_trans (numbers (split b'.' a)) (numbers (split b'.' b)) (numbers (split b'.' c)),
)
