-- ===== src/Update/Versions.antt =====
-- How CompareVersions answers to versions the other way round, and to a leading v.
use aiclibridge.Prelude.{
  ℕ, zero, suc, ◌≡◌, refl, ap, ◌∙◌, Text, List, [], ◌∷◌, Option, none, some, length, text_lt,
  is_digit, Bool, true, false, arith,
}
use aiclibridge.Prelude.Int.{ℤ, ltb_ℤ}
use aiclibridge.Adapter.Versions.Order.{opposite}
use aiclibridge.Update.{
  strip_v, split_version, part_int, part_str, parts_after, choose, compare_segment,
  compare_segments, max, compare_versions,
}

choose-opposite :
    (lt gt : Bool) (r s : ℤ)
    → (lt ≡ true → gt ≡ false)
    → s ≡ opposite r
    → choose gt lt s ≡ opposite (choose lt gt r)
choose-opposite true true r s one h = let clash : true ≡ false = one refl in cc
choose-opposite true false r s one h = refl
choose-opposite false true r s one h = refl
choose-opposite false false r s one h = h

text_lt_asym : (s t : Text) → text_lt s t ≡ true → text_lt t s ≡ false
unfolding text_lt
text_lt_asym [] [] h = cc
text_lt_asym [] (b ∷ t) h = refl
text_lt_asym (a ∷ s) [] h = cc
text_lt_asym (a ∷ s) (b ∷ t) h = ground (arith, text_lt_asym s t)

ltb_ℤ_asym : (x y : ℤ) → ltb_ℤ x y ≡ true → ltb_ℤ y x ≡ false
ltb_ℤ_asym x y h = ground arith

compare_segment-opposite :
    (x y : Option ℤ) (s t : Text) (r q : ℤ)
    → q ≡ opposite r
    → compare_segment y x t s q ≡ opposite (compare_segment x y s t r)
unfolding compare_segment
compare_segment-opposite (some x) (some y) s t r q h =
    choose-opposite (ltb_ℤ x y) (ltb_ℤ y x) r q (ltb_ℤ_asym x y) h
compare_segment-opposite (some x) none s t r q h =
    choose-opposite (text_lt s t) (text_lt t s) r q (text_lt_asym s t) h
compare_segment-opposite none (some y) s t r q h =
    choose-opposite (text_lt s t) (text_lt t s) r q (text_lt_asym s t) h
compare_segment-opposite none none s t r q h =
    choose-opposite (text_lt s t) (text_lt t s) r q (text_lt_asym s t) h

compare_segments-opposite :
    (n : ℕ) (a b : List Text) → compare_segments n b a ≡ opposite (compare_segments n a b)
unfolding compare_segments
compare_segments-opposite zero a b = refl
compare_segments-opposite (suc n) a b =
    compare_segment-opposite (part_int a) (part_int b) (part_str a) (part_str b) _ _
      (compare_segments-opposite n (parts_after a) (parts_after b))

max_comm : (m n : ℕ) → max m n ≡ max n m
max_comm m n = ground arith

compare_lists-opposite :
    (a b : List Text)
    → compare_segments (max (length b) (length a)) b a
      ≡ opposite (compare_segments (max (length a) (length b)) a b)
compare_lists-opposite a b =
    ap (λ n. compare_segments n b a) (max_comm (length b) (length a))
    ∙ compare_segments-opposite (max (length a) (length b)) a b

strip_v-digit : (d : ℕ) (s : Text) → is_digit d ≡ true → strip_v (b'v' ∷ d ∷ s) ≡ strip_v (d ∷ s)
unfolding strip_v
strip_v-digit d [] h = ground arith
strip_v-digit d (c ∷ s) h = ground arith

-- Comparing two versions the other way round gives the opposite answer, and a "v" in front of a
-- version that begins with a digit changes nothing.
pub compare_versions-opposite :
    (a b : Text) (d : ℕ) (s : Text)
    → is_digit d ≡ true
    → (compare_versions b a ≡ opposite (compare_versions a b))
      × (compare_versions (b'v' ∷ d ∷ s) b ≡ compare_versions (d ∷ s) b)
unfolding compare_versions
compare_versions-opposite a b d s h = (
  compare_lists-opposite (split_version (strip_v a)) (split_version (strip_v b)),
  ap
      (λ t.
        compare_segments (max (length (split_version t)) (length (split_version (strip_v b))))
          (split_version t) (split_version (strip_v b)))
      (strip_v-digit d s h),
)
