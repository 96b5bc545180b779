-- ===== src/Update.antt =====
-- CompareVersions of internal/update/update.go.
pub mod Versions
use aiclibridge.Prelude.{
  ℕ, zero, suc, ltb, Text, lit, List, [], ◌∷◌, Option, none, some, if◌then◌else◌, split, map,
  length, text_lt, is_digit, is_empty, ◌==◌, Bool, ◌&&◌, ◌||◌,
}
use aiclibridge.Prelude.Int.{ℤ, pos, negsuc, ltb_ℤ}
use aiclibridge.Prelude.Strconv.{atoi}

unfoldable pub strip_v : Text → Text
strip_v [] = []
strip_v (c ∷ []) = c ∷ []
strip_v (c ∷ d ∷ s) = if (c == b'v' || c == b'V') && is_digit d then d ∷ s else c ∷ d ∷ s

abbrev dashes_to_dots : Text → Text
dashes_to_dots s = map (λ c. if c == b'-' then b'.' else c) s

unfoldable pub split_version : Text → List Text
unfolding strip_v split
split_version s =
    let t = strip_v s in if is_empty t then lit "0" ∷ [] else split b'.' (dashes_to_dots t)

-- partInt and partStr at the index of the loop, and the parts behind it.
unfoldable pub part_int : List Text → Option ℤ
unfolding atoi
part_int [] = some (pos 0)
part_int (p ∷ ps) = atoi p

abbrev pub part_str : List Text → Text
part_str [] = []
part_str (p ∷ ps) = p

abbrev pub parts_after : List Text → List Text
parts_after [] = []
parts_after (p ∷ ps) = ps

-- Less, greater, or what the rest says.
abbrev pub choose : Bool → Bool → ℤ → ℤ
choose lt gt rest = if lt then negsuc 0 else if gt then pos 1 else rest

-- Numbers are compared as numbers, anything else as text.
unfoldable pub compare_segment : Option ℤ → Option ℤ → Text → Text → ℤ → ℤ
unfolding text_lt
compare_segment (some x) (some y) s t rest = choose (ltb_ℤ x y) (ltb_ℤ y x) rest
compare_segment (some x) none s t rest = choose (text_lt s t) (text_lt t s) rest
compare_segment none y s t rest = choose (text_lt s t) (text_lt t s) rest

-- The loop, for a number of segments.
unfoldable pub compare_segments : ℕ → List Text → List Text → ℤ
unfolding part_int compare_segment
compare_segments zero a b = pos 0
compare_segments (suc n) a b =
    compare_segment (part_int a) (part_int b) (part_str a) (part_str b)
      (compare_segments n (parts_after a) (parts_after b))

abbrev pub max : ℕ → ℕ → ℕ
max m n = if ltb m n then n else m

unfoldable pub compare_versions : Text → Text → ℤ
unfolding strip_v split_version compare_segments
compare_versions a b =
    let aa = split_version (strip_v a) in
    let bb = split_version (strip_v b) in compare_segments (max (length aa) (length bb)) aa bb
