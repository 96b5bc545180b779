-- ===== src/Adapter/Versions.antt =====
-- compareDotVersions, allNumeric and partOrZero of internal/adapter/helpers.go.
pub mod Order
use aiclibridge.Prelude.{
  ℕ, zero, suc, ltb, Text, List, [], ◌∷◌, Option, none, some, if◌then◌else◌, split, length, ◌>>=◌,
}
use aiclibridge.Prelude.Int.{ℤ, pos, negsuc, ltb_ℤ}
use aiclibridge.Prelude.Strconv.{atoi}

-- allNumeric, with the numbers.
unfoldable pub numbers : List Text → Option (List ℤ)
unfolding atoi
numbers [] = some []
numbers (p ∷ ps) = do n ← atoi p; ns ← numbers ps; some (n ∷ ns)

-- partOrZero at the index of the loop, and the parts behind it.
abbrev pub part_or_zero : List ℤ → ℤ
part_or_zero [] = pos 0
part_or_zero (n ∷ ns) = n

abbrev pub parts_after : List ℤ → List ℤ
parts_after [] = []
parts_after (n ∷ ns) = ns

abbrev pub max : ℕ → ℕ → ℕ
max m n = if ltb m n then n else m

-- The loop, for a number of components.
unfoldable pub compare_parts : ℕ → List ℤ → List ℤ → ℤ
compare_parts zero a b = pos 0
compare_parts (suc n) a b =
    let rest = compare_parts n (parts_after a) (parts_after b) in
    if ltb_ℤ (part_or_zero a) (part_or_zero b)
    then negsuc 0
    else if ltb_ℤ (part_or_zero b) (part_or_zero a)
    then pos 1
    else rest

unfoldable pub compare_numbers : List ℤ → List ℤ → ℤ
unfolding compare_parts
compare_numbers a b = compare_parts (max (length a) (length b)) a b

-- `none` is "not comparable".
unfoldable pub compare_dot_versions : Text → Text → Option ℤ
unfolding numbers split compare_numbers
compare_dot_versions a b = do
  an ← numbers (split b'.' a)
  bn ← numbers (split b'.' b)
  some (compare_numbers an bn)
