-- ===== src/Prelude/Strconv.antt =====
-- strconv.Atoi, strconv.ParseBool; `none` is their error.
use Prim.Native.Nat.{ℕ, zero, suc, ◌+◌, ◌-◌, ◌/◌, ◌%◌, ◌^◌}
use mathlib.Core.Bool.{Bool, true, false}
use mathlib.Core.List.{List, [], ◌∷◌}
use mathlib.Core.Option.{Option, none, some}
use aiclibridge.Prelude.Tests.{ltb, leb, ◌==◌, if◌then◌else◌, ◌>>=◌}
use aiclibridge.Prelude.Lists.{any}
use aiclibridge.Prelude.Int.{ℤ, pos, negsuc}
use aiclibridge.Prelude.Strings.{Text, lit, text_eq, digits}

abbrev positive : ℕ → Option ℤ
positive n = if ltb n (2 ^ 63) then some (pos n) else none

abbrev negative : ℕ → Option ℤ
negative n = if n == 0 then some (pos 0) else if leb n (2 ^ 63) then some (negsuc (n - 1)) else none

-- An optional sign and digits, within the range of a 64-bit int.
unfoldable pub atoi : Text → Option ℤ
unfolding digits
atoi [] = none
atoi (c ∷ s) =
    if c == b'+'
    then (digits s >>= λ n. positive n)
    else if c == b'-'
    then (digits s >>= λ n. negative n)
    else digits (c ∷ s) >>= λ n. positive n

abbrev one_of : Text → List Text → Bool
one_of s ts = any (text_eq s) ts

unfoldable pub parse_bool : Text → Option Bool
unfolding text_eq
parse_bool s =
    if one_of s (lit "1" ∷ lit "t" ∷ lit "T" ∷ lit "TRUE" ∷ lit "true" ∷ lit "True" ∷ [])
    then some true
    else if one_of s (lit "0" ∷ lit "f" ∷ lit "F" ∷ lit "FALSE" ∷ lit "false" ∷ lit "False" ∷ [])
    then some false
    else none

-- The digits of n before `acc`; an int64 has 19 at most.
unfoldable pub decimal : ℕ → ℕ → Text → Text
decimal zero n acc = acc
decimal (suc fuel) n acc =
    let rest = decimal fuel (n / 10) ((48 + n % 10) ∷ acc) in
    if ltb n 10 then (48 + n) ∷ acc else rest

-- strconv.Itoa, or fmt.Sprintf("%d") of an int
unfoldable pub format_int : ℤ → Text
unfolding decimal
format_int (pos n) = decimal 20 n []
format_int (negsuc n) = 45 ∷ decimal 20 (suc n) []
