-- ===== src/Prelude/Strings.antt =====
-- Go's strings as lists of bytes, and the functions of package strings that the program calls.
-- A constant is written `lit "..."`; the constants of the program are ASCII.
use Prim.Native.Nat.{ℕ, ◌+◌, ◌-◌, ◌*◌}
use Prim.Native.Char.{code}
use Prim.Native.String.{String}
use mathlib.Core.Bool.{Bool, true, false, ◌&&◌, ◌||◌}
use mathlib.Core.List.{List, [], ◌∷◌, ◌++◌, map, reverse}
use mathlib.Core.Option.{Option, none, some}
use aiclibridge.Prelude.Tests.{ltb, leb, ◌==◌, if◌then◌else◌}

abbrev pub Text : Type 0
Text = List ℕ

abbrev pub lit : String → Text
lit String.[] = []
lit (String.◌∷◌ c s) = code c ∷ lit s

-- s == t
unfoldable pub text_eq : Text → Text → Bool
text_eq [] [] = true
text_eq [] (_ ∷ _) = false
text_eq (_ ∷ _) [] = false
text_eq (a ∷ s) (b ∷ t) = a == b && text_eq s t

-- s < t, byte by byte
unfoldable pub text_lt : Text → Text → Bool
text_lt s [] = false
text_lt [] (_ ∷ _) = true
text_lt (a ∷ s) (b ∷ t) = ltb a b || (a == b && text_lt s t)

abbrev pub is_empty : Text → Bool
is_empty [] = true
is_empty (_ ∷ _) = false

-- strings.HasPrefix(s, p)
unfoldable pub has_prefix : Text → Text → Bool
has_prefix s [] = true
has_prefix [] (_ ∷ _) = false
has_prefix (a ∷ s) (b ∷ p) = a == b && has_prefix s p

-- strings.IndexByte, as the part before the first `c` and the part after it
unfoldable pub cut : ℕ → Text → Option (Text × Text)
cut c [] = none
cut c (a ∷ s) =
    if a == c then some ([], s) else elim (cut c s) [ none ↦ none | some (l, r) ↦ some (a ∷ l, r) ]

-- strings.Split(s, c) for a separator of one byte
unfoldable pub push_head : ℕ → List Text → List Text
push_head a [] = (a ∷ []) ∷ []
push_head a (w ∷ ws) = (a ∷ w) ∷ ws

unfoldable pub split : ℕ → Text → List Text
unfolding push_head
split c [] = [] ∷ []
split c (a ∷ s) = let rest = split c s in if a == c then [] ∷ rest else push_head a rest

-- strings.Join(ws, sep)
unfoldable pub join : Text → List Text → Text
join sep [] = []
join sep (w ∷ []) = w
join sep (w ∷ v ∷ ws) = w ++ (sep ++ join sep (v ∷ ws))

-- strings.ToLower on ASCII
abbrev pub lower_byte : ℕ → ℕ
lower_byte c = if leb 65 c && leb c 90 then c + 32 else c

unfoldable pub to_lower : Text → Text
to_lower s = map lower_byte s

-- strings.ToUpper on ASCII
unfoldable pub to_upper : Text → Text
to_upper s = map (λ c. if leb 97 c && leb c 122 then c - 32 else c) s

-- strings.TrimSpace on ASCII
abbrev pub is_space : ℕ → Bool
is_space c = (leb 9 c && leb c 13) || c == 32

unfoldable pub trim_left : Text → Text
trim_left [] = []
trim_left (c ∷ s) = let rest = trim_left s in if is_space c then rest else c ∷ s

unfoldable pub trim_space : Text → Text
unfolding trim_left
trim_space s = reverse (trim_left (reverse (trim_left s)))

abbrev pub is_digit : ℕ → Bool
is_digit c = leb 48 c && leb c 57

digits_from : ℕ → Text → Option ℕ
digits_from n [] = some n
digits_from n (c ∷ s) = if is_digit c then digits_from (n * 10 + (c - 48)) s else none

-- A run of one or more decimal digits.
unfoldable pub digits : Text → Option ℕ
unfolding digits_from
digits [] = none
digits (c ∷ s) = digits_from 0 (c ∷ s)

-- strings.IndexByte
unfoldable pub index_byte : ℕ → Text → Option ℕ
index_byte c [] = none
index_byte c (a ∷ s) =
    if a == c then some 0 else elim (index_byte c s) [ none ↦ none | some i ↦ some (i + 1) ]

-- s[strings.Index(s, p):], `none` if `p` does not occur in `s`
unfoldable pub from_index : Text → Text → Option Text
unfolding has_prefix
from_index p [] = if has_prefix [] p then some [] else none
from_index p (a ∷ s) = if has_prefix (a ∷ s) p then some (a ∷ s) else from_index p s

-- strings.TrimPrefix(s, p)
unfoldable pub strip_prefix : Text → Text → Option Text
strip_prefix s [] = some s
strip_prefix [] (_ ∷ _) = none
strip_prefix (a ∷ s) (b ∷ p) = if a == b then strip_prefix s p else none

unfoldable pub trim_prefix : Text → Text → Text
unfolding strip_prefix
trim_prefix s p = elim (strip_prefix s p) [ none ↦ s | some rest ↦ rest ]

-- The first text that is not empty.
abbrev pub or_text : Text → Text → Text
or_text first second = if is_empty first then second else first

abbrev pub or_nil : Option Text → Text
or_nil none = []
or_nil (some s) = s

-- strings.Fields on ASCII: the words between runs of spaces.
unfoldable pub words : Text → List Text
unfolding push_head
words [] = [] ∷ []
words (c ∷ s) = let rest = words s in if is_space c then [] ∷ rest else push_head c rest

unfoldable pub filled : List Text → List Text
filled [] = []
filled (w ∷ ws) = let rest = filled ws in if is_empty w then rest else w ∷ rest

unfoldable pub fields : Text → List Text
unfolding words filled
fields s = filled (words s)
