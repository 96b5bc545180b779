-- ===== src/Adapter/Openclaw/Version.antt =====
-- checkOpenclawVersion and compareOpenclawVersion of internal/adapter/openclaw.go. What the CLI
-- prints for --version, and the first match of the version pattern in it, are arguments.
use aiclibridge.Prelude.{Text, lit, Option, none, some, if◌then◌else◌, Bool, cut, ◌>>=◌}
use aiclibridge.Prelude.Int.{ℤ, pos, negsuc, ltb_ℤ}
use aiclibridge.Prelude.Strconv.{atoi}

-- strings.SplitN(s, ".", 3), where it gives three parts; the loop panics on fewer.
unfoldable pub three_parts : Text → Option (Text × Text × Text)
unfolding cut
three_parts s = elim (cut b'.' s) [
  | none ↦ none
  | some (major, rest) ↦ elim (cut b'.' rest) [
    | none ↦ none
    | some (minor, patch) ↦ some (major, minor, patch)
  ]
]

-- strconv.Atoi, 0 on its error.
abbrev number_or_zero : Text → ℤ
number_or_zero s = elim (atoi s) [ none ↦ pos 0 | some n ↦ n ]

unfoldable pub compare_part : Text → Text → ℤ → ℤ
unfolding atoi
compare_part a b rest =
    if ltb_ℤ (number_or_zero a) (number_or_zero b)
    then negsuc 0
    else if ltb_ℤ (number_or_zero b) (number_or_zero a)
    then pos 1
    else rest

unfoldable pub compare_openclaw_version : Text → Text → Option ℤ
unfolding three_parts compare_part
compare_openclaw_version a b = do
  (a1, a2, a3) ← three_parts a
  (b1, b2, b3) ← three_parts b
  some (compare_part a1 b1 (compare_part a2 b2 (compare_part a3 b3 (pos 0))))

abbrev pub min_openclaw_version : Text
min_openclaw_version = lit "2026.5.5"

-- Whether the version check lets a run go on; a version that cannot be read does.
unfoldable pub version_supported : (Text → Option Text) → Option Text → Option Bool
unfolding compare_openclaw_version
version_supported find none = some Bool.true
version_supported find (some out) = elim (find out) [
  | none ↦ some Bool.true
  | some detected ↦ elim (compare_openclaw_version detected min_openclaw_version) [
    | none ↦ none
    | some order ↦ some (if ltb_ℤ order (pos 0) then Bool.false else Bool.true)
  ]
]
