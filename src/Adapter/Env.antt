-- ===== src/Adapter/Env.antt =====
-- mergeEnv and isFilteredChildEnvKey of internal/adapter/helpers.go.
pub mod Inherited
use aiclibridge.Prelude.{
  Text, lit, List, [], ◌∷◌, ◌++◌, Option, none, some, if◌then◌else◌, Bool, true, false, cut,
  text_eq, has_prefix, any, ◌||◌,
}

abbrev pub filtered_keys : List Text
filtered_keys =
    lit "CLAUDECODE"
    ∷ lit "CLAUDE_CODE_ENTRYPOINT"
    ∷ lit "CLAUDE_CODE_EXECPATH"
    ∷ lit "CLAUDE_CODE_SESSION_ID"
    ∷ lit "CLAUDE_CODE_SSE_PORT"
    ∷ []

unfoldable pub is_filtered_child_env_key : Text → Bool
unfolding has_prefix
is_filtered_child_env_key key =
    any (λ k. text_eq k key) filtered_keys || has_prefix key (lit "CLAUDECODE_")

-- strings.Cut(entry, "="): what stands before the sign, else the whole entry.
unfoldable pub key_of : Text → Text
unfolding cut
key_of entry = elim (cut b'=' entry) [ none ↦ entry | some (key, value) ↦ key ]

unfoldable pub inherited : List Text → List Text
unfolding key_of is_filtered_child_env_key
inherited [] = []
inherited (entry ∷ base) =
    let rest = inherited base in
    if is_filtered_child_env_key (key_of entry) then rest else entry ∷ rest

unfoldable pub extra_entries : List (Text × Text) → List Text
extra_entries [] = []
extra_entries ((k, v) ∷ extra) = (k ++ b'=' ∷ v) ∷ extra_entries extra

unfoldable pub merge_env : List Text → List (Text × Text) → List Text
unfolding inherited extra_entries
merge_env base extra = inherited base ++ extra_entries extra
