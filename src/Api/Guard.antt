-- ===== src/Api/Guard.antt =====
-- What internal/api lets in: validateCwd and pathEqualOrUnder of native.go, extractAPIKey and
-- authMiddleware of middleware.go. filepath.Clean, filepath.Join and os.Stat are arguments; a
-- header is the empty text where it is missing.
pub mod Access
use aiclibridge.Prelude.{
  Text, lit, List, [], ◌∷◌, ◌++◌, Option, none, some, if◌then◌else◌, text_eq, is_empty, has_prefix,
  trim_prefix, trim_space, from_index, any, Bool, true, false, ◌&&◌, ◌||◌, not,
}

unfoldable pub sensitive_system_paths : List Text
sensitive_system_paths =
    lit "/etc"
    ∷ lit "/usr"
    ∷ lit "/bin"
    ∷ lit "/sbin"
    ∷ lit "/var"
    ∷ lit "/root"
    ∷ lit "/boot"
    ∷ lit "/dev"
    ∷ lit "/sys"
    ∷ lit "/proc"
    ∷ []

unfoldable pub path_equal_or_under : Text → Text → Bool
unfolding text_eq has_prefix
path_equal_or_under target base =
    text_eq target base || (text_eq base (lit "/") || has_prefix target (base ++ lit "/"))

-- strings.Contains(s, p)
abbrev contains : Text → Text → Bool
contains s p = elim (from_index p s) [ none ↦ false | some rest ↦ true ]

-- The parts of the standard library and of the host that the check asks.
pub record Host : Type 0 where
  -- filepath.Clean
  pub clean : Text → Text
  -- os.Stat says that it is a directory
  pub is_dir : Text → Bool
  -- os.UserHomeDir, and filepath.Join of it with ".ssh"
  pub home : Option Text
  pub join_ssh : Text → Text

abbrev pub sensitive : Host → List Text
sensitive h = elim h.home [
  | none ↦ sensitive_system_paths
  | some home ↦
      if is_empty home
      then sensitive_system_paths
      else sensitive_system_paths ++ h.join_ssh home ∷ []
]

-- No error.
unfoldable pub validate_cwd : Host → Text → Bool
unfolding path_equal_or_under from_index has_prefix
validate_cwd h [] = true
validate_cwd h (c ∷ cwd) =
    let cleaned = h.clean (c ∷ cwd) in
    has_prefix cleaned (lit "/")
    && (not (contains cleaned (lit ".."))
        && (h.is_dir cleaned
            && not (any (λ sp. path_equal_or_under (h.clean sp) cleaned) (sensitive h))))

-- The headers x-api-key and Authorization.
unfoldable pub extract_api_key : Text → Text → Text
unfolding trim_space has_prefix trim_prefix
extract_api_key [] [] = []
extract_api_key [] (c ∷ auth) =
    if has_prefix (c ∷ auth) (lit "Bearer ")
    then trim_space (trim_prefix (c ∷ auth) (lit "Bearer "))
    else []
extract_api_key (c ∷ key) auth = trim_space (c ∷ key)

-- The request goes on to the next handler; otherwise it gets a 401.
unfoldable pub auth_passes : Text → Text → Text → Bool
unfolding text_eq extract_api_key
auth_passes [] x_api_key authorization = true
auth_passes (c ∷ api_key) x_api_key authorization =
    text_eq (extract_api_key x_api_key authorization) (c ∷ api_key)
