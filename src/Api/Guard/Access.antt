-- ===== src/Api/Guard/Access.antt =====
-- What a request that is let in has shown.
use aiclibridge.Prelude.{
  ℕ, ◌≡◌, refl, ap, ◌∙◌, ◌⊎◌, ◌||◌, Text, lit, List, [], ◌∷◌, ◌++◌, text_eq, text_eq_iff,
  text_eq_refl, is_empty, has_prefix, trim_prefix, trim_space, any, All, Bool, true, false, arith,
  Bool-cases, inl, inr,
}
use aiclibridge.Api.Guard.{
  Host, sensitive, path_equal_or_under, validate_cwd, extract_api_key, auth_passes,
}

-- `above` is `path` or one of its parents.
abbrev pub IsAbove : Text → Text → Type 0
IsAbove above path =
    (path ≡ above) ⊎ ((above ≡ lit "/") ⊎ ((rest : Text) × (path ≡ above ++ lit "/" ++ rest)))

has_prefix-append : (p rest : Text) → has_prefix (p ++ rest) p ≡ true
unfolding has_prefix
has_prefix-append [] rest = refl
has_prefix-append (c ∷ p) rest = ground (arith, has_prefix-append p rest)

or-right : (a b : Bool) → b ≡ true → (a || b) ≡ true
or-right true b h = refl
or-right false b h = h

or-left : (a b : Bool) → a ≡ true → (a || b) ≡ true
or-left true b h = refl
or-left false b h = cc

path_equal_or_under_complete :
    (path above : Text) → IsAbove above path → path_equal_or_under path above ≡ true
unfolding path_equal_or_under
path_equal_or_under_complete path above (inl e) =
    or-left (text_eq path above) _ ((text_eq_iff path above).1 e)
path_equal_or_under_complete path above (inr (inl e)) =
    or-right (text_eq path above) _
      (or-left (text_eq above (lit "/")) _ ((text_eq_iff above (lit "/")).1 e))
path_equal_or_under_complete path above (inr (inr (rest, e))) = or-right (text_eq path above) _ (
    or-right (text_eq above (lit "/")) _
      (ap (λ p. has_prefix p (above ++ lit "/")) e ∙ has_prefix-append (above ++ lit "/") rest))

-- No path of a list is under the directory.
none_under :
    (h : Host) (cleaned : Text) (paths : List Text)
    → any (λ sp. path_equal_or_under (h.clean sp) cleaned) paths ≡ false
    → All (λ sp. ¬ (IsAbove cleaned (h.clean sp))) paths
none_under h cleaned [] e = tt
none_under h cleaned (sp ∷ paths) e = (
  λ a. ground (arith, path_equal_or_under_complete (h.clean sp) cleaned a),
  none_under h cleaned paths (ground arith),
)

-- A working directory that is accepted is the empty one, which stands for the daemon's own, or else
-- an absolute path to a directory that is neither a sensitive path nor above one: not one of the
-- system paths, and not the `.ssh` of the user.
pub validate_cwd_sound :
    (h : Host) (cwd : Text)
    → validate_cwd h cwd ≡ true
    → (cwd ≡ [])
      ⊎ ((h.is_dir (h.clean cwd) ≡ true)
          × (has_prefix (h.clean cwd) (lit "/") ≡ true)
          × All (λ sp. ¬ (IsAbove (h.clean cwd) (h.clean sp))) (sensitive h))
unfolding validate_cwd
validate_cwd_sound h [] ok = inl refl
validate_cwd_sound h (c ∷ cwd) ok =
    inr (ground arith, ground arith, none_under h (h.clean (c ∷ cwd)) (sensitive h) (ground arith))

-- The key is in x-api-key, or, where that is missing, behind `Bearer ` in Authorization.
abbrev pub Shows : Text → Text → Text → Type 0
Shows api_key x_api_key authorization =
    (trim_space x_api_key ≡ api_key)
    ⊎ ((x_api_key ≡ [])
        × (has_prefix authorization (lit "Bearer ") ≡ true)
        × (trim_space (trim_prefix authorization (lit "Bearer ")) ≡ api_key))

shown_of_extract_api_key :
    (c : ℕ) (key k a : Text) → extract_api_key k a ≡ c ∷ key → Shows (c ∷ key) k a
unfolding extract_api_key
shown_of_extract_api_key c key [] [] e = cc
shown_of_extract_api_key c key [] (d ∷ a) e =
    elim (Bool-cases (has_prefix (d ∷ a) (lit "Bearer "))) [
      | inl p ↦ inr (refl, p, ground arith)
      | inr p ↦ ground arith
    ]
shown_of_extract_api_key c key (d ∷ k) a e = inl e

-- With a key set that has no spaces around it, a request that passes shows the key, up to spaces
-- around it: in x-api-key, or, if it has no x-api-key, behind `Bearer ` in Authorization. A request
-- with the key in x-api-key passes whatever its Authorization is, and one with the key behind
-- `Bearer ` in Authorization passes if it has no x-api-key.
pub auth_passes_sound :
    (api_key : Text)
    → is_empty api_key ≡ false
    → trim_space api_key ≡ api_key
    → ((k a : Text) → auth_passes api_key k a ≡ true → Shows api_key k a)
      × ((a : Text) → auth_passes api_key api_key a ≡ true)
      × (auth_passes api_key [] (lit "Bearer " ++ api_key) ≡ true)
unfolding auth_passes extract_api_key
auth_passes_sound [] ne trimmed = cc
auth_passes_sound (c ∷ key) ne trimmed = (
  λ k a e. shown_of_extract_api_key c key k a ((text_eq_iff (extract_api_key k a) (c ∷ key)).0 e),
  λ a. rw (trimmed, text_eq_refl (c ∷ key)),
  rw (trimmed, text_eq_refl (c ∷ key)),
)
