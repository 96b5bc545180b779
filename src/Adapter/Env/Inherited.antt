-- ===== src/Adapter/Env/Inherited.antt =====
-- Which variables a child inherits.
use aiclibridge.Prelude.{◌≡◌, Text, List, [], ◌∷◌, false, All, Bool-cases, inl, inr}
use aiclibridge.Adapter.Env.{inherited, key_of, is_filtered_child_env_key}

-- No inherited entry has a filtered key.
pub inherited-unfiltered :
    (base : List Text)
    → All (λ entry. is_filtered_child_env_key (key_of entry) ≡ false) (inherited base)
unfolding inherited
inherited-unfiltered [] = tt
inherited-unfiltered (entry ∷ base) = elim (Bool-cases (is_filtered_child_env_key (key_of entry))) [
  | inl e ↦ rw (inherited, e) (inherited-unfiltered base)
  | inr e ↦ rw (inherited, e) (e, inherited-unfiltered base)
]
