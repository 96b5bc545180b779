-- ===== src/Detect/Groups.antt =====
-- internal/detect/catalog.go: what a probe of a CLI printed, as a catalog (groupAdapterModels,
-- parseCodebuddyHelpModels, DiscoverModels of dynamicDiscoverer). The probes run other programs:
-- what they return is an argument.
pub mod Coverage
use mathlib.Core.List.{map-append}
use aiclibridge.Prelude.{
  ℕ, ◌+◌, ◌-◌, ◌≡◌, ◌≢◌, refl, Text, lit, List, [], ◌∷◌, ◌++◌, Option, none, some, if◌then◌else◌,
  is_empty, text_eq, text_eq_iff, text_eq_refl, ◌⊎◌, has_prefix, trim_prefix, from_index,
  index_byte, split, trim_space, take, drop, leb, map, any, All, All-append, Bool, true, false,
  Bool-cases, inl, inr, arith,
}
use aiclibridge.Detect.Types.{ModelInfo, ProviderInfo, Model}
use aiclibridge.Detect.Catalog.{hardcoded_models}

abbrev named : Text → ModelInfo → Bool
named name m = text_eq m.name name

add_info : ModelInfo → List ModelInfo → List ModelInfo
add_info m ms = if any (named m.name) ms then ms else ms ++ m ∷ []

-- byProvider and order together: the providers in first-seen order.
add_model : Text → ModelInfo → List ProviderInfo → List ProviderInfo
unfolding add_info
add_model p m [] = record { name = p; models = m ∷ [] } ∷ []
add_model p m (g ∷ groups) =
    if text_eq g.name p
    then record g { models = add_info m g.models } ∷ groups
    else g ∷ add_model p m groups

abbrev pub provider_of : Model → Text
provider_of m = if is_empty m.provider then lit "unknown" else m.provider

abbrev pub info_of : Model → ModelInfo
info_of m = record { name = trim_prefix m.id (provider_of m ++ lit "/"); display_name = m.label }

group_from : List ProviderInfo → List Model → List ProviderInfo
group_from groups [] = groups
group_from groups (m ∷ ms) = group_from (add_model (provider_of m) (info_of m) groups) ms

unfoldable pub group_adapter_models : List Model → List ProviderInfo
unfolding group_from add_model trim_prefix
group_adapter_models ms = group_from [] ms

help_entries : List Text → List Model
help_entries [] = []
help_entries (p ∷ ps) =
    let rest = help_entries ps in
    let id = trim_space p in
    if is_empty id
    then rest
    else record { id = id; label = []; provider = lit "tencent"; default = false } ∷ rest

between : ℕ → ℕ → Text → List Model
unfolding help_entries split trim_space
between opening closing rest =
    if leb closing opening
    then []
    else help_entries (split b',' (take (closing - (opening + 1)) (drop (opening + 1) rest)))

unfoldable pub parse_codebuddy_help_models : Text → List Model
unfolding between from_index index_byte
parse_codebuddy_help_models help = elim (from_index (lit "Currently supported:") help) [
  | none ↦ []
  | some rest ↦ elim (index_byte b'(' rest) [
    | none ↦ []
    | some opening ↦ elim (index_byte b')' rest) [
      | none ↦ []
      | some closing ↦ between opening closing rest
    ]
  ]
]

-- The result of a probe: `none` is its error, or that the CLI has no probe.
unfoldable pub discover_models : Text → Option (List Model) → List ProviderInfo
unfolding hardcoded_models group_adapter_models
discover_models cli none = hardcoded_models cli
discover_models cli (some []) = hardcoded_models cli
discover_models cli (some (m ∷ ms)) = group_adapter_models (m ∷ ms)
