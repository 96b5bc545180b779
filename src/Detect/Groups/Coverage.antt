-- ===== src/Detect/Groups/Coverage.antt =====
-- What groupAdapterModels keeps of a list of models.
use mathlib.Core.List.{map-append}
use aiclibridge.Prelude.{
  Distinct, Distinct-snoc, ◌≡◌, ◌≢◌, Text, List, [], ◌∷◌, text_eq, text_eq_iff, ◌⊎◌, map, any, All,
  true, false, Bool-cases, inl, inr, arith,
}
use aiclibridge.Detect.Types.{ModelInfo, ProviderInfo, Model}
use aiclibridge.Detect.Groups.{
  named, add_info, add_model, provider_of, info_of, group_from, group_adapter_models,
}

abbrev pub provider_names : List ProviderInfo → List Text
provider_names gs = map (λ g. g.name) gs

abbrev pub model_names : List ModelInfo → List Text
model_names ms = map (λ m. m.name) ms

-- No provider twice, and no model twice within a provider.
abbrev pub IsGrouped : List ProviderInfo → Type 0
IsGrouped gs = Distinct (provider_names gs) × All (λ g. Distinct (model_names g.models)) gs

absent :
    (m : ModelInfo) (ms : List ModelInfo)
    → any (named m.name) ms ≡ false
    → All (λ n. n ≢ m.name) (model_names ms)
absent m [] h = tt
absent m (n ∷ ms) h = ((λ e. ground (arith, text_eq_iff n.name m.name)), absent m ms (ground arith))

add_info-Distinct :
    (m : ModelInfo) (ms : List ModelInfo)
    → Distinct (model_names ms)
    → Distinct (model_names (add_info m ms))
unfolding add_info
add_info-Distinct m ms d = elim (Bool-cases (any (named m.name) ms)) [
  | inl e ↦ rw e d
  | inr e ↦ rw e (rw map-append (Distinct-snoc (model_names ms) m.name (absent m ms e) d))
]

-- A new provider goes to the end, an old one keeps its place.
provider_names-add_model :
    (p : Text) (m : ModelInfo) (gs : List ProviderInfo) (q : Text)
    → q ≢ p
    → All (λ n. q ≢ n) (provider_names gs)
    → All (λ n. q ≢ n) (provider_names (add_model p m gs))
unfolding add_model
provider_names-add_model p m [] q ne h = (ne, tt)
provider_names-add_model p m (g ∷ gs) q ne (a, h) = elim (Bool-cases (text_eq g.name p)) [
  | inl e ↦ rw e (a, h)
  | inr e ↦ rw e (a, provider_names-add_model p m gs q ne h)
]

add_model-IsGrouped :
    (p : Text) (m : ModelInfo) (gs : List ProviderInfo)
    → IsGrouped gs
    → IsGrouped (add_model p m gs)
unfolding add_model
add_model-IsGrouped p m [] h = ((tt, tt), ((tt, tt), tt))
add_model-IsGrouped p m (g ∷ gs) ((a, d), (u, h)) = elim (Bool-cases (text_eq g.name p)) [
  | inl e ↦ rw e ((a, d), (add_info-Distinct m g.models u, h))
  | inr e ↦
      let (d', h') = add_model-IsGrouped p m gs (d, h) in
      let other : g.name ≢ p = λ same. ground (arith, text_eq_iff g.name p) in
      rw e ((provider_names-add_model p m gs g.name other a, d'), (u, h'))
]

group_from-IsGrouped :
    (gs : List ProviderInfo) (ms : List Model) → IsGrouped gs → IsGrouped (group_from gs ms)
unfolding group_from
group_from-IsGrouped gs [] h = h
group_from-IsGrouped gs (m ∷ ms) h =
    group_from-IsGrouped (add_model (provider_of m) (info_of m) gs) ms
      (add_model-IsGrouped _ _ gs h)

-- Whatever models a CLI lists, the grouped catalog names no provider twice, and no model twice
-- within a provider.
pub group_adapter_models-IsGrouped : (ms : List Model) → IsGrouped (group_adapter_models ms)
unfolding group_adapter_models
group_adapter_models-IsGrouped ms = group_from-IsGrouped [] ms (tt, tt)

-- Every listed model is in the catalog.
abbrev pub Offers : Text → Text → List ProviderInfo → Type 0
Offers p name [] = ⊥
Offers p name (g ∷ gs) = ((g.name ≡ p) × (any (named name) g.models ≡ true)) ⊎ Offers p name gs
