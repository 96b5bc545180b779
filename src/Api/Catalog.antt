-- ===== src/Api/Catalog.antt =====
-- What internal/api makes of the catalog: resolveModel of server.go; the two model lists and the list
-- of providers of native.go.
pub mod Listing
use aiclibridge.Prelude.{
  ℕ, Text, lit, List, [], ◌∷◌, ◌++◌, Option, none, some, if◌then◌else◌, text_eq, is_empty, any,
  ◌==◌, map, Bool,
}
use aiclibridge.Detect.Types.{ModelInfo, ProviderInfo, CliInfo}
use aiclibridge.Detect.Names.{model_name}

-- The three loops over the catalog: every CLI, each of its providers, each of their models.
module _ {ℓ} {A : Type ℓ} (f : Text → Text → ModelInfo → A) where
  abbrev pub in_models : Text → Text → List ModelInfo → List A
  in_models cli p [] = []
  in_models cli p (m ∷ ms) = f cli p m ∷ in_models cli p ms

  abbrev pub in_providers : Text → List ProviderInfo → List A
  in_providers cli [] = []
  in_providers cli (p ∷ ps) = in_models cli p.name p.models ++ in_providers cli ps

  abbrev pub in_catalog : List CliInfo → List A
  in_catalog [] = []
  in_catalog (c ∷ cs) = in_providers c.name c.providers ++ in_catalog cs

pub record OpenAiModelsEntry : Type 0 where
  pub id : Text
  pub object : Text
  pub created : ℕ
  pub owned_by : Text

unfoldable pub openai_models_envelope : List CliInfo → List OpenAiModelsEntry
openai_models_envelope agents =
    in_catalog
      (λ cli p m. record {
        id = model_name cli p m.name;
        object = lit "model";
        created = 1;
        owned_by = p;
      })
      agents

pub record AnthropicModelsEntry : Type 0 where
  pub id : Text
  pub display_name : Text
  pub type : Text

abbrev display_name_of : ModelInfo → Text
display_name_of m = if is_empty m.display_name then m.name else m.display_name

unfoldable pub anthropic_models_envelope : List CliInfo → List AnthropicModelsEntry
anthropic_models_envelope agents =
    in_catalog
      (λ cli p m. record {
        id = model_name cli p m.name;
        display_name = display_name_of m;
        type = lit "model";
      })
      agents

-- A return in a loop: the loops around it go no further.
abbrev pub first_of : Option Text → Option Text → Option Text
first_of none o = o
first_of (some x) o = some x

-- The loops of resolveModel, which return at the first model of the name.
unfoldable pub find_model : Text → Text → Text → List ModelInfo → Option Text
find_model model cli p [] = none
find_model model cli p (m ∷ ms) =
    if text_eq m.name model then some (model_name cli p m.name) else find_model model cli p ms

unfoldable pub find_provider : Text → Text → List ProviderInfo → Option Text
unfolding find_model
find_provider model cli [] = none
find_provider model cli (p ∷ ps) =
    first_of (find_model model cli p.name p.models) (find_provider model cli ps)

unfoldable pub find_cli : Text → List CliInfo → Option Text
unfolding find_provider
find_cli model [] = none
find_cli model (c ∷ cs) = first_of (find_provider model c.name c.providers) (find_cli model cs)

-- The agents are what ListAgents returns, `none` for its error.
unfoldable pub resolve_model : Option (List CliInfo) → Text → Option Text
unfolding find_cli
resolve_model agents [] = some []
resolve_model agents (c ∷ model) =
    if any (λ a. a == b'/') (c ∷ model)
    then some (c ∷ model)
    else elim agents [ none ↦ none | some cat ↦ find_cli (c ∷ model) cat ]

-- handleListProviders: the names, and those that are not seen before.
abbrev pub names_of : List ProviderInfo → List Text
names_of ps = map (λ (p : ProviderInfo). p.name) ps

abbrev pub provider_names : List CliInfo → List Text
provider_names [] = []
provider_names (c ∷ cs) = names_of c.providers ++ provider_names cs

abbrev pub see : List Text → Text → List Text
see seen name = if any (text_eq name) seen then seen else seen ++ name ∷ []

unfoldable pub unique_from : List Text → List Text → List Text
unique_from seen [] = seen
unique_from seen (n ∷ ns) = unique_from (see seen n) ns

unfoldable pub unique_providers : List CliInfo → List Text
unfolding unique_from
unique_providers agents = unique_from [] (provider_names agents)
