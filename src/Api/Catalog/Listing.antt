-- ===== src/Api/Catalog/Listing.antt =====
-- What a listed model name and a resolved one have to do with each other.
use mathlib.Core.List.{map-append}
use aiclibridge.Prelude.{
  Distinct, Distinct-snoc, ◌≡◌, ◌≢◌, refl, ap, sym, ◌∙◌, Text, List, [], ◌∷◌, ◌++◌, Option, none,
  some, text_eq, text_eq_refl, text_eq_iff, is_empty, any, ◌==◌, map, All, All-append, Bool, ◌&&◌,
  true, false, arith, Bool-cases, inl, inr,
}
use aiclibridge.Detect.Types.{ModelInfo, ProviderInfo, CliInfo}
use aiclibridge.Detect.Names.{model_name}
use aiclibridge.Api.Catalog.{
  first_of, in_models, in_providers, in_catalog, openai_models_envelope, anthropic_models_envelope,
  OpenAiModelsEntry, AnthropicModelsEntry, find_model, find_provider, find_cli, resolve_model,
  provider_names, see, unique_from, unique_providers,
}

-- The id of a model of the catalog, and its bare name.
abbrev pub entry_in : Text → Text → ModelInfo → Text × Text
entry_in cli p m = (model_name cli p m.name, m.name)

-- An entry has this id and this bare name.
abbrev pub offers : Text → Text → Text × Text → Bool
offers id model e = text_eq id e.0 && text_eq e.1 model

-- The name that the loops of resolveModel give is of a model in the catalog, and they give one for
-- every model name in it.
record IsFound (model : Text) (entries : List (Text × Text)) (o : Option Text) : Type 0 where
  offered : (id : Text) → o ≡ some id → any (offers id model) entries ≡ true
  missing : o ≡ none → All (λ e. e.1 ≢ model) entries

any-left {ℓ} :
    {A : Type ℓ} (p : A → Bool) (xs ys : List A) → any p xs ≡ true → any p (xs ++ ys) ≡ true
any-left p [] ys h = cc
any-left p (y ∷ xs) ys h = ground (arith, any-left p xs ys)

any-right {ℓ} :
    {A : Type ℓ} (p : A → Bool) (xs ys : List A) → any p ys ≡ true → any p (xs ++ ys) ≡ true
any-right p [] ys h = h
any-right p (y ∷ xs) ys h = ground (arith, any-right p xs ys)

IsFound-append :
    (model : Text) (es fs : List (Text × Text)) (o p : Option Text)
    → IsFound model es o
    → IsFound model fs p
    → IsFound model (es ++ fs) (first_of o p)
IsFound-append model es fs none p v w = record {
  offered = λ id e. any-right (offers id model) es fs (w.offered id e);
  missing = λ e. All-append _ es fs (v.missing refl) (w.missing e);
}
IsFound-append model es fs (some x) p v w = record {
  offered = λ id e. any-left (offers id model) es fs (v.offered id e);
  missing = λ e. cc;
}

find_model-IsFound :
    (model cli p : Text) (ms : List ModelInfo)
    → IsFound model (in_models entry_in cli p ms) (find_model model cli p ms)
unfolding find_model
find_model-IsFound model cli p [] = record { offered = λ id e. cc; missing = λ e. tt }
find_model-IsFound model cli p (m ∷ ms) =
    let v = find_model-IsFound model cli p ms in
    elim (Bool-cases (text_eq m.name model)) [
      | inl e ↦
          rw e (record { offered = λ id h. ground (arith, text_eq_refl id); missing = λ h. cc })
      | inr e ↦ rw e (record {
        offered = λ id h. ground (arith, v.offered id h);
        missing = λ h. ((λ same. ground (arith, text_eq_iff m.name model)), v.missing h);
      })
    ]

find_provider-IsFound :
    (model cli : Text) (ps : List ProviderInfo)
    → IsFound model (in_providers entry_in cli ps) (find_provider model cli ps)
unfolding find_provider
find_provider-IsFound model cli [] = record { offered = λ id e. cc; missing = λ e. tt }
find_provider-IsFound model cli (p ∷ ps) =
    IsFound-append model _ _ (find_model model cli p.name p.models) _
      (find_model-IsFound model cli p.name p.models) (find_provider-IsFound model cli ps)

find_cli-IsFound :
    (model : Text) (cs : List CliInfo) → IsFound model (in_catalog entry_in cs) (find_cli model cs)
unfolding find_cli
find_cli-IsFound model [] = record { offered = λ id e. cc; missing = λ e. tt }
find_cli-IsFound model (c ∷ cs) =
    IsFound-append model _ _ (find_provider model c.name c.providers) _
      (find_provider-IsFound model c.name c.providers) (find_cli-IsFound model cs)

-- A field of the listed entries.
module _ {ℓ κ} {A : Type ℓ} {B : Type κ} (g : A → B) (f : Text → Text → ModelInfo → A) where
  map-in_models :
      (cli p : Text) (ms : List ModelInfo)
      → map g (in_models f cli p ms) ≡ in_models (λ c q m. g (f c q m)) cli p ms
  map-in_models cli p [] = refl
  map-in_models cli p (m ∷ ms) = ap (λ xs. g (f cli p m) ∷ xs) (map-in_models cli p ms)

  map-in_providers :
      (cli : Text) (ps : List ProviderInfo)
      → map g (in_providers f cli ps) ≡ in_providers (λ c q m. g (f c q m)) cli ps
  map-in_providers cli [] = refl
  map-in_providers cli (p ∷ ps) =
      rw (map-append, map-in_models cli p.name p.models, map-in_providers cli ps)

  map-in_catalog :
      (cs : List CliInfo) → map g (in_catalog f cs) ≡ in_catalog (λ c q m. g (f c q m)) cs
  map-in_catalog [] = refl
  map-in_catalog (c ∷ cs) = rw (map-append, map-in_providers c.name c.providers, map-in_catalog cs)

abbrev pub listed_ids : List CliInfo → List Text
listed_ids agents = map (λ (e : OpenAiModelsEntry). e.id) (openai_models_envelope agents)

-- The OpenAI and the Anthropic list offer the same model ids, in the same order.
pub anthropic_models_envelope-openai_models_envelope :
    (agents : List CliInfo)
    → map (λ (e : AnthropicModelsEntry). e.id) (anthropic_models_envelope agents)
      ≡ listed_ids agents
unfolding anthropic_models_envelope openai_models_envelope
anthropic_models_envelope-openai_models_envelope agents =
    map-in_catalog _ _ agents ∙ sym (map-in_catalog _ _ agents)

abbrev pub entries_of : List CliInfo → List (Text × Text)
entries_of agents = in_catalog entry_in agents

-- The ids of the entries are those that the daemon lists.
listed_ids-entries_of :
    (agents : List CliInfo) → listed_ids agents ≡ map (λ e. e.0) (entries_of agents)
unfolding openai_models_envelope
listed_ids-entries_of agents = map-in_catalog _ _ agents ∙ sym (map-in_catalog _ _ agents)

offers-id :
    (id model : Text) (entries : List (Text × Text))
    → any (offers id model) entries ≡ true
    → any (text_eq id) (map (λ (e : Text × Text). e.0) entries) ≡ true
offers-id id model [] h = cc
offers-id id model (e ∷ entries) h = ground (arith, offers-id id model entries)

-- A bare model name is resolved to the id of a model of the catalog that has just this name, and the
-- daemon lists that id under /v1/models; it is refused only if no model of the catalog has the name.
pub resolve_model_sound :
    (agents : List CliInfo) (model : Text)
    → is_empty model ≡ false
    → any (λ a. a == b'/') model ≡ false
    → ((id : Text)
        → resolve_model (some agents) model ≡ some id
        → (any (offers id model) (entries_of agents) ≡ true)
          × (any (text_eq id) (listed_ids agents) ≡ true))
      × (resolve_model (some agents) model ≡ none → All (λ e. e.1 ≢ model) (entries_of agents))
unfolding resolve_model
resolve_model_sound agents [] ne bare = cc
resolve_model_sound agents (c ∷ model) ne bare =
    let v = find_cli-IsFound (c ∷ model) agents in
    rw (bare, listed_ids-entries_of agents)
      (
        λ id e.
            let offered = v.offered id e in
            (offered, offers-id id (c ∷ model) (entries_of agents) offered),
        v.missing,
      )

fresh_name : (n : Text) (seen : List Text) → any (text_eq n) seen ≡ false → All (λ s. s ≢ n) seen
fresh_name n [] h = tt
fresh_name n (s ∷ seen) h =
    ((λ e. ground (arith, text_eq_iff n s, sym e)), fresh_name n seen (ground arith))

see-Distinct : (seen : List Text) (n : Text) → Distinct seen → Distinct (see seen n)
see-Distinct seen n d = elim (Bool-cases (any (text_eq n) seen)) [
  | inl e ↦ rw e d
  | inr e ↦ rw e (Distinct-snoc seen n (fresh_name n seen e) d)
]

see-old :
    (seen : List Text) (n m : Text)
    → any (text_eq m) seen ≡ true
    → any (text_eq m) (see seen n) ≡ true
see-old seen n m h = elim (Bool-cases (any (text_eq n) seen)) [
  | inl e ↦ rw e h
  | inr e ↦ rw e (any-left (text_eq m) seen (n ∷ []) h)
]

see-new : (seen : List Text) (n : Text) → any (text_eq n) (see seen n) ≡ true
see-new seen n = elim (Bool-cases (any (text_eq n) seen)) [
  | inl e ↦ rw (e, e)
  | inr e ↦ rw e (any-right (text_eq n) seen (n ∷ []) (ground (arith, text_eq_refl n)))
]

unique_from-Distinct : (seen ns : List Text) → Distinct seen → Distinct (unique_from seen ns)
unfolding unique_from
unique_from-Distinct seen [] d = d
unique_from-Distinct seen (n ∷ ns) d = unique_from-Distinct (see seen n) ns (see-Distinct seen n d)

unique_from-old :
    (seen ns : List Text) (m : Text)
    → any (text_eq m) seen ≡ true
    → any (text_eq m) (unique_from seen ns) ≡ true
unfolding unique_from
unique_from-old seen [] m h = h
unique_from-old seen (n ∷ ns) m h = unique_from-old (see seen n) ns m (see-old seen n m h)

unique_from-All : (seen ns : List Text) → All (λ n. any (text_eq n) (unique_from seen ns) ≡ true) ns
unfolding unique_from
unique_from-All seen [] = tt
unique_from-All seen (n ∷ ns) =
    (unique_from-old (see seen n) ns n (see-new seen n), unique_from-All (see seen n) ns)

-- The list of providers names every provider of the catalog, and none twice.
pub unique_providers-Distinct :
    (agents : List CliInfo)
    → Distinct (unique_providers agents)
      × All (λ n. any (text_eq n) (unique_providers agents) ≡ true) (provider_names agents)
unfolding unique_providers
unique_providers-Distinct agents =
    (unique_from-Distinct [] (provider_names agents) tt, unique_from-All [] (provider_names agents))
