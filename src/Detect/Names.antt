-- ===== src/Detect/Names.antt =====
-- internal/detect/detect.go: normalizeCLIName, ParseModelName and ModelName. Names are ASCII.
use mathlib.Core.Path.{subst, ap₂}
use aiclibridge.Prelude.{
  ◌≡◌, ap, sym, ◌∙◌, Text, lit, List, [], ◌∷◌, ◌++◌, Option, none, some, if◌then◌else◌, is_empty,
  ◌||◌, split, join, to_lower, trim_space, Lacks, split_of_Lacks, split-append, arith, false, All,
  trim_space_idem, trim_space-to_lower, to_lower_idem, Lacks-trim_space, slash-to_lower, join-split,
  Lacks-split,
}

unfoldable pub normalize_cli_name : Text → Text
unfolding to_lower trim_space
normalize_cli_name name = to_lower (trim_space name)

-- The parts of a model name.
pub record Route : Type 0 where
  pub cli : Text
  pub provider : Text
  pub model : Text

from_parts : List Text → Option Route
unfolding normalize_cli_name
from_parts (cli ∷ provider ∷ model ∷ []) =
    if is_empty cli || (is_empty provider || is_empty model)
    then none
    else some (record { cli = normalize_cli_name cli; provider = provider; model = model })
from_parts _ = none

unfoldable pub parse_model_name : Text → Option Route
unfolding from_parts split
parse_model_name name = from_parts (split b'/' name)

unfoldable pub model_name : Text → Text → Text → Text
unfolding normalize_cli_name join
model_name cli provider model = join (lit "/") (normalize_cli_name cli ∷ provider ∷ model ∷ [])

pub normalize_cli_name_idem :
    (s : Text) → normalize_cli_name (normalize_cli_name s) ≡ normalize_cli_name s
unfolding normalize_cli_name
normalize_cli_name_idem s =
    ap to_lower (trim_space-to_lower (trim_space s) ∙ ap to_lower (trim_space_idem s))
    ∙ to_lower_idem (trim_space s)

normalize_cli_name-Lacks : (s : Text) → Lacks b'/' s → Lacks b'/' (normalize_cli_name s)
unfolding normalize_cli_name
normalize_cli_name-Lacks s h = slash-to_lower (trim_space s) (Lacks-trim_space b'/' s h)

split-three :
    (a b c : Text)
    → Lacks b'/' a
    → Lacks b'/' b
    → Lacks b'/' c
    → split b'/' (join (lit "/") (a ∷ b ∷ c ∷ [])) ≡ a ∷ b ∷ c ∷ []
unfolding join
split-three a b c ha hb hc =
    split-append b'/' a (b ++ b'/' ∷ c) ha
    ∙ ap (λ ws. a ∷ ws) (split-append b'/' b c hb)
    ∙ ap (λ ws. a ∷ b ∷ ws) (split_of_Lacks b'/' c hc)

-- A model name made by ModelName is parsed back into its provider and model, unchanged, and its CLI
-- in normal form. It is assumed that no part holds a slash, that provider and model are not empty,
-- and that the CLI is not blank.
pub parse_model_name-model_name :
    (cli provider model : Text)
    → Lacks b'/' cli
    → Lacks b'/' provider
    → Lacks b'/' model
    → is_empty (normalize_cli_name cli) ≡ false
    → is_empty provider ≡ false
    → is_empty model ≡ false
    → parse_model_name (model_name cli provider model)
      ≡ some (record { cli = normalize_cli_name cli; provider = provider; model = model })
unfolding parse_model_name model_name
parse_model_name-model_name cli provider model hc hp hm ec ep em =
    rw (split-three (normalize_cli_name cli) provider model (normalize_cli_name-Lacks cli hc) hp hm)
      (rw (ec, ep, em, normalize_cli_name_idem cli))

-- What the parts of an accepted name are.
pub record IsRoute (name : Text) (r : Route) : Type 0 where
  pub cli : Text
  pub spelled : name ≡ join (lit "/") (cli ∷ r.provider ∷ r.model ∷ [])
  pub normal : r.cli ≡ normalize_cli_name cli
  pub cli_some : is_empty cli ≡ false
  pub provider_some : is_empty r.provider ≡ false
  pub model_some : is_empty r.model ≡ false
  pub cli_plain : Lacks b'/' cli
  pub provider_plain : Lacks b'/' r.provider
  pub model_plain : Lacks b'/' r.model

-- Every name that ParseModelName accepts has three parts with no slash in them, none of them empty:
-- the CLI in another spelling, and the provider and the model as they are returned.
pub parse_model_name_sound :
    (name : Text) (r : Route) → parse_model_name name ≡ some r → IsRoute name r
unfolding parse_model_name
parse_model_name_sound name r h =
    from_split (split b'/' name) (join-split b'/' name) (Lacks-split b'/' name) h
  where
    same_provider :
        (cli provider model : Text)
        → from_parts (cli ∷ provider ∷ model ∷ []) ≡ some r
        → provider ≡ r.provider
    same_provider cli provider model p = ground arith

    same_model :
        (cli provider model : Text)
        → from_parts (cli ∷ provider ∷ model ∷ []) ≡ some r
        → model ≡ r.model
    same_model cli provider model p = ground arith

    from_split :
        (ws : List Text)
        → join (lit "/") ws ≡ name
        → All (Lacks b'/') ws
        → from_parts ws ≡ some r
        → IsRoute name r
    from_split (cli ∷ provider ∷ model ∷ []) e (lc, (lp, (lm, _))) p = record {
      cli = cli;
      spelled =
          sym e
          ∙ ap₂ (λ (q m : Text). join (lit "/") (cli ∷ q ∷ m ∷ []))
              (same_provider cli provider model p) (same_model cli provider model p);
      normal = ground arith;
      cli_some = ground arith;
      provider_some = ground arith;
      model_some = ground arith;
      cli_plain = lc;
      provider_plain = subst (Lacks b'/') (same_provider cli provider model p) lp;
      model_plain = subst (Lacks b'/') (same_model cli provider model p) lm;
    }
    from_split _ e l p = cc
