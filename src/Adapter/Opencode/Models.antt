-- ===== src/Adapter/Opencode/Models.antt =====
-- The model list of internal/adapter/opencode.go: parseOpenCodeModels, parseOpenCodeModelIDLine,
-- collectOpenCodeModelJSON, annotateOpenCodeModelMetadata and the thinking levels. json.Valid and
-- the decoding of the metadata are arguments; text is ASCII.
pub mod Progress
use aiclibridge.Prelude.{
  ℕ, zero, suc, ◌-◌, Text, lit, List, [], ◌∷◌, ◌++◌, Option, none, some, if◌then◌else◌, Bool, true,
  false, is_empty, trim_space, split, fields, text_eq, text_lt, any, map, cut, has_prefix, to_upper,
  leb, ltb, ◌==◌, ◌&&◌, ◌||◌, not, length,
}

pub record ThinkingLevel : Type 0 where
  pub value : Text
  pub label : Text

-- opencodeModel; `thinking` holds the supported levels.
pub record OpencodeModel : Type 0 where
  pub id : Text
  pub label : Text
  pub provider : Text
  pub thinking : Option (List ThinkingLevel)

pub record Variant : Type 0 where
  pub disabled : Bool
  pub reasoning_effort : Text
  pub thinking : Text

pub record Metadata : Type 0 where
  pub reasoning : Bool
  pub variants : List (Text × Variant)

-- json.Valid, and json.Unmarshal into the metadata
pub record ModelDecoder : Type 0 where
  pub valid : Text → Bool
  pub metadata : Text → Option Metadata

-- opencodeVariantLabel, in the order of opencodeVariantOrder
unfoldable pub variant_labels : List (Text × Text)
variant_labels =
    (lit "none", lit "None")
    ∷ (lit "minimal", lit "Minimal")
    ∷ (lit "low", lit "Low")
    ∷ (lit "medium", lit "Medium")
    ∷ (lit "high", lit "High")
    ∷ (lit "xhigh", lit "Extra high")
    ∷ (lit "max", lit "Max")
    ∷ []

unfoldable pub rank_from : ℕ → Text → List (Text × Text) → Option ℕ
rank_from n value [] = none
rank_from n value ((v, label) ∷ rest) =
    if text_eq v value then some n else rank_from (suc n) value rest

unfoldable pub label_in : Text → List (Text × Text) → Option Text
label_in value [] = none
label_in value ((v, label) ∷ rest) = if text_eq v value then some label else label_in value rest

abbrev pub rank : Text → Option ℕ
rank value = rank_from 0 value variant_labels

abbrev is_known : Option ℕ → Bool
is_known none = false
is_known (some n) = true

unfoldable pub variants_look_reasoning : List (Text × Variant) → Bool
unfolding rank_from variant_labels
variants_look_reasoning [] = false
variants_look_reasoning ((name, variant) ∷ rest) =
    is_known (rank name)
    || (not (is_empty variant.reasoning_effort)
        || (not (is_empty variant.thinking) || variants_look_reasoning rest))

abbrev before : Option ℕ → Option ℕ → Bool → Bool
before (some l) (some r) text_before = ltb l r
before (some l) none text_before = true
before none (some r) text_before = false
before none none text_before = text_before

-- The order of sort.Slice: the known levels by rank, then the others by name.
unfoldable pub level_before : Text → Text → Bool
unfolding rank_from variant_labels
level_before l r = before (rank l) (rank r) (text_lt l r)

unfoldable pub insert_level : Text → List Text → List Text
unfolding level_before
insert_level v [] = v ∷ []
insert_level v (w ∷ ws) =
    let rest = insert_level v ws in if level_before v w then v ∷ w ∷ ws else w ∷ rest

unfoldable pub sorted_levels : List (Text × Variant) → List Text
unfolding insert_level
sorted_levels [] = []
sorted_levels ((value, variant) ∷ rest) =
    let levels = sorted_levels rest in
    if is_empty value || variant.disabled then levels else insert_level value levels

abbrev is_word_byte : ℕ → Bool
is_word_byte c =
    (leb 97 c && leb c 122) || ((leb 65 c && leb c 90) || ((leb 48 c && leb c 57) || c == b'_'))

abbrev upper_byte : ℕ → ℕ
upper_byte c = if leb 97 c && leb c 122 then c - 32 else c

-- strings.Title; the Boolean: the byte before is part of a word.
unfoldable pub title_from : Bool → Text → Text
title_from inside [] = []
title_from inside (c ∷ s) = (if inside then c else upper_byte c) ∷ title_from (is_word_byte c) s

unfoldable pub level_label : Text → Text
unfolding label_in variant_labels title_from
level_label value = elim (label_in value variant_labels) [
  | some label ↦ label
  | none ↦ title_from false (map (λ c. if c == b'-' then b' ' else c) value)
]

unfoldable pub thinking_levels : List (Text × Variant) → List ThinkingLevel
unfolding sorted_levels level_label
thinking_levels variants =
    map (λ value. record { value = value; label = level_label value }) (sorted_levels variants)

abbrev set_thinking : List ThinkingLevel → OpencodeModel → OpencodeModel
set_thinking [] m = m
set_thinking (l ∷ ls) m = record m { thinking = some (l ∷ ls) }

-- annotateOpenCodeModelMetadata
unfoldable pub annotate_metadata : ModelDecoder → Text → OpencodeModel → OpencodeModel
unfolding variants_look_reasoning thinking_levels
annotate_metadata d raw m = elim (d.metadata raw) [
  | none ↦ m
  | some meta ↦
      if not meta.reasoning && not (variants_look_reasoning meta.variants)
      then m
      else set_thinking (thinking_levels meta.variants) m
]

abbrev first_field : List Text → Text
first_field [] = []
first_field (f ∷ fs) = f

abbrev has_slash : Text → Bool
has_slash s = any (λ c. c == b'/') s

-- The model id on a line, [] for none.
unfoldable pub parse_model_id_line : Text → Text
unfolding fields has_prefix to_upper
parse_model_id_line line =
    let id = first_field (fields line) in
    if has_prefix id (34 ∷ []) || (has_prefix id (lit "{") || has_prefix id (lit "["))
    then []
    else if not (has_slash id)
    then []
    else if text_eq id (to_upper id)
    then []
    else id

-- The provider: what stands before the first slash, if that is not the first byte.
unfoldable pub provider_of : Text → Text
unfolding cut
provider_of id = elim (cut b'/' id) [ none ↦ [] | some (before, after) ↦ before ]

-- collectOpenCodeModelJSON: the JSON and the lines where the parser resumes. The Boolean: this is
-- the first line.
unfoldable pub collect_json : (Text → Bool) → Bool → Text → List Text → Text × List Text
unfolding parse_model_id_line trim_space
collect_json valid first text [] = (text, [])
collect_json valid first text (line ∷ lines) =
    let longer = if is_empty text then line else text ++ 10 ∷ line in
    let rest = collect_json valid false longer lines in
    if not first && not (is_empty (parse_model_id_line (trim_space line)))
    then (text, line ∷ lines)
    else if valid longer
    then (longer, lines)
    else rest

abbrev pub has_id : Text → List OpencodeModel → Bool
has_id id models = any (λ (m : OpencodeModel). text_eq m.id id) models

unfoldable pub add_model : Text → List OpencodeModel → List OpencodeModel
unfolding provider_of
add_model id models =
    if has_id id models
    then models
    else models ++ record { id = id; label = id; provider = provider_of id; thinking = none } ∷ []

-- annotate(&models[idx], raw)
unfoldable pub annotate_at : ModelDecoder → Text → Text → List OpencodeModel → List OpencodeModel
unfolding annotate_metadata
annotate_at d id raw models =
    if d.valid raw
    then map (λ (m : OpencodeModel). if text_eq m.id id then annotate_metadata d raw m else m)
        models
    else models

unfoldable pub skip_blank : List Text → List Text
unfolding trim_space
skip_blank [] = []
skip_blank (line ∷ lines) =
    let rest = skip_blank lines in if is_empty (trim_space line) then rest else line ∷ lines

abbrev begins_json : List Text → Bool
begins_json [] = false
begins_json (line ∷ lines) = has_prefix (trim_space line) (lit "{")

-- What the loop does with a line and the lines after it: the lines it goes on with, and the models.
unfoldable pub take_line :
    ModelDecoder → Text → List Text → List OpencodeModel → List Text × List OpencodeModel
unfolding parse_model_id_line trim_space add_model skip_blank collect_json annotate_at has_prefix
take_line d line lines models =
    let id = parse_model_id_line (trim_space line) in
    let collected = collect_json d.valid true [] (skip_blank lines) in
    if is_empty id
    then (lines, models)
    else if begins_json (skip_blank lines)
    then (collected.1, annotate_at d id collected.0 (add_model id models))
    else (lines, add_model id models)

-- The loop on fuel.
unfoldable pub parse_lines : ModelDecoder → ℕ → List Text → List OpencodeModel → List OpencodeModel
unfolding take_line
parse_lines d zero lines models = models
parse_lines d (suc fuel) [] models = models
parse_lines d (suc fuel) (line ∷ lines) models =
    let next = take_line d line lines models in parse_lines d fuel next.0 next.1

unfoldable pub parse_models : ModelDecoder → Text → List OpencodeModel
unfolding parse_lines split
parse_models d output = let lines = split 10 output in parse_lines d (length lines) lines []
