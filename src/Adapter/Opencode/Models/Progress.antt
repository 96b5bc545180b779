-- ===== src/Adapter/Opencode/Models/Progress.antt =====
-- The model parser ends: every line that it takes leaves it with fewer lines.
use mathlib.Core.List.{map-append}
use mathlib.Core.Path.{ap₂}
use aiclibridge.Prelude.{
  ℕ, zero, suc, ◌≤◌, ◌≡◌, ◌≢◌, refl, Text, List, [], ◌∷◌, ◌++◌, is_empty, trim_space, split,
  text_eq, text_eq_iff, map, length, Bool, true, false, not, ◌&&◌, Bool-cases, Option-cases, inl,
  inr, if◌then◌else◌, arith, All, Distinct, Distinct-snoc,
}
use aiclibridge.Adapter.Opencode.Models.{
  OpencodeModel, ThinkingLevel, ModelDecoder, variants_look_reasoning, thinking_levels,
  parse_model_id_line, collect_json, skip_blank, begins_json, has_id, add_model, annotate_at,
  annotate_metadata, set_thinking, take_line, parse_lines, parse_models,
}

length-collect_json :
    (valid : Text → Bool) (first : Bool) (text : Text) (lines : List Text)
    → length (collect_json valid first text lines).1 ≤ length lines
unfolding collect_json
length-collect_json valid first text [] = omega arith
length-collect_json valid first text (line ∷ lines) =
    let longer = if is_empty text then line else text ++ 10 ∷ line in
    let rest = length-collect_json valid false longer lines in
    elim (Bool-cases (not first && not (is_empty (parse_model_id_line (trim_space line))))) [
      | inl e ↦ rw (collect_json, e) (omega arith)
      | inr e ↦
          rw (collect_json, e)
            (elim (Bool-cases (valid longer)) [
              | inl q ↦ rw q (omega arith)
              | inr q ↦ rw q (omega (arith, rest))
            ])
    ]

length-skip_blank : (lines : List Text) → length (skip_blank lines) ≤ length lines
unfolding skip_blank
length-skip_blank [] = omega arith
length-skip_blank (line ∷ lines) = ground (arith, length-skip_blank lines)

length-take_line :
    (d : ModelDecoder) (line : Text) (lines : List Text) (models : List OpencodeModel)
    → length (take_line d line lines models).0 ≤ length lines
unfolding take_line
length-take_line d line lines models =
    let collected = length-collect_json d.valid true [] (skip_blank lines) in
    elim (Bool-cases (is_empty (parse_model_id_line (trim_space line)))) [
      | inl e ↦ rw (take_line, e) (omega arith)
      | inr e ↦
          rw (take_line, e)
            (elim (Bool-cases (begins_json (skip_blank lines))) [
              | inl q ↦ rw q (omega (arith, collected, length-skip_blank lines))
              | inr q ↦ rw q (omega arith)
            ])
    ]

-- Any two amounts of fuel that reach for the lines give the same models.
parse_lines-enough :
    (d : ModelDecoder) (n m : ℕ) (lines : List Text) (models : List OpencodeModel)
    → length lines ≤ n
    → length lines ≤ m
    → parse_lines d n lines models ≡ parse_lines d m lines models
unfolding parse_lines
parse_lines-enough d zero zero lines models p q = refl
parse_lines-enough d zero (suc m) [] models p q = refl
parse_lines-enough d (suc n) zero [] models p q = refl
parse_lines-enough d (suc n) (suc m) [] models p q = refl
parse_lines-enough d zero (suc m) (line ∷ lines) models p q = ground (arith, p)
parse_lines-enough d (suc n) zero (line ∷ lines) models p q = ground (arith, q)
parse_lines-enough d (suc n) (suc m) (line ∷ lines) models p q =
    let shorter = length-take_line d line lines models in
    parse_lines-enough d n m (take_line d line lines models).0 (take_line d line lines models).1
      (omega (arith, p, shorter)) (omega (arith, q, shorter))

abbrev pub ids : List OpencodeModel → List Text
ids models = map (λ (m : OpencodeModel). m.id) models

absent :
    (id : Text) (models : List OpencodeModel)
    → has_id id models ≡ false
    → All (λ x. x ≢ id) (ids models)
absent id [] h = tt
absent id (m ∷ models) h =
    ((λ e. ground (arith, text_eq_iff m.id id)), absent id models (ground arith))

add_model-Distinct :
    (id : Text) (models : List OpencodeModel)
    → Distinct (ids models)
    → Distinct (ids (add_model id models))
unfolding add_model
add_model-Distinct id models d = elim (Bool-cases (has_id id models)) [
  | inl e ↦ rw e d
  | inr e ↦ rw e (rw map-append (Distinct-snoc (ids models) id (absent id models e) d))
]

id-set_thinking :
    (levels : List ThinkingLevel) (m : OpencodeModel) → (set_thinking levels m).id ≡ m.id
id-set_thinking [] m = refl
id-set_thinking (l ∷ ls) m = refl

id-annotate_metadata :
    (d : ModelDecoder) (raw : Text) (m : OpencodeModel) → (annotate_metadata d raw m).id ≡ m.id
unfolding annotate_metadata
id-annotate_metadata d raw m = elim (Option-cases (d.metadata raw)) [
  | inl e ↦ rw (annotate_metadata, e) refl
  | inr (meta, e) ↦
      rw (annotate_metadata, e)
        (elim (Bool-cases (not meta.reasoning && not (variants_look_reasoning meta.variants))) [
          | inl q ↦ rw q refl
          | inr q ↦ rw q (id-set_thinking (thinking_levels meta.variants) m)
        ])
]

ids-map :
    (f : OpencodeModel → OpencodeModel)
    → ((m : OpencodeModel) → (f m).id ≡ m.id)
    → (models : List OpencodeModel) → ids (map f models) ≡ ids models
ids-map f h [] = refl
ids-map f h (m ∷ models) = ap₂ (λ (x : Text) (xs : List Text). x ∷ xs) (h m) (ids-map f h models)

ids-annotate_at :
    (d : ModelDecoder) (id raw : Text) (models : List OpencodeModel)
    → ids (annotate_at d id raw models) ≡ ids models
unfolding annotate_at
ids-annotate_at d id raw models = elim (Bool-cases (d.valid raw)) [
  | inl e ↦ rw e (ids-map _ annotated models)
  | inr e ↦ rw e refl
]
  where
    annotated :
        (m : OpencodeModel) → (if text_eq m.id id then annotate_metadata d raw m else m).id ≡ m.id
    annotated m = elim (Bool-cases (text_eq m.id id)) [
      | inl e ↦ rw e (id-annotate_metadata d raw m)
      | inr e ↦ rw e refl
    ]

take_line-Distinct :
    (d : ModelDecoder) (line : Text) (lines : List Text) (models : List OpencodeModel)
    → Distinct (ids models)
    → Distinct (ids (take_line d line lines models).1)
unfolding take_line
take_line-Distinct d line lines models h =
    let id = parse_model_id_line (trim_space line) in
    let added = add_model-Distinct id models h in
    elim (Bool-cases (is_empty id)) [
      | inl e ↦ rw (take_line, e) h
      | inr e ↦
          rw (take_line, e)
            (elim (Bool-cases (begins_json (skip_blank lines))) [
              | inl q ↦ rw q (rw (ids-annotate_at d id _ (add_model id models)) added)
              | inr q ↦ rw q added
            ])
    ]

parse_lines-Distinct :
    (d : ModelDecoder) (n : ℕ) (lines : List Text) (models : List OpencodeModel)
    → Distinct (ids models)
    → Distinct (ids (parse_lines d n lines models))
unfolding parse_lines
parse_lines-Distinct d zero lines models h = h
parse_lines-Distinct d (suc n) [] models h = h
parse_lines-Distinct d (suc n) (line ∷ lines) models h =
    parse_lines-Distinct d n (take_line d line lines models).0 (take_line d line lines models).1
      (take_line-Distinct d line lines models h)

-- The parser of opencode's model list ends on every output: as many rounds as there are lines are
-- enough, more change nothing; and it lists no model id twice.
pub parse_models-settles :
    (d : ModelDecoder) (output : Text) (n : ℕ)
    → length (split 10 output) ≤ n
    → (parse_lines d n (split 10 output) [] ≡ parse_models d output)
      × Distinct (ids (parse_models d output))
unfolding parse_models
parse_models-settles d output n enough = (
  parse_lines-enough d n (length (split 10 output)) (split 10 output) [] enough (omega arith),
  parse_lines-Distinct d (length (split 10 output)) (split 10 output) [] tt,
)
