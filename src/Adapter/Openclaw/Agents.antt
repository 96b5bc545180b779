-- ===== src/Adapter/Openclaw/Agents.antt =====
-- The lists of openclaw agents in internal/adapter/openclaw.go: parseOpenclawAgentsJSON,
-- openclawEntriesToModels, parseOpenclawAgents, isOpenclawIdentifier. Text is ASCII,
-- and no line of the output is longer than the scanner's buffer.
use mathlib.Core.List.{map-append}
use aiclibridge.Prelude.{
  ℕ, ◌≡◌, ◌≢◌, Text, lit, List, [], ◌∷◌, ◌++◌, Option, none, some, if◌then◌else◌, Bool, false,
  is_empty, trim_space, split, fields, text_eq, text_eq_iff, any, all, last?, leb, ◌==◌, ◌&&◌, ◌||◌,
  not, or_text, map, All, Distinct, Distinct-snoc, Bool-cases, inl, inr, arith,
}
use aiclibridge.Detect.Types.{Model}

pub record AgentEntry : Type 0 where
  pub name : Text
  pub id : Text
  pub model : Text

abbrev pub has_id : Text → List Model → Bool
has_id id models = any (λ (m : Model). text_eq m.id id) models

abbrev agent_model : Text → Text → Model
agent_model id label = record { id = id; label = label; provider = lit "openclaw"; default = false }

-- models = append(models, ...), unless the id was seen
unfoldable pub add_agent : Text → Text → List Model → List Model
add_agent id label models = if has_id id models then models else models ++ agent_model id label ∷ []

abbrev entry_label : AgentEntry → Text
entry_label e =
    let name = or_text e.name (or_text e.id e.name) in
    if is_empty e.model then name else name ++ lit " (" ++ e.model ++ lit ")"

unfoldable pub add_entry : AgentEntry → List Model → List Model
unfolding add_agent
add_entry e models =
    if is_empty (or_text e.id e.name)
    then models
    else add_agent (or_text e.id e.name) (entry_label e) models

unfoldable pub add_entries : List AgentEntry → List Model → List Model
unfolding add_entry
add_entries [] models = models
add_entries (e ∷ es) models = add_entries es (add_entry e models)

unfoldable pub entries_to_models : List AgentEntry → List Model
unfolding add_entries
entries_to_models es = add_entries es []

-- What json.Unmarshal gives for an array of entries and for an object with agents; nil agents are
-- `none`.
unfoldable pub parse_agents_json :
    (Text → Option (List AgentEntry))
    → (Text → Option (List AgentEntry))
    → Text
    → Option (List Model)
unfolding entries_to_models trim_space
parse_agents_json flat wrapped raw =
    if is_empty (trim_space raw) then none else elim (flat (trim_space raw)) [
      | some es ↦ some (entries_to_models es)
      | none ↦ elim (wrapped (trim_space raw)) [
        | some es ↦ some (entries_to_models es)
        | none ↦ none
      ]
    ]

abbrev is_letter : ℕ → Bool
is_letter c = (leb 97 c && leb c 122) || (leb 65 c && leb c 90)

abbrev identifier_byte : ℕ → Bool
identifier_byte c =
    is_letter c
    || ((leb 48 c && leb c 57) || (c == b'-' || (c == b'_' || (c == b'.' || c == b'/'))))

abbrev ends_in_colon : Option ℕ → Bool
ends_in_colon none = false
ends_in_colon (some c) = c == b':'

unfoldable pub is_identifier : Text → Bool
is_identifier [] = false
is_identifier (c ∷ s) =
    not (ends_in_colon (last? (c ∷ s))) && (is_letter c && all identifier_byte (c ∷ s))

-- A line of two or more fields, of which the first two are identifiers.
unfoldable pub add_line : Text → List Model → List Model
unfolding add_agent is_identifier fields
add_line line models = elim (fields line) [
  | [] ↦ models
  | name ∷ rest ↦ elim rest [
    | [] ↦ models
    | model ∷ more ↦
        if is_identifier name && is_identifier model
        then add_agent name (name ++ lit " (" ++ model ++ lit ")") models
        else models
  ]
]

unfoldable pub add_lines : List Text → List Model → List Model
unfolding add_line
add_lines [] models = models
add_lines (line ∷ lines) models = add_lines lines (add_line line models)

unfoldable pub parse_agents : Text → List Model
unfolding add_lines split
parse_agents output = add_lines (split 10 output) []

abbrev pub ids : List Model → List Text
ids models = map (λ (m : Model). m.id) models

absent :
    (id : Text) (models : List Model) → has_id id models ≡ false → All (λ x. x ≢ id) (ids models)
absent id [] h = tt
absent id (m ∷ models) h =
    ((λ e. ground (arith, text_eq_iff m.id id)), absent id models (ground arith))

add_agent-Distinct :
    (id label : Text) (models : List Model)
    → Distinct (ids models)
    → Distinct (ids (add_agent id label models))
unfolding add_agent
add_agent-Distinct id label models d = elim (Bool-cases (has_id id models)) [
  | inl e ↦ rw e d
  | inr e ↦ rw e (rw map-append (Distinct-snoc (ids models) id (absent id models e) d))
]

add_entries-Distinct :
    (es : List AgentEntry) (models : List Model)
    → Distinct (ids models)
    → Distinct (ids (add_entries es models))
unfolding add_entries add_entry
add_entries-Distinct [] models d = d
add_entries-Distinct (e ∷ es) models d = elim (Bool-cases (is_empty (or_text e.id e.name))) [
  | inl q ↦ rw (add_entries, add_entry, q) (add_entries-Distinct es models d)
  | inr q ↦
      rw (add_entries, add_entry, q) (add_entries-Distinct es _ (add_agent-Distinct _ _ models d))
]

-- No agent is listed twice.
pub entries_to_models-Distinct : (es : List AgentEntry) → Distinct (ids (entries_to_models es))
unfolding entries_to_models
entries_to_models-Distinct es = add_entries-Distinct es [] tt
