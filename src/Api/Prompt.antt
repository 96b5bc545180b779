-- ===== src/Api/Prompt.antt =====
-- buildOpenAIPrompt of internal/api/openai.go and the text of a message. What json.Unmarshal makes of
-- a content is a part of the message.
pub mod Context
use aiclibridge.Prelude.{
  ℕ, ◌+◌, Text, lit, List, [], ◌∷◌, ◌++◌, Option, none, some, if◌then◌else◌, text_eq, is_empty,
  join, ◌==◌, Bool, true, false, ◌&&◌, ◌||◌,
}

-- Absent, a string, an array of parts (type and text), or neither.
pub data Content : Type 0 where
  absent : Content
  string : Text → Content
  parts : List (Text × Text) → Content
  neither : Content

pub record OpenAiMessage : Type 0 where
  pub role : Text
  pub content : Content

abbrev parts_text : List (Text × Text) → Text
parts_text [] = []
parts_text ((type, text) ∷ ps) =
    let rest = parts_text ps in
    if text_eq type (lit "text") || is_empty type then text ++ rest else rest

abbrev pub text : OpenAiMessage → Text
text m = elim m.content [ absent ↦ [] | string s ↦ s | parts ps ↦ parts_text ps | neither ↦ [] ]

abbrev pub is_user : OpenAiMessage → Bool
is_user m = text_eq m.role (lit "user")

-- The index of the last user message, -1 being `none`.
unfoldable pub last_user : ℕ → List OpenAiMessage → Option ℕ
last_user i [] = none
last_user i (m ∷ ms) = elim (last_user (i + 1) ms) [
  | some j ↦ some j
  | none ↦ if is_user m then some i else none
]

abbrev pub is_last : Option ℕ → ℕ → Bool
is_last none i = false
is_last (some j) i = i == j

-- What a message adds to sysParts; the Boolean: it is the last one of the user.
abbrev pub system_parts : Bool → OpenAiMessage → List Text
system_parts last m =
    if text_eq m.role (lit "system")
    then (if last then [] else text m ∷ [])
    else if is_user m
    then (if last then [] else (lit "User: " ++ text m) ∷ [])
    else if text_eq m.role (lit "assistant")
    then (lit "Assistant: " ++ text m) ∷ []
    else []

-- The loop over the messages, from an index on.
unfoldable pub fold_messages :
    Option ℕ → ℕ → List OpenAiMessage → Text → List Text → Text × List Text
fold_messages last i [] prompt sys = (prompt, sys)
fold_messages last i (m ∷ ms) prompt sys =
    fold_messages last (i + 1) ms (if is_user m && is_last last i then text m else prompt)
      (sys ++ system_parts (is_last last i) m)

abbrev pub explicit_parts : Text → List Text
explicit_parts [] = []
explicit_parts (c ∷ s) = (c ∷ s) ∷ []

-- The prompt and the system prompt.
unfoldable pub build_openai_prompt : List OpenAiMessage → Text → Text × Text
unfolding last_user fold_messages join
build_openai_prompt messages explicit_system =
    let (prompt, sys) =
      fold_messages (last_user 0 messages) 0 messages [] (explicit_parts explicit_system) in
    (prompt, join (10 ∷ 10 ∷ []) sys)
