-- ===== src/Api/Prompt/Context.antt =====
-- What becomes of the messages of a chat.
use aiclibridge.Prelude.{
  ℕ, ◌+◌, ◌<◌, ◌≤◌, ◌≡◌, Text, List, [], ◌∷◌, ◌++◌, Option, none, some, false, ◌⊎◌,
}
use aiclibridge.Api.Prompt.{OpenAiMessage, is_user, system_parts}

-- The messages as context: each with who said it.
abbrev pub context : List OpenAiMessage → List Text
context [] = []
context (m ∷ ms) = system_parts false m ++ context ms

-- No index of the `n` from `i` on is the last one of the user.
abbrev Away : Option ℕ → ℕ → ℕ → Type 0
Away none i n = Unit
Away (some j) i n = (j < i) ⊎ (i + n ≤ j)

abbrev pub NotUser : OpenAiMessage → Type 0
NotUser m = is_user m ≡ false
