-- ===== src/Adapter/Args.antt =====
-- internal/adapter/helpers.go: claudeBlockedArgs, filterCustomArgs, unshellQuoteArg, stripSurroundingQuotes.
pub mod Filtering
use aiclibridge.Prelude.{
  Text, lit, List, [], ◌∷◌, ◌++◌, Option, none, some, if◌then◌else◌, is_empty, text_eq, cut,
  has_prefix, Bool, true, false, ◌&&◌, ◌||◌, ◌==◌, last?, not,
}

pub data BlockedArgMode : Type 0 where
  blocked_with_value blocked_standalone : BlockedArgMode

-- map[string]blockedArgMode
abbrev pub Blocked : Type 0
Blocked = List (Text × BlockedArgMode)

unfoldable pub claude_blocked_args : Blocked
claude_blocked_args =
    (lit "-p", blocked_standalone)
    ∷ (lit "--output-format", blocked_with_value)
    ∷ (lit "--input-format", blocked_with_value)
    ∷ (lit "--permission-mode", blocked_with_value)
    ∷ (lit "--mcp-config", blocked_with_value)
    ∷ (lit "--effort", blocked_with_value)
    ∷ []

unfoldable pub blocked_mode : Text → Blocked → Option BlockedArgMode
blocked_mode flag [] = none
blocked_mode flag ((f, m) ∷ rest) = if text_eq f flag then some m else blocked_mode flag rest

-- `idx := strings.Index(arg, "="); idx > 0`: the text before and after the sign.
unfoldable pub cut_flag : Text → Option (Text × Text)
cut_flag arg = elim (cut b'=' arg) [
  | none ↦ none
  | some (flag, value) ↦ if is_empty flag then none else some (flag, value)
]

abbrev init : Text → Text
init [] = []
init (c ∷ []) = []
init (c ∷ d ∷ s) = c ∷ init (d ∷ s)

unfoldable pub strip_surrounding_quotes : Text → Option Text
strip_surrounding_quotes [] = none
strip_surrounding_quotes (q ∷ []) = none
strip_surrounding_quotes (q ∷ c ∷ s) = elim (last? (c ∷ s)) [
  | none ↦ none
  | some z ↦ if (q == 39 && z == 39) || (q == 34 && z == 34) then some (init (c ∷ s)) else none
]

unquote_whole : Text → Text
unfolding strip_surrounding_quotes
unquote_whole arg = elim (strip_surrounding_quotes arg) [ none ↦ arg | some s ↦ s ]

unfoldable pub unshell_quote_arg : Text → Text
unfolding strip_surrounding_quotes unquote_whole cut_flag cut has_prefix
unshell_quote_arg arg =
    if has_prefix arg (lit "-")
    then elim (cut_flag arg) [
      | none ↦ unquote_whole arg
      | some (flag, value) ↦ elim (strip_surrounding_quotes value) [
        | none ↦ arg
        | some unquoted ↦ flag ++ 61 ∷ unquoted
      ]
    ]
    else unquote_whole arg

-- The flag of an argument, and whether it has an inline value.
unfoldable pub flag_of : Text → Text × Bool
unfolding cut_flag cut
flag_of arg = elim (cut_flag arg) [ none ↦ (arg, false) | some (flag, value) ↦ (flag, true) ]

abbrev takes_next : BlockedArgMode → Bool → Bool
takes_next blocked_with_value inline = not inline
takes_next blocked_standalone inline = false

-- The loop of filterCustomArgs; the Boolean is `skip`.
unfoldable pub filter_from : Blocked → Bool → List Text → List Text
unfolding flag_of unshell_quote_arg blocked_mode
filter_from blocked skip [] = []
filter_from blocked true (raw ∷ args) = filter_from blocked false args
filter_from blocked false (raw ∷ args) =
    let arg = unshell_quote_arg raw in
    elim (blocked_mode (flag_of arg).0 blocked) [
      | none ↦ arg ∷ filter_from blocked false args
      | some mode ↦ filter_from blocked (takes_next mode (flag_of arg).1) args
    ]

unfoldable pub filter_custom_args : List Text → Blocked → List Text
unfolding filter_from
filter_custom_args args blocked = filter_from blocked false args
