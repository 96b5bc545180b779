-- ===== src/Adapter/Opencode/Spent.antt =====
-- What a scan of opencode or gemini counts.
use aiclibridge.Prelude.{ℕ, ◌+◌, Text, lit, List, [], ◌∷◌, none, some, text_eq, if◌then◌else◌}
use aiclibridge.Adapter.{TokenUsage}
use aiclibridge.Adapter.Scan.{read_line, no_tokens}
use aiclibridge.Adapter.Opencode.{OpencodeEvent, EventDecoder, step_tokens}

-- The tokens of an event, zero unless it is a step_finish with tokens.
unfoldable pub event_tokens : OpencodeEvent → TokenUsage
event_tokens event =
    if text_eq event.type (lit "step_finish") then step_tokens event.part.tokens else no_tokens

-- A count summed over the lines that decode, without any bound.
unfoldable pub total_of : (TokenUsage → ℕ) → EventDecoder → List Text → ℕ
total_of count d [] = 0
total_of count d (line ∷ lines) = elim (read_line d.event line) [
  | none ↦ total_of count d lines
  | some event ↦ count (event_tokens event) + total_of count d lines
]
