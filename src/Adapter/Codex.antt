-- ===== src/Adapter/Codex.antt =====
-- internal/adapter/codex.go: the state of codexClient and the values that its handlers read.
-- encoding/json is an argument. Execute sets every callback: a call of one, an answer on stdin and
-- a result for a waiting request are effects, listed oldest first.
pub mod Notifications
pub mod Lines
pub mod Kept
pub mod Once
use aiclibridge.Prelude.{
  ℕ, ◌+◌, ◌-◌, ◌%◌, ◌^◌, Text, lit, List, [], ◌∷◌, ◌++◌, Option, none, some, if◌then◌else◌, Bool,
  true, false, text_eq, is_empty, or_text, ltb, ◌||◌, ◌&&◌, not,
}
use aiclibridge.Prelude.Int.{ℤ}
use aiclibridge.Protocol.{Json, Fields, bool, number, string, object, lookup_field}
use aiclibridge.Adapter.{Message, TokenUsage}
use aiclibridge.Adapter.Scan.{add_tokens}

-- notificationProtocol is a string with these values only.
pub data NotificationProtocol : Type 0 where
  unknown : NotificationProtocol
  legacy : NotificationProtocol
  raw : NotificationProtocol

-- rpcResult: `err` is nil as `none`.
pub record RpcResult : Type 0 where
  pub result : Text
  pub err : Option Text

pub data Effect : Type 0 where
  sent : Message → Effect
  observed : Text → Effect
  turn_done : Bool → Effect
  responded : ℤ → Fields → Effect
  refused : ℤ → ℤ → Text → Effect
  settled : ℤ → RpcResult → Effect

-- codexClient; `pending` maps an id to its method, the completed turn ids are a set.
pub record CodexClient : Type 0 where
  pub pending : List (ℤ × Text)
  pub thread_id : Text
  pub turn_id : Text
  pub notification_protocol : NotificationProtocol
  pub turn_started : Bool
  pub completed_turn_ids : List Text
  pub usage : TokenUsage
  pub turn_error : Text
  pub effects : List Effect

-- float64 numbers: `v != 0` and int64(v).
pub record Numbers : Type 0 where
  pub is_zero : Text → Bool
  pub int64 : Text → ℕ

unfoldable pub emit : Effect → CodexClient → CodexClient
emit e c = record c { effects = c.effects ++ e ∷ [] }

unfoldable pub set_turn_error : Text → CodexClient → CodexClient
set_turn_error msg c =
    if is_empty msg then c else if is_empty c.turn_error then record c { turn_error = msg } else c

-- The type assertions `.(string)` and `.(map[string]any)` on a field.
unfoldable pub string_field : Text → Fields → Text
string_field key m = elim (lookup_field key m) [ some (string s) ↦ s | _ ↦ [] ]

unfoldable pub object_field : Text → Fields → Option Fields
object_field key m = elim (lookup_field key m) [ some (object o) ↦ some o | _ ↦ none ]

unfoldable pub bool_field : Text → Fields → Bool
bool_field key m = elim (lookup_field key m) [ some (bool b) ↦ b | _ ↦ false ]

unfoldable pub extract_nested_string : Fields → List Text → Text
extract_nested_string m [] = []
extract_nested_string m (key ∷ []) = string_field key m
extract_nested_string m (key ∷ next ∷ keys) = elim (object_field key m) [
  | none ↦ []
  | some o ↦ extract_nested_string o (next ∷ keys)
]

unfoldable pub codex_int64 : Numbers → Fields → List Text → ℕ
codex_int64 d m [] = 0
codex_int64 d m (key ∷ keys) =
    let rest = codex_int64 d m keys in
    elim (lookup_field key m) [
      | some (number n) ↦ if d.is_zero n then rest else d.int64 n
      | _ ↦ rest
    ]

-- A difference below 0 has its top bit set.
unfoldable pub codex_uncached_input_tokens : ℕ → ℕ → ℕ
codex_uncached_input_tokens input cached =
    let uncached = (input + 2 ^ 64 - cached) % 2 ^ 64 in
    if ltb uncached (2 ^ 63) then uncached else 0

unfoldable pub first_object : Fields → List Text → Option Fields
first_object m [] = none
first_object m (key ∷ keys) = elim (object_field key m) [
  | some o ↦ some o
  | none ↦ first_object m keys
]

unfoldable pub usage_of : Numbers → Fields → TokenUsage
unfolding codex_int64 codex_uncached_input_tokens
usage_of d m =
    let input = codex_int64 d m (lit "input_tokens" ∷ lit "input" ∷ lit "prompt_tokens" ∷ []) in
    let cached =
      codex_int64 d m (
        lit "cached_input_tokens" ∷ lit "cache_read_tokens" ∷ lit "cache_read_input_tokens" ∷ []) in
    record {
      input_tokens = codex_uncached_input_tokens input cached;
      output_tokens =
          codex_int64 d m (lit "output_tokens" ∷ lit "output" ∷ lit "completion_tokens" ∷ []);
      cache_read_tokens = cached;
      cache_write_tokens =
          codex_int64 d m (lit "cache_write_tokens" ∷ lit "cache_creation_input_tokens" ∷ []);
    }

unfoldable pub extract_usage_from_map : Numbers → Fields → CodexClient → CodexClient
unfolding first_object usage_of
extract_usage_from_map d m c =
    elim (first_object m (lit "usage" ∷ lit "token_usage" ∷ lit "tokens" ∷ [])) [
      | none ↦ c
      | some counts ↦ record c { usage = add_tokens c.usage (usage_of d counts) }
    ]

unfoldable pub describe_codex_item_progress_activity : Text → Text → Text → Text
describe_codex_item_progress_activity method item_type item_id =
    let shown = method ++ lit ":" ++ or_text item_type (lit "unknown") in
    if is_empty item_id then shown else shown ++ lit ":" ++ item_id

-- completedTurnIDs[turnID]
unfoldable pub is_completed : Text → List Text → Bool
is_completed turn_id [] = false
is_completed turn_id (id ∷ ids) = text_eq id turn_id || is_completed turn_id ids

-- A notification of a thread that is not the client's.
unfoldable pub is_foreign : CodexClient → Fields → Bool
is_foreign c params = elim (lookup_field (lit "threadId") params) [
  | some (string t) ↦ not (is_empty c.thread_id) && not (text_eq t c.thread_id)
  | _ ↦ false
]
