-- ===== src/Tests/Wire.antt =====
-- Frames, custom arguments, stderr and versions at concrete values.
use aiclibridge.Prelude.{
  text_lt, split, Bool, true, false, length, ◌≤◌, ◌≡◌, refl, Text, lit, List, [], ◌∷◌, some, none,
  All, arith, Lacks, text_eq, ◌>>=◌,
}
use aiclibridge.Prelude.Int.{pos, negsuc}
use aiclibridge.Prelude.Strconv.{atoi}
use aiclibridge.Adapter.Versions.{numbers, compare_parts, compare_numbers, compare_dot_versions}
use aiclibridge.Adapter.Versions.Order.{opposite}
use aiclibridge.Adapter.Tail.{new_stderr_tail, write, cut_front}
use aiclibridge.Adapter.Tail.Kept.{write_all, taken, write_all-new_stderr_tail}
use aiclibridge.Update.{
  compare_versions, strip_v, split_version, compare_segments, part_int, compare_segment,
}
use aiclibridge.Update.Versions.{compare_versions-opposite}
use aiclibridge.Protocol.{Codec, Event, zero_event, event_text}
use aiclibridge.Protocol.Frame.{write_sse_event, read_event, read_event-write_sse_event}
use aiclibridge.Adapter.Args.{
  claude_blocked_args, filter_custom_args, unshell_quote_arg, blocked_mode, blocked_with_value,
  flag_of,
}

abbrev greeting : Event
greeting = record (zero_event 3) { type = event_text; content = lit "hi" }

-- A codec that knows this one event.
abbrev one_event : Codec
one_event = record {
  marshal_event = λ e. some (lit "{hi}");
  unmarshal_event = λ t. some greeting;
  marshal_input = λ i. none;
  marshal_usage = λ u. none;
}

read_event-write_sse_event_example :
    (write_sse_event one_event greeting >>= read_event one_event) ≡ some greeting
read_event-write_sse_event_example =
    read_event-write_sse_event one_event greeting (lit "{hi}") refl refl
      ((λ e. omega arith), ((λ e. omega arith), ((λ e. omega arith), ((λ e. omega arith), tt))))
      ((λ e. omega arith), ((λ e. omega arith), ((λ e. omega arith), ((λ e. omega arith), tt))))
      refl

abbrev custom_args : List Text
custom_args = lit "--effort" ∷ lit "high" ∷ lit "'--effort=low'" ∷ lit "--deny='rm'" ∷ []

effort_blocked : blocked_mode (lit "--effort") claude_blocked_args ≡ some blocked_with_value
unfolding blocked_mode claude_blocked_args text_eq
effort_blocked = refl

effort_plain : Lacks b'=' (lit "--effort")
effort_plain = (
  (λ e. omega arith),
  (
    (λ e. omega arith),
    (
      (λ e. omega arith),
      (
        (λ e. omega arith),
        ((λ e. omega arith), ((λ e. omega arith), ((λ e. omega arith), ((λ e. omega arith), tt)))),
      ),
    ),
  ),
)

-- A run of the filter.
filtered : filter_custom_args custom_args claude_blocked_args ≡ lit "--deny=rm" ∷ []
unfolding filter_custom_args claude_blocked_args text_eq
filtered = refl

abbrev harmless : List Text
harmless = lit "--deny='rm'" ∷ []

none_blocked :
    All
      (λ raw. blocked_mode (flag_of (unshell_quote_arg raw)).0 claude_blocked_args ≡ none)
      harmless
unfolding blocked_mode flag_of unshell_quote_arg claude_blocked_args text_eq
none_blocked = (refl, tt)

abbrev chunks : List (Bool × Text)
chunks = (true, lit "pan") ∷ (false, lit "lost") ∷ (true, lit "ic") ∷ []

write_all-new_stderr_tail_example :
    ((write_all chunks (new_stderr_tail (pos 4))).buf
      ≡ cut_front (new_stderr_tail (pos 4)).max (taken chunks))
    × (length (write_all chunks (new_stderr_tail (pos 4))).buf ≤ (new_stderr_tail (pos 4)).max)
write_all-new_stderr_tail_example = write_all-new_stderr_tail (pos 4) chunks

-- The last four bytes.
last_four : (write_all chunks (new_stderr_tail (pos 4))).buf ≡ lit "anic"
unfolding new_stderr_tail write
last_four = refl

-- The older version has the smaller number.
older : compare_dot_versions (lit "2.1") (lit "10.0") ≡ some (negsuc 0)
unfolding compare_dot_versions numbers compare_numbers compare_parts split atoi
older = refl

compare_versions-opposite_example :
    (compare_versions (lit "0.4.1") (lit "0.4")
      ≡ opposite (compare_versions (lit "0.4") (lit "0.4.1")))
    × (compare_versions (lit "v0.5") (lit "0.4.1") ≡ compare_versions (lit "0.5") (lit "0.4.1"))
compare_versions-opposite_example =
    compare_versions-opposite (lit "0.4") (lit "0.4.1") 48 (lit ".5") refl

-- A run of it.
newer : compare_versions (lit "v1.0.0-rc1") (lit "1.0.0") ≡ pos 1
unfolding compare_versions strip_v split_version compare_segments part_int compare_segment text_lt
    split atoi
newer = refl
