-- ===== src/Protocol/Frame.antt =====
-- WriteSSEEvent and ParseSSEEvent of pkg/protocol/sse.go.
use aiclibridge.Prelude.{
  ◌≡◌, refl, ap, ◌∙◌, Text, lit, List, [], ◌∷◌, ◌++◌, Option, none, some, if◌then◌else◌, is_empty,
  ◌>>=◌, split, split-append, strip_prefix, Lacks, All-append, arith, false,
}
use aiclibridge.Protocol.{Event, Codec}

-- The bytes of one frame; `none` is the marshal error. A write error of `w` is the caller's.
unfoldable pub write_sse_event : Codec → Event → Option Text
write_sse_event c e = do
  payload ← c.marshal_event e
  some ((lit "event: " ++ e.type) ++ 10 ∷ ((lit "data: " ++ payload) ++ 10 ∷ 10 ∷ []))

unfoldable pub parse_sse_event : Codec → Text → Text → Option Event
parse_sse_event c event_type data_line = do
  e ← c.unmarshal_event data_line
  some (if is_empty e.type then record e { type = event_type } else e)

-- A client of the stream: it takes the lines of a frame, and what stands behind `event: ` and
-- `data: ` in them.
unfoldable pub read_lines : List Text → Option (Text × Text)
read_lines (header ∷ body ∷ [] ∷ [] ∷ []) = do
  event_type ← strip_prefix header (lit "event: ")
  data_line ← strip_prefix body (lit "data: ")
  some (event_type, data_line)
read_lines _ = none

unfoldable pub read_event : Codec → Text → Option Event
unfolding parse_sse_event read_lines split
read_event c frame = do
  (event_type, data_line) ← read_lines (split 10 frame)
  parse_sse_event c event_type data_line

Lacks-header : (s : Text) → Lacks 10 s → Lacks 10 (lit "event: " ++ s)
Lacks-header s h =
    All-append _ (lit "event: ") s
      (
        (λ e. omega arith),
        (
          (λ e. omega arith),
          (
            (λ e. omega arith),
            (
              (λ e. omega arith),
              ((λ e. omega arith), ((λ e. omega arith), ((λ e. omega arith), tt))),
            ),
          ),
        ),
      )
      h

Lacks-body : (s : Text) → Lacks 10 s → Lacks 10 (lit "data: " ++ s)
Lacks-body s h =
    All-append _ (lit "data: ") s
      (
        (λ e. omega arith),
        (
          (λ e. omega arith),
          (
            (λ e. omega arith),
            ((λ e. omega arith), ((λ e. omega arith), ((λ e. omega arith), tt))),
          ),
        ),
      )
      h

lines_of_frame :
    (t p : Text)
    → Lacks 10 t
    → Lacks 10 p
    → split 10 ((lit "event: " ++ t) ++ 10 ∷ ((lit "data: " ++ p) ++ 10 ∷ 10 ∷ []))
      ≡ (lit "event: " ++ t) ∷ (lit "data: " ++ p) ∷ [] ∷ [] ∷ []
lines_of_frame t p ht hp =
    split-append 10 (lit "event: " ++ t) _ (Lacks-header t ht)
    ∙ ap (λ ws. (lit "event: " ++ t) ∷ ws)
        (split-append 10 (lit "data: " ++ p) (10 ∷ []) (Lacks-body p hp) ∙ unfold split in refl)

-- The JSON text of an event, without its type or with it.
abbrev retyped : Event → Text → Event
retyped e t = if is_empty e.type then record e { type = t } else e

-- A client that splits a frame into its lines gets back the event that the daemon wrote. It is
-- assumed that the event's type and its JSON hold no newline, and that decoding undoes encoding.
pub read_event-write_sse_event :
    (c : Codec) (e : Event) (payload : Text)
    → c.marshal_event e ≡ some payload
    → c.unmarshal_event payload ≡ some e
    → Lacks 10 e.type
    → Lacks 10 payload
    → is_empty e.type ≡ false
    → (write_sse_event c e >>= read_event c) ≡ some e
unfolding write_sse_event read_event read_lines parse_sse_event strip_prefix
read_event-write_sse_event c e payload m u ht hp ne =
    rw m (rw (lines_of_frame e.type payload ht hp) (rw u (rw ne refl)))
