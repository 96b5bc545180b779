-- ===== src/Api.antt =====
-- internal/api: what the handlers of the three APIs make of a run's channel and of the catalog.
pub mod Collect
pub mod Catalog
pub mod Chat
pub mod Messages
pub mod Guard
pub mod Summary
pub mod Prompt
use aiclibridge.Prelude.{Text, List, [], ◌∷◌, ◌++◌, if◌then◌else◌, text_eq, Bool}
use aiclibridge.Protocol.{Event, event_text}

-- What a handler's select meets: an event, and whether the connection takes the frame that is made
-- of it, or the end of the request's context. Behind the last one the channel is closed.
pub data Tick : Type 0 where
  arrived : Event → Bool → Tick
  gone : Tick

abbrev pub events_of : List Tick → List Event
events_of [] = []
events_of (arrived ev ok ∷ ts) = ev ∷ events_of ts
events_of (gone ∷ ts) = events_of ts

-- The client stays to the end.
abbrev pub Attended : List Tick → Type 0
Attended [] = Unit
Attended (arrived ev ok ∷ ts) = Attended ts
Attended (gone ∷ ts) = ⊥

-- aggregateText of internal/api/openai.go
unfoldable pub aggregate_text : List Event → Text
aggregate_text [] = []
aggregate_text (ev ∷ evs) =
    let rest = aggregate_text evs in if text_eq ev.type event_text then ev.content ++ rest else rest
