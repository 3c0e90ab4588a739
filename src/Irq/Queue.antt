-- ===== src/Irq/Queue.antt =====
-- What an interrupt queue promises: the events of one source in the order in which they were taken,
-- each with its number in that order, at most eight at once.
use qiran_firmware.Base.{ℕ, refl, inl, inr, Option, none, some, List, [], ltb, length, u16}
use qiran_firmware.Base.{u32, ◌+◌, ◌≡◌, ◌⊎◌, ◌∷◌, ◌++◌, if◌then◌else◌}
use qiran_firmware.Irq.{Event, irq_queue_depth}

pub record Queue : Type 0 where
  pub events : List Event
  pub next_seq : ℕ
  pub taken : ℕ
  pub dropped : ℕ

-- An interrupt: numbered and counted, kept where there is room.
unfoldable pub arrive : ℕ → ℕ → ℕ → Queue → Queue
arrive tick datum kind q =
    let e : Event = record { tick = tick; datum = datum; kind = kind; seq = q.next_seq } in
    let numbered = record q { next_seq = u16 (q.next_seq + 1); taken = u32 (q.taken + 1) } in
    if ltb (length q.events) irq_queue_depth
    then record numbered { events = q.events ++ (e ∷ []) }
    else record numbered { dropped = u32 (q.dropped + 1) }

first_of : List Event → Option Event
first_of [] = none
first_of (e ∷ es) = some e

rest_of : List Event → List Event
rest_of [] = []
rest_of (e ∷ es) = es

-- The oldest event, if any.
unfoldable pub depart : Queue → Option Event × Queue
unfolding first_of rest_of
depart q = (first_of q.events, record q { events = rest_of q.events })

split_cases :
    (es : List Event)
    → ((es ≡ []) × (first_of es ≡ none) × (rest_of es ≡ []))
      ⊎ ((e : Event) × (first_of es ≡ some e) × (es ≡ e ∷ rest_of es))
unfolding first_of rest_of
split_cases [] = inl (refl, refl, refl)
split_cases (e ∷ es) = inr (e, refl, refl)

-- A queue is empty, and gives nothing, or gives its first event and keeps the others.
pub depart-cases :
    (q : Queue)
    → ((q.events ≡ []) × ((depart q).0 ≡ none) × ((depart q).1.events ≡ []))
      ⊎ ((e : Event) × ((depart q).0 ≡ some e) × (q.events ≡ e ∷ (depart q).1.events))
unfolding depart
depart-cases q = split_cases q.events
