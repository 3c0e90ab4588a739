-- ===== src/Irq/Refine.antt =====
-- The queue of a source behaves as a bounded FIFO of numbered events, whatever its counters.
use qiran_firmware.Base.{ℕ, refl, Option, List, [], arith, length, sub32, ◌≡◌, ◌∙◌, ◌∷◌}
use qiran_firmware.Window.{window, length-window}
use qiran_firmware.Window.Counter.{
  IsCounted, counter_append, counter_split, counted_write, counted_read,
}
use qiran_firmware.Irq.{
  Slot, Event, irq_queue_depth, q_mask, init_slot, publish, measure, irq_handler, take_event,
}
use qiran_firmware.Irq.Queue
use qiran_firmware.Irq.Queue.{Queue}

pub record IsValid {W : Type 0} (s : Slot W) : Type 0 where
  pub counted : IsCounted 3 q_mask s.head s.tail

-- What happens to a source: an interrupt, with the readings of its handler, or a take by the loop.
pub data Op : Type 0 where
  interrupt : ℕ → ℕ → ℕ → Op
  take : Op

module _ {W : Type 0} where
  abbrev pub contents : Slot W → List Event
  contents s = window irq_queue_depth s.q s.tail (sub32 s.head s.tail)

  abbrev pub view : Slot W → Queue
  view s = record { events = contents s; next_seq = s.seq; taken = s.taken; dropped = s.dropped }

  pub length-contents : (s : Slot W) → length (contents s) ≡ sub32 s.head s.tail
  length-contents s = length-window irq_queue_depth s.q s.tail (sub32 s.head s.tail)

  pub init_slot-IsValid : (s : Slot W) → IsValid (init_slot s)
  unfolding init_slot
  init_slot-IsValid s = omega arith

  publish-IsValid :
      (tick datum kind : ℕ) (s : Slot W) → IsValid s → IsValid (publish tick datum kind s)
  unfolding publish
  publish-IsValid tick datum kind s v = record { counted = ground (arith, counted_write v.counted) }

  publish_refines :
      (tick datum kind : ℕ) (s : Slot W)
      → IsValid s
      → view (publish tick datum kind s) ≡ Queue.arrive tick datum kind (view s)
  unfolding publish Queue.arrive
  publish_refines tick datum kind s v = ground (
    arith,
    length-contents s,
    counter_append v.counted s.q (record { tick = tick; datum = datum; kind = kind; seq = s.seq }),
  )

  measure_same :
      (start now : ℕ) (s : Slot W)
      → IsValid s
      → IsValid (measure start now s) × (view (measure start now s) ≡ view s)
  unfolding measure
  measure_same start now s v = (record { counted = v.counted }, refl)

  -- The handler of a source, with its cycle counter read and its device acknowledged, keeps the
  -- invariant and is the arrival of one event on the queue: that of the datum and kind that the
  -- acknowledgement gave.
  pub handler_refines :
      (ack : W → ℕ × ℕ × W) (tick start now : ℕ) (s : Slot W) (w : W)
      → IsValid s
      → let (datum, kind, w1) = ack w in
        let (s', w') = irq_handler ack tick start now s w in
        IsValid s' × (view s' ≡ Queue.arrive tick datum kind (view s)) × (w' ≡ w1)
  unfolding irq_handler
  handler_refines ack tick start now s w v =
      let (datum, kind, w1) = ack w in
      let (valid, same) =
        measure_same start now (publish tick datum kind s) (publish-IsValid tick datum kind s v) in
      (valid, same ∙ publish_refines tick datum kind s v, refl)

  pub take-IsValid : (s : Slot W) → IsValid s → IsValid (take_event s).1
  unfolding take_event
  take-IsValid s v = record { counted = ground (arith, counted_read v.counted) }

  pub take_refines :
      (s : Slot W) → IsValid s → let (e, s') = take_event s in (e, view s') ≡ Queue.depart (view s)
  unfolding take_event Queue.depart
  take_refines s v = ground (arith, counter_split v.counted s.q)

  -- The events that the takes of a run give, on the code and on the queue.
  unfoldable pub run : Slot W → List Op → List (Option Event)
  run s [] = []
  run s (interrupt tick datum kind ∷ ops) = run (publish tick datum kind s) ops
  run s (take ∷ ops) = let (e, s') = take_event s in e ∷ run s' ops

unfoldable pub run_queue : Queue → List Op → List (Option Event)
run_queue q [] = []
run_queue q (interrupt tick datum kind ∷ ops) = run_queue (Queue.arrive tick datum kind q) ops
run_queue q (take ∷ ops) = let (e, q') = Queue.depart q in e ∷ run_queue q' ops

-- In whatever order interrupts and takes come, and however often the counters wrap, the takes give
-- what a bounded FIFO of numbered events gives: an event that found the queue full is missing, and
-- its number with it.
pub run_refines_queue :
    {W : Type 0} (ops : List Op) (s : Slot W) → IsValid s → run s ops ≡ run_queue (view s) ops
unfolding run run_queue
run_refines_queue [] s v = refl
run_refines_queue (interrupt tick datum kind ∷ ops) s v =
    rw (← publish_refines tick datum kind s v)
      (run_refines_queue ops (publish tick datum kind s) (publish-IsValid tick datum kind s v))
run_refines_queue (take ∷ ops) s v =
    rw (← take_refines s v, run_refines_queue ops (take_event s).1 (take-IsValid s v)) refl
