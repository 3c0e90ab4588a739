-- ===== src/Irq/Tests.antt =====
-- The properties of the interrupt queues at a concrete source.
use qiran_firmware.Base.{ℕ, true, none, some, [], arith, ◌+◌, ◌≡◌, ◌∷◌}
use qiran_firmware.Irq.{Slot}
use qiran_firmware.Irq.Refine.{
  interrupt, take, IsValid, view, contents, run, run_queue, run_refines_queue,
}
use qiran_firmware.Irq.Drain.{drain, each, drain-each}

-- A source with an empty queue, its counters close to their end.
abbrev empty_slot : Slot ℕ
empty_slot = record {
  src = record { irq_id = 61; trigger = 1; ack = none };
  registered = true;
  q = λ _. record { tick = 0; datum = 0; kind = 0; seq = 0 };
  head = 4294967295;
  tail = 4294967295;
  taken = 0;
  dropped = 0;
  cycles_last = 0;
  cycles_worst = 0;
  seq = 65535;
}

empty_slot-IsValid : IsValid empty_slot
empty_slot-IsValid = omega arith

run_refines_queue_example :
    run empty_slot (interrupt 5 7 0 ∷ interrupt 6 8 0 ∷ take ∷ take ∷ take ∷ [])
    ≡ run_queue (view empty_slot) (interrupt 5 7 0 ∷ interrupt 6 8 0 ∷ take ∷ take ∷ take ∷ [])
run_refines_queue_example =
    run_refines_queue (interrupt 5 7 0 ∷ interrupt 6 8 0 ∷ take ∷ take ∷ take ∷ []) empty_slot
      empty_slot-IsValid

-- Two events, the second behind the wrap of the head.
abbrev two_events : Slot ℕ
two_events = record empty_slot { head = 1 }

two_events-IsValid : IsValid two_events
two_events-IsValid = omega arith

drain-each_example :
    (s' : Slot ℕ) × (drain (λ e n. n + e.datum) 9 two_events 0
      ≡ some (s', each (λ e n. n + e.datum) (contents two_events) 0))
    × (contents s' ≡ [])
    × IsValid s'
drain-each_example = drain-each (λ e n. n + e.datum) 9 two_events 0 two_events-IsValid (omega arith)
