-- ===== src/Irq.antt =====
-- src/plat/plat_irq.c: the interrupt sources and the queue of events that each one's handler fills
-- and the loop drains. The interrupt controller (src/plat/plat_gic.c) is a parameter. The handler
-- is one step: it runs with the loop stopped, and the loop's `plat_irq_take` writes only the tail.
pub mod Queue
pub mod Drain
pub mod Refine
mod Tests
use qiran_firmware.Base.{ℕ, zero, suc, bit_and, Bool, true, false, Option, none, some, List}
use qiran_firmware.Base.{[], ltb, leb, get_or, u16, u32, sub32, update, ◌+◌, ◌&&◌, ◌∷◌, ◌==◌}
use qiran_firmware.Base.{if◌then◌else◌}
use qiran_firmware.Status.{Status, is_ok, ok, err_param, err_state}

-- `QIRAN_IRQ_QUEUE_DEPTH` and `Q_MASK`.
abbrev pub irq_queue_depth : ℕ
irq_queue_depth = 8

abbrev pub q_mask : ℕ
q_mask = 7

-- `plat_irq_id_t`.
abbrev pub irq_timer : ℕ
irq_timer = 0

abbrev pub irq_watchdog : ℕ
irq_watchdog = 1

abbrev pub irq_dma : ℕ
irq_dma = 2

abbrev pub irq_spw : ℕ
irq_spw = 3

abbrev pub irq_uart : ℕ
irq_uart = 4

abbrev pub irq_pl_error : ℕ
irq_pl_error = 5

abbrev pub irq_count : ℕ
irq_count = 6

-- The priorities of include/qiran/plat/plat_gic.h, by source.
abbrev pub k_priority : List ℕ
k_priority = 0x08 ∷ 0x10 ∷ 0x20 ∷ 0x28 ∷ 0x30 ∷ 0x38 ∷ []

-- `plat_irq_event_t`.
pub record Event : Type 0 where
  pub tick : ℕ
  pub datum : ℕ
  pub kind : ℕ
  pub seq : ℕ

-- `plat_irq_source_t`: the acknowledge hook gives the datum and the kind, 0 where it leaves it.
pub record Source (W : Type 0) : Type 0 where
  pub irq_id : ℕ
  pub trigger : ℕ
  pub ack : Option (W → ℕ × ℕ × W)

-- `irq_slot_t`.
pub record Slot (W : Type 0) : Type 0 where
  pub src : Source W
  pub registered : Bool
  pub q : ℕ → Event
  pub head : ℕ
  pub tail : ℕ
  pub taken : ℕ
  pub dropped : ℕ
  pub cycles_last : ℕ
  pub cycles_worst : ℕ
  pub seq : ℕ

-- `plat_irq_stats_t`.
pub record Stats : Type 0 where
  pub taken : ℕ
  pub dropped : ℕ
  pub cycles_last : ℕ
  pub cycles_worst : ℕ

module _ {W : Type 0} where
  -- One source in the loop of `plat_irq_init`; the queue's memory keeps what it held.
  unfoldable pub init_slot : Slot W → Slot W
  init_slot s = record {
    src = record { irq_id = 0; trigger = 0; ack = none };
    registered = false;
    q = s.q;
    head = 0;
    tail = 0;
    taken = 0;
    dropped = 0;
    cycles_last = 0;
    cycles_worst = 0;
    seq = 0;
  }

  -- `plat_irq_init`: `n` sources from `i`.
  unfoldable pub init_from : ℕ → ℕ → (ℕ → Slot W) → ℕ → Slot W
  init_from zero i slots = slots
  init_from (suc n) i slots = init_from n (i + 1) (update slots i (init_slot (slots i)))

  unfoldable pub init : (ℕ → Slot W) → ℕ → Slot W
  init slots = init_from irq_count 0 slots

  -- `irq_handler` from the acknowledgement to the sequence: what it publishes.
  unfoldable pub publish : ℕ → ℕ → ℕ → Slot W → Slot W
  publish tick datum kind s =
      let e : Event = record { tick = tick; datum = datum; kind = kind; seq = s.seq } in
      let counted = record s { taken = u32 (s.taken + 1) } in
      if ltb q_mask (sub32 s.head s.tail)
      then record counted { dropped = u32 (s.dropped + 1); seq = u16 (s.seq + 1) }
      else record counted {
        q = update s.q (bit_and s.head q_mask) e;
        head = u32 (s.head + 1);
        seq = u16 (s.seq + 1);
      }

  -- The measurement at the end of `irq_handler`, from the two readings of the cycle counter.
  unfoldable pub measure : ℕ → ℕ → Slot W → Slot W
  measure start now s =
      let elapsed = sub32 now start in
      record s {
        cycles_last = elapsed;
        cycles_worst = if ltb s.cycles_worst elapsed then elapsed else s.cycles_worst;
      }

  -- `irq_handler` of a source that is registered, at a tick and two readings of the cycle counter.
  unfoldable pub irq_handler : (W → ℕ × ℕ × W) → ℕ → ℕ → ℕ → Slot W → W → Slot W × W
  irq_handler ack tick start now s w =
      let (datum, kind, w') = ack w in (measure start now (publish tick datum kind s), w')

  -- `plat_irq_register`, with what the controller's `plat_gic_connect` does to the slot's line.
  unfoldable pub register :
      (ℕ → ℕ → ℕ → W → Status × W)
      → ℕ
      → Option (Source W)
      → (ℕ → Slot W)
      → W
      → Status × (ℕ → Slot W) × W
  register connect id none slots w = (err_param, slots, w)
  register connect id (some src) slots w =
      let stored = record (slots id) { src = src } in
      let (st, w') = connect src.irq_id (get_or k_priority id 0) src.trigger w in
      elim src.ack [
        | none ↦ (err_param, slots, w)
        | some _ ↦
            if leb irq_count id
            then (err_param, slots, w)
            else if (slots id).registered
            then (err_state, slots, w)
            else if is_ok st
            then (ok, update slots id (record stored { registered = true }), w')
            else (st, update slots id stored, w')
      ]

  -- `plat_irq_enable` and `plat_irq_disable`, by what the controller does to a line.
  unfoldable pub switch_line : (ℕ → W → W) → ℕ → (ℕ → Slot W) → W → W
  switch_line line id slots w =
      if ltb id irq_count && (slots id).registered then line (slots id).src.irq_id w else w

  -- `plat_irq_take` of a known source.
  unfoldable pub take_event : Slot W → Option Event × Slot W
  take_event s =
      if s.head == s.tail
      then (none, s)
      else (some (s.q (bit_and s.tail q_mask)), record s { tail = u32 (s.tail + 1) })

  -- `plat_irq_take`, with an event to write to.
  unfoldable pub irq_take : ℕ → (ℕ → Slot W) → Option Event × (ℕ → Slot W)
  irq_take id slots =
      let (e, s) = take_event (slots id) in
      if leb irq_count id then (none, slots) else (e, update slots id s)

  -- `plat_irq_pending`.
  unfoldable pub pending : ℕ → (ℕ → Slot W) → ℕ
  pending id slots = if leb irq_count id then 0 else sub32 (slots id).head (slots id).tail

  -- `plat_irq_stats_get`.
  unfoldable pub stats_get : ℕ → (ℕ → Slot W) → Option Stats
  stats_get id slots =
      if leb irq_count id
      then none
      else some (record {
        taken = (slots id).taken;
        dropped = (slots id).dropped;
        cycles_last = (slots id).cycles_last;
        cycles_worst = (slots id).cycles_worst;
      })
