-- ===== src/Exec.antt =====
-- src/exec/exec_core.c: the executive's ticks, slots and overruns. The tick interrupt is an operation
-- of its own; the processor's cycle counter (src/plat/plat_cpu.c) is read through arguments.
pub mod Phase
pub mod Wait
mod Tests
use qiran_firmware.Base.{ℕ, zero, suc, Bool, true, false, Option, none, some, List, [], ltb}
use qiran_firmware.Base.{leb, u8, u32, u64, sub32, sub64, ◌+◌, ◌-◌, ◌*◌, ◌/◌, ◌∷◌, ◌==◌}
use qiran_firmware.Base.{if◌then◌else◌}

-- `QIRAN_MINOR_PER_MAJOR` and `QIRAN_MINOR_CYCLE_MS`.
abbrev pub minor_per_major : ℕ
minor_per_major = 25

abbrev pub minor_cycle_ms : ℕ
minor_cycle_ms = 20

pub record Exec : Type 0 where
  pub isr_ticks : ℕ
  pub isr_majors : ℕ
  pub isr_position : ℕ
  pub consumed : ℕ
  pub consumed_majors : ℕ
  pub elapsed_minor : ℕ
  pub slot : ℕ
  pub major_cycles : ℕ
  pub major_due : Bool
  pub body_start : ℕ
  pub body_started : Bool
  pub body_last : ℕ
  pub body_worst : ℕ
  pub overrun_events : ℕ
  pub overrun_lost : ℕ
  pub overrun_worst : ℕ

-- `exec_init`.
unfoldable pub init : Exec
init = record {
  isr_ticks = 0;
  isr_majors = 0;
  isr_position = 0;
  consumed = 0;
  consumed_majors = 0;
  elapsed_minor = 0;
  slot = 0;
  major_cycles = 0;
  major_due = false;
  body_start = 0;
  body_started = false;
  body_last = 0;
  body_worst = 0;
  overrun_events = 0;
  overrun_lost = 0;
  overrun_worst = 0;
}

-- The loop of `advance`, `fuel` rounds at most.
unfoldable pub reduce : ℕ → ℕ → ℕ
reduce zero slot = slot
reduce (suc fuel) slot =
    let rest = reduce fuel (slot - minor_per_major) in
    if leb minor_per_major slot then rest else slot

-- `advance`; a round takes 25 from the slot, so its value is enough fuel.
unfoldable pub advance : ℕ → Exec → Exec
advance pending e =
    let slot = u32 (e.slot + pending) in
    record e { slot = reduce slot slot; elapsed_minor = u64 (e.elapsed_minor + pending) }

-- `exec_on_minor_tick`.
unfoldable pub on_minor_tick : Exec → Exec
on_minor_tick e =
    let position = u8 (e.isr_position + 1) in
    let ticks = u32 (e.isr_ticks + 1) in
    if leb minor_per_major position
    then record e { isr_ticks = ticks; isr_position = 0; isr_majors = u32 (e.isr_majors + 1) }
    else record e { isr_ticks = ticks; isr_position = position }

-- The interrupt, `n` times.
unfoldable pub ticks : ℕ → Exec → Exec
ticks zero e = e
ticks (suc n) e = ticks n (on_minor_tick e)

-- `exec_resync`, where `late` interrupts come between its reads of the two counters and the cycle
-- counter reads `cycles`.
unfoldable pub resync : ℕ → ℕ → Exec → Exec
resync late cycles e =
    let raw = e.isr_ticks in
    let e' = ticks late (record (advance (sub32 raw e.consumed) e) { consumed = raw }) in
    record e' {
      consumed_majors = e'.isr_majors;
      major_due = false;
      body_start = cycles;
      body_started = true;
    }

-- `exec_wait_for_minor_tick` up to its loop: the length of the body that ends.
unfoldable pub end_body : ℕ → Exec → Exec
end_body cycles e =
    let body = sub32 cycles e.body_start in
    let e' = record e {
      body_last = body;
      body_worst = if ltb e.body_worst body then body else e.body_worst;
    } in
    record (if e.body_started then e' else e) { major_due = false }

unfoldable pub count_overrun : ℕ → Exec → Exec
count_overrun pending e =
    let lost = sub32 pending 1 in
    if ltb 1 pending
    then record e {
      overrun_events = u32 (e.overrun_events + 1);
      overrun_lost = u32 (e.overrun_lost + lost);
      overrun_worst = if ltb e.overrun_worst lost then lost else e.overrun_worst;
    }
    else e

unfoldable pub collect_majors : Exec → Exec
collect_majors e = if e.isr_majors == e.consumed_majors then e else record e {
  consumed_majors = e.isr_majors;
  major_due = true;
  major_cycles = u64 (e.major_cycles + 1);
}

-- `exec_wait_for_minor_tick` from its loop on, with a tick pending; `late` interrupts come between
-- its reads of the two counters.
unfoldable pub collect : ℕ → ℕ → Exec → Exec
unfolding count_overrun collect_majors
collect late cycles e =
    let raw = e.isr_ticks in
    let pending = sub32 raw e.consumed in
    let e' = advance pending (record (count_overrun pending e) { consumed = raw }) in
    record (collect_majors (ticks late e')) { body_start = cycles; body_started = true }

-- The loop of `exec_wait_for_minor_tick`. Each wait for an interrupt ends after some interrupts,
-- which may be of other devices and no tick; the list has the ticks of each, and the answer is `none`
-- while the processor still waits.
unfoldable pub wait_loop : List ℕ → ℕ → ℕ → Exec → Option Exec
wait_loop [] late cycles e =
    if sub32 e.isr_ticks e.consumed == 0 then none else some (collect late cycles e)
wait_loop (n ∷ wakes) late cycles e =
    let rest = wait_loop wakes late cycles (ticks n e) in
    if sub32 e.isr_ticks e.consumed == 0 then rest else some (collect late cycles e)

-- `exec_wait_for_minor_tick`: the cycle counter reads `stop` when it is called and `start` when it
-- returns.
unfoldable pub wait_for_minor_tick : List ℕ → ℕ → ℕ → ℕ → Exec → Option Exec
wait_for_minor_tick wakes late stop start e = wait_loop wakes late start (end_body stop e)

-- `exec_stats_get`, its two counts of cycles.
unfoldable pub minor_cycles : Exec → ℕ
minor_cycles e = sub64 e.elapsed_minor e.overrun_lost

-- `exec_budget_cycles` and `exec_cycles_to_us`, on what `plat_cpu_cycles_per_us` answers.
unfoldable pub budget_cycles : ℕ → ℕ
budget_cycles per_us = u32 (u32 (per_us * 1000) * minor_cycle_ms)

unfoldable pub cycles_to_us : ℕ → ℕ → ℕ
cycles_to_us per_us cycles = if per_us == 0 then 0 else cycles / per_us
