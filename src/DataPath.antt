-- ===== src/DataPath.antt =====
-- src/data/data_path.c: acquisition buffers handed to the fabric, their completions, and the queue of
-- buffers that wait to be reduced. What it only passes on to the store of records is in Nand.antt.
pub mod Fifo
mod Tests
use qiran_firmware.Base.{ℕ, zero, suc, Option, none, some, leb, u32, update, ◌+◌, ◌-◌, ◌%◌}
use qiran_firmware.Base.{◌==◌, if◌then◌else◌}
use qiran_firmware.Status.{Status, is_ok, err_param, err_busy}
use qiran_firmware.Fault
use qiran_firmware.Services.{Services}
use qiran_firmware.Fdir.{report}
use qiran_firmware.Irq
use qiran_firmware.Irq.{Event}
use qiran_firmware.Irq.Drain.{drain}
use qiran_firmware.Ddr.{
  Ddr, handoff, free_raw_slot, region_count, channels, owner_none, owner_pl_dma,
  owner_ps_processing,
}

-- `READY_SLOTS`.
abbrev pub ready_slots : ℕ
ready_slots = region_count

pub record DataPath : Type 0 where
  pub ready : ℕ → ℕ
  pub ready_count : ℕ
  pub completions : ℕ
  pub arm_failures : ℕ
  pub dropped : ℕ

-- The data path with the regions and the services.
pub record State : Type 0 where
  pub path : DataPath
  pub ddr : Ddr
  pub services : Services

-- `data_path_init`; the queue's memory keeps what it held.
unfoldable pub init : DataPath → DataPath
init p = record { ready = p.ready; ready_count = 0; completions = 0; arm_failures = 0; dropped = 0 }

-- `data_path_arm`.
unfoldable pub arm : ℕ → State → Status × State
arm channel st =
    let region = free_raw_slot channel st.ddr in
    let (r, d, s) = handoff region owner_none owner_pl_dma st.ddr st.services in
    if leb channels channel
    then (err_param, st)
    else if leb region_count region
    then (
      err_busy,
      record st {
        path = record (st.path) { arm_failures = u32 (st.path.arm_failures + 1) };
        services = report Fault.ddr_overrun channel st.services;
      },
    )
    else (r, record st { ddr = d; services = s })

-- The loop of `data_path_take_ready`: `n` entries from `i` move down by one.
unfoldable pub move_down : ℕ → ℕ → (ℕ → ℕ) → ℕ → ℕ
move_down zero i ready = ready
move_down (suc n) i ready = move_down n (i + 1) (update ready (i - 1) (ready i))

-- `data_path_take_ready`, with a region to write to.
unfoldable pub take_ready : DataPath → Option ℕ × DataPath
take_ready p = if p.ready_count == 0 then (none, p) else (
  some (p.ready 0),
  record p { ready = move_down (p.ready_count - 1) 1 p.ready; ready_count = p.ready_count - 1 },
)

-- `complete` with the region handed over.
unfoldable pub enqueue : ℕ → State → State
enqueue region st =
    let p = st.path in
    if leb ready_slots p.ready_count
    then record st {
      path = record p { dropped = u32 (p.dropped + 1) };
      services = report Fault.ddr_overrun region st.services;
    }
    else record st {
      path = record p {
        ready = update p.ready p.ready_count region;
        ready_count = p.ready_count + 1;
        completions = u32 (p.completions + 1);
      };
    }

-- `complete`.
unfoldable pub complete : ℕ → State → State
complete datum st =
    let region = datum % region_count in
    let (r, d, s) = handoff region owner_pl_dma owner_ps_processing st.ddr st.services in
    let st' = record st { ddr = d; services = s } in
    if is_ok r
    then enqueue region st'
    else record st' { path = record (st.path) { dropped = u32 (st.path.dropped + 1) } }

-- `data_path_service_interrupts`, on the queue of its source.
unfoldable pub service_interrupts :
    {V : Type 0} → ℕ → Irq.Slot V → State → Option (Irq.Slot V × State)
service_interrupts fuel slot st =
    drain (λ (ev : Event) (x : State). complete ev.datum x) fuel slot st
