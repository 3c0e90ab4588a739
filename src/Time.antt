-- ===== src/Time.antt =====
-- src/svc/svc_time.c: milliseconds since start from a 32-bit tick counter that wraps, and timeouts
-- on them. `raw` is what `exec_raw_tick_count` returns at the call.
pub mod Clock
pub mod Deadline
mod Tests
use qiran_firmware.Base.{ℕ, Bool, true, false, leb, u32, u64, sub32, sub64, ◌+◌, ◌*◌}
use qiran_firmware.Base.{if◌then◌else◌}

abbrev pub minor_cycle_ms : ℕ
minor_cycle_ms = 20

pub record Time : Type 0 where
  pub last_raw : ℕ
  pub ticks : ℕ
  pub epoch_ms : ℕ
  pub epoch_valid : Bool

unfoldable pub init : ℕ → Time
init raw = record { last_raw = raw; ticks = 0; epoch_ms = 0; epoch_valid = false }

unfoldable pub now_ms : ℕ → Time → ℕ × Time
now_ms raw t =
    let ticks = u64 (t.ticks + sub32 raw t.last_raw) in
    (u64 (ticks * minor_cycle_ms), record t { ticks = ticks; last_raw = raw })

unfoldable pub epoch_set : ℕ → ℕ → Time → Time
unfolding now_ms
epoch_set raw obc_time_ms t =
    let (now, t') = now_ms raw t in
    record t' { epoch_ms = sub64 obc_time_ms now; epoch_valid = true }

unfoldable pub epoch_now_ms : ℕ → Time → ℕ × Time
unfolding now_ms
epoch_now_ms raw t = let (now, t') = now_ms raw t in (u64 (t'.epoch_ms + now), t')

-- `svc_timeout_t`.
pub record Timeout : Type 0 where
  pub deadline_ms : ℕ
  pub armed : Bool

unfoldable pub arm : ℕ → ℕ → Time → Timeout × Time
unfolding now_ms
arm raw duration_ms t =
    let (now, t') = now_ms raw t in
    (record { deadline_ms = u64 (now + duration_ms); armed = true }, t')

unfoldable pub disarm : Timeout → Timeout
disarm o = record o { armed = false }

unfoldable pub expired : ℕ → Timeout → Time → Bool × Time
unfolding now_ms
expired raw o t =
    if o.armed then (let (now, t') = now_ms raw t in (leb o.deadline_ms now, t')) else (false, t)

unfoldable pub remaining_ms : ℕ → Timeout → Time → ℕ × Time
unfolding now_ms
remaining_ms raw o t =
    if o.armed
    then (let (now, t') = now_ms raw t in
        (if leb o.deadline_ms now then 0 else u32 (sub64 o.deadline_ms now), t'))
    else (0, t)

unfoldable pub elapsed_ms : ℕ → Timeout → ℕ → Time → ℕ × Time
unfolding remaining_ms
elapsed_ms raw o duration_ms t =
    let (left, t') = remaining_ms raw o t in (sub32 duration_ms left, t')
