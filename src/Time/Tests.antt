-- ===== src/Time/Tests.antt =====
-- The properties of the clock at a counter that wraps between two readings.
use qiran_firmware.Base.{true, arith, u32, ◌-◌, ◌*◌, ◌≤◌, ◌≡◌, ◌↔◌}
use qiran_firmware.Time
use qiran_firmware.Time.{Time, minor_cycle_ms}
use qiran_firmware.Time.Clock.{Tracks, now_ms-exact}
use qiran_firmware.Time.Deadline.{arm-expired_iff}

-- Started at tick 4294967290, last read at tick 4294967294.
abbrev late_clock : Time
late_clock = record { last_raw = 4294967294; ticks = 4; epoch_ms = 0; epoch_valid = true }

late_clock-Tracks : Tracks 4294967290 4294967294 late_clock
late_clock-Tracks = record {
  after_start = omega arith;
  raw_seen = omega arith;
  ticks_counted = omega arith;
}

now_ms-exact_example :
    ((Time.now_ms (u32 4294967300) late_clock).0 ≡ (4294967300 - 4294967290) * minor_cycle_ms)
    × Tracks 4294967290 4294967300 (Time.now_ms (u32 4294967300) late_clock).1
now_ms-exact_example =
    now_ms-exact 4294967290 4294967294 4294967300 late_clock late_clock-Tracks (omega arith)
      (omega arith) (omega arith)

arm-expired_iff_example :
    let (o, t') = Time.arm (u32 4294967294) 100 late_clock in
    ((Time.expired (u32 4294967300) o t').0 ≡ true)
    ↔ (100 ≤ (4294967300 - 4294967294) * minor_cycle_ms)
arm-expired_iff_example =
    arm-expired_iff 4294967290 4294967294 4294967300 100 late_clock late_clock-Tracks (omega arith)
      (omega arith) (omega arith)
