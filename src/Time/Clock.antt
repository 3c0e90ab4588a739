-- ===== src/Time/Clock.antt =====
-- The clock against the number of ticks that really went by, however often the counter wrapped.
use qiran_firmware.Base.{ℕ, arith, u32, ◌+◌, ◌-◌, ◌*◌, ◌^◌, ◌≤◌, ◌<◌, ◌≡◌}
use qiran_firmware.Time.{Time, init, now_ms, minor_cycle_ms}

-- The clock was last read at tick `now` of a count that began at tick `start`; the counter that it
-- sees is the count's low 32 bits.
pub record Tracks (start now : ℕ) (t : Time) : Type 0 where
  pub after_start : start ≤ now
  pub raw_seen : t.last_raw ≡ u32 now
  pub ticks_counted : t.ticks ≡ now - start

pub init-Tracks : (start : ℕ) → Tracks start start (init (u32 start))
unfolding init
init-Tracks start = omega arith

-- If the clock is read again before the 32-bit counter has gone round once, and the milliseconds
-- fit 64 bits, it returns the ticks since the start times the cycle length, exactly, and tracks on.
pub now_ms-exact :
    (start now later : ℕ) (t : Time)
    → Tracks start now t
    → now ≤ later
    → later < now + 2 ^ 32
    → (later - start) * minor_cycle_ms < 2 ^ 64
    → ((now_ms (u32 later) t).0 ≡ (later - start) * minor_cycle_ms)
      × Tracks start later (now_ms (u32 later) t).1
unfolding now_ms
now_ms-exact start now later t k p q fits = omega (arith, k)
