-- ===== src/Time/Deadline.antt =====
-- A timeout expires once its duration has gone by, and not before.
use qiran_firmware.Base.{ℕ, true, arith, u32, ◌+◌, ◌-◌, ◌*◌, ◌^◌, ◌≤◌, ◌<◌, ◌≡◌, ◌↔◌}
use qiran_firmware.Time.{Time, now_ms, minor_cycle_ms, arm, expired, remaining_ms}
use qiran_firmware.Time.Clock.{Tracks, now_ms-exact}

-- A timeout armed at tick `now` is expired at tick `later` exactly if the cycles between last at least
-- its duration; the clock must be read again before its counter has gone round, and the milliseconds
-- fit 64 bits.
pub arm-expired_iff :
    (start now later duration : ℕ) (t : Time)
    → Tracks start now t
    → now ≤ later
    → later < now + 2 ^ 32
    → (later - start) * minor_cycle_ms + duration < 2 ^ 64
    → let (o, t') = arm (u32 now) duration t in
      ((expired (u32 later) o t').0 ≡ true) ↔ (duration ≤ (later - now) * minor_cycle_ms)
unfolding arm expired
arm-expired_iff start now later duration t k p q fits =
    let (at_now, tracks) =
      now_ms-exact start now now t k (omega arith) (omega arith) (omega (arith, k)) in
    let (at_later, done) =
      now_ms-exact start now later (now_ms (u32 now) t).1 tracks p q (omega arith) in
    (λ h. ground (arith, at_now, at_later, k), λ h. ground (arith, at_now, at_later, k))

-- What is left, at tick `later`, of a timeout armed at tick `now` is its 32-bit duration less the
-- milliseconds of the cycles between, and nothing once it has expired; the clock must be read again
-- before its counter has gone round, and the milliseconds fit 64 bits.
pub arm-remaining_ms :
    (start now later duration : ℕ) (t : Time)
    → Tracks start now t
    → now ≤ later
    → later < now + 2 ^ 32
    → duration < 2 ^ 32
    → (later - start) * minor_cycle_ms + duration < 2 ^ 64
    → let (o, t') = arm (u32 now) duration t in
      (remaining_ms (u32 later) o t').0 ≡ duration - (later - now) * minor_cycle_ms
unfolding arm remaining_ms
arm-remaining_ms start now later duration t k p q small fits =
    let (at_now, tracks) =
      now_ms-exact start now now t k (omega arith) (omega arith) (omega (arith, k)) in
    let (at_later, done) =
      now_ms-exact start now later (now_ms (u32 now) t).1 tracks p q (omega arith) in
    ground (arith, at_now, at_later, k)
