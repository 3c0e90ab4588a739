-- ===== src/Exec/Wait.antt =====
-- The wait ends with the first tick, and no tick goes unrecorded.
use qiran_firmware.Base.{ℕ, zero, suc, refl, false, some, List, [], arith, dec_lt, ltb, sub32}
use qiran_firmware.Base.{◌+◌, ◌-◌, ◌/◌, ◌%◌, ◌^◌, ◌≤◌, ◌<◌, ◌≡◌, ◌≢◌, ◌⊎◌, ◌∷◌}
use qiran_firmware.Exec.{
  Exec, ticks, collect, wait_loop, minor_cycles, count_overrun, collect_majors, advance,
  on_minor_tick,
}
use qiran_firmware.Exec.Phase.{IsCounted, Near, gathered-IsCounted, ticks-IsCounted}

-- Some wait for an interrupt ends with a tick.
abbrev pub SomeTick : List ℕ → Type 0
SomeTick [] = ⊥
SomeTick (n ∷ wakes) = (n ≢ 0) ⊎ SomeTick wakes

-- The ticks that a list of waits brings.
abbrev pub total : List ℕ → ℕ
total [] = 0
total (n ∷ wakes) = n + total wakes

pending_ticks :
    (t c : ℕ) (e : Exec) → Near t c → IsCounted t c e → sub32 e.isr_ticks e.consumed ≡ t - c
pending_ticks t c e near v = ground (arith, near)

-- The wait returns once a tick is pending or one of the waits for an interrupt ends with a tick,
-- whatever other interrupts wake the processor before. Fewer than 2 ^ 32 - 25 ticks are pending in
-- all.
pub wait_loop-returns :
    (wakes : List ℕ) (late cycles t c : ℕ) (e : Exec)
    → IsCounted t c e
    → Near (t + total wakes) c
    → (c < t) ⊎ SomeTick wakes
    → (e' : Exec) × (wait_loop wakes late cycles e ≡ some e')
unfolding wait_loop
wait_loop-returns [] late cycles t c e v near h =
    (collect late cycles e, ground (arith, h, near, pending_ticks t c e, v))
wait_loop-returns (n ∷ wakes) late cycles t c e v near h = elim (dec_lt c t) [
  | yes later ↦ (collect late cycles e, ground (arith, later, near, pending_ticks t c e, v))
  | no now ↦
      let more : (c < t + n) ⊎ SomeTick wakes = ground (arith, h, now, v) in
      let (e', r) =
        wait_loop-returns wakes late cycles (t + n) c (ticks n e) (ticks-IsCounted n t c e v)
          (omega arith) more in
      (e', ground (arith, now, near, pending_ticks t c e, v, r))
]

ticks_kept :
    (n : ℕ) (e : Exec)
    → let e' = ticks n e in
      (e'.elapsed_minor ≡ e.elapsed_minor)
      × (e'.overrun_lost ≡ e.overrun_lost)
      × (e'.consumed_majors ≡ e.consumed_majors)
      × (e'.major_due ≡ e.major_due)
unfolding ticks on_minor_tick
ticks_kept zero e = (refl, refl, refl, refl)
ticks_kept (suc n) e = ground (arith, ticks_kept n (on_minor_tick e))

-- A collection with a tick pending counts one minor cycle, however many are pending: all the
-- others are counted as lost. The count of lost cycles stays inside its 32 bits, fewer than 2 ^ 32
-- - 25 ticks are pending, and fewer than 2 ^ 64 were taken.
pub collect-minor_cycles :
    (t c late cycles : ℕ) (e : Exec)
    → Near t c
    → IsCounted t c e
    → c < t
    → t < 2 ^ 64
    → e.overrun_lost ≤ c
    → e.overrun_lost + (t - c) ≤ 2 ^ 32
    → let e' = collect late cycles e in
      (minor_cycles e' ≡ minor_cycles e + 1) × (e'.overrun_lost ≡ e.overrun_lost + (t - c - 1))
unfolding collect minor_cycles count_overrun collect_majors advance
collect-minor_cycles t c late cycles e near v later small fits room =
    let pending = sub32 e.isr_ticks e.consumed in
    ground (
      arith,
      pending_ticks t c e near v,
      near,
      later,
      small,
      fits,
      room,
      gathered-IsCounted t c late e near v,
      ticks_kept late
          (advance pending (record (count_overrun pending e) { consumed = e.isr_ticks })),
    )

-- A collection finds the major cycle due exactly when a boundary lies between the tick `m` at
-- which the loop last read the interrupt's count and the tick of this reading, even when the loop
-- skipped the boundary's slot. Fewer than 2 ^ 32 ticks lie between the two.
pub major_due_iff :
    (t c m late cycles : ℕ) (e : Exec)
    → IsCounted t c e
    → e.consumed_majors ≡ (m / 25) % 2 ^ 32
    → m ≤ t
    → t + late < m + 2 ^ 32
    → Near t c
    → e.major_due ≡ false
    → (collect late cycles e).major_due ≡ ltb (m / 25) ((t + late) / 25)
unfolding collect count_overrun collect_majors advance
major_due_iff t c m late cycles e v read le window near off =
    let pending = sub32 e.isr_ticks e.consumed in
    ground (
      arith,
      read,
      le,
      window,
      off,
      gathered-IsCounted t c late e near v,
      ticks_kept late
          (advance pending (record (count_overrun pending e) { consumed = e.isr_ticks })),
    )
