-- ===== src/Exec/Tests.antt =====
-- The properties of the executive at concrete histories.
use qiran_firmware.Base.{refl, false, arith, ◌≡◌}
use qiran_firmware.Exec
use qiran_firmware.Exec.{Exec, collect, wait_loop, minor_cycles, ticks}
use qiran_firmware.Exec.Phase.{
  Reach, start, interrupt, collected, IsCounted, Reach-IsCounted, init-IsCounted, ticks-IsCounted,
}

-- Two interrupts and a collection that a third one falls into.
abbrev one_late : Exec
one_late = collect 1 900 (Exec.on_minor_tick (Exec.on_minor_tick Exec.init))

one_late-Reach : Reach 3 2 one_late
one_late-Reach = collected 1 900 (omega arith) (interrupt (interrupt start))

Reach-IsCounted_example : IsCounted 3 2 one_late
Reach-IsCounted_example = Reach-IsCounted 3 2 one_late one_late-Reach

-- Thirty interrupts that the loop has not collected.
abbrev far_behind : Exec
far_behind = ticks 30 Exec.init

far_behind-IsCounted : IsCounted 30 0 far_behind
far_behind-IsCounted = ticks-IsCounted 30 0 0 Exec.init init-IsCounted

far_behind_fields :
    (far_behind.overrun_lost ≡ 0)
    × (far_behind.consumed_majors ≡ 0)
    × (far_behind.major_due ≡ false)
unfolding ticks Exec.on_minor_tick Exec.init
far_behind_fields = (refl, refl, refl)
