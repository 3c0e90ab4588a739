-- ===== src/Sched/Tests.antt =====
-- The check of the task table at concrete measurements.
use qiran_firmware.Base.{refl, arith, ◌≡◌}
use qiran_firmware.Exec.{minor_per_major, budget_cycles}
use qiran_firmware.Sched
use qiran_firmware.Sched.{Sched, Check, sched_check, task_def, task_count, worst_slot_scan}
use qiran_firmware.Sched.Worst.{Concludes, sched_check-Concludes}

-- Every task has run once and took ten cycles.
abbrev measured : Sched
measured = record {
  stat = λ _. record { runs = 1; cycles_last = 10; cycles_worst = 10; cycles_total = 10 };
  entered = λ _. 0;
}

worst_of_measured : worst_slot_scan task_def measured.stat task_count ≡ (110, 0)
unfolding worst_slot_scan Sched.scan_slots Sched.slot_sum Sched.due_at_slot task_def
worst_of_measured = refl

sched_check-Concludes_example :
    let c = sched_check 667 measured in
    Concludes task_def measured.stat task_count minor_per_major
      (budget_cycles 667)
      c.fits
      c.margin_cycles
      c.worst_slot
sched_check-Concludes_example = sched_check-Concludes 667 measured (omega arith)
