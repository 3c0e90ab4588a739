-- ===== src/Boot/Tests.antt =====
-- The attempts of a boot step at a concrete one.
use qiran_firmware.Base.{ℕ, refl, Bool, false, none, some, arith, ◌+◌, ◌≤◌, ◌<◌, ◌≡◌}
use qiran_firmware.Status.{err_hardware}
use qiran_firmware.Samples.{quiet}
use qiran_firmware.Fault
use qiran_firmware.Fault.{policy}
use qiran_firmware.Fdir.{occurrences}
use qiran_firmware.Fdir.Report.{IsCounting}
use qiran_firmware.Fdir.Service.{PlatformCounters}
use qiran_firmware.Boot.{State, Run, pending, run_attempts}
use qiran_firmware.Boot.Retry.{run_attempts-returns}

abbrev no_counters : ℕ → PlatformCounters
no_counters w = record {
  overrun_events = 0;
  overrun_cycles_lost = 0;
  uart_overflow = 0;
  irq_dropped = λ _. 0;
}

-- A self test that fails whenever it is run.
abbrev failing : Run ℕ
failing w s = (err_hardware, w + 1, s)

abbrev at_self_test : State ℕ
at_self_test = record {
  boot = record {
    outcome = pending;
    failed_step = 0;
    attempts = λ _. 0;
    duration_ms = λ _. 0;
    over_budget = λ _. false;
    total_ms = 0;
  };
  world = 0;
  services = quiet;
}

quiet-IsCounting : IsCounting Fault.post quiet
quiet-IsCounting = ground arith

few : occurrences Fault.post quiet ≤ (policy Fault.post).limit
unfolding occurrences policy
few = omega arith

enough : (policy Fault.post).limit < occurrences Fault.post quiet + 5
unfolding occurrences policy
enough = omega arith

run_attempts-returns_example :
    (r : Bool × State ℕ) × (run_attempts none no_counters 5 failing
        (record { budget_ms = 5000; fault = Fault.post })
        2
        0
        at_self_test
      ≡ some r)
run_attempts-returns_example =
    run_attempts-returns Fault.post (omega arith, omega arith) none no_counters _ 5 failing 5000 2 0
      at_self_test (λ w s. refl) quiet-IsCounting few enough
