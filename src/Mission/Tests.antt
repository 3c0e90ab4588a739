-- ===== src/Mission/Tests.antt =====
-- The properties of the sequence at concrete stages.
use qiran_firmware.Base.{ℕ, refl, false, Option, none, some, arith, leb, ◌+◌, ◌≤◌, ◌≡◌}
use qiran_firmware.Fault
use qiran_firmware.Fault.{policy, fault_count}
use qiran_firmware.Samples.{quiet}
use qiran_firmware.Fdir.{Uplink, occurrences}
use qiran_firmware.Fdir.Report.{IsCounting}
use qiran_firmware.Mission
use qiran_firmware.Mission.{
  Mission, StepFn, retry, done, abort_mission, operational, non_operational,
}
use qiran_firmware.Mission.Moves.{run_cycles, no_stage_skipped}
use qiran_firmware.Mission.Retry.{AlwaysRetries, retries-stall, unlimited-retries}

abbrev no_uplink : Option (Uplink ℕ)
no_uplink = none

abbrev no_config : ℕ → ℕ
no_config param = 0

-- A stage that is done at once, and stages that never succeed.
abbrev at_once : ℕ → Option (StepFn ℕ)
at_once stage = some (λ o w s. (record o { result = done }, w + 1, s))

abbrev never_locks : StepFn ℕ
never_locks o w s = (record o { result = retry; fault = Fault.mrr_lock }, w + 1, s)

abbrev never_sees_light : StepFn ℕ
never_sees_light o w s = (record o { result = retry; fault = Fault.spad_optical_power }, w + 1, s)

abbrev at_stage : ℕ → Mission
at_stage stage = record {
  stage = stage;
  entered_ms = 0;
  attempts = 0;
  timed_out = false;
  stalled = false;
  aborted = false;
  abort_cause = 0;
  reentries = 0;
  entries = λ _. 1;
  payload = non_operational;
}

never_locks-AlwaysRetries : AlwaysRetries ℕ Fault.mrr_lock 3 never_locks
never_locks-AlwaysRetries = record {
  answers_retry = λ o w s. refl;
  under_class = λ o w s. refl;
  reports_nothing = λ o w s. refl;
}

never_sees_light-AlwaysRetries : AlwaysRetries ℕ Fault.spad_optical_power 7 never_sees_light
never_sees_light-AlwaysRetries = record {
  answers_retry = λ o w s. refl;
  under_class = λ o w s. refl;
  reports_nothing = λ o w s. refl;
}

limits : ((policy Fault.mrr_lock).limit ≡ 3) × ((policy Fault.spad_optical_power).limit ≡ 0)
unfolding policy
limits = (refl, refl)

none_yet : occurrences Fault.mrr_lock quiet ≡ 0
unfolding occurrences
none_yet = refl

quiet-IsCounting : IsCounting Fault.mrr_lock quiet
quiet-IsCounting = ground arith

two_stages_on : (run_cycles no_uplink no_config at_once 2 (at_stage 0) 0 quiet).0.stage ≡ 2
unfolding run_cycles Mission.seq_step Mission.run_stage Mission.apply_result Mission.check_budget
    Mission.stage_def Mission.enter
two_stages_on = ground arith

no_stage_skipped_example :
    (k : ℕ) × (k ≤ 2)
    × ((run_cycles no_uplink no_config at_once k (at_stage 0) 0 quiet).0.stage ≡ 1)
no_stage_skipped_example =
    no_stage_skipped no_uplink no_config at_once 2 1 (at_stage 0) 0 quiet (omega arith)
      (omega arith) (omega (arith, two_stages_on))

retries-stall_example :
    (run_cycles no_uplink no_config (λ _. some never_locks) 3 (at_stage 3) 0 quiet).0.stalled
    ≡ leb (policy Fault.mrr_lock).limit (occurrences Fault.mrr_lock quiet + 3)
retries-stall_example =
    retries-stall no_uplink no_config (λ _. some never_locks) Fault.mrr_lock (omega arith)
      (λ e. ground (arith, limits, e)) 3 never_locks (at_stage 3) 0 quiet (λ e. ground (arith, e))
      (ground (arith, limits)) refl never_locks-AlwaysRetries quiet-IsCounting (refl, refl)
      (ground (arith, limits, none_yet)) (ground (arith, limits, none_yet))

unlimited-retries_example :
    let m' =
      (run_cycles no_uplink no_config (λ _. some never_sees_light) 100 (at_stage 7) 0 quiet).0 in
    (m'.stalled ≡ false) × (m'.aborted ≡ false) × (m'.stage ≡ 7)
unlimited-retries_example =
    unlimited-retries no_uplink no_config (λ _. some never_sees_light) Fault.spad_optical_power 100
      never_sees_light (at_stage 7) 0 quiet (limits.1) refl never_sees_light-AlwaysRetries
      (refl, refl)
