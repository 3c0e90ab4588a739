-- ===== src/Boot/Retry.antt =====
-- A boot step is retried as often as its class allows, and no longer.
use qiran_firmware.Base.{ℕ, zero, suc, refl, Bool, true, false, not, Option, some, arith, ltb}
use qiran_firmware.Base.{ltb→lt, u32, all_below, all_below_at, if_holds, ◌+◌, ◌-◌, ◌≤◌, ◌<◌}
use qiran_firmware.Base.{◌≡◌, ◌∙◌, ◌||◌}
use qiran_firmware.Status.{Status, is_ok, status_code}
use qiran_firmware.Fault
use qiran_firmware.Fault.{policy, fault_count}
use qiran_firmware.Services.{Services, now_ms}
use qiran_firmware.Fdir.{Uplink, report, occurrences, retries_exhausted}
use qiran_firmware.Fdir.Report.{
  IsCounting, report-IsCounting, occurrences-report, occurrences_fdir, IsCounting-fdir,
}
use qiran_firmware.Fdir.Pass.{Leaves, pass-IsCounting, pass_occurrences}
use qiran_firmware.Fdir.Collect.{IsStepClass, collect_other, same_occurrences}
use qiran_firmware.Fdir.Service.{
  PlatformCounters, error_handling_service, collect_platform_counters,
}
use qiran_firmware.Boot.{
  State, StepDef, Run, Attempt, done, again, given_up, report_now, fail_step, attempt_result,
  attempt, run_attempts,
}

limits_checked : all_below (λ i. ltb (policy i).limit 100) Fault.cycle_overrun ≡ true
unfolding policy
limits_checked = refl

module _ (id : ℕ) (step : IsStepClass id) where
  module _ {W : Type 0} (uplink : Option (Uplink W)) (counters : W → PlatformCounters)
      (leaves : Leaves id uplink) where
    -- A report that is serviced at once counts one occurrence.
    report_now_counts :
        (k detail : ℕ) (st : State W)
        → IsCounting id st.services
        → occurrences id st.services ≡ k
        → let s' = (report_now uplink counters id detail st).services in
          IsCounting id s' × (occurrences id s' ≡ u32 (k + 1))
    unfolding report_now error_handling_service
    report_now_counts k detail st v e =
        let s1 = report id detail st.services in
        let v1 = report-IsCounting id id detail st.services v in
        let c = counters st.world in
        let (v2, e2) =
          same_occurrences id step s1 (collect_platform_counters c s1) (collect_other id step c s1)
            v1 in
        (
          pass-IsCounting uplink id leaves (fault_count - 1) 1 st.world _ v2,
          pass_occurrences uplink id leaves (fault_count - 1) 1 st.world _ v2
              ∙ e2
              ∙ occurrences-report id id detail st.services v
              ∙ ground (arith, e, step),
        )

    -- A step's function that reports nothing itself.
    abbrev pub ReportsNothing : Run W → Type 0
    ReportsNothing run = (w : W) (s : Services) → (run w s).2.fdir ≡ s.fdir

    -- What an attempt comes to: it ends the step, or it has counted one occurrence, and those do
    -- not reach the limit of the class.
    AttemptOutcome : ℕ → Attempt W → Type 0
    AttemptOutcome k (done st) = Unit
    AttemptOutcome k (given_up st) = Unit
    AttemptOutcome k (again st) =
        IsCounting id st.services
        × (occurrences id st.services ≡ u32 (k + 1))
        × (occurrences id st.services < (policy id).limit)

    limit_small : (policy id).limit < 100
    limit_small =
        ltb→lt (policy id).limit 100 (
          all_below_at (λ i. ltb (policy i).limit 100) Fault.cycle_overrun id limits_checked step.1)

    not_exhausted :
        (s : Services)
        → 0 < (policy id).limit
        → retries_exhausted id s ≡ false
        → occurrences id s < (policy id).limit
    unfolding retries_exhausted
    not_exhausted s limited h = ground (arith, h, step, limited)

    abbrev step_of : ℕ → StepDef
    step_of budget = record { budget_ms = budget; fault = id }

    fail_step_outcome :
        (budget i started k : ℕ) (r : Status) (st : State W)
        → IsCounting id st.services
        → occurrences id st.services ≡ k
        → AttemptOutcome k (fail_step uplink counters (step_of budget) i started r st)
    unfolding AttemptOutcome fail_step
    fail_step_outcome budget i started k r st v h =
        let st' = report_now uplink counters id (status_code r) st in
        let (v', h') = report_now_counts k (status_code r) st v h in
        if_holds (AttemptOutcome k)
          (not (ltb 0 (policy id).limit) || retries_exhausted id st'.services) (λ _. tt)
          (λ more.
            (v', h', not_exhausted st'.services (ground (arith, more)) (ground (arith, more))))

    attempt_counts :
        (run : Run W) (budget i started k : ℕ) (st : State W)
        → ReportsNothing run
        → IsCounting id st.services
        → occurrences id st.services ≡ k
        → AttemptOutcome k (attempt uplink counters run (step_of budget) i started st)
    unfolding AttemptOutcome attempt attempt_result now_ms
    attempt_counts run budget i started k st quiet v h =
        let s1 = (now_ms st.services).1 in
        let (r, w, s2) = run st.world s1 in
        let same : s2.fdir ≡ st.services.fdir = quiet st.world s1 in
        let s3 = (now_ms s2).1 in
        if_holds (AttemptOutcome k) (is_ok r) (λ _. tt)
          (λ _.
            fail_step_outcome budget i started k r _ (IsCounting-fdir id st.services s3 same v)
              (occurrences_fdir id st.services s3 same ∙ h))

    attempts_step :
        (fuel : ℕ) (run : Run W) (budget i started : ℕ) (st : State W)
        → run_attempts uplink counters (suc fuel) run (step_of budget) i started st
          ≡ (elim (attempt uplink counters run (step_of budget) i started st) [
            | done st' ↦ some (true, st')
            | given_up st' ↦ some (false, st')
            | again st' ↦ run_attempts uplink counters fuel run (step_of budget) i started st'
          ])
    unfolding run_attempts
    attempts_step fuel run budget i started st = refl

    after_attempt :
        (fuel : ℕ) (run : Run W) (budget i started k : ℕ) (a : Attempt W)
        → AttemptOutcome k a
        → ((st : State W)
            → IsCounting id st.services
            → occurrences id st.services ≡ u32 (k + 1)
            → occurrences id st.services < (policy id).limit
            → (r : Bool × State W) × (run_attempts uplink counters fuel run
                  (step_of budget)
                  i
                  started
                  st
                ≡ some r))
        → (r : Bool × State W) × ((elim a [
          | done st' ↦ some (true, st')
          | given_up st' ↦ some (false, st')
          | again st' ↦ run_attempts uplink counters fuel run (step_of budget) i started st'
        ])
            ≡ some r)
    unfolding AttemptOutcome
    after_attempt fuel run budget i started k (done st) o next = ((true, st), refl)
    after_attempt fuel run budget i started k (given_up st) o next = ((false, st), refl)
    after_attempt fuel run budget i started k (again st) (v, h, below) next = next st v h below

    -- Whatever a boot step's function answers, and however often it refuses, the loop of its attempts
    -- comes to an end, with success or without. One attempt more than are left before the limit of
    -- the class is enough. The function reports nothing itself, the uplink leaves the class alone,
    -- the counters are 32-bit words, and the occurrences do not exceed the limit at the start.
    pub run_attempts-returns :
        (fuel : ℕ) (run : Run W) (budget i started : ℕ) (st : State W)
        → ReportsNothing run
        → IsCounting id st.services
        → occurrences id st.services ≤ (policy id).limit
        → (policy id).limit < occurrences id st.services + fuel
        → (r : Bool × State W) × (run_attempts uplink counters fuel run
              (record { budget_ms = budget; fault = id })
              i
              started
              st
            ≡ some r)
    run_attempts-returns zero run budget i started st quiet v most enough = absurd (omega arith)
    run_attempts-returns (suc fuel) run budget i started st quiet v most enough =
        let k = occurrences id st.services in
        let (r, e) =
          after_attempt fuel run budget i started k
            (attempt uplink counters run (step_of budget) i started st)
            (attempt_counts run budget i started k st quiet v refl)
            (λ st' v' h' below.
              run_attempts-returns fuel run budget i started st' quiet v' (omega (arith, below))
                (omega (arith, h', below, most, enough, limit_small))) in
        (r, attempts_step fuel run budget i started st ∙ e)
