-- ===== src/Boot.antt =====
-- src/plat/plat_boot.c from `boot_and_init` on: the boot steps in order, each retried in place. What a
-- step does, the platform's counters and the uplink of fault management are parameters that act on
-- `W`; time passes while a step runs, so it gives the services back.
pub mod Outputs
pub mod Retry
mod Tests
use qiran_firmware.Base.{ℕ, zero, suc, Bool, true, false, not, Option, none, some, List, []}
use qiran_firmware.Base.{ltb, get_or, u32, sub64, update, ◌+◌, ◌||◌, ◌∷◌, ◌==◌, if◌then◌else◌}
use qiran_firmware.Status.{Status, is_ok, ok, err_hardware, status_code}
use qiran_firmware.Fault
use qiran_firmware.Fault.{policy}
use qiran_firmware.Services.{Services, log_event, now_ms}
use qiran_firmware.Fdir.{Uplink, report, retries_exhausted, clear}
use qiran_firmware.Fdir.Service.{PlatformCounters, error_handling_service}

-- `BOOT_STEP_COUNT`.
abbrev pub step_count : ℕ
step_count = 5

-- `boot_step_def_t`; the names are not kept.
pub record StepDef : Type 0 where
  pub budget_ms : ℕ
  pub fault : ℕ

abbrev step_row : ℕ → ℕ → StepDef
step_row b f = record { budget_ms = b; fault = f }

abbrev pub k_step : List StepDef
k_step =
    step_row 3000 Fault.safe_outputs
    ∷ step_row 3000 Fault.boot_image
    ∷ step_row 5000 Fault.post
    ∷ step_row 12000 Fault.devinit
    ∷ step_row 12000 Fault.link_establish
    ∷ []

unfoldable pub step_def : ℕ → StepDef
step_def i = get_or k_step i (step_row 0 Fault.no_fault)

abbrev pub Run : Type 0 → Type 0
Run W = W → Services → Status × W × Services

-- What the steps call; the two hooks of the platform may be NULL.
pub record Steps (W : Type 0) : Type 0 where
  pub safe_outputs : Run W
  pub platform_check : Option (Run W)
  pub post : Run W
  pub devices : Run W
  pub link_bringup : Option (Run W)

-- `boot_outcome_t`.
pub data Outcome : Type 0 where
  pending success terminal : Outcome

-- `boot_report_t`.
pub record Report : Type 0 where
  pub outcome : Outcome
  pub failed_step : ℕ
  pub attempts : ℕ → ℕ
  pub duration_ms : ℕ → ℕ
  pub over_budget : ℕ → Bool
  pub total_ms : ℕ

-- The loop that clears the report: `n` steps from `i`.
unfoldable pub clear_steps : ℕ → ℕ → Report → Report
clear_steps zero i b = b
clear_steps (suc n) i b = clear_steps n (i + 1) (record b {
  attempts = update b.attempts i 0;
  duration_ms = update b.duration_ms i 0;
  over_budget = update b.over_budget i false;
})

-- The loop that clears the faults of the steps: `n` steps from `i`.
unfoldable pub clear_faults : ℕ → ℕ → Services → Services
clear_faults zero i s = s
clear_faults (suc n) i s = clear_faults n (i + 1) (clear (step_def i).fault s)

pub record State (W : Type 0) : Type 0 where
  pub boot : Report
  pub world : W
  pub services : Services

-- What one attempt of a step ends with.
pub data Attempt (W : Type 0) : Type 0 where
  done again given_up : State W → Attempt W

module _ {W : Type 0} where
  run_hook : Option (Run W) → Run W
  run_hook none w s = (ok, w, s)
  run_hook (some f) w s = f w s

  -- `step_safe_outputs` to `step_links`, in the order of the table.
  unfoldable pub run_of : Steps W → ℕ → Run W
  unfolding run_hook
  run_of steps i =
      if i == 0
      then steps.safe_outputs
      else if i == 1
      then run_hook steps.platform_check
      else if i == 2
      then steps.post
      else if i == 3
      then steps.devices
      else run_hook steps.link_bringup

module _ {W : Type 0} (uplink : Option (Uplink W)) (counters : W → PlatformCounters) where
  -- `svc_fdir_report` of a step's class, serviced at once.
  unfoldable pub report_now : ℕ → ℕ → State W → State W
  report_now fault detail st =
      let (w, s) =
        error_handling_service uplink (counters st.world) st.world
          (report fault detail st.services) in
      record st { world = w; services = s }

  -- The end of a step: the time it has taken.
  unfoldable pub note_duration : ℕ → ℕ → State W → State W
  note_duration i started st =
      let (now, s) = now_ms st.services in
      record st {
        boot = record (st.boot) {
          duration_ms = update st.boot.duration_ms i (u32 (sub64 now started));
        };
        services = s;
      }

  -- A step that has succeeded, in `elapsed` milliseconds.
  unfoldable pub end_step : StepDef → ℕ → ℕ → ℕ → State W → State W
  end_step d i started elapsed st =
      let timed = note_duration i started st in
      let over = ltb d.budget_ms elapsed in
      let noted = record timed {
        boot = record (timed.boot) { over_budget = update timed.boot.over_budget i over };
      } in
      if over then report_now d.fault elapsed noted else noted

  -- A step that has failed with `r`.
  unfoldable pub fail_step : StepDef → ℕ → ℕ → Status → State W → Attempt W
  fail_step d i started r st =
      let st' = report_now d.fault (status_code r) st in
      let retryable = ltb 0 (policy d.fault).limit in
      let timed = note_duration i started st' in
      if not retryable || retries_exhausted d.fault st'.services
      then given_up (record timed { boot = record (timed.boot) { failed_step = i } })
      else again st'

  -- The body of the loop of `run_step`, with the outcome of the step's function.
  unfoldable pub attempt_result : StepDef → ℕ → ℕ → ℕ → Status → State W → Attempt W
  attempt_result d i started attempt_started r st =
      let (now, s) = now_ms st.services in
      let counted = record st {
        boot = record (st.boot) {
          attempts = update st.boot.attempts i (u32 (st.boot.attempts i + 1));
        };
        services = s;
      } in
      if is_ok r
      then done (end_step d i started (u32 (sub64 now attempt_started)) counted)
      else fail_step d i started r counted

  unfoldable pub attempt : Run W → StepDef → ℕ → ℕ → State W → Attempt W
  attempt run d i started st =
      let (attempt_started, s) = now_ms st.services in
      let (r, w, s') = run st.world s in
      attempt_result d i started attempt_started r (record st { world = w; services = s' })

  -- The loop of `run_step`; `none` when the fuel ends first.
  unfoldable pub run_attempts : ℕ → Run W → StepDef → ℕ → ℕ → State W → Option (Bool × State W)
  run_attempts zero run d i started st = none
  run_attempts (suc fuel) run d i started st = elim (attempt run d i started st) [
    | done st' ↦ some (true, st')
    | given_up st' ↦ some (false, st')
    | again st' ↦ run_attempts fuel run d i started st'
  ]

  -- `run_step`.
  unfoldable pub run_step : ℕ → Steps W → ℕ → State W → Option (Bool × State W)
  run_step fuel steps i st =
      let (started, s) = now_ms st.services in
      run_attempts fuel (run_of steps i) (step_def i) i started (record st { services = s })

  -- The end of `boot_and_init` after a step has been given up.
  unfoldable pub end_boot : ℕ → Outcome → State W → State W
  end_boot started outcome st =
      let (now, s) = now_ms st.services in
      record st {
        boot = record (st.boot) { outcome = outcome; total_ms = u32 (sub64 now started) };
        services = s;
      }

  unfoldable pub stop_boot : ℕ → State W → Status × State W
  stop_boot started st =
      let st' = end_boot started terminal st in
      (
        err_hardware,
        record st' { services = log_event Fault.devinit st'.boot.total_ms st'.services },
      )

  unfoldable pub finish_boot : ℕ → State W → Status × State W
  finish_boot started st =
      let st' = end_boot started success st in
      (ok, record st' { services = clear_faults step_count 0 st'.services })

  -- The loop of `boot_and_init` over the steps: `n` of them from `i`.
  unfoldable pub boot_from : ℕ → Steps W → ℕ → ℕ → ℕ → State W → Option (Status × State W)
  boot_from fuel steps started zero i st = some (finish_boot started st)
  boot_from fuel steps started (suc n) i st = elim (run_step fuel steps i st) [
    | none ↦ none
    | some (passed, st') ↦
        let rest = boot_from fuel steps started n (i + 1) st' in
        if passed then rest else some (stop_boot started st')
  ]

  -- `boot_and_init`.
  unfoldable pub boot_and_init : ℕ → Steps W → State W → Option (Status × State W)
  boot_and_init fuel steps st =
      let (started, s) = now_ms st.services in
      boot_from fuel steps started step_count 0 (record st {
        boot = record (clear_steps step_count 0 st.boot) {
          outcome = pending;
          failed_step = step_count;
        };
        services = s;
      })
