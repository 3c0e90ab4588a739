-- ===== src/Mission.antt =====
-- src/mission/mission_seq.c: the setup and operations sequence, a position in a list of stages.
-- A stage's step function belongs to its owner and is a parameter; `W` is what it and the uplink
-- act on beside the services. A step function does not call back into the sequence.
pub mod Moves
pub mod Retry
pub mod Hold
mod Tests
use qiran_firmware.Base.{ℕ, bit_and, bit_or, Bool, true, false, Option, none, some, List, []}
use qiran_firmware.Base.{ltb, leb, get_or, u16, u32, sub64, shl, update, int32_le, ◌+◌, ◌-◌}
use qiran_firmware.Base.{◌||◌, ◌∷◌, ◌==◌, if◌then◌else◌}
use qiran_firmware.Status.{Status, ok, err_param, err_state}
use qiran_firmware.Fault
use qiran_firmware.Fault.{no_fault, severe}
use qiran_firmware.Services.{Services, now_ms, log_event, log_fault}
use qiran_firmware.Fdir.{Uplink, report, clear, retries_exhausted}
use qiran_firmware.Fdir.Service.{reentry_note}

-- `mission_stage_t`, the position in the list.
abbrev pub stage_boot : ℕ
stage_boot = 0

abbrev pub stage_spad_enable : ℕ
stage_spad_enable = 7

abbrev pub stage_count : ℕ
stage_count = 13

-- `SVC_CONFIG_PARAM_COUNT`.
abbrev pub param_count : ℕ
param_count = 30

-- `stage_def_t`; the budget is the index of a configuration parameter.
pub record StageDef : Type 0 where
  pub fault : ℕ
  pub budget : ℕ

abbrev stage_row : ℕ → ℕ → StageDef
stage_row f b = record { fault = f; budget = b }

abbrev pub k_stage : List StageDef
k_stage =
    stage_row Fault.devinit param_count
    ∷ stage_row Fault.precond param_count
    ∷ stage_row Fault.laser_tec 3
    ∷ stage_row Fault.mrr_lock 7
    ∷ stage_row Fault.crow_tune 8
    ∷ stage_row Fault.umzi_tune 10
    ∷ stage_row Fault.dli_lock 15
    ∷ stage_row Fault.spad_optical_power 19
    ∷ stage_row Fault.mrr_relock 23
    ∷ stage_row Fault.mrr_relock 24
    ∷ stage_row Fault.ddr_overrun param_count
    ∷ stage_row Fault.ddr_overrun param_count
    ∷ stage_row Fault.nand_write param_count
    ∷ []

unfoldable pub stage_def : ℕ → StageDef
stage_def stage = get_or k_stage stage (stage_row no_fault param_count)

-- `mission_step_result_t`; `abort` is also every value outside the enumeration.
pub data StepResult : Type 0 where
  working done retry back abort : StepResult

-- `mission_step_t`.
pub record MissionStep : Type 0 where
  pub result : StepResult
  pub back_to : ℕ
  pub fault : ℕ
  pub detail : ℕ

pub data PayloadStatus : Type 0 where
  non_operational operational : PayloadStatus

pub record Mission : Type 0 where
  pub stage : ℕ
  pub entered_ms : ℕ
  pub attempts : ℕ
  pub timed_out : Bool
  pub stalled : Bool
  pub aborted : Bool
  pub abort_cause : ℕ
  pub reentries : ℕ
  pub entries : ℕ → ℕ
  pub payload : PayloadStatus

unfoldable pub init : Services → Mission × Services
init s =
    let (now, s') = now_ms s in
    (
      record {
        stage = stage_boot;
        entered_ms = now;
        attempts = 0;
        timed_out = false;
        stalled = false;
        aborted = false;
        abort_cause = no_fault;
        reentries = 0;
        entries = update (λ _. 0) stage_boot 1;
        payload = non_operational;
      },
      s',
    )

-- A step function finds the defaults in its output and changes what it reports.
abbrev pub StepFn : Type 0 → Type 0
StepFn W = MissionStep → W → Services → MissionStep × W × Services

-- `mission_seq_register`, on the table of step functions.
unfoldable pub register :
    {W : Type 0}
    → ℕ
    → Option (StepFn W)
    → (ℕ → Option (StepFn W))
    → Status × (ℕ → Option (StepFn W))
register stage none steps = (err_param, steps)
register stage (some step) steps =
    if leb stage_count stage then (err_param, steps) else elim (steps stage) [
      | some _ ↦ (err_state, steps)
      | none ↦ (ok, update steps stage (some step))
    ]

unfoldable pub enter : ℕ → Mission → Services → Mission × Services
enter stage m s =
    let (now, s') = now_ms s in
    let n = u32 (m.entries stage + 1) in
    (
      record m {
        stage = stage;
        entered_ms = now;
        timed_out = false;
        entries = update m.entries stage n;
      },
      log_event (u16 stage) n s',
    )

-- `mission_stage_elapsed_ms`.
unfoldable pub stage_elapsed_ms : Mission → Services → ℕ × Services
stage_elapsed_ms m s = let (now, s') = now_ms s in (u32 (sub64 now m.entered_ms), s')

-- `config` is `svc_config_get`, an `int32_t` as its bit pattern.
unfoldable pub check_budget : (ℕ → ℕ) → Mission → Services → Mission × Services
unfolding stage_elapsed_ms
check_budget config m s =
    let param = (stage_def m.stage).budget in
    let budget = config param in
    let (elapsed, s') = stage_elapsed_ms m s in
    if leb param_count param || m.timed_out
    then (m, s)
    else if int32_le budget 0
    then (m, s)
    else if ltb budget elapsed
    then (
      record m { timed_out = true },
      report Fault.stage_timeout (bit_or (u32 (shl m.stage 24)) (bit_and elapsed 0x00FFFFFF)) s',
    )
    else (m, s')

abbrev pub default_step : ℕ → MissionStep
default_step stage = record { result = working; back_to = stage; fault = no_fault; detail = 0 }

-- The fault that `mission_seq_step` counts a stage's answer under.
abbrev pub fault_of : MissionStep → ℕ → ℕ
fault_of out stage = if out.fault == no_fault then (stage_def stage).fault else out.fault

module _ {W : Type 0} (uplink : Option (Uplink W)) where
  step_done : ℕ → Mission → W → Services → Mission × W × Services
  step_done fault m w s =
      let m' = record m {
        attempts = 0;
        payload = if m.stage == stage_spad_enable then operational else m.payload;
      } in
      let entered = enter (m.stage + 1) m' (clear fault s) in
      if ltb m.stage (stage_count - 1) then (entered.0, w, entered.1) else (m', w, clear fault s)

  step_retry : ℕ → ℕ → Mission → W → Services → Mission × W × Services
  step_retry fault detail m w s =
      let m' = record m { attempts = u32 (m.attempts + 1) } in
      let s' = report fault detail s in
      let entered = enter m.stage m' s' in
      if retries_exhausted fault s'
      then (record m' { stalled = true }, w, s')
      else (entered.0, w, entered.1)

  step_back : ℕ → ℕ → ℕ → Mission → W → Services → Mission × W × Services
  step_back fault detail back_to m w s =
      let s' = report fault detail s in
      let m' = record m { attempts = 0; reentries = u32 (m.reentries + 1) } in
      let (w', s'') = reentry_note uplink fault w s' in
      let entered = enter back_to m' s'' in
      if leb m.stage back_to
      then (record m { stalled = true }, w, s')
      else (entered.0, w', entered.1)

  -- The `switch` of `mission_seq_step`.
  unfoldable pub apply_result : ℕ → MissionStep → Mission → W → Services → Mission × W × Services
  unfolding step_done step_retry step_back
  apply_result fault out m w s = elim out.result [
    | working ↦ (m, w, s)
    | done ↦ step_done fault m w s
    | retry ↦ step_retry fault out.detail m w s
    | back ↦ step_back fault out.detail out.back_to m w s
    | abort ↦ (record m { stalled = true }, w, report fault out.detail s)
  ]

  -- `mission_seq_step` once the budget is checked.
  unfoldable pub run_stage : Option (StepFn W) → Mission → W → Services → Mission × W × Services
  run_stage none m w s = (m, w, s)
  run_stage (some step) m w s =
      let (out, w', s') = step (default_step m.stage) w s in
      apply_result (fault_of out m.stage) out m w' s'

  unfoldable pub seq_step :
      (ℕ → ℕ) → (ℕ → Option (StepFn W)) → Mission → W → Services → Mission × W × Services
  unfolding check_budget
  seq_step config steps m w s =
      let (m', s') = check_budget config m s in
      if m.aborted || m.stalled then (m, w, s) else run_stage (steps m'.stage) m' w s'

-- `mission_abort`: the first cause is kept.
unfoldable pub abort_mission : ℕ → Mission → Services → Mission × Services
abort_mission cause m s = if m.aborted then (m, s) else (
  record m { aborted = true; abort_cause = cause; payload = non_operational },
  log_fault cause severe m.stage s,
)

-- `mission_payload_status_set`.
unfoldable pub payload_status_set : PayloadStatus → Mission → Mission
payload_status_set status m = record m { payload = status }
