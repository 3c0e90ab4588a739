-- ===== src/Boot/Outputs.antt =====
-- src/plat/plat_safe_outputs.c and src/plat/plat_devinit.c: the registries of actions that two of the
-- boot steps run. Names are the numbers of the entries.
use qiran_firmware.Base.{ℕ, zero, suc, Bool, true, not, Option, none, some, leb, u32, update}
use qiran_firmware.Base.{◌+◌, ◌&&◌, ◌==◌, if◌then◌else◌}
use qiran_firmware.Status.{Status, is_ok, ok, err_param, err_state, err_range, err_hardware}

abbrev pub safe_output_max : ℕ
safe_output_max = 16

abbrev pub devinit_max : ℕ
devinit_max = 32

-- `PLAT_DEVINIT_STAGE_COUNT`.
abbrev pub stage_count : ℕ
stage_count = 4

pub record SafeOutputs (W : Type 0) : Type 0 where
  pub action : ℕ → W → Status × W
  pub count : ℕ
  pub failures : ℕ
  pub applications : ℕ
  pub last_failure : Option ℕ

-- `devinit_entry_t`.
pub record Entry (W : Type 0) : Type 0 where
  pub stage : ℕ
  pub start : W → Status × W
  pub required : Bool

-- `plat_devinit_result_t`.
pub record Result : Type 0 where
  pub stage : ℕ
  pub result : Status
  pub required : Bool
  pub ran : Bool

pub record Devinit (W : Type 0) : Type 0 where
  pub entry : ℕ → Entry W
  pub result : ℕ → Result
  pub count : ℕ
  pub failures : ℕ
  pub first_failure : Option ℕ

module _ {W : Type 0} where
  -- `plat_safe_outputs_register`, of an action that is present.
  unfoldable pub register_output : (W → Status × W) → SafeOutputs W → Status × SafeOutputs W
  register_output action o =
      if leb safe_output_max o.count
      then (err_range, o)
      else (ok, record o { action = update o.action o.count action; count = o.count + 1 })

  -- The loop of `plat_safe_outputs_apply`: `n` actions from `i`.
  unfoldable pub apply_from : ℕ → ℕ → Status → SafeOutputs W → W → Status × SafeOutputs W × W
  apply_from zero i result o w = (result, o, w)
  apply_from (suc n) i result o w =
      let (r, w') = o.action i w in
      if is_ok r
      then apply_from n (i + 1) result o w'
      else apply_from n (i + 1) err_hardware
          (record o { failures = u32 (o.failures + 1); last_failure = some i }) w'

  -- `plat_safe_outputs_apply`.
  unfoldable pub apply_outputs : SafeOutputs W → W → Status × SafeOutputs W × W
  apply_outputs o w =
      let counted = record o { applications = u32 (o.applications + 1) } in
      if o.count == 0 then (err_state, counted, w) else apply_from o.count 0 ok counted w

  -- `plat_safe_outputs_reset_registry`.
  unfoldable pub reset_registry : SafeOutputs W → SafeOutputs W
  reset_registry o = record o { count = 0; failures = 0; applications = 0; last_failure = none }

  -- `plat_devinit_init`.
  unfoldable pub devinit_init : Devinit W → Devinit W
  devinit_init d = record d { count = 0; failures = 0; first_failure = none }

  -- `plat_devinit_register`, of a function that is present.
  unfoldable pub register_device : ℕ → (W → Status × W) → Bool → Devinit W → Status × Devinit W
  register_device stage start required d =
      if leb stage_count stage
      then (err_param, d)
      else if leb devinit_max d.count
      then (err_range, d)
      else (
        ok,
        record d {
          entry =
              update d.entry d.count (record { stage = stage; start = start; required = required });
          count = d.count + 1;
        },
      )

  -- The outcome of entry `i` of a stage, noted.
  unfoldable pub note_device : ℕ → ℕ → Status → Devinit W → Devinit W
  note_device stage i r d =
      let noted = record d {
        result =
            update d.result i
              (record { stage = stage; result = r; required = (d.entry i).required; ran = true });
      } in
      if is_ok r then noted else record noted {
        failures = u32 (d.failures + 1);
        first_failure = elim d.first_failure [ none ↦ some i | some k ↦ some k ];
      }

  -- The loop of `plat_devinit_run_stage`: `n` entries from `i`.
  unfoldable pub stage_from : ℕ → ℕ → ℕ → Status → Devinit W → W → Status × Devinit W × W
  stage_from zero i stage overall d w = (overall, d, w)
  stage_from (suc n) i stage overall d w =
      let (r, w') = (d.entry i).start w in
      let failing = not (is_ok r) && (d.entry i).required in
      if (d.entry i).stage == stage
      then stage_from n (i + 1) stage (if failing then r else overall) (note_device stage i r d) w'
      else stage_from n (i + 1) stage overall d w

  -- `plat_devinit_run_stage`.
  unfoldable pub run_stage : ℕ → Devinit W → W → Status × Devinit W × W
  run_stage stage d w =
      if leb stage_count stage then (err_param, d, w) else stage_from d.count 0 stage ok d w

  -- The loop of `plat_devinit_run`: `n` stages from `stage`.
  unfoldable pub stages_from : ℕ → ℕ → Devinit W → W → Status × Devinit W × W
  stages_from zero stage d w = (ok, d, w)
  stages_from (suc n) stage d w =
      let (r, d', w') = run_stage stage d w in
      let rest = stages_from n (stage + 1) d' w' in if is_ok r then rest else (r, d', w')

  -- `plat_devinit_run`.
  unfoldable pub devinit_run : Devinit W → W → Status × Devinit W × W
  devinit_run d w = stages_from stage_count 0 (record d { failures = 0; first_failure = none }) w
