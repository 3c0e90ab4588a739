-- ===== src/Cmd/Table.antt =====
-- The command table of src/comm/comm_cmd.c. Names are not kept. A stage mask has one bit for each
-- stage of the mission.
use qiran_firmware.Base.{ℕ, bit_and, Bool, true, false, not, List, [], leb, get_or, u32, shl}
use qiran_firmware.Base.{◌-◌, ◌^◌, ◌||◌, ◌∷◌, ◌==◌, if◌then◌else◌}
use qiran_firmware.Mission.{stage_count}

-- `comm_cmd_def_t`.
pub record CommandDef : Type 0 where
  pub stage_mask : ℕ
  pub takes_parameter : Bool
  pub param_min : ℕ
  pub param_max : ℕ
  pub budget_ms : ℕ

-- `ANY_STAGE` and `EARLY_ONLY`.
abbrev pub any_stage : ℕ
any_stage = 2 ^ stage_count - 1

abbrev pub early_only : ℕ
early_only = 3

-- `CMD_MODE` and `COMM_CMD_COUNT`.
abbrev pub command_mode : ℕ
command_mode = 7

abbrev pub command_count : ℕ
command_count = 11

abbrev row : ℕ → Bool → ℕ → CommandDef
row mask takes budget = record {
  stage_mask = mask;
  takes_parameter = takes;
  param_min = 0;
  param_max = 0;
  budget_ms = budget;
}

abbrev pub k_cmd : List CommandDef
k_cmd =
    row early_only false 2000
    ∷ row early_only false 2000
    ∷ row any_stage false 2000
    ∷ row early_only false 5000
    ∷ row any_stage false 1000
    ∷ row early_only false 2000
    ∷ row any_stage false 1000
    ∷ row any_stage true 1000
    ∷ row any_stage false 1000
    ∷ row any_stage false 1000
    ∷ row any_stage false 1000
    ∷ []

-- `k_cmd[id]`, for an identifier below the count.
unfoldable pub def_of : ℕ → CommandDef
def_of id = get_or k_cmd id (row 0 false 0)

-- `comm_cmd_legal_in`.
unfoldable pub legal_in : ℕ → ℕ → Bool
legal_in id stage =
    if leb command_count id || leb stage_count stage
    then false
    else not (bit_and (def_of id).stage_mask (u32 (shl 1 stage)) == 0)
