-- ===== src/Cmd/Legal.antt =====
-- At which stages a command is accepted.
use qiran_firmware.Base.{ℕ, refl, Bool, true, false, not, ltb, all_below, all_below_at, ◌<◌}
use qiran_firmware.Base.{◌≡◌, ◌||◌, ◌==◌}
use qiran_firmware.Mission.{stage_count}
use qiran_firmware.Cmd.Table.{legal_in, command_count, def_of}

-- The commands that apply energy: the two supplies, the laser and the heaters on.
abbrev pub applies_energy : ℕ → Bool
applies_energy id = (id == 0) || (id == 1) || (id == 3) || (id == 5)

abbrev same_bool : Bool → Bool → Bool
same_bool true b = b
same_bool false b = not b

same_bool_sound : (a b : Bool) → same_bool a b ≡ true → a ≡ b
same_bool_sound true true e = refl
same_bool_sound false false e = refl
same_bool_sound true false e = cc e
same_bool_sound false true e = cc e

abbrev agrees : ℕ → ℕ → Bool
agrees id stage = same_bool (legal_in id stage) (not (applies_energy id) || ltb stage 2)

table_checked : all_below (λ id. all_below (agrees id) stage_count) command_count ≡ true
unfolding legal_in def_of
table_checked = refl

-- A known command is legal at a stage of the mission exactly when it applies no energy or the stage
-- is one of the first two, before the sequence has committed to an optical configuration.
pub legal_in_energy :
    (id stage : ℕ)
    → id < command_count
    → stage < stage_count
    → legal_in id stage ≡ (not (applies_energy id) || ltb stage 2)
legal_in_energy id stage p q =
    same_bool_sound (legal_in id stage) (not (applies_energy id) || ltb stage 2) (
      all_below_at (agrees id) stage_count stage
        (all_below_at (λ i. all_below (agrees i) stage_count) command_count id table_checked p) q)
