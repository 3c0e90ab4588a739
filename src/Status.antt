-- ===== src/Status.antt =====
-- include/qiran/qiran_types.h: the status that every fallible operation returns.
use qiran_firmware.Base.{ℕ, Bool, true, false, refl, ◌≡◌}

-- `qiran_status_t`.
pub data Status : Type 0 where
  ok err_param err_state err_timeout err_hardware err_range : Status
  err_integrity err_busy err_unsupported : Status

-- The value that a cast to an integer gives.
abbrev pub status_code : Status → ℕ
status_code ok = 0
status_code err_param = 1
status_code err_state = 2
status_code err_timeout = 3
status_code err_hardware = 4
status_code err_range = 5
status_code err_integrity = 6
status_code err_busy = 7
status_code err_unsupported = 8

abbrev pub is_ok : Status → Bool
is_ok ok = true
is_ok _ = false

abbrev pub is_busy : Status → Bool
is_busy err_busy = true
is_busy _ = false

pub is_ok_sound : (st : Status) → is_ok st ≡ true → st ≡ ok
is_ok_sound ok e = refl
is_ok_sound err_param e = cc e
is_ok_sound err_state e = cc e
is_ok_sound err_timeout e = cc e
is_ok_sound err_hardware e = cc e
is_ok_sound err_range e = cc e
is_ok_sound err_integrity e = cc e
is_ok_sound err_busy e = cc e
is_ok_sound err_unsupported e = cc e
