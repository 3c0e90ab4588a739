-- ===== src/Config/Curve.antt =====
-- The calibration block of src/svc/svc_config.c and the power that its curve gives for a current.
pub mod Segment
use qiran_firmware.Base.{ℕ, zero, suc, Option, none, some, List, [], ltb, u8, u32, u64, sub32}
use qiran_firmware.Base.{shr, ◌+◌, ◌-◌, ◌*◌, ◌/◌, ◌%◌, ◌||◌, ◌∷◌, ◌==◌, if◌then◌else◌}
use qiran_firmware.Status.{Status, ok, err_range}
use qiran_firmware.Crc.{crc32}

-- `SVC_CAL_LI_POINTS`.
abbrev pub cal_point_count : ℕ
cal_point_count = 16

-- `svc_cal_li_point_t`.
pub record Point : Type 0 where
  pub current_ua : ℕ
  pub power_nw : ℕ

-- `svc_calibration_t`; the arrays per channel have two entries.
pub record Calibration : Type 0 where
  pub magic : ℕ
  pub version : ℕ
  pub li_count : ℕ
  pub reserved : ℕ
  pub li : ℕ → Point
  pub dli_setpoint_uk : ℕ → ℕ
  pub branch_efficiency_ppm : ℕ → ℕ
  pub dark_count_baseline_cps : ℕ → ℕ
  pub spectral_bandwidth_pm : ℕ
  pub pvs_amplitude : ℕ
  pub pvs_linewidth_khz : ℕ
  pub pvs_noise_floor : ℕ
  pub crc : ℕ

-- The words of the block, in the order of the structure.
unfoldable pub cal_words : Calibration → ℕ → ℕ
cal_words k i =
    if i == 0
    then k.magic
    else if i == 1
    then k.version
    else if i == 2
    then k.li_count
    else if i == 3
    then k.reserved
    else if ltb i 36
    then (if i % 2 == 0 then (k.li ((i - 4) / 2)).current_ua else (k.li ((i - 4) / 2)).power_nw)
    else if ltb i 38
    then k.dli_setpoint_uk (i - 36)
    else if ltb i 40
    then k.branch_efficiency_ppm (i - 38)
    else if ltb i 42
    then k.dark_count_baseline_cps (i - 40)
    else if i == 42
    then k.spectral_bandwidth_pm
    else if i == 43
    then k.pvs_amplitude
    else if i == 44
    then k.pvs_linewidth_khz
    else if i == 45
    then k.pvs_noise_floor
    else k.crc

unfoldable pub cal_of : (ℕ → ℕ) → Calibration
cal_of w = record {
  magic = w 0;
  version = w 1;
  li_count = w 2;
  reserved = w 3;
  li = λ i. record { current_ua = w (4 + 2 * i); power_nw = w (5 + 2 * i) };
  dli_setpoint_uk = λ i. w (36 + i);
  branch_efficiency_ppm = λ i. w (38 + i);
  dark_count_baseline_cps = λ i. w (40 + i);
  spectral_bandwidth_pm = w 42;
  pvs_amplitude = w 43;
  pvs_linewidth_khz = w 44;
  pvs_noise_floor = w 45;
  crc = w 46;
}

-- The bytes of `n` words from word `i`, as the processor stores them.
unfoldable pub words_bytes : ℕ → ℕ → (ℕ → ℕ) → List ℕ
words_bytes zero i w = []
words_bytes (suc n) i w =
    u8 (w i) ∷ u8 (shr (w i) 8) ∷ u8 (shr (w i) 16) ∷ u8 (shr (w i) 24) ∷ words_bytes n (i + 1) w

-- The checksum of everything in front of the checksum's own word.
unfoldable pub cal_crc : Calibration → ℕ
cal_crc k = crc32 (words_bytes 46 0 (cal_words k))

-- All words zero, as `svc_config_init` leaves the block.
unfoldable pub blank_calibration : Calibration
blank_calibration = cal_of (λ _. 0)

-- The power between two points, at a current that is not above the second.
unfoldable pub between : Point → Point → ℕ → ℕ
between lo hi current =
    let span = sub32 hi.current_ua lo.current_ua in
    let rise = sub32 hi.power_nw lo.power_nw in
    let run = sub32 current lo.current_ua in
    if span == 0 then lo.power_nw else u32 (lo.power_nw + u32 (u64 (rise * run) / span))

-- The loop of `svc_config_li_expected_nw`: `n` segments, the next one ending at point `i`.
unfoldable pub find_segment : ℕ → ℕ → (ℕ → Point) → ℕ → Status × Option ℕ
find_segment zero i li current = (err_range, none)
find_segment (suc n) i li current =
    if ltb (li i).current_ua current
    then find_segment n (i + 1) li current
    else (ok, some (between (li (i - 1)) (li i) current))

-- `svc_config_li_expected_nw` behind its first test.
unfoldable pub expected : ℕ → Calibration → Status × Option ℕ
expected current k =
    if ltb current (k.li 0).current_ua || ltb (k.li (k.li_count - 1)).current_ua current
    then (err_range, none)
    else find_segment (k.li_count - 1) 1 k.li current
