-- ===== src/Config/Tests.antt =====
-- The properties of the configuration at concrete stores.
use qiran_firmware.Base.{
  ℕ, not, ◌&&◌, refl, true, false, none, some, [], arith, ltb, u32, ◌+◌, ◌<◌, ◌≡◌,
}
use qiran_firmware.Base.{◌≢◌, ◌↔◌, ◌⊎◌, ◌∷◌, ◌==◌, if◌then◌else◌}
use qiran_firmware.Status.{Status, is_ok, ok}
use qiran_firmware.Services.{log_event}
use qiran_firmware.Fdir.{report}
use qiran_firmware.Fault
use qiran_firmware.Crc
use qiran_firmware.Crc.{crc32}
use qiran_firmware.Samples.{quiet}
use qiran_firmware.Config
use qiran_firmware.Config.{
  Config, Storage, Image, init, set, get, load, save, verify, image_of, image_to_save, image_words,
  image_status, read_params, live_crc,
}
use qiran_firmware.Config.Table.{param_count, in_range, def_of}
use qiran_firmware.Config.Curve.{Calibration, Point, blank_calibration, expected}
use qiran_firmware.Config.Curve.Segment.{IsRising, IsOnSegment, expected-IsOnSegment}
use qiran_firmware.Config.Valid.{IsSound, load_defaults-IsSound}
use qiran_firmware.Config.Set.{allowed, set-get}
use qiran_firmware.Config.Verify.{IsBeyond, verify_mends, verify_keeps, noted, reported}
use qiran_firmware.Config.Stored.{Keeps, save-load}
use qiran_firmware.Config.Calls.{
  set_value, lock_store, load_store, verify_store, run_ops, run_ops-IsSound,
}

-- A memory that keeps what is written at offset 0, and gives nothing elsewhere.
abbrev memory_storage : Storage (ℕ → ℕ)
memory_storage = record {
  read = λ offset n w. (if offset == 0 then ok else Status.err_hardware, w, w);
  write = λ offset words n w. (ok, if offset == 0 then words else w);
}

abbrev blank : Config (ℕ → ℕ)
blank = record {
  value = λ _. 0;
  live_crc = 0;
  locked = false;
  storage = none;
  cal = blank_calibration;
  cal_valid = false;
  changes = 0;
  rejections = 0;
  corrections = 0;
}

abbrev fresh : Config (ℕ → ℕ)
fresh = record (Config.load_defaults blank) { storage = some memory_storage }

run_ops-IsSound_example :
    IsSound
      (run_ops
        (set_value 0 28000 ∷ lock_store ∷ set_value 2 7 ∷ load_store ∷ verify_store ∷ [])
        (record (init blank) { storage = some memory_storage })
        (λ _. 0)
        quiet).0
run_ops-IsSound_example =
    run_ops-IsSound
      (set_value 0 28000 ∷ lock_store ∷ set_value 2 7 ∷ load_store ∷ verify_store ∷ []) blank
      (some memory_storage) (λ _. 0) quiet

set-get_example :
    let (r, c', s') = set 0 28000 fresh quiet in
    ((allowed 0 28000 fresh ≡ true)
      × (r ≡ ok)
      × (get 0 c' ≡ 28000)
      × ((j : ℕ) → 0 ≢ j → get j c' ≡ get j fresh)
      × (c'.changes ≡ u32 (0 + 1))
      × (live_crc c'.value ≡ c'.live_crc)
      × (c' ≡ record fresh { value = c'.value; live_crc = c'.live_crc; changes = c'.changes })
      × (s' ≡ log_event 0 28000 quiet))
    ⊎ ((allowed 0 28000 fresh ≡ false)
        × (is_ok r ≡ false)
        × (c' ≡ record fresh { rejections = c'.rejections })
        × (c'.rejections ≡ (if ltb 0 param_count then u32 (0 + 1) else 0))
        × (s' ≡ (
            if ltb 0 param_count && not (in_range 0 28000)
            then report Fault.config 0 quiet
            else quiet)))
unfolding Config.load_defaults
set-get_example = set-get 0 28000 fresh quiet

memory-Keeps : Keeps memory_storage
memory-Keeps words w e = (refl, λ i lt. refl)

fresh-IsSound : IsSound fresh
fresh-IsSound =
    let v = load_defaults-IsSound blank in record { in_limits = v.in_limits; checked = v.checked }

save-load_example :
    let (r, d', w', s') =
      load (record blank { storage = some memory_storage }) (save fresh (λ _. 0)).1 quiet in
    (r ≡ ok) × ((i : ℕ) → i < 30 → d'.value i ≡ fresh.value i)
unfolding save
save-load_example =
    save-load fresh (record blank { storage = some memory_storage }) memory_storage (λ _. 0) quiet
      memory-Keeps fresh-IsSound refl refl refl

-- Two points, from 55 mA and 1 uW to 60 mA and 2 uW.
abbrev two_points : Calibration
two_points = record blank_calibration {
  li_count = 2;
  li = λ i.
      if i == 0
      then record { current_ua = 55000; power_nw = 1000 }
      else record { current_ua = 60000; power_nw = 2000 };
}

two_points-IsRising : IsRising two_points.li 2
two_points-IsRising = record {
  current_word = λ i lt. ground arith;
  power_word = λ i lt. ground arith;
  current_rises = λ i lt. ground arith;
  power_rises = λ i lt. ground arith;
}

expected-IsOnSegment_example :
    (p : ℕ) × (i : ℕ) × (expected 57500 two_points ≡ (ok, some p))
    × IsOnSegment two_points.li 2 57500 p i
expected-IsOnSegment_example =
    expected-IsOnSegment two_points 57500 two_points-IsRising (omega arith) (omega arith)
      (omega arith)

midway : expected 57500 two_points ≡ (ok, some 1500)
unfolding expected Config.Curve.find_segment Config.Curve.between
midway = refl

-- A falling segment: the rise wraps around, and the power comes out above both points.
falling :
    Config.Curve.between
      (record { current_ua = 0; power_nw = 2000 })
      (record { current_ua = 2; power_nw = 1000 })
      1
    ≡ 2147485148
unfolding Config.Curve.between
falling = refl

-- A stored block with one parameter, and a store whose sixth parameter has changed to 1.
abbrev short_image : Image
short_image = record {
  magic = Config.config_magic;
  version = Config.config_version;
  count = 1;
  reserved = 0;
  value = λ _. 27000;
  crc = 0;
}

abbrev short_words : ℕ → ℕ
short_words = image_words (record short_image { crc = Config.image_crc short_image })

abbrev short_storage : Storage (ℕ → ℕ)
short_storage = record {
  read = λ offset n w. (ok, short_words, w);
  write = λ offset words n w. (ok, w);
}

abbrev corrupted : Config (ℕ → ℕ)
corrupted = record blank { value = λ _. 1; storage = some short_storage }

corrupted-not-IsSound : ¬ IsSound corrupted
unfolding in_range def_of
corrupted-not-IsSound v = cc (v.in_limits 4 (omega arith))

short_read :
    (read_params short_storage (noted corrupted) (λ _. 0) (reported corrupted quiet)).0 ≡ ok
unfolding read_params Config.take_image Config.take_values Config.take_value image_status image_of
    image_words Config.image_crc Config.Curve.words_bytes crc32 Crc.update_bytes Crc.nibble_step
    in_range def_of
short_read = refl

verify_mends_example :
    let (r, c', w', s') = verify corrupted (λ _. 0) quiet in
    ((r ≡ ok) ↔ IsSound corrupted)
    × (live_crc c'.value ≡ c'.live_crc)
    × ((j : ℕ)
        → j < param_count
        → (in_range j (c'.value j) ≡ true)
          ⊎ (IsBeyond (noted corrupted) (λ _. 0) (reported corrupted quiet) j × (c'.value j ≡ 1)))
verify_mends_example = verify_mends corrupted (λ _. 0) quiet

verify_keeps_example :
    let (r, c', w', s') = verify corrupted (λ _. 0) quiet in
    (c'.value 4 ≡ 1) × (live_crc c'.value ≡ c'.live_crc)
unfolding image_of image_words
verify_keeps_example =
    verify_keeps corrupted short_storage (λ _. 0) quiet 4 refl corrupted-not-IsSound short_read
      (omega arith)
