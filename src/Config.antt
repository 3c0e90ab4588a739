-- ===== src/Config.antt =====
-- src/svc/svc_config.c: the parameters and the calibration, with their storage. The storage is
-- registered by another part; `W` is the state that it acts on. Both stored blocks are structures of
-- 32-bit words without padding, so a block is read and written as an array of words; the checksum
-- runs over their bytes, least significant first, as the processor stores them.
pub mod Table
pub mod Curve
pub mod Valid
pub mod Set
pub mod Verify
pub mod Calls
pub mod Stored
mod Tests
use qiran_firmware.Base.{ℕ, zero, suc, Bool, true, false, not, Option, none, some, ltb, leb}
use qiran_firmware.Base.{u16, u32, update, ◌+◌, ◌-◌, ◌&&◌, ◌||◌, ◌==◌, if◌then◌else◌}
use qiran_firmware.Status.{
  Status, is_ok, ok, err_param, err_state, err_hardware, err_range, err_integrity, err_unsupported,
}
use qiran_firmware.Fault
use qiran_firmware.Crc.{crc32}
use qiran_firmware.Services.{Services, log_event}
use qiran_firmware.Fdir.{report}
use qiran_firmware.Config.Table.{param_count, def_of, in_range}
use qiran_firmware.Config.Curve.{
  expected, Calibration, cal_words, cal_of, cal_point_count, blank_calibration, words_bytes,
  cal_crc,
}

abbrev pub config_magic : ℕ
config_magic = 0x51434647

abbrev pub cal_magic : ℕ
cal_magic = 0x51434C42

abbrev pub config_version : ℕ
config_version = 1

abbrev pub cal_version : ℕ
cal_version = 1

abbrev pub offset_params : ℕ
offset_params = 0

abbrev pub offset_cal : ℕ
offset_cal = 512

-- The sizes of the two blocks in bytes.
abbrev pub image_bytes : ℕ
image_bytes = 140

abbrev pub cal_bytes : ℕ
cal_bytes = 188

-- `svc_config_storage_t`: what is read is an array of words.
pub record Storage (W : Type 0) : Type 0 where
  pub read : ℕ → ℕ → W → Status × (ℕ → ℕ) × W
  pub write : ℕ → (ℕ → ℕ) → ℕ → W → Status × W

-- `config_image_t`.
pub record Image : Type 0 where
  pub magic : ℕ
  pub version : ℕ
  pub count : ℕ
  pub reserved : ℕ
  pub value : ℕ → ℕ
  pub crc : ℕ

unfoldable pub image_words : Image → ℕ → ℕ
image_words m i =
    if i == 0
    then m.magic
    else if i == 1
    then m.version
    else if i == 2
    then m.count
    else if i == 3
    then m.reserved
    else if ltb i (4 + param_count)
    then m.value (i - 4)
    else m.crc

unfoldable pub image_of : (ℕ → ℕ) → Image
image_of w = record {
  magic = w 0;
  version = w 1;
  count = w 2;
  reserved = w 3;
  value = λ i. w (4 + i);
  crc = w (4 + param_count);
}

-- The checksum of everything in front of the checksum's own word.
unfoldable pub image_crc : Image → ℕ
image_crc m = crc32 (words_bytes (4 + param_count) 0 (image_words m))

pub record Config (W : Type 0) : Type 0 where
  pub value : ℕ → ℕ
  pub live_crc : ℕ
  pub locked : Bool
  pub storage : Option (Storage W)
  pub cal : Calibration
  pub cal_valid : Bool
  pub changes : ℕ
  pub rejections : ℕ
  pub corrections : ℕ

-- `live_crc`.
unfoldable pub live_crc : (ℕ → ℕ) → ℕ
live_crc value = crc32 (words_bytes param_count 0 value)

-- The number of values outside their limits among `n` from parameter `i`: the loop of
-- `svc_config_verify`.
unfoldable pub count_outside : ℕ → ℕ → (ℕ → ℕ) → ℕ → ℕ
count_outside zero i value found = found
count_outside (suc n) i value found =
    count_outside n (i + 1) value (if in_range i (value i) then found else u32 (found + 1))

-- The loop of `load_defaults`: `n` parameters from `i`.
unfoldable pub defaults_from : ℕ → ℕ → (ℕ → ℕ) → ℕ → ℕ
defaults_from zero i value = value
defaults_from (suc n) i value = defaults_from n (i + 1) (update value i (def_of i).default)

-- The tests of `read_params` on what was read.
unfoldable pub image_status : Image → Status
image_status m =
    if not (m.magic == config_magic) || not (m.version == config_version)
    then err_integrity
    else if image_crc m == m.crc
    then ok
    else err_integrity

-- The tests of `read_calibration` on what was read.
unfoldable pub cal_status : Calibration → Status
cal_status k =
    if not (k.magic == cal_magic) || not (k.version == cal_version)
    then err_integrity
    else if not (cal_crc k == k.crc)
    then err_integrity
    else if ltb cal_point_count k.li_count
    then err_integrity
    else ok

module _ {W : Type 0} where
  -- `load_defaults`.
  unfoldable pub load_defaults : Config W → Config W
  load_defaults c =
      let value = defaults_from param_count 0 c.value in
      record c { value = value; live_crc = live_crc value }

  -- `svc_config_init`.
  unfoldable pub init : Config W → Config W
  init c = record (load_defaults c) {
    locked = false;
    storage = none;
    cal = blank_calibration;
    cal_valid = false;
    changes = 0;
    rejections = 0;
    corrections = 0;
  }

  -- `svc_config_set_storage`, each function possibly NULL.
  unfoldable pub set_storage :
      Option (Option (ℕ → ℕ → W → Status × (ℕ → ℕ) × W) × Option (ℕ → (ℕ → ℕ) → ℕ → W → Status × W))
      → Config W
      → Status × Config W
  set_storage none c = (ok, record c { storage = none })
  set_storage (some (some r, some w)) c =
      (ok, record c { storage = some (record { read = r; write = w }) })
  set_storage (some _) c = (err_param, c)

  -- `svc_config_get`.
  unfoldable pub get : ℕ → Config W → ℕ
  get id c = if leb param_count id then 0 else c.value id

  -- `svc_config_set`.
  unfoldable pub set : ℕ → ℕ → Config W → Services → Status × Config W × Services
  set id value c s =
      if leb param_count id
      then (err_param, c, s)
      else if not (in_range id value)
      then (err_range, record c { rejections = u32 (c.rejections + 1) }, report Fault.config id s)
      else if c.locked && not (def_of id).writable_in_flight
      then (err_state, record c { rejections = u32 (c.rejections + 1) }, s)
      else (
        ok,
        record c {
          value = update c.value id value;
          live_crc = live_crc (update c.value id value);
          changes = u32 (c.changes + 1);
        },
        log_event (u16 id) value s,
      )

  -- `svc_config_lock` and `svc_config_unlock`.
  unfoldable pub lock : Config W → Config W
  lock c = record c { locked = true }

  unfoldable pub unlock : Config W → Config W
  unlock c = record c { locked = false }

  -- The body of the loop of `read_params`: parameter `i` from a stored value.
  unfoldable pub take_value : ℕ → ℕ → ℕ → Config W → Services → ℕ × Config W × Services
  take_value i stored corrected c s =
      if in_range i stored then (corrected, record c { value = update c.value i stored }, s) else (
        u32 (corrected + 1),
        record c {
          value = update c.value i (def_of i).default;
          corrections = u32 (c.corrections + 1);
        },
        report Fault.config i s,
      )

  -- The loop of `read_params`: `n` parameters from `i`.
  unfoldable pub take_values : ℕ → ℕ → (ℕ → ℕ) → ℕ → Config W → Services → ℕ × Config W × Services
  take_values zero i stored corrected c s = (corrected, c, s)
  take_values (suc n) i stored corrected c s =
      let (k, c', s') = take_value i (stored i) corrected c s in
      take_values n (i + 1) stored k c' s'

  -- `read_params` behind its tests.
  unfoldable pub take_image : Image → Config W → Services → Status × Config W × Services
  take_image m c s =
      let n = if ltb m.count param_count then m.count else param_count in
      let (corrected, c', s') = take_values n 0 m.value 0 c s in
      (if corrected == 0 then ok else err_range, record c' { live_crc = live_crc c'.value }, s')

  -- `read_params`, of a storage that is set.
  unfoldable pub read_params :
      Storage W → Config W → W → Services → Status × Config W × W × Services
  read_params st c w s =
      let (got, words, w') = st.read offset_params image_bytes w in
      if not (is_ok got)
      then (err_hardware, c, w', s)
      else if not (is_ok (image_status (image_of words)))
      then (err_integrity, c, w', s)
      else (let (r, c', s') = take_image (image_of words) c s in (r, c', w', s'))

  -- `read_calibration`, of a storage that is set.
  unfoldable pub read_calibration : Storage W → Config W → W → Status × Config W × W
  read_calibration st c w =
      let (got, words, w') = st.read offset_cal cal_bytes w in
      if not (is_ok got)
      then (err_hardware, c, w')
      else if not (is_ok (cal_status (cal_of words)))
      then (err_integrity, c, w')
      else (ok, record c { cal = cal_of words; cal_valid = true }, w')

  -- What `svc_config_load` makes of the status of `read_params`.
  unfoldable pub settle_params : Status → Config W → Services → Status × Config W × Services
  settle_params ok c s = (ok, c, s)
  settle_params err_range c s = (err_range, c, s)
  settle_params _ c s = (err_integrity, load_defaults c, report Fault.config 0 s)

  -- `svc_config_load` of a storage that is set.
  unfoldable pub load_from : Storage W → Config W → W → Services → Status × Config W × W × Services
  load_from st c w s =
      let (r, c1, w1, s1) = read_params st c w s in
      let (r', c2, s2) = settle_params r c1 s1 in
      let (k, c3, w3) = read_calibration st c2 w1 in
      if is_ok k
      then (r', c3, w3, s2)
      else (r', record c3 { cal_valid = false }, w3, report Fault.config 1 s2)

  -- `svc_config_load`.
  unfoldable pub load : Config W → W → Services → Status × Config W × W × Services
  load c w s = elim c.storage [
    | none ↦ (err_unsupported, c, w, report Fault.config 0 s)
    | some st ↦ load_from st c w s
  ]

  -- The block that `svc_config_save` writes, before its checksum and with it.
  unfoldable pub image_unsealed : Config W → Image
  image_unsealed c = record {
    magic = config_magic;
    version = config_version;
    count = param_count;
    reserved = 0;
    value = c.value;
    crc = 0;
  }

  unfoldable pub image_to_save : Config W → Image
  image_to_save c = record (image_unsealed c) { crc = image_crc (image_unsealed c) }

  -- `svc_config_save`.
  unfoldable pub save : Config W → W → Status × W
  save c w = elim c.storage [
    | none ↦ (err_unsupported, w)
    | some st ↦ st.write offset_params (image_words (image_to_save c)) image_bytes w
  ]

  -- The repair of `svc_config_verify`, of a storage that is set.
  unfoldable pub repair_from : Storage W → Config W → W → Services → Config W × W × Services
  repair_from st c w s =
      let (r, c', w', s') = read_params st c w s in
      (if is_ok r then c' else load_defaults c', w', s')

  -- The repair of `svc_config_verify`: storage if it has all, or else the defaults.
  unfoldable pub repair : Config W → W → Services → Config W × W × Services
  repair c w s = elim c.storage [ none ↦ (load_defaults c, w, s) | some st ↦ repair_from st c w s ]

  -- `svc_config_verify`.
  unfoldable pub verify : Config W → W → Services → Status × Config W × W × Services
  verify c w s =
      let outside = count_outside param_count 0 c.value 0 in
      let (c', w', s') =
        repair (record c { corrections = u32 (c.corrections + 1) }) w
          (report Fault.config outside s) in
      if (live_crc c.value == c.live_crc) && (outside == 0)
      then (ok, c, w, s)
      else (err_integrity, c', w', s')

  -- `svc_config_calibration`.
  unfoldable pub calibration : Config W → Option Calibration
  calibration c = if c.cal_valid then some c.cal else none

  -- `svc_config_calibration_set`.
  unfoldable pub calibration_set : Option Calibration → Config W → W → Status × Config W × W
  calibration_set none c w = (err_param, c, w)
  calibration_set (some k) c w =
      let stamped = record k { magic = cal_magic; version = cal_version } in
      let updated = record stamped { crc = cal_crc stamped } in
      let c' = record c { cal = updated; cal_valid = true; changes = u32 (c.changes + 1) } in
      if ltb cal_point_count k.li_count then (err_range, c, w) else elim c.storage [
        | none ↦ (ok, c', w)
        | some st ↦ let (r, w') = st.write offset_cal (cal_words updated) cal_bytes w in (r, c', w')
      ]

  -- `svc_config_li_expected_nw`, with an output to write to.
  unfoldable pub li_expected_nw : ℕ → Config W → Status × Option ℕ
  li_expected_nw current c =
      if not c.cal_valid || ltb c.cal.li_count 2
      then (err_unsupported, none)
      else expected current c.cal
