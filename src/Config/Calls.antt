-- ===== src/Config/Calls.antt =====
-- The store under any sequence of calls.
use qiran_firmware.Base.{ℕ, refl, inl, inr, Option, none, some, List, [], arith, ◌≡◌, ◌∷◌}
use qiran_firmware.Services.{Services}
use qiran_firmware.Config.{Config, Storage, init, set, lock, unlock, load, verify, calibration_set}
use qiran_firmware.Config.Curve.{Calibration}
use qiran_firmware.Config.Valid.{IsSound, load-IsSound, load_defaults-IsSound, same_params}
use qiran_firmware.Config.Set.{set-IsSound}
use qiran_firmware.Config.Verify.{verify-cases}

-- A call of the store that can change it; saving does not.
pub data Op : Type 0 where
  set_value : ℕ → ℕ → Op
  lock_store unlock_store load_store verify_store : Op
  set_calibration : Option Calibration → Op

module _ {W : Type 0} where
  unfoldable pub run_op : Op → Config W → W → Services → Config W × W × Services
  run_op (set_value id v) c w s = let (r, c', s') = set id v c s in (c', w, s')
  run_op lock_store c w s = (lock c, w, s)
  run_op unlock_store c w s = (unlock c, w, s)
  run_op load_store c w s = let (r, c', w', s') = load c w s in (c', w', s')
  run_op verify_store c w s = let (r, c', w', s') = verify c w s in (c', w', s')
  run_op (set_calibration k) c w s = let (r, c', w') = calibration_set k c w in (c', w', s)

  unfoldable pub run_ops : List Op → Config W → W → Services → Config W × W × Services
  run_ops [] c w s = (c, w, s)
  run_ops (op ∷ ops) c w s = let (c', w', s') = run_op op c w s in run_ops ops c' w' s'

  calibration_set-value :
      (k : Option Calibration) (c : Config W) (w : W)
      → let c' = (calibration_set k c w).1 in (c.value ≡ c'.value) × (c.live_crc ≡ c'.live_crc)
  unfolding calibration_set
  calibration_set-value none c w = (refl, refl)
  calibration_set-value (some k) c w = ground arith

  verify_lem : (c : Config W) (w : W) (s : Services) → IsSound c → IsSound (verify c w s).1
  verify_lem c w s v = elim (verify-cases c w s) [
    | inl (_, e) ↦ rw e v
    | inr (nv, _, _) ↦ absurd (nv v)
  ]

  run_op-IsSound :
      (op : Op) (c : Config W) (w : W) (s : Services) → IsSound c → IsSound (run_op op c w s).0
  unfolding run_op lock unlock
  run_op-IsSound (set_value id x) c w s v = set-IsSound id x c s v
  run_op-IsSound lock_store c w s v = same_params refl refl v
  run_op-IsSound unlock_store c w s v = same_params refl refl v
  run_op-IsSound load_store c w s v = load-IsSound c w s v
  run_op-IsSound verify_store c w s v = verify_lem c w s v
  run_op-IsSound (set_calibration k) c w s v =
      let (e, f) = calibration_set-value k c w in same_params e f v

  run_from :
      (ops : List Op) (c : Config W) (w : W) (s : Services)
      → IsSound c
      → IsSound (run_ops ops c w s).0
  unfolding run_ops
  run_from [] c w s v = v
  run_from (op ∷ ops) c w s v =
      let (c', w', s') = run_op op c w s in run_from ops c' w' s' (run_op-IsSound op c w s v)

  init-IsSound : (c : Config W) → IsSound (init c)
  unfolding init
  init-IsSound c = same_params refl refl (load_defaults-IsSound c)

  -- After a start, with any storage attached, and any sequence of settings, lockings, loads,
  -- verifications and calibrations, whatever the storage gives, every parameter is inside its
  -- limits and the checksum is that of the parameters.
  pub run_ops-IsSound :
      (ops : List Op) (c : Config W) (storage : Option (Storage W)) (w : W) (s : Services)
      → IsSound (run_ops ops (record (init c) { storage = storage }) w s).0
  run_ops-IsSound ops c storage w s =
      run_from ops (record (init c) { storage = storage }) w s
        (same_params refl refl (init-IsSound c))
