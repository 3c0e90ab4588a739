-- ===== src/Ddr/Content.antt =====
-- What an append leaves in memory.
use qiran_firmware.Base.{ℕ, zero, suc, ap, some, arith, ltb, leb, update, ◌+◌, ◌-◌, ◌≤◌, ◌≡◌}
use qiran_firmware.Base.{◌≢◌, ◌&&◌, if◌then◌else◌}
use qiran_firmware.Status.{ok}
use qiran_firmware.Services.{Services}
use qiran_firmware.Ddr.{Ddr, append, copy}
use qiran_firmware.Ddr.Valid.{IsValid}

-- The copy loop writes its source to the addresses behind `dst`, and to no other.
pub copy_bytes :
    (n i dst : ℕ) (src memory : ℕ → ℕ) (a : ℕ)
    → copy n i dst src memory a
      ≡ (if leb (dst + i) a && ltb a (dst + i + n) then src (a - dst) else memory a)
unfolding copy
copy_bytes zero i dst src memory a = ground arith
copy_bytes (suc n) i dst src memory a =
    ground (arith, copy_bytes n (i + 1) dst src (update memory (dst + i) (src i)) a, index)
  where
    index : a ≡ dst + i → src (a - dst) ≡ src i
    index e = ap src (omega arith)

-- In a configured region whose use is inside its capacity, an append takes all of its data or none
-- of it. When it answers `ok` the bytes follow those that the region holds, nothing else in memory
-- is touched and the use grows by their number; any other answer leaves memory and every region as
-- they were.
pub append_whole :
    (region owner base len : ℕ) (src : ℕ → ℕ) (d : Ddr) (s : Services)
    → IsValid d
    → (d.region region).base ≡ some base
    → let r = d.region region in
      let (st, d', s') = append region owner (some src) len d s in
      ((st ≡ ok)
        → ((d'.region region).used ≡ r.used + len)
          × (r.used + len ≤ r.capacity)
          × ((a : ℕ)
              → d'.memory a ≡ (
                  if leb (base + r.used) a && ltb a (base + r.used + len)
                  then src (a - (base + r.used))
                  else d.memory a)))
      × ((st ≢ ok) → (d'.memory ≡ d.memory) × (d'.region ≡ d.region))
unfolding append
append_whole region owner base len src d s v e =
    let r = d.region region in
    (
      (λ h. (
        ground (arith, v region, e, h),
        ground (arith, v region, e, h),
        λ a. ground (arith, v region, e, h, copy_bytes len 0 (base + r.used) src d.memory a),
      )),
      λ h. (ground (arith, e, h), ground (arith, e, h)),
    )
