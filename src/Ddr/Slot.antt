-- ===== src/Ddr/Slot.antt =====
-- The slot that an acquisition may fill next.
use qiran_firmware.Base.{ℕ, zero, suc, true, false, arith, ◌+◌, ◌*◌, ◌<◌, ◌≡◌, ◌⊎◌}
use qiran_firmware.Ddr.{Ddr, region_count, channels, is_free, free_raw_slot}

-- For a channel that exists, the answer is the first region of its two that is configured and
-- free, or no region when neither is.
pub free_raw_slot-IsFirst :
    (channel : ℕ) (d : Ddr)
    → channel < channels
    → let slot = free_raw_slot channel d in
      ((slot ≡ 2 * channel) × (is_free (d.region (2 * channel)) ≡ true))
      ⊎ ((slot ≡ 2 * channel + 1)
          × (is_free (d.region (2 * channel)) ≡ false)
          × (is_free (d.region (2 * channel + 1)) ≡ true))
      ⊎ ((slot ≡ region_count)
          × (is_free (d.region (2 * channel)) ≡ false)
          × (is_free (d.region (2 * channel + 1)) ≡ false))
unfolding free_raw_slot
free_raw_slot-IsFirst zero d h = ground arith
free_raw_slot-IsFirst (suc zero) d h = ground arith
free_raw_slot-IsFirst (suc (suc n)) d h = absurd (omega arith)
