-- ===== src/Crc/Bitwise.antt =====
-- The definition of CRC-32, one bit at a time: the reflected polynomial 0xEDB88320.
use qiran_firmware.Base.{ℕ, zero, suc, bit_xor, refl, ap, ap₂, inl, inr, List, [], arith, ◌*◌}
use qiran_firmware.Base.{◌/◌, ◌%◌, ◌≡◌, ◌∙◌, ◌⊎◌, ◌∷◌, ◌==◌, if◌then◌else◌}
use qiran_firmware.Bits.Xor.{
  bit_xor_halves, bit_xor-zero, zero-bit_xor, bit_xor_self, bit_xor_regroup,
}

abbrev pub polynomial : ℕ
polynomial = 0xEDB88320

-- What the bit that is shifted out feeds back.
unfoldable pub feedback : ℕ → ℕ
feedback crc = if crc % 2 == 0 then 0 else polynomial

unfoldable pub bit_step : ℕ → ℕ
bit_step crc = bit_xor (crc / 2) (feedback crc)

unfoldable pub bit_steps : ℕ → ℕ → ℕ
bit_steps zero crc = crc
bit_steps (suc n) crc = bit_steps n (bit_step crc)

-- A checksum is the remainder after each byte has been added and shifted out.
unfoldable pub bitwise_update : ℕ → List ℕ → ℕ
bitwise_update crc [] = crc
bitwise_update crc (byte ∷ bytes) = bitwise_update (bit_steps 8 (bit_xor crc byte)) bytes

feedback-bit_xor : (a b : ℕ) → feedback (bit_xor a b) ≡ bit_xor (feedback a) (feedback b)
unfolding feedback
feedback-bit_xor a b = elim (parity a) [
  | inl even_a ↦ elim (parity b) [
    | inl even_b ↦ ground (arith, bit_xor_halves a b, bit_xor_self 0)
    | inr odd_b ↦ ground (arith, bit_xor_halves a b, zero-bit_xor polynomial)
  ]
  | inr odd_a ↦ elim (parity b) [
    | inl even_b ↦ ground (arith, bit_xor_halves a b, bit_xor-zero polynomial)
    | inr odd_b ↦ ground (arith, bit_xor_halves a b, bit_xor_self polynomial)
  ]
]
  where
    parity : (n : ℕ) → (n % 2 ≡ 0) ⊎ (n % 2 ≡ 1)
    parity n = grind arith

-- The step is linear.
pub bit_step-bit_xor : (a b : ℕ) → bit_step (bit_xor a b) ≡ bit_xor (bit_step a) (bit_step b)
unfolding bit_step
bit_step-bit_xor a b =
    ap₂ bit_xor (bit_xor_halves a b).0 (feedback-bit_xor a b)
    ∙ bit_xor_regroup (a / 2) (b / 2) (feedback a) (feedback b)

pub bit_steps-bit_xor :
    (n a b : ℕ) → bit_steps n (bit_xor a b) ≡ bit_xor (bit_steps n a) (bit_steps n b)
unfolding bit_steps
bit_steps-bit_xor zero a b = refl
bit_steps-bit_xor (suc n) a b =
    ap (bit_steps n) (bit_step-bit_xor a b) ∙ bit_steps-bit_xor n (bit_step a) (bit_step b)

-- A register whose low bit is 0 is only shifted.
pub bit_step_even : (a : ℕ) → bit_step (2 * a) ≡ a
unfolding bit_step feedback
bit_step_even a = ground (arith, bit_xor-zero (2 * a / 2))
