-- ===== src/Crc/Table.antt =====
-- The table-driven update computes the bitwise definition.
use qiran_firmware.Base.{ℕ, zero, suc, bit_and, bit_xor, refl, sym, ap, ap₂, Bool, true, List}
use qiran_firmware.Base.{[], arith, ltb, ltb→lt, ==_iff, get_or, All, ◌*◌, ◌/◌, ◌%◌, ◌^◌, ◌<◌}
use qiran_firmware.Base.{◌≡◌, ◌∙◌, ◌&&◌, ◌∷◌, ◌==◌}
use qiran_firmware.Bits.Mask.{bit_and_mask}
use qiran_firmware.Bits.Xor.{bit_xor_disjoint, bit_xor_comm, bit_xor-lt}
use qiran_firmware.Crc.{k_nibble, crc32_init, nibble_step, update_bytes, crc32}
use qiran_firmware.Crc.Bitwise.{
  feedback, bit_step, bit_steps, bitwise_update, bit_steps-bit_xor, bit_step_even,
}

all_below : ℕ → (ℕ → Bool) → Bool
all_below zero test = true
all_below (suc n) test = test n && all_below n test

all_below_sound :
    (n : ℕ) (test : ℕ → Bool) (x : ℕ) → all_below n test ≡ true → x < n → test x ≡ true
unfolding all_below
all_below_sound zero test x h below = absurd (omega arith)
all_below_sound (suc n) test x h below = ground (arith, all_below_sound n test x)

nibble_table : all_below 16 (λ l. bit_steps 4 l == get_or k_nibble l 0) ≡ true
unfolding all_below bit_steps bit_step feedback
nibble_table = refl

-- Entry `l` of the table is four bit steps from `l`.
entry_steps : (l : ℕ) → l < 16 → bit_steps 4 l ≡ get_or k_nibble l 0
entry_steps l h = (==_iff _ _).0 (all_below_sound 16 _ l nibble_table h)

high_steps : (h : ℕ) → bit_steps 4 (h * 2 ^ 4) ≡ h
unfolding bit_steps
high_steps h =
    ap (λ c. bit_step (bit_step (bit_step (bit_step c)))) (omega arith)
    ∙ ap (λ c. bit_step (bit_step (bit_step c))) (bit_step_even (2 * (2 * (2 * h))))
    ∙ ap (λ c. bit_step (bit_step c)) (bit_step_even (2 * (2 * h)))
    ∙ ap bit_step (bit_step_even (2 * h))
    ∙ bit_step_even h

-- One look-up does four bit steps.
pub nibble_step-bit_steps : (crc : ℕ) → nibble_step crc ≡ bit_steps 4 crc
unfolding nibble_step
nibble_step-bit_steps crc =
    ap (λ (l : ℕ). bit_xor (get_or k_nibble l 0) (crc / 2 ^ 4)) (bit_and_mask 4 crc)
    ∙ ap₂ bit_xor (sym (entry_steps (crc % 16) (omega arith))) (sym (high_steps (crc / 2 ^ 4)))
    ∙ sym (bit_steps-bit_xor 4 (crc % 16) (crc / 2 ^ 4 * 2 ^ 4))
    ∙ ap (bit_steps 4) (bit_xor_comm (crc % 16) (crc / 2 ^ 4 * 2 ^ 4) ∙ split)
  where
    split : bit_xor (crc / 2 ^ 4 * 2 ^ 4) (crc % 16) ≡ crc
    split = bit_xor_disjoint 4 (crc / 2 ^ 4) (crc % 16) (omega arith) ∙ omega arith

eight_steps : (crc : ℕ) → bit_steps 4 (bit_steps 4 crc) ≡ bit_steps 8 crc
unfolding bit_steps
eight_steps crc = refl

-- From any register, over any bytes, the table-driven update ends where the bitwise one ends:
-- eight steps of the reflected polynomial for each byte.
pub update_bytes-bitwise :
    (bytes : List ℕ) (crc : ℕ) → update_bytes crc bytes ≡ bitwise_update crc bytes
unfolding update_bytes bitwise_update
update_bytes-bitwise [] crc = refl
update_bytes-bitwise (b ∷ bytes) crc =
    ap (λ c. update_bytes c bytes)
      (ap nibble_step (nibble_step-bit_steps (bit_xor crc b))
        ∙ nibble_step-bit_steps (bit_steps 4 (bit_xor crc b))
        ∙ eight_steps (bit_xor crc b))
    ∙ update_bytes-bitwise bytes (bit_steps 8 (bit_xor crc b))

entry_small : all_below 16 (λ l. ltb (get_or k_nibble l 0) (2 ^ 32)) ≡ true
unfolding all_below
entry_small = refl

nibble_step-lt : (crc : ℕ) → crc < 2 ^ 32 → nibble_step crc < 2 ^ 32
unfolding nibble_step
nibble_step-lt crc h =
    bit_xor-lt 32 (get_or k_nibble (bit_and crc 15) 0) (crc / 2 ^ 4)
      (ltb→lt _ _
        (all_below_sound 16 _ (bit_and crc 15) entry_small (omega (arith, bit_and_mask 4 crc))))
      (omega arith)

abbrev pub IsByte : ℕ → Type 0
IsByte b = b < 256

-- The register stays a 32-bit word.
pub update_bytes-lt :
    (bytes : List ℕ) (crc : ℕ) → All IsByte bytes → crc < 2 ^ 32 → update_bytes crc bytes < 2 ^ 32
unfolding update_bytes
update_bytes-lt [] crc bs h = h
update_bytes-lt (b ∷ bytes) crc bs h =
    update_bytes-lt bytes _ bs.1
      (nibble_step-lt _ (nibble_step-lt _ (bit_xor-lt 32 crc b h (omega (arith, bs.0)))))

pub crc32-lt : (bytes : List ℕ) → All IsByte bytes → crc32 bytes < 2 ^ 32
unfolding crc32
crc32-lt bytes bs =
    bit_xor-lt 32 (update_bytes crc32_init bytes) 0xFFFFFFFF
      (update_bytes-lt bytes crc32_init bs (omega arith)) (omega arith)
