-- ===== src/Crc/Detect.antt =====
-- What the checksum detects: two buffers that differ in one byte never share a checksum.
use qiran_firmware.Base.{ℕ, zero, suc, bit_xor, refl, sym, ap, List, [], arith, All, ◌*◌, ◌/◌}
use qiran_firmware.Base.{◌^◌, ◌≤◌, ◌<◌, ◌≡◌, ◌∙◌, ◌≢◌, ◌∷◌, ◌++◌}
use qiran_firmware.Bits.Xor.{bit_xor-lt, bit_xor_self, bit_xor_left_cancel, bit_xor_comm}
use qiran_firmware.Bits.Xor.{bit_xor_assoc, bit_xor_disjoint, bit_xor-zero}
use qiran_firmware.Crc.{crc32_init, update_bytes, crc32}
use qiran_firmware.Crc.Bitwise.{
  feedback, bit_step, bit_steps, bitwise_update, polynomial, bit_steps-bit_xor,
}
use qiran_firmware.Crc.Table.{update_bytes-bitwise, update_bytes-lt, IsByte}

-- The polynomial has the top bit set, so a fed-back register shows it.
top_bit : (h : ℕ) → h < 2 ^ 31 → 2 ^ 31 ≤ bit_xor h polynomial
top_bit h small = omega (
  arith,
  bit_xor_assoc h 0x6DB88320 (1 * 2 ^ 31),
  ap (bit_xor h) (bit_xor_comm 0x6DB88320 (2 ^ 31)),
  bit_xor_comm (bit_xor h 0x6DB88320) (1 * 2 ^ 31),
  bit_xor_disjoint 31 1 (bit_xor h 0x6DB88320) (bit_xor-lt 31 h 0x6DB88320 small (omega arith)),
)

bit_step-lt : (c : ℕ) → c < 2 ^ 32 → bit_step c < 2 ^ 32
unfolding bit_step feedback
bit_step-lt c h = ground (arith, bit_xor-lt 32 (c / 2) 0, bit_xor-lt 32 (c / 2) polynomial)

-- Only the empty register steps to the empty register.
bit_step_kernel : (c : ℕ) → c < 2 ^ 32 → bit_step c ≡ 0 → c ≡ 0
unfolding bit_step feedback
bit_step_kernel c h e = ground (arith, top_bit (c / 2), bit_xor-zero (c / 2))

bit_steps_kernel : (n c : ℕ) → c < 2 ^ 32 → bit_steps n c ≡ 0 → c ≡ 0
unfolding bit_steps
bit_steps_kernel zero c h e = e
bit_steps_kernel (suc n) c h e =
    bit_step_kernel c h (bit_steps_kernel n (bit_step c) (bit_step-lt c h) e)

eq_of_bit_xor-zero : (a b : ℕ) → bit_xor a b ≡ 0 → a ≡ b
eq_of_bit_xor-zero a b e = bit_xor_left_cancel b a b (bit_xor_comm b a ∙ e ∙ sym (bit_xor_self b))

pub bit_steps_injective :
    (n a b : ℕ) → a < 2 ^ 32 → b < 2 ^ 32 → bit_steps n a ≡ bit_steps n b → a ≡ b
bit_steps_injective n a b p q e = eq_of_bit_xor-zero a b (
    bit_steps_kernel n (bit_xor a b) (bit_xor-lt 32 a b p q) (
      bit_steps-bit_xor n a b
      ∙ ap (λ t. bit_xor t (bit_steps n b)) e
      ∙ bit_xor_self (bit_steps n b)))

bit_steps-lt : (n c : ℕ) → c < 2 ^ 32 → bit_steps n c < 2 ^ 32
unfolding bit_steps
bit_steps-lt zero c h = h
bit_steps-lt (suc n) c h = bit_steps-lt n (bit_step c) (bit_step-lt c h)

-- The same bytes never bring two registers together.
bitwise_update_injective :
    (bytes : List ℕ) (a b : ℕ)
    → All IsByte bytes
    → a < 2 ^ 32
    → b < 2 ^ 32
    → bitwise_update a bytes ≡ bitwise_update b bytes
    → a ≡ b
unfolding bitwise_update
bitwise_update_injective [] a b bs p q e = e
bitwise_update_injective (x ∷ bytes) a b bs p q e =
    let word : x < 2 ^ 32 = omega (arith, bs.0) in
    let a' = bit_xor-lt 32 a x p word in
    let b' = bit_xor-lt 32 b x q word in
    let mixed =
      bit_steps_injective 8 (bit_xor a x) (bit_xor b x) a' b'
        (bitwise_update_injective bytes _ _ bs.1 (bit_steps-lt 8 _ a') (bit_steps-lt 8 _ b') e) in
    bit_xor_left_cancel x a b (bit_xor_comm x a ∙ mixed ∙ bit_xor_comm b x)

update_bytes-append :
    (xs ys : List ℕ) (c : ℕ) → update_bytes c (xs ++ ys) ≡ update_bytes (update_bytes c xs) ys
unfolding update_bytes
update_bytes-append [] ys c = refl
update_bytes-append (x ∷ xs) ys c = update_bytes-append xs ys _

-- Two buffers that agree but for one byte have the same checksum only if that byte agrees too:
-- every corruption of a single byte, wherever it stands, is detected.
pub crc32_detects_byte :
    (before after : List ℕ) (x y : ℕ)
    → All IsByte before
    → All IsByte after
    → IsByte x
    → IsByte y
    → crc32 (before ++ (x ∷ after)) ≡ crc32 (before ++ (y ∷ after))
    → x ≡ y
unfolding crc32
crc32_detects_byte before after x y hb ha hx hy e =
    let register = update_bytes crc32_init before in
    let small : register < 2 ^ 32 = update_bytes-lt before crc32_init hb (omega arith) in
    let x' = bit_xor-lt 32 register x small (omega arith) in
    let y' = bit_xor-lt 32 register y small (omega arith) in
    let raw : update_bytes crc32_init (before ++ (x ∷ after))
        ≡ update_bytes crc32_init (before ++ (y ∷ after)) =
      bit_xor_left_cancel 0xFFFFFFFF _ _
        (bit_xor_comm 0xFFFFFFFF _ ∙ e ∙ bit_xor_comm _ 0xFFFFFFFF) in
    let behind : bitwise_update register (x ∷ after) ≡ bitwise_update register (y ∷ after) =
      sym (update_bytes-bitwise (x ∷ after) register)
      ∙ sym (update_bytes-append before (x ∷ after) crc32_init)
      ∙ raw
      ∙ update_bytes-append before (y ∷ after) crc32_init
      ∙ update_bytes-bitwise (y ∷ after) register in
    bit_xor_left_cancel register x y (
      bit_steps_injective 8 _ _ x' y' (
        bitwise_update_injective after _ _ ha (bit_steps-lt 8 _ x') (bit_steps-lt 8 _ y')
          (unfold bitwise_update in behind)))

-- Two messages of bytes that differ in one byte have different checksums.
pub crc32-differs :
    (before after : List ℕ) (x y : ℕ)
    → All IsByte before
    → All IsByte after
    → IsByte x
    → IsByte y
    → x ≢ y
    → crc32 (before ++ (x ∷ after)) ≢ crc32 (before ++ (y ∷ after))
crc32-differs before after x y hb ha hx hy ne e =
    ne (crc32_detects_byte before after x y hb ha hx hy e)
