-- ===== src/Ccsds/Bytes.antt =====
-- Packed integers are read back as they were written.
use qiran_firmware.Base.{ℕ, bit_or, inl, arith, ◌+◌, ◌*◌, ◌/◌, ◌%◌, ◌^◌, ◌≤◌, ◌<◌, ◌≡◌, ◌⊎◌}
use qiran_firmware.Bits.Mask.{bit_and_mask, bit_or_disjoint}
use qiran_firmware.Ccsds.{Buffer, put_u16, put_u32, get_u16, get_u32}

-- What `comm_put_u16` writes: two bytes, most significant first, and nothing else.
pub put_u16_bytes :
    (buf : Buffer) (at v : ℕ)
    → v < 2 ^ 16
    → let b = (put_u16 buf at v).0 in
      (b at ≡ v / 256) × (b (at + 1) ≡ v % 256) × ((i : ℕ) → (i < at) ⊎ (at + 2 ≤ i) → b i ≡ buf i)
unfolding put_u16
put_u16_bytes buf at v h =
    (ground (arith, h), ground (arith, bit_and_mask 8 v), λ i out. ground (arith, out))

pub get_u16_value :
    (buf : Buffer) (at : ℕ)
    → buf at < 256
    → buf (at + 1) < 256
    → get_u16 buf at ≡ 256 * buf at + buf (at + 1)
unfolding get_u16
get_u16_value buf at p q = ground (arith, p, q, bit_or_disjoint 8 (buf at) (buf (at + 1)) q)

-- A 16-bit value is read back as it was written.
pub get_u16-put_u16 : (buf : Buffer) (at v : ℕ) → v < 2 ^ 16 → get_u16 (put_u16 buf at v).0 at ≡ v
get_u16-put_u16 buf at v h =
    let b = (put_u16 buf at v).0 in
    let (high, low, _) = put_u16_bytes buf at v h in
    ground (arith, high, low, h, get_u16_value b at)

pub put_u32_bytes :
    (buf : Buffer) (at v : ℕ)
    → v < 2 ^ 32
    → let b = (put_u32 buf at v).0 in
      (b at ≡ v / 2 ^ 24)
      × (b (at + 1) ≡ v / 2 ^ 16 % 256)
      × (b (at + 2) ≡ v / 256 % 256)
      × (b (at + 3) ≡ v % 256)
      × ((i : ℕ) → (i < at) ⊎ (at + 4 ≤ i) → b i ≡ buf i)
unfolding put_u32
put_u32_bytes buf at v h = (
  ground (arith, h),
  ground (arith, h, bit_and_mask 8 (v / 2 ^ 16)),
  ground (arith, h, bit_and_mask 8 (v / 256)),
  ground (arith, bit_and_mask 8 v),
  λ i out. ground (arith, out),
)

pub get_u32_value :
    (buf : Buffer) (at : ℕ)
    → buf at < 256
    → buf (at + 1) < 256
    → buf (at + 2) < 256
    → buf (at + 3) < 256
    → get_u32 buf at ≡ 2 ^ 24 * buf at + 2 ^ 16 * buf (at + 1) + 256 * buf (at + 2) + buf (at + 3)
unfolding get_u32
get_u32_value buf at p q r t =
    let a = buf at in
    let b = buf (at + 1) in
    let c = buf (at + 2) in
    let e : bit_or (a * 2 ^ 24) (b * 2 ^ 16) ≡ a * 2 ^ 24 + b * 2 ^ 16 =
      bit_or_disjoint 24 a (b * 2 ^ 16) (omega arith) in
    let f : bit_or ((a * 2 ^ 8 + b) * 2 ^ 16) (c * 2 ^ 8) ≡ (a * 2 ^ 8 + b) * 2 ^ 16 + c * 2 ^ 8 =
      bit_or_disjoint 16 (a * 2 ^ 8 + b) (c * 2 ^ 8) (omega arith) in
    let g = bit_or_disjoint 8 (a * 2 ^ 16 + b * 2 ^ 8 + c) (buf (at + 3)) t in
    ground (arith, p, q, r, t, e, f, g)

-- A 32-bit value is read back as it was written.
pub get_u32-put_u32 : (buf : Buffer) (at v : ℕ) → v < 2 ^ 32 → get_u32 (put_u32 buf at v).0 at ≡ v
get_u32-put_u32 buf at v h =
    let b = (put_u32 buf at v).0 in
    let (b0, b1, b2, b3, _) = put_u32_bytes buf at v h in
    ground (arith, b0, b1, b2, b3, h, get_u32_value b at)

pub get_u32_near :
    (b c : Buffer) (at : ℕ)
    → ((i : ℕ) → at ≤ i → i < at + 4 → b i ≡ c i)
    → get_u32 b at ≡ get_u32 c at
unfolding get_u32
get_u32_near b c at h = ground (
  arith,
  h at (omega arith) (omega arith),
  h (at + 1) (omega arith) (omega arith),
  h (at + 2) (omega arith) (omega arith),
  h (at + 3) (omega arith) (omega arith),
)

pub get_u32_kept :
    (b : Buffer) (at at' v : ℕ)
    → v < 2 ^ 32
    → at' + 4 ≤ at
    → get_u32 (put_u32 b at v).0 at' ≡ get_u32 b at'
get_u32_kept b at at' v fits h =
    let (_, _, _, _, same) = put_u32_bytes b at v fits in
    get_u32_near (put_u32 b at v).0 b at' (λ i p q. same i (inl (omega arith)))

-- Packing stores bytes.
pub put_u32-lt :
    (b : Buffer) (at v i : ℕ) → (i < at → b i < 256) → i < at + 4 → (put_u32 b at v).0 i < 256
unfolding put_u32
put_u32-lt b at v i h lt = ground arith

pub put_u16-lt :
    (b : Buffer) (at v i : ℕ) → (i < at → b i < 256) → i < at + 2 → (put_u16 b at v).0 i < 256
unfolding put_u16
put_u16-lt b at v i h lt = ground arith
