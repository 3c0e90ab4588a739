-- ===== src/Crc.antt =====
-- src/svc/svc_crc.c: the CRC-32 that covers every frame, packet, record and parameter block.
-- The buffer is the list of its bytes; a NULL buffer is `none`.
pub mod Bitwise
pub mod Table
pub mod Detect
mod Tests
use qiran_firmware.Base.{ℕ, bit_and, bit_xor, Option, none, some, List, [], get_or, shr, ◌∷◌}

abbrev pub k_nibble : List ℕ
k_nibble =
    0x00000000 ∷ 0x1DB71064 ∷ 0x3B6E20C8 ∷ 0x26D930AC ∷ 0x76DC4190 ∷ 0x6B6B51F4 ∷ 0x4DB26158
    ∷ 0x5005713C ∷ 0xEDB88320 ∷ 0xF00F9344 ∷ 0xD6D6A3E8 ∷ 0xCB61B38C ∷ 0x9B64C2B0 ∷ 0x86D3D2D4
    ∷ 0xA00AE278 ∷ 0xBDBDF21C ∷ []

abbrev pub crc32_init : ℕ
crc32_init = 0xFFFFFFFF

unfoldable pub nibble_step : ℕ → ℕ
nibble_step crc = bit_xor (get_or k_nibble (bit_and crc 0x0F) 0) (shr crc 4)

-- The loop of `svc_crc32_update`.
unfoldable pub update_bytes : ℕ → List ℕ → ℕ
update_bytes crc [] = crc
update_bytes crc (byte ∷ bytes) = update_bytes (nibble_step (nibble_step (bit_xor crc byte))) bytes

unfoldable pub crc32_update : ℕ → Option (List ℕ) → ℕ
crc32_update crc none = crc
crc32_update crc (some bytes) = update_bytes crc bytes

unfoldable pub crc32_finish : ℕ → ℕ
crc32_finish crc = bit_xor crc 0xFFFFFFFF

unfoldable pub crc32 : List ℕ → ℕ
unfolding crc32_update crc32_finish
crc32 bytes = crc32_finish (crc32_update crc32_init (some bytes))
