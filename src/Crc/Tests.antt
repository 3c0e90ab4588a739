-- ===== src/Crc/Tests.antt =====
-- The checksum of the standard's test string, and the properties at concrete bytes.
use qiran_firmware.Base.{ℕ, refl, List, [], arith, ◌≡◌, ◌≢◌, ◌∷◌, ◌++◌}
use qiran_firmware.Crc.{crc32_init, nibble_step, update_bytes, crc32}
use qiran_firmware.Crc.Bitwise.{bitwise_update}
use qiran_firmware.Crc.Table.{update_bytes-bitwise}
use qiran_firmware.Crc.Detect.{crc32-differs}

abbrev digits : List ℕ
digits = 0x31 ∷ 0x32 ∷ 0x33 ∷ 0x34 ∷ 0x35 ∷ 0x36 ∷ 0x37 ∷ 0x38 ∷ 0x39 ∷ []

-- "123456789", the check value of CRC-32.
crc32-digits : crc32 digits ≡ 0xCBF43926
unfolding crc32 update_bytes nibble_step
crc32-digits = refl

update_bytes-bitwise_example : update_bytes crc32_init digits ≡ bitwise_update crc32_init digits
update_bytes-bitwise_example = update_bytes-bitwise digits crc32_init

crc32-differs_example :
    crc32 ((0x31 ∷ []) ++ (0x32 ∷ (0x33 ∷ []))) ≢ crc32 ((0x31 ∷ []) ++ (0x72 ∷ (0x33 ∷ [])))
crc32-differs_example =
    crc32-differs (0x31 ∷ []) (0x33 ∷ []) 0x32 0x72 (omega arith) (omega arith) (omega arith)
      (omega arith) (λ e. ground (arith, e))
