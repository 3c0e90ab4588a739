-- ===== src/Base/Word.antt =====
-- The fixed-width arithmetic of C, with its wrap-around written out.
use Prim.Native.Nat.{ℕ, ◌+◌, ◌-◌, ◌*◌, ◌/◌, ◌%◌, ◌^◌}
use mathlib.Core.Bool.{Bool}
use qiran_firmware.Base.Tests.{leb}

abbrev pub u8 : ℕ → ℕ
u8 n = n % 2 ^ 8

abbrev pub u16 : ℕ → ℕ
u16 n = n % 2 ^ 16

abbrev pub u32 : ℕ → ℕ
u32 n = n % 2 ^ 32

abbrev pub u64 : ℕ → ℕ
u64 n = n % 2 ^ 64

-- uint32_t subtraction of values below 2 ^ 32.
abbrev pub sub32 : ℕ → ℕ → ℕ
sub32 a b = (a + 2 ^ 32 - b) % 2 ^ 32

abbrev pub sub64 : ℕ → ℕ → ℕ
sub64 a b = (a + 2 ^ 64 - b) % 2 ^ 64

abbrev pub shl : ℕ → ℕ → ℕ
shl x k = x * 2 ^ k

abbrev pub shr : ℕ → ℕ → ℕ
shr x k = x / 2 ^ k

-- An int32_t is its bit pattern, below 2 ^ 32; shifting both sides makes the order that of ℕ.
abbrev pub int32_key : ℕ → ℕ
int32_key a = (a + 2 ^ 31) % 2 ^ 32

abbrev pub int32_le : ℕ → ℕ → Bool
int32_le a b = leb (int32_key a) (int32_key b)
