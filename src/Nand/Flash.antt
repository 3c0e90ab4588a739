-- ===== src/Nand/Flash.antt =====
-- The memory device as its data sheet describes it: what is written is what is read.
use qiran_firmware.Base.{ℕ, ltb, leb, ◌+◌, ◌-◌, ◌<◌, ◌≡◌, ◌&&◌, if◌then◌else◌}
use qiran_firmware.Status.{ok}
use qiran_firmware.Ccsds.{Buffer}
use qiran_firmware.Nand.{Ops}

-- The contents of the memory after a write.
abbrev pub written : (ℕ → ℕ) → ℕ → Buffer → ℕ → ℕ → ℕ
written mem at src len a = if leb at a && ltb a (at + len) then src (a - at) else mem a

-- A device with contents `mem`: a write that succeeds changes its range only, a read succeeds,
-- fills its range of the buffer from the contents, and changes nothing.
pub record IsFlash {W : Type 0} (ops : Ops W) (mem : W → ℕ → ℕ) : Type 0 where
  pub writes :
      (at : ℕ) (src : Buffer) (len : ℕ) (w : W)
      → (ops.write at src len w).0 ≡ ok
      → (a : ℕ) → mem (ops.write at src len w).1 a ≡ written (mem w) at src len a
  pub reads :
      (at : ℕ) (dst : Buffer) (len : ℕ) (w : W)
      → ((ops.read at dst len w).0 ≡ ok)
        × ((i : ℕ) → i < len → (ops.read at dst len w).1 i ≡ mem w (at + i))
        × ((a : ℕ) → mem (ops.read at dst len w).2 a ≡ mem w a)
