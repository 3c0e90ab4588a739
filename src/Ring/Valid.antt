-- ===== src/Ring/Valid.antt =====
-- The representation invariant of a ring.
use qiran_firmware.Base.{ℕ, List, length, sub32, ◌+◌, ◌≡◌}
use qiran_firmware.Window.{window, length-window}
use qiran_firmware.Window.Counter.{IsCounted}
use qiran_firmware.Ring.{Ring}

-- The capacity is `2 ^ width`, and at most that many bytes are held.
pub record IsValid (r : Ring) : Type 0 where
  pub width : ℕ
  pub counted : IsCounted width r.mask r.head r.tail

abbrev pub contents : Ring → List ℕ
contents r = window (r.mask + 1) r.buf r.tail (sub32 r.head r.tail)

pub length-contents : (r : Ring) → length (contents r) ≡ sub32 r.head r.tail
length-contents r = length-window (r.mask + 1) r.buf r.tail (sub32 r.head r.tail)
