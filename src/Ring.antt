-- ===== src/Ring.antt =====
-- src/svc/svc_ring.c: a byte ring between one interrupt and one consumer. The storage is a
-- function of its index, and a pointer argument that the source tests for NULL is an `Option`.
pub mod Queue
pub mod Valid
pub mod Refine
pub mod Init
mod Tests
use qiran_firmware.Base.{ℕ, zero, suc, bit_and, Bool, true, false, Option, none, some, List}
use qiran_firmware.Base.{[], ltb, u32, sub32, update, ◌+◌, ◌-◌, ◌∷◌, ◌==◌, if◌then◌else◌}
use qiran_firmware.Status.{Status, ok, err_param}

-- `svc_ring_t`.
pub record Ring : Type 0 where
  pub buf : ℕ → ℕ
  pub mask : ℕ
  pub head : ℕ
  pub tail : ℕ
  pub dropped : ℕ

unfoldable pub init : Ring → Option (ℕ → ℕ) → ℕ → Status × Ring
init r none capacity = (err_param, r)
init r (some storage) capacity =
    if capacity == 0
    then (err_param, r)
    else if bit_and capacity (capacity - 1) == 0
    then (ok, record { buf = storage; mask = capacity - 1; head = 0; tail = 0; dropped = 0 })
    else (err_param, r)

unfoldable pub reset : Ring → Ring
reset r = record r { head = 0; tail = 0; dropped = 0 }

unfoldable pub push : Ring → ℕ → Bool × Ring
push r byte =
    if ltb r.mask (sub32 r.head r.tail)
    then (false, record r { dropped = u32 (r.dropped + 1) })
    else (
      true,
      record r { buf = update r.buf (bit_and r.head r.mask) byte; head = u32 (r.head + 1) },
    )

-- The option is what goes through `out`.
unfoldable pub pop : Ring → Option ℕ × Ring
pop r =
    if r.head == r.tail
    then (none, r)
    else (some (r.buf (bit_and r.tail r.mask)), record r { tail = u32 (r.tail + 1) })

-- The loop of `svc_ring_read` with `max - n` rounds left; the list is what it writes to `out`.
unfoldable pub read : Ring → ℕ → List ℕ × Ring
read r zero = ([], r)
read r (suc rounds) =
    let (byte, r') = pop r in
    elim byte [ none ↦ ([], r') | some b ↦ let (bytes, r'') = read r' rounds in (b ∷ bytes, r'') ]

unfoldable pub count : Ring → ℕ
count r = sub32 r.head r.tail

unfoldable pub free : Ring → ℕ
free r = sub32 (u32 (r.mask + 1)) (sub32 r.head r.tail)

-- The producer and the consumer run in any order: an interrupt pushes, the loop pops.
pub data Op : Type 0 where
  push_byte : ℕ → Op
  pop_byte : Op

pub data Reply : Type 0 where
  pushed : Bool → Reply
  popped : Option ℕ → Reply

unfoldable pub run : Ring → List Op → List Reply
run r [] = []
run r (push_byte b ∷ ops) = let (done, r') = push r b in pushed done ∷ run r' ops
run r (pop_byte ∷ ops) = let (byte, r') = pop r in popped byte ∷ run r' ops
