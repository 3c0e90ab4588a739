-- ===== src/Ring/Refine.antt =====
-- A valid ring behaves as the bounded FIFO of the bytes it holds, whatever its counters.
use qiran_firmware.Base.{ℕ, zero, suc, min, refl, List, [], arith, length, ◌+◌, ◌≡◌, ◌∷◌}
use qiran_firmware.Base.{◌++◌}
use qiran_firmware.Window.Counter.{counter_append, counter_split, counted_write, counted_read}
use qiran_firmware.Ring.{Ring, push, pop, read, run, Op, push_byte, pop_byte}
use qiran_firmware.Ring.Queue
use qiran_firmware.Ring.Queue.{Queue}
use qiran_firmware.Ring.Valid.{IsValid, contents, length-contents}

abbrev pub view : Ring → Queue
view r = record { bytes = contents r; refused = r.dropped }

-- `svc_ring_push` keeps the invariant, whether it takes the byte or refuses it.
pub push-IsValid : {r : Ring} (byte : ℕ) → IsValid r → IsValid (push r byte).1
unfolding push
push-IsValid {r} byte v = record {
  width = v.width;
  counted = ground (arith, counted_write v.counted);
}

-- `svc_ring_pop` keeps the invariant.
pub pop-IsValid : {r : Ring} → IsValid r → IsValid (pop r).1
unfolding pop
pop-IsValid {r} v = record { width = v.width; counted = ground (arith, counted_read v.counted) }

-- On a valid ring `svc_ring_push` returns what a push on the FIFO of its bytes returns, and the
-- bytes held and the count of drops become those of that FIFO.
pub push_refines :
    {r : Ring} (byte : ℕ)
    → IsValid r
    → let (done, r') = push r byte in (done, view r') ≡ Queue.push (r.mask + 1) (view r) byte
unfolding push Queue.push
push_refines {r} byte v = ground (arith, length-contents r, counter_append v.counted r.buf byte)

-- On a valid ring `svc_ring_pop` returns the oldest byte held, or nothing exactly when none is
-- held, and leaves the rest.
pub pop_refines :
    {r : Ring} → IsValid r → let (byte, r') = pop r in (byte, view r') ≡ Queue.pop (view r)
unfolding pop Queue.pop
pop_refines {r} v = ground (arith, counter_split v.counted r.buf)

mask-push : (r : Ring) (byte : ℕ) → (push r byte).1.mask ≡ r.mask
unfolding push
mask-push r byte = ground arith

mask-pop : (r : Ring) → (pop r).1.mask ≡ r.mask
unfolding pop
mask-pop r = ground arith

-- In whatever order the interrupt pushes and the loop pops, and however often the counters wrap,
-- each call on a valid ring answers as the bounded FIFO of the bytes it held at the start.
pub run_refines :
    (ops : List Op) {r : Ring} → IsValid r → run r ops ≡ Queue.run (r.mask + 1) (view r) ops
unfolding run Queue.run
run_refines [] v = refl
run_refines (push_byte b ∷ ops) v =
    rw (← push_refines b v, run_refines ops (push-IsValid b v), mask-push)
run_refines (pop_byte ∷ ops) v = rw (← pop_refines v, run_refines ops (pop-IsValid v), mask-pop)

-- What `svc_ring_read` hands over, with what is left.
pub record HasRead (r : Ring) (limit : ℕ) (result : List ℕ × Ring) : Type 0 where
  pub valid : IsValid result.1
  pub in_order : result.0 ++ contents result.1 ≡ contents r
  pub as_many : length result.0 ≡ min limit (length (contents r))

-- On a valid ring `svc_ring_read` returns the oldest bytes in order, as many as are held up to
-- `max`, and leaves the rest in a valid ring.
pub read-HasRead : (limit : ℕ) {r : Ring} → IsValid r → HasRead r limit (read r limit)
unfolding read Queue.pop
read-HasRead zero v = record { valid = v; in_order = refl; as_many = omega arith }
read-HasRead (suc limit) {r} v =
    let rest = read-HasRead limit (pop-IsValid v) in
    record {
      valid = ground (arith, rest.valid, pop-IsValid v);
      in_order = ground (arith, rest.in_order, pop_refines v);
      as_many = ground (arith, rest.as_many, pop_refines v);
    }
