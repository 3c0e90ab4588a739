-- ===== src/Ring/Init.antt =====
-- Which capacities `svc_ring_init` takes.
use native.Mathlib.Nat.{pow-le-pow_right, one-le-pow}
use qiran_firmware.Base.{ℕ, some, [], arith, dec_le, ◌+◌, ◌^◌, ◌≤◌, ◌<◌, ◌≡◌, ◌↔◌}
use qiran_firmware.Status.{ok}
use qiran_firmware.Bits.Mask.{power_of_two_test, power_of_two_mask}
use qiran_firmware.Ring.{Ring, init, count, free}
use qiran_firmware.Ring.Valid.{IsValid, contents}
use qiran_firmware.Window.Counter.{size_bounds, held_size}

-- A power of two below `2 ^ 32` has an exponent below 32.
exponent_small : (k c : ℕ) → c ≡ 2 ^ k → c < 2 ^ 32 → k ≤ 31
exponent_small k c e h = elim (dec_le k 31) [
  | yes small ↦ small
  | no large ↦
      let more : 2 ^ 32 ≤ 2 ^ k = pow-le-pow_right (omega arith) {i = 32} (omega arith) in
      absurd (omega arith)
]

-- With storage, `svc_ring_init` succeeds exactly at the powers of two.
pub init-ok_iff :
    (r : Ring) (storage : ℕ → ℕ) (capacity : ℕ)
    → ((init r (some storage) capacity).0 ≡ ok) ↔ ((k : ℕ) × (capacity ≡ 2 ^ k))
unfolding init
init-ok_iff r storage capacity = (accepted, given)
  where
    accepted : (init r (some storage) capacity).0 ≡ ok → (k : ℕ) × (capacity ≡ 2 ^ k)
    accepted h = power_of_two_test capacity (ground arith) (ground arith)

    given : (k : ℕ) × (capacity ≡ 2 ^ k) → (init r (some storage) capacity).0 ≡ ok
    given (k, e) = ground (arith, one-le-pow k 2, power_of_two_mask k, e)

-- A ring that `svc_ring_init` set up with a `uint32_t` capacity is valid and empty, over the
-- storage it was given, and its capacity is the one asked for.
pub init-IsValid :
    (r : Ring) (storage : ℕ → ℕ) (capacity : ℕ)
    → capacity < 2 ^ 32
    → (init r (some storage) capacity).0 ≡ ok
    → let r' = (init r (some storage) capacity).1 in
      IsValid r' × (contents r' ≡ []) × (r'.mask + 1 ≡ capacity)
unfolding init
init-IsValid r storage capacity h e =
    let (k, power) = (init-ok_iff r storage capacity).0 e in
    let positive = one-le-pow k 2 (omega arith) in
    (
      record {
        width = k;
        counted = ground (arith, power, positive, exponent_small k capacity power h);
      },
      ground (arith, power, positive),
      ground (arith, power, positive),
    )

-- The bytes held and the room left make up the capacity.
pub free-add-count : {r : Ring} → IsValid r → free r + count r ≡ r.mask + 1
unfolding free count
free-add-count {r} v = omega (arith, size_bounds v.counted, held_size v.counted)
