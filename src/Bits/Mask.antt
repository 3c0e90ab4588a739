-- ===== src/Bits/Mask.antt =====
-- Masks of low bits, disjoint fields, and the power-of-two test.
use native.Mathlib.Nat.{pow-suc, one-le-pow, mod_self}
use qiran_firmware.Base.{ℕ, zero, suc, bit_and, bit_or, refl, ap, arith, ◌+◌, ◌-◌, ◌*◌, ◌/◌}
use qiran_firmware.Base.{◌%◌, ◌^◌, ◌<◌, ◌≡◌, ◌∙◌, ◌≢◌}
use qiran_firmware.Bits.Digits.{halving_induction, bit_and_step, bit_or_step}

pub bit_and-zero : (a : ℕ) → bit_and a 0 ≡ 0
bit_and-zero =
    halving_induction (λ a. bit_and a 0 ≡ 0) refl (λ n ih. omega (arith, bit_and_step (suc n) 0))

pub bit_or-zero : (a : ℕ) → bit_or a 0 ≡ a
bit_or-zero =
    halving_induction (λ a. bit_or a 0 ≡ a) refl (λ n ih. omega (arith, bit_or_step (suc n) 0))

pub bit_and_self : (a : ℕ) → bit_and a a ≡ a
bit_and_self =
    halving_induction (λ a. bit_and a a ≡ a) refl
      (λ n ih. omega (arith, bit_and_step (suc n) (suc n)))

double_pow : (q k : ℕ) → q * 2 ^ suc k ≡ 2 * (q * 2 ^ k)
double_pow q k = omega (arith, ap (λ (t : ℕ). q * t) (pow-suc 2 k))

-- A field above `k` bits joined to one that fits in them.
pub bit_or_disjoint :
    (k high low : ℕ) → low < 2 ^ k → bit_or (high * 2 ^ k) low ≡ high * 2 ^ k + low
bit_or_disjoint zero high low h = ground (arith, bit_or-zero high)
bit_or_disjoint (suc k) high low h = ground (
  arith,
  bit_or_step (high * 2 ^ suc k) low,
  double_pow high k,
  pow-suc 2 k,
  bit_or_disjoint k high (low / 2),
)

bit_and_low : (k high low : ℕ) → low < 2 ^ k → bit_and (high * 2 ^ k + low) (2 ^ k - 1) ≡ low
bit_and_low zero high low h = ground (arith, bit_and-zero (high * 1 + low))
bit_and_low (suc k) high low h = ground (
  arith,
  bit_and_step (high * 2 ^ suc k + low) (2 ^ suc k - 1),
  double_pow high k,
  pow-suc 2 k,
  one-le-pow k 2,
  bit_and_low k high (low / 2),
)

-- Masking with `2 ^ k - 1` is the remainder by `2 ^ k`.
pub bit_and_mask : (k a : ℕ) → bit_and a (2 ^ k - 1) ≡ a % 2 ^ k
bit_and_mask k a = ground (arith, one-le-pow k 2, bit_and_low k (a / 2 ^ k) (a % 2 ^ k))

half_pred : (n : ℕ) → suc (suc n) % 2 ≡ 0 → suc n / 2 ≡ suc (suc n) / 2 - 1
half_pred n h = omega arith

-- `c & (c - 1)` is 0 exactly at 0 and at the powers of two.
pub power_of_two_test : (c : ℕ) → bit_and c (c - 1) ≡ 0 → c ≢ 0 → (k : ℕ) × (c ≡ 2 ^ k)
power_of_two_test =
    halving_induction (λ c. bit_and c (c - 1) ≡ 0 → c ≢ 0 → (k : ℕ) × (c ≡ 2 ^ k))
      (λ h ne. absurd (ne refl)) step
  where
    step :
        (n : ℕ)
        → (bit_and (suc n / 2) (suc n / 2 - 1) ≡ 0 → suc n / 2 ≢ 0 → (k : ℕ) × (suc n / 2 ≡ 2 ^ k))
        → bit_and (suc n) (suc n - 1) ≡ 0
        → suc n ≢ 0
        → (k : ℕ) × (suc n ≡ 2 ^ k)
    step zero ih h ne = (0, refl)
    step (suc n) ih h ne =
        let small : suc n ≡ suc (suc n) - 1 = omega arith in
        let zero_test = ap (bit_and (suc (suc n))) small ∙ h in
        let even : suc (suc n) % 2 ≡ 0 =
          ground (arith, bit_and_step (suc (suc n)) (suc n), bit_and_self (suc (suc n) / 2)) in
        let same = ap (bit_and (suc (suc n) / 2)) (half_pred n even) in
        let (k, e) = ih (omega (arith, bit_and_step (suc (suc n)) (suc n), same)) (omega arith) in
        (suc k, omega (arith, pow-suc 2 k))

pub power_of_two_mask : (k : ℕ) → bit_and (2 ^ k) (2 ^ k - 1) ≡ 0
power_of_two_mask k = ground (arith, bit_and_mask k (2 ^ k), mod_self (2 ^ k))
