-- ===== src/Bits/Xor.antt =====
-- Laws of `^`: a group of which every element is its own inverse, linear over shifts.
use Prim.Native.Nat.{differ, bit_xor-bitwise}
use native.Mathlib.Nat.{pow-suc}
use qiran_firmware.Base.{ℕ, zero, suc, bit_xor, refl, sym, ap, arith, ◌+◌, ◌*◌, ◌/◌, ◌%◌, ◌^◌}
use qiran_firmware.Base.{◌<◌, ◌≡◌, ◌∙◌}
use qiran_firmware.Bits.Digits.{halving_induction, bit_xor_step}

differ_digits : (a b : ℕ) → a < 2 → b < 2 → differ a b ≡ (a + b) % 2
differ_digits zero b p q = omega arith
differ_digits (suc zero) zero p q = refl
differ_digits (suc zero) (suc zero) p q = refl
differ_digits (suc zero) (suc (suc b)) p q = absurd (omega arith)
differ_digits (suc (suc a)) b p q = absurd (omega arith)

-- The lowest digit and the rest, in the form that `omega` reads.
pub bit_xor_halves :
    (a b : ℕ) → (bit_xor a b / 2 ≡ bit_xor (a / 2) (b / 2)) × (bit_xor a b % 2 ≡ (a + b) % 2)
bit_xor_halves a b =
    omega (arith, bit_xor_step a b, differ_digits (a % 2) (b % 2) (omega arith) (omega arith))

pub zero-bit_xor : (b : ℕ) → bit_xor 0 b ≡ b
zero-bit_xor b = bit_xor-bitwise 0 b

pub bit_xor-zero : (a : ℕ) → bit_xor a 0 ≡ a
bit_xor-zero =
    halving_induction (λ a. bit_xor a 0 ≡ a) refl (λ n ih. omega (arith, bit_xor_halves (suc n) 0))

pub bit_xor_self : (a : ℕ) → bit_xor a a ≡ 0
bit_xor_self =
    halving_induction (λ a. bit_xor a a ≡ 0) refl
      (λ n ih. omega (arith, bit_xor_halves (suc n) (suc n)))

pub bit_xor_comm : (a b : ℕ) → bit_xor a b ≡ bit_xor b a
bit_xor_comm =
    halving_induction (λ a. (b : ℕ) → bit_xor a b ≡ bit_xor b a)
      (λ b. zero-bit_xor b ∙ sym (bit_xor-zero b))
      (λ n ih b. omega (arith, bit_xor_halves (suc n) b, bit_xor_halves b (suc n), ih (b / 2)))

assoc_step :
    (n b c : ℕ)
    → bit_xor (bit_xor (suc n / 2) (b / 2)) (c / 2) ≡ bit_xor (suc n / 2) (bit_xor (b / 2) (c / 2))
    → bit_xor (bit_xor (suc n) b) c ≡ bit_xor (suc n) (bit_xor b c)
assoc_step n b c ih =
    let left = bit_xor_halves (bit_xor (suc n) b) c in
    let right = bit_xor_halves (suc n) (bit_xor b c) in
    let inner = bit_xor_halves (suc n) b in
    let outer = bit_xor_halves b c in
    let upper : bit_xor (bit_xor (suc n) b) c / 2 ≡ bit_xor (suc n) (bit_xor b c) / 2 =
      cc (left.0, right.0, inner.0, outer.0) in
    omega arith

pub bit_xor_assoc : (a b c : ℕ) → bit_xor (bit_xor a b) c ≡ bit_xor a (bit_xor b c)
bit_xor_assoc =
    halving_induction (λ a. (b c : ℕ) → bit_xor (bit_xor a b) c ≡ bit_xor a (bit_xor b c))
      (λ b c. ap (λ t. bit_xor t c) (zero-bit_xor b) ∙ sym (zero-bit_xor (bit_xor b c)))
      (λ n ih b c. assoc_step n b c (ih (b / 2) (c / 2)))

pub bit_xor-lt : (k a b : ℕ) → a < 2 ^ k → b < 2 ^ k → bit_xor a b < 2 ^ k
bit_xor-lt zero a b p q = ground (arith, bit_xor_self 0)
bit_xor-lt (suc k) a b p q = omega (
  arith,
  pow-suc 2 k,
  bit_xor_halves a b,
  bit_xor-lt k (a / 2) (b / 2) (omega (arith, pow-suc 2 k)) (omega (arith, pow-suc 2 k)),
)

-- A value above `k` bits, and one that fits in them, add up.
pub bit_xor_disjoint :
    (k high low : ℕ) → low < 2 ^ k → bit_xor (high * 2 ^ k) low ≡ high * 2 ^ k + low
bit_xor_disjoint zero high low h =
    ap (bit_xor (high * 1)) (zero_of_small low h) ∙ bit_xor-zero (high * 1) ∙ omega arith
  where
    zero_of_small : (l : ℕ) → l < 1 → l ≡ 0
    zero_of_small l q = omega arith
bit_xor_disjoint (suc k) high low h =
    let rest = bit_xor_disjoint k high (low / 2) (omega (arith, pow-suc 2 k)) in
    omega (arith, bit_xor_halves (high * 2 ^ suc k) low, shifted, rest, pow-suc 2 k, double)
  where
    double : high * 2 ^ suc k ≡ 2 * (high * 2 ^ k)
    double = omega (arith, ap (λ (t : ℕ). high * t) (pow-suc 2 k))

    shifted : bit_xor (high * 2 ^ suc k / 2) (low / 2) ≡ bit_xor (high * 2 ^ k) (low / 2)
    shifted = ap (λ (t : ℕ). bit_xor t (low / 2)) (omega (arith, double))

-- The four parts of two sums regroup.
pub bit_xor_regroup :
    (a b c d : ℕ) → bit_xor (bit_xor a b) (bit_xor c d) ≡ bit_xor (bit_xor a c) (bit_xor b d)
bit_xor_regroup a b c d =
    bit_xor_assoc a b (bit_xor c d)
    ∙ ap (bit_xor a)
        (sym (bit_xor_assoc b c d) ∙ ap (λ t. bit_xor t d) (bit_xor_comm b c) ∙ bit_xor_assoc c b d)
    ∙ sym (bit_xor_assoc a c (bit_xor b d))

-- Adding a value twice changes nothing.
pub bit_xor_cancel : (a b : ℕ) → bit_xor (bit_xor a b) b ≡ a
bit_xor_cancel a b = bit_xor_assoc a b b ∙ ap (bit_xor a) (bit_xor_self b) ∙ bit_xor-zero a

pub bit_xor_left_cancel : (a b c : ℕ) → bit_xor a b ≡ bit_xor a c → b ≡ c
bit_xor_left_cancel a b c e =
    sym (bit_xor_cancel b a)
    ∙ ap (λ t. bit_xor t a) (bit_xor_comm b a ∙ e ∙ bit_xor_comm a c)
    ∙ bit_xor_cancel c a
