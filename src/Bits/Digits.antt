-- ===== src/Bits/Digits.antt =====
-- The native bit operations, one binary digit at a time.
use Prim.Native.Nat.{digits, differ, bit_and-bitwise, bit_or-bitwise, bit_xor-bitwise}
use qiran_firmware.Base.{ℕ, zero, suc, bit_and, bit_or, bit_xor, min, max, refl, arith, ◌+◌}
use qiran_firmware.Base.{◌*◌, ◌/◌, ◌%◌, ◌≤◌, ◌≡◌}

-- Induction from `n / 2` to `n`.
module _ {ℓ} (P : ℕ → Type ℓ) (base : P 0) (step : (n : ℕ) → P (suc n / 2) → P (suc n)) where
  halving_below : (bound n : ℕ) → n ≤ bound → P n
  halving_below bound zero h = base
  halving_below zero (suc n) h = absurd (omega arith)
  halving_below (suc bound) (suc n) h = step n (halving_below bound (suc n / 2) (omega arith))

  pub halving_induction : (n : ℕ) → P n
  halving_induction n = halving_below n n (omega arith)

module _ (rest : ℕ → ℕ) (digit : ℕ → ℕ → ℕ) where
  -- Two counts of digits that both suffice give one result.
  digits_agree : (n m x y : ℕ) → x ≤ n → x ≤ m → digits rest digit n x y ≡ digits rest digit m x y
  digits_agree zero zero zero y p q = refl
  digits_agree zero (suc m) zero y p q = refl
  digits_agree (suc n) zero zero y p q = refl
  digits_agree (suc n) (suc m) zero y p q = refl
  digits_agree zero m (suc x) y p q = absurd (omega arith)
  digits_agree (suc n) zero (suc x) y p q = absurd (omega arith)
  digits_agree (suc n) (suc m) (suc x) y p q =
      rw (digits_agree n m (suc x / 2) (y / 2) (omega arith) (omega arith))

  digits_head :
      (x y : ℕ)
      → digits rest digit (suc x) (suc x) y
        ≡ digits rest digit (suc x / 2) (suc x / 2) (y / 2) * 2 + digit (suc x % 2) (y % 2)
  digits_head x y = rw (digits_agree x (suc x / 2) (suc x / 2) (y / 2) (omega arith) (omega arith))

pub bit_and_step : (x y : ℕ) → bit_and x y ≡ bit_and (x / 2) (y / 2) * 2 + min (x % 2) (y % 2)
bit_and_step zero y = simp bit_and-bitwise (omega arith)
bit_and_step (suc x) y = simp bit_and-bitwise (digits_head (λ t. 0) min x y)

pub bit_or_step : (x y : ℕ) → bit_or x y ≡ bit_or (x / 2) (y / 2) * 2 + max (x % 2) (y % 2)
bit_or_step zero y = simp bit_or-bitwise (omega arith)
bit_or_step (suc x) y = simp bit_or-bitwise (digits_head (λ t. t) max x y)

pub bit_xor_step : (x y : ℕ) → bit_xor x y ≡ bit_xor (x / 2) (y / 2) * 2 + differ (x % 2) (y % 2)
bit_xor_step zero y = simp bit_xor-bitwise (omega arith)
bit_xor_step (suc x) y = simp bit_xor-bitwise (digits_head (λ t. t) differ x y)
