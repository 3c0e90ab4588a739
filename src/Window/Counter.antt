-- ===== src/Window/Counter.antt =====
-- Free-running `uint32_t` counters masked on use: the masked head is where the window ends.
use native.Mathlib.Nat.{
  mod-mod_of_dvd, dvd_refl, dvd_trans, dvd-mul_right, pow-suc, pow-le-pow_right, one-le-pow, mod-lt,
}
use Prim.Native.Nat.{◌∣◌}
use qiran_firmware.Base.{ℕ, zero, suc, bit_and, sym, ap, ap₂, subst, List, [], arith, u32}
use qiran_firmware.Base.{sub32, update, ◌+◌, ◌-◌, ◌%◌, ◌^◌, ◌≤◌, ◌<◌, ◌≡◌, ◌∙◌, ◌≢◌, ◌∷◌}
use qiran_firmware.Base.{◌++◌}
use qiran_firmware.Bits.Mask.{bit_and_mask}
use qiran_firmware.Window.{window, window_append, window_same_index, window_ne_zero}

pow-dvd_up : (d k : ℕ) → k + d ≡ 32 → 2 ^ k ∣ 2 ^ 32
pow-dvd_up zero k e =
    let same : 32 ≡ k = omega arith in
    subst (λ (j : ℕ). 2 ^ k ∣ 2 ^ j) (sym same) (dvd_refl (2 ^ k))
pow-dvd_up (suc d) k e =
    dvd_trans (2 ^ k) (subst (λ (t : ℕ). 2 ^ k ∣ t) (sym (pow-suc 2 k)) (dvd-mul_right (2 ^ k) 2))
      (pow-dvd_up d (suc k) (omega arith))

-- A power of two up to `2 ^ 32` divides the range of the counter, so a counter that wraps keeps
-- its index.
index_wrap : (k t : ℕ) → k ≤ 31 → u32 t % 2 ^ k ≡ t % 2 ^ k
index_wrap k t h = mod-mod_of_dvd (2 ^ k) t (pow-dvd_up (32 - k) k (omega arith))

-- A buffer of `mask + 1` entries, a power of two, between the counters `tail` and `head`.
pub record IsCounted (width mask head tail : ℕ) : Type 0 where
  pub small : width ≤ 31
  pub masked : mask ≡ 2 ^ width - 1
  pub head_word : head < 2 ^ 32
  pub tail_word : tail < 2 ^ 32
  pub held : sub32 head tail ≤ 2 ^ width

module _ {width mask head tail : ℕ} (v : IsCounted width mask head tail) where
  size_pow : mask + 1 ≡ 2 ^ width
  size_pow = omega (arith, v.masked, one-le-pow width 2)

  pub size_bounds : (0 < mask + 1) × (mask + 1 ≤ 2 ^ 31)
  size_bounds =
      let most : 2 ^ width ≤ 2 ^ 31 = pow-le-pow_right (omega arith) v.small in
      (omega arith, omega (arith, size_pow))

  pub held_size : sub32 head tail ≤ mask + 1
  held_size = omega (arith, size_pow, v.held)

  masked_index : (t : ℕ) → bit_and t mask ≡ t % (mask + 1)
  masked_index t =
      ap (bit_and t) v.masked ∙ bit_and_mask width t ∙ ap (λ (m : ℕ). t % m) (sym size_pow)

  wrapped_index : (t : ℕ) → u32 t % (mask + 1) ≡ t % (mask + 1)
  wrapped_index t =
      ap (λ (m : ℕ). u32 t % m) size_pow
      ∙ index_wrap width t v.small
      ∙ ap (λ (m : ℕ). t % m) (sym size_pow)

  head_index : bit_and head mask ≡ (tail + sub32 head tail) % (mask + 1)
  head_index =
      ap (λ (h : ℕ). bit_and h mask) again
      ∙ masked_index (u32 (tail + sub32 head tail))
      ∙ wrapped_index (tail + sub32 head tail)
    where
      again : head ≡ u32 (tail + sub32 head tail)
      again = omega (arith, v.head_word, v.tail_word)

  -- Both counters index inside the buffer.
  pub in_bounds : (bit_and head mask < mask + 1) × (bit_and tail mask < mask + 1)
  in_bounds = (
    rw (masked_index head) (mod-lt _ size_bounds.0),
    rw (masked_index tail) (mod-lt _ size_bounds.0),
  )

  module _ {ℓ} {A : Type ℓ} (buf : ℕ → A) where
    abbrev pub held_entries : List A
    held_entries = window (mask + 1) buf tail (sub32 head tail)

    -- A write at the head of a buffer with room appends to what is held.
    pub counter_append :
        (x : A)
        → sub32 head tail ≤ mask
        → window (mask + 1) (update buf (bit_and head mask) x) tail (sub32 (u32 (head + 1)) tail)
          ≡ window (mask + 1) buf tail (sub32 head tail) ++ (x ∷ [])
    counter_append x room =
        ap (window (mask + 1) (update buf (bit_and head mask) x) tail) one_more
        ∙ window_append (mask + 1) buf tail (sub32 head tail) (bit_and head mask) x (omega arith)
            head_index
      where
        one_more : sub32 (u32 (head + 1)) tail ≡ suc (sub32 head tail)
        one_more = omega (arith, v.head_word, v.tail_word, size_bounds)

    -- The entry at the tail, and what is held behind it.
    pub counter_split :
        head ≢ tail
        → window (mask + 1) buf tail (sub32 head tail)
          ≡ buf (bit_and tail mask)
            ∷ window (mask + 1) buf (u32 (tail + 1)) (sub32 head (u32 (tail + 1)))
    counter_split ne =
        window_ne_zero (mask + 1) buf tail (sub32 head tail) some_held
        ∙ ap₂ ◌∷◌ (ap buf (sym (masked_index tail))) (
            ap (window (mask + 1) buf (tail + 1)) one_less
            ∙ window_same_index (mask + 1) buf (tail + 1) (u32 (tail + 1)) _
                (sym (wrapped_index (tail + 1))))
      where
        some_held : sub32 head tail ≢ 0
        some_held = omega (arith, v.head_word, v.tail_word)

        one_less : sub32 head tail - 1 ≡ sub32 head (u32 (tail + 1))
        one_less = omega (arith, v.head_word, v.tail_word)

  -- The counters after a write with room, and after a read.
  pub counted_write : sub32 head tail ≤ mask → IsCounted width mask (u32 (head + 1)) tail
  counted_write room = record {
    small = v.small;
    masked = v.masked;
    head_word = omega arith;
    tail_word = v.tail_word;
    held = omega (arith, v.head_word, v.tail_word, size_pow, size_bounds);
  }

  pub counted_read : head ≢ tail → IsCounted width mask head (u32 (tail + 1))
  counted_read ne = record {
    small = v.small;
    masked = v.masked;
    head_word = v.head_word;
    tail_word = omega arith;
    held = omega (arith, v.head_word, v.tail_word, v.held);
  }
