-- ===== src/Window.antt =====
-- The entries of a circular buffer between two free-running counters. The byte ring, the fault
-- log and the interrupt queues keep their data so.
pub mod Counter
use native.Mathlib.Nat.{mod-add-mod, mod-eq_of_lt, mod-eq-sub-mod, mod-lt}
use qiran_firmware.Base.{ℕ, zero, suc, refl, sym, ap, ap₂, List, [], arith, dec_lt, length}
use qiran_firmware.Base.{update, update_self, update_ne, ◌+◌, ◌-◌, ◌%◌, ◌≤◌, ◌<◌, ◌≡◌, ◌∙◌}
use qiran_firmware.Base.{◌≢◌, ◌∷◌, ◌++◌}

-- Fewer than `size` steps on, the index is another one.
index_ne : (size t n : ℕ) → 0 < n → n < size → (t + n) % size ≢ t % size
index_ne size t n p q e = elim (dec_lt (t % size + n) size) [
  | yes below ↦
      let same : t % size + n ≡ t % size = sym (mod-eq_of_lt below) ∙ mod-add-mod t size n ∙ e in
      omega arith
  | no past ↦
      let r : t % size < size = mod-lt t (omega arith) in
      let past' : size ≤ t % size + n = omega arith in
      let back : t % size + n - size < size = omega arith in
      let same : t % size + n - size ≡ t % size =
        sym (mod-eq_of_lt back) ∙ sym (mod-eq-sub-mod past') ∙ mod-add-mod t size n ∙ e in
      omega arith
]

module _ {ℓ} {A : Type ℓ} (size : ℕ) where
  -- The `n` entries from counter `t` on: counter `t` stands at index `t % size`.
  abbrev pub window : (ℕ → A) → ℕ → ℕ → List A
  window buf t zero = []
  window buf t (suc n) = buf (t % size) ∷ window buf (t + 1) n

  pub length-window : (buf : ℕ → A) (t n : ℕ) → length (window buf t n) ≡ n
  length-window buf t zero = refl
  length-window buf t (suc n) = ap suc (length-window buf (t + 1) n)

  -- Only the index of the counter matters, so a counter may wrap at a multiple of `size`.
  pub window_same_index :
      (buf : ℕ → A) (s t n : ℕ) → s % size ≡ t % size → window buf s n ≡ window buf t n
  window_same_index buf s t zero e = refl
  window_same_index buf s t (suc n) e =
      ap₂ ◌∷◌ (ap buf e) (window_same_index buf (s + 1) (t + 1) n next)
    where
      next : (s + 1) % size ≡ (t + 1) % size
      next = sym (mod-add-mod s size 1) ∙ ap (λ (i : ℕ). (i + 1) % size) e ∙ mod-add-mod t size 1

  pub window_ne_zero :
      (buf : ℕ → A) (t n : ℕ) → n ≢ 0 → window buf t n ≡ buf (t % size) ∷ window buf (t + 1) (n - 1)
  window_ne_zero buf t zero h = absurd (h refl)
  window_ne_zero buf t (suc n) h = ap (λ k. window buf t (suc k)) (omega arith)

  -- Writing the entry behind a window that is not full appends to it.
  pub window_append :
      (buf : ℕ → A) (t n i : ℕ) (x : A)
      → n < size
      → i ≡ (t + n) % size
      → window (update buf i x) t (suc n) ≡ window buf t n ++ (x ∷ [])
  window_append buf t zero i x h e =
      ap (λ y. y ∷ [])
        (ap (update buf i x) (ap (λ (k : ℕ). k % size) (omega arith) ∙ sym e) ∙ update_self buf i x)
  window_append buf t (suc n) i x h e =
      ap₂ ◌∷◌
        (update_ne buf i (t % size) x (λ q. index_ne size t (suc n) (omega arith) h (sym e ∙ q)))
        (window_append buf (t + 1) n i x (omega arith) (e ∙ ap (λ (k : ℕ). k % size) (omega arith)))
