-- ===== src/Config/Valid.antt =====
-- Every parameter stays inside its limits, whatever is set, loaded or repaired.
use qiran_firmware.Base.{ℕ, zero, suc, refl, sym, ap, subst, inl, inr, true, false, some}
use qiran_firmware.Base.{arith, dec_lt, ℕ_discrete, ltb, Bool-cases, Option-cases, update}
use qiran_firmware.Base.{update_self, update_ne, all_below, all_below_at, ◌+◌, ◌≤◌, ◌<◌, ◌≡◌}
use qiran_firmware.Base.{◌∙◌, ◌≢◌, ◌⊎◌}
use qiran_firmware.Status.{Status, is_ok, ok, err_range}
use qiran_firmware.Services.{Services}
use qiran_firmware.Config
use qiran_firmware.Config.{
  Config, Storage, Image, image_of, image_status, live_crc, count_outside, defaults_from,
  load_defaults, set, take_value, take_values, take_image, read_params, read_calibration,
  settle_params, load, load_from, repair, verify, config_magic, config_version,
}
use qiran_firmware.Config.Table.{param_count, def_of, in_range}

defaults_checked : all_below (λ i. in_range i (def_of i).default) param_count ≡ true
unfolding in_range def_of
defaults_checked = refl

pub default-in_range : (i : ℕ) → i < param_count → in_range i (def_of i).default ≡ true
default-in_range i lt =
    all_below_at (λ i. in_range i (def_of i).default) param_count i defaults_checked lt

-- Every parameter is inside its limits and the checksum is that of the values.
pub record IsSound {W : Type 0} (c : Config W) : Type 0 where
  pub in_limits : (i : ℕ) → i < param_count → in_range i (c.value i) ≡ true
  pub checked : live_crc c.value ≡ c.live_crc

pub defaults_from_value :
    (n i : ℕ) (value : ℕ → ℕ) (j : ℕ)
    → ((i ≤ j) × (j < i + n) × (defaults_from n i value j ≡ (def_of j).default))
      ⊎ (((j < i) ⊎ (i + n ≤ j)) × (defaults_from n i value j ≡ value j))
unfolding defaults_from
defaults_from_value zero i value j = inr (ground arith, refl)
defaults_from_value (suc n) i value j =
    elim (defaults_from_value n (i + 1) (update value i (def_of i).default) j) [
      | inl (p, q, e) ↦ inl (omega arith, omega arith, e)
      | inr (p, e) ↦ elim (ℕ_discrete i j) [
        | yes same ↦ inl (
          omega arith,
          omega arith,
          e
              ∙ ap (update value i (def_of i).default) (sym same)
              ∙ update_self value i (def_of i).default
              ∙ ap (λ k. (def_of k).default) same,
        )
        | no ne ↦ inr (ground (arith, p, ne), e ∙ update_ne value i j (def_of i).default ne)
      ]
    ]

module _ {W : Type 0} where
  pub load_defaults-IsSound : (c : Config W) → IsSound (load_defaults c)
  unfolding load_defaults
  load_defaults-IsSound c = record {
    in_limits = λ i lt. elim (defaults_from_value param_count 0 c.value i) [
      | inl (p, q, e) ↦ ap (in_range i) e ∙ default-in_range i lt
      | inr (p, e) ↦ absurd (ground (arith, p))
    ];
    checked = refl;
  }

  -- What `take_value` leaves in its own place is inside its limits.
  take_value_self :
      (i stored k : ℕ) (c : Config W) (s : Services)
      → i < param_count
      → in_range i ((take_value i stored k c s).1.value i) ≡ true
  unfolding take_value
  take_value_self i stored k c s lt = elim (Bool-cases (in_range i stored)) [
    | inl h ↦ rw h (rw (update_self c.value i stored) h)
    | inr h ↦ rw h (rw (update_self c.value i (def_of i).default) (default-in_range i lt))
  ]

  pub take_value_other :
      (i stored k : ℕ) (c : Config W) (s : Services) (j : ℕ)
      → i ≢ j
      → (take_value i stored k c s).1.value j ≡ c.value j
  unfolding take_value
  take_value_other i stored k c s j ne = elim (Bool-cases (in_range i stored)) [
    | inl h ↦ rw h (update_ne c.value i j stored ne)
    | inr h ↦ rw h (update_ne c.value i j (def_of i).default ne)
  ]

  pub take_values_other :
      (n i : ℕ) (stored : ℕ → ℕ) (k : ℕ) (c : Config W) (s : Services) (j : ℕ)
      → (j < i) ⊎ (i + n ≤ j)
      → (take_values n i stored k c s).1.value j ≡ c.value j
  unfolding take_values
  take_values_other zero i stored k c s j h = refl
  take_values_other (suc n) i stored k c s j h =
      let (k', c', s') = take_value i (stored i) k c s in
      take_values_other n (i + 1) stored k' c' s' j (ground (arith, h))
      ∙ take_value_other i (stored i) k c s j (ground (arith, h))

  take_values_in :
      (n i : ℕ) (stored : ℕ → ℕ) (k : ℕ) (c : Config W) (s : Services) (j : ℕ)
      → i ≤ j
      → j < i + n
      → j < param_count
      → in_range j ((take_values n i stored k c s).1.value j) ≡ true
  unfolding take_values
  take_values_in zero i stored k c s j p q r = absurd (omega arith)
  take_values_in (suc n) i stored k c s j p q r =
      let (k', c', s') = take_value i (stored i) k c s in
      elim (ℕ_discrete i j) [
        | yes e ↦
            ap (in_range j) (take_values_other n (i + 1) stored k' c' s' j (inl (omega arith)))
            ∙ subst (λ m. in_range m (c'.value m) ≡ true) e
                (take_value_self i (stored i) k c s (omega arith))
        | no ne ↦ take_values_in n (i + 1) stored k' c' s' j (omega arith) (omega arith) r
      ]

  -- Where the stored block ends, what was there stays.
  pub take_image_beyond :
      (m : Image) (c : Config W) (s : Services) (j : ℕ)
      → m.count ≤ j
      → (take_image m c s).1.value j ≡ c.value j
  unfolding take_image
  take_image_beyond m c s j h = elim (Bool-cases (ltb m.count param_count)) [
    | inl few ↦ rw few (take_values_other m.count 0 m.value 0 c s j (inr (omega arith)))
    | inr all ↦
        rw all (take_values_other param_count 0 m.value 0 c s j (inr (ground (arith, all, h))))
  ]

  -- Up to where the stored block ends, or where it was so before, values are inside their limits.
  pub take_image_in :
      (m : Image) (c : Config W) (s : Services) (j : ℕ)
      → j < param_count
      → (j < m.count) ⊎ (in_range j (c.value j) ≡ true)
      → in_range j ((take_image m c s).1.value j) ≡ true
  unfolding take_image
  take_image_in m c s j lt h = elim (Bool-cases (ltb m.count param_count)) [
    | inr all ↦ rw all (take_values_in param_count 0 m.value 0 c s j (omega arith) (omega arith) lt)
    | inl few ↦ rw few (elim (dec_lt j m.count) [
      | yes p ↦ take_values_in m.count 0 m.value 0 c s j (omega arith) (omega arith) lt
      | no np ↦ elim h [
        | inl p ↦ absurd (np p)
        | inr e ↦
            ap (in_range j) (take_values_other m.count 0 m.value 0 c s j (inr (omega arith))) ∙ e
      ]
    ])
  ]

  pub take_image_fresh :
      (m : Image) (c : Config W) (s : Services)
      → live_crc (take_image m c s).1.value ≡ (take_image m c s).1.live_crc
  unfolding take_image
  take_image_fresh m c s = refl

  pub take_image-IsSound :
      (m : Image) (c : Config W) (s : Services)
      → ((j : ℕ) → j < param_count → (j < m.count) ⊎ (in_range j (c.value j) ≡ true))
      → IsSound (take_image m c s).1
  take_image-IsSound m c s h = record {
    in_limits = λ j lt. take_image_in m c s j lt (h j lt);
    checked = take_image_fresh m c s;
  }

  -- `read_params` leaves the state alone or takes an image.
  pub read_params-cases :
      (st : Storage W) (c : Config W) (w : W) (s : Services)
      → let m = image_of (st.read Config.offset_params Config.image_bytes w).1 in
        let (r, c', w', s') = read_params st c w s in
        ((is_ok r ≡ false) × (c' ≡ c)) ⊎ ((r ≡ (take_image m c s).0) × (c' ≡ (take_image m c s).1))
  unfolding read_params
  read_params-cases st c w s =
      let m = image_of (st.read Config.offset_params Config.image_bytes w).1 in
      elim (Bool-cases (is_ok (st.read Config.offset_params Config.image_bytes w).0)) [
        | inr e ↦ inl (rw e refl, rw e refl)
        | inl e ↦ elim (Bool-cases (is_ok (image_status m))) [
          | inr f ↦ inl (rw e (rw f refl), rw e (rw f refl))
          | inl f ↦ inr (rw e (rw f refl), rw e (rw f refl))
        ]
      ]

  read_params-IsSound :
      (st : Storage W) (c : Config W) (w : W) (s : Services)
      → IsSound c
      → IsSound (read_params st c w s).1
  read_params-IsSound st c w s v = elim (read_params-cases st c w s) [
    | inl (_, e) ↦ subst IsSound (sym e) v
    | inr (_, e) ↦ subst IsSound (sym e) (
        take_image-IsSound (image_of (st.read Config.offset_params Config.image_bytes w).1) c s
          (λ j lt. inr (v.in_limits j lt)))
  ]

  settle_params-IsSound :
      (r : Status) (c : Config W) (s : Services) → IsSound c → IsSound (settle_params r c s).1
  unfolding settle_params
  settle_params-IsSound ok c s v = v
  settle_params-IsSound err_range c s v = v
  settle_params-IsSound Status.err_param c s v = load_defaults-IsSound c
  settle_params-IsSound Status.err_state c s v = load_defaults-IsSound c
  settle_params-IsSound Status.err_timeout c s v = load_defaults-IsSound c
  settle_params-IsSound Status.err_hardware c s v = load_defaults-IsSound c
  settle_params-IsSound Status.err_integrity c s v = load_defaults-IsSound c
  settle_params-IsSound Status.err_busy c s v = load_defaults-IsSound c
  settle_params-IsSound Status.err_unsupported c s v = load_defaults-IsSound c

  -- The calibration is no part of it.
  pub same_params :
      {c d : Config W} → c.value ≡ d.value → c.live_crc ≡ d.live_crc → IsSound c → IsSound d
  same_params {c} {d} e f v = record {
    in_limits = λ i lt. subst (λ (g : ℕ → ℕ). in_range i (g i) ≡ true) e (v.in_limits i lt);
    checked = subst (λ (g : ℕ → ℕ). live_crc g ≡ d.live_crc) e (v.checked ∙ f);
  }

  pub read_calibration-value :
      (st : Storage W) (c : Config W) (w : W)
      → let c' = (read_calibration st c w).1 in (c.value ≡ c'.value) × (c.live_crc ≡ c'.live_crc)
  unfolding read_calibration
  read_calibration-value st c w = ground arith

  load_from-IsSound :
      (st : Storage W) (c : Config W) (w : W) (s : Services)
      → IsSound c
      → IsSound (load_from st c w s).1
  unfolding load_from
  load_from-IsSound st c w s v =
      let (r, c1, w1, s1) = read_params st c w s in
      let (r', c2, s2) = settle_params r c1 s1 in
      let v2 : IsSound c2 = settle_params-IsSound r c1 s1 (read_params-IsSound st c w s v) in
      let (same, crc) = read_calibration-value st c2 w1 in
      elim (Bool-cases (is_ok (read_calibration st c2 w1).0)) [
        | inl f ↦ rw f (same_params same crc v2)
        | inr f ↦ rw f (same_params same crc v2)
      ]

  load-cases :
      (c : Config W) (w : W) (s : Services)
      → ((load c w s).1 ≡ c)
        ⊎ ((st : Storage W) × (c.storage ≡ some st) × (load c w s ≡ load_from st c w s))
  unfolding load
  load-cases c w s = elim (Option-cases c.storage) [
    | inl e ↦ inl (ground (arith, e))
    | inr (st, e) ↦ inr (st, e, ground (arith, e))
  ]

  pub load-IsSound : (c : Config W) (w : W) (s : Services) → IsSound c → IsSound (load c w s).1
  load-IsSound c w s v = elim (load-cases c w s) [
    | inl e ↦ subst IsSound (sym e) v
    | inr (st, _, e) ↦
        subst IsSound (sym (ap (λ (r : Status × Config W × W × Services). r.1) e))
          (load_from-IsSound st c w s v)
  ]
