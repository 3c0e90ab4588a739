-- ===== src/Config/Verify.antt =====
-- The repair of values that changed behind the setter's back.
use qiran_firmware.Base.{
  ℕ, if_holds, option_holds, dec_lt, zero, suc, refl, sym, ap, inl, inr, true, false, some,
}
use qiran_firmware.Base.{arith, ℕ_discrete, Bool-cases, u32, ◌+◌, ◌≤◌, ◌<◌, ◌≡◌}
use qiran_firmware.Base.{◌∙◌, ◌↔◌, ◌⊎◌}
use qiran_firmware.Status.{is_ok, is_ok_sound, ok, err_integrity}
use qiran_firmware.Services.{Services}
use qiran_firmware.Fdir.{report}
use qiran_firmware.Fault
use qiran_firmware.Config
use qiran_firmware.Config.{
  Config, Storage, Image, image_of, live_crc, count_outside, load_defaults, take_image, read_params,
  repair, repair_from, verify,
}
use qiran_firmware.Config.Table.{param_count, in_range}
use qiran_firmware.Config.Valid.{
  IsSound, load_defaults-IsSound, take_image_in, read_params-cases, take_image_beyond,
  take_image_fresh,
}

-- Nothing is counted exactly when everything is inside its limits.
count_outside_zero :
    (n i : ℕ) (value : ℕ → ℕ) (found : ℕ)
    → found + n < 4294967296
    → ((count_outside n i value found ≡ 0)
        × ((j : ℕ) → i ≤ j → j < i + n → in_range j (value j) ≡ true)
        × (found ≡ 0))
      ⊎ ((0 < count_outside n i value found)
          × ((0 < found) ⊎ ((j : ℕ) × (i ≤ j) × (j < i + n) × (in_range j (value j) ≡ false))))
unfolding count_outside
count_outside_zero zero i value found h = elim (ℕ_discrete found 0) [
  | yes e ↦ inl (e, λ j p q. absurd (omega arith), e)
  | no ne ↦ inr (omega arith, inl (omega arith))
]
count_outside_zero (suc n) i value found h = elim (Bool-cases (in_range i (value i))) [
  | inl good ↦ rw good (elim (count_outside_zero n (i + 1) value found (omega arith)) [
    | inl (e, all, f) ↦ inl (
      e,
      λ j p q. elim (ℕ_discrete i j) [
        | yes same ↦ ap (λ k. in_range k (value k)) (sym same) ∙ good
        | no ne ↦ all j (omega arith) (omega arith)
      ],
      f,
    )
    | inr (e, inl p) ↦ inr (e, inl p)
    | inr (e, inr (j, p, q, o)) ↦ inr (e, inr (j, omega arith, omega arith, o))
  ])
  | inr bad ↦ rw bad (elim (count_outside_zero n (i + 1) value (u32 (found + 1)) (omega arith)) [
    | inl (e, all, f) ↦ absurd (omega arith)
    | inr (e, _) ↦ inr (e, inr (i, omega arith, omega arith, bad))
  ])
]

module _ {W : Type 0} where
  -- A block that the storage gives, and that is taken, ends before parameter `j`.
  pub record IsBeyond (c : Config W) (w : W) (s : Services) (j : ℕ) : Type 0 where
    pub stored : Storage W
    pub attached : c.storage ≡ some stored
    pub taken : (read_params stored c w s).0 ≡ ok
    pub ends : (image_of (stored.read Config.offset_params Config.image_bytes w).1).count ≤ j

  -- A parameter is mended, or it lies behind the end of the stored block and is left as it was.
  abbrev Mends : Config W → W → Services → ℕ → Config W → Type 0
  Mends c w s j d = (in_range j (d.value j) ≡ true) ⊎ (IsBeyond c w s j × (d.value j ≡ c.value j))

  taken-Mends :
      (st : Storage W) (c : Config W) (w : W) (s : Services) (j : ℕ)
      → c.storage ≡ some st
      → j < param_count
      → (read_params st c w s).0 ≡ ok
      → Mends c w s j (read_params st c w s).1
  taken-Mends st c w s j set known good =
      let m = image_of (st.read Config.offset_params Config.image_bytes w).1 in
      elim (read_params-cases st c w s) [
        | inl (f, _) ↦ absurd (ground (arith, good, f))
        | inr (_, same) ↦ elim (dec_lt j m.count) [
          | yes held ↦ inl (rw same (take_image_in m c s j known (inl held)))
          | no behind ↦ inr (
            record { stored = st; attached = set; taken = good; ends = omega (arith, behind) },
            rw same (take_image_beyond m c s j (omega (arith, behind))),
          )
        ]
      ]

  defaults-Mends :
      (c d : Config W) (w : W) (s : Services) (j : ℕ)
      → j < param_count
      → Mends c w s j (load_defaults d)
  defaults-Mends c d w s j known = inl ((load_defaults-IsSound d).in_limits j known)

  repair_from-Mends :
      (st : Storage W) (c : Config W) (w : W) (s : Services) (j : ℕ)
      → c.storage ≡ some st
      → j < param_count
      → Mends c w s j (repair_from st c w s).0
  unfolding repair_from
  repair_from-Mends st c w s j set known =
      if_holds (Mends c w s j) (is_ok (read_params st c w s).0)
        (λ good. taken-Mends st c w s j set known (is_ok_sound _ good))
        (λ _. defaults-Mends c (read_params st c w s).1 w s j known)

  repair-Mends :
      (c : Config W) (w : W) (s : Services) (j : ℕ)
      → j < param_count
      → Mends c w s j (repair c w s).0
  unfolding repair
  repair-Mends c w s j known =
      option_holds (λ (r : Config W × W × Services). Mends c w s j r.0) c.storage
        (λ _. defaults-Mends c c w s j known) (λ st e. repair_from-Mends st c w s j e known)

  read_params_fresh :
      (st : Storage W) (c : Config W) (w : W) (s : Services)
      → (read_params st c w s).0 ≡ ok
      → live_crc (read_params st c w s).1.value ≡ (read_params st c w s).1.live_crc
  read_params_fresh st c w s good = elim (read_params-cases st c w s) [
    | inl (f, _) ↦ absurd (ground (arith, good, f))
    | inr (_, same) ↦
        rw same
          (take_image_fresh (image_of (st.read Config.offset_params Config.image_bytes w).1) c s)
  ]

  -- The checksum is that of the values.
  abbrev IsFresh : Config W → Type 0
  IsFresh c = live_crc c.value ≡ c.live_crc

  repair-IsFresh : (c : Config W) (w : W) (s : Services) → IsFresh (repair c w s).0
  unfolding repair repair_from
  repair-IsFresh c w s =
      option_holds (λ (r : Config W × W × Services). IsFresh r.0) c.storage
        (λ _. (load_defaults-IsSound c).checked)
        (λ st _.
          if_holds IsFresh (is_ok (read_params st c w s).0)
            (λ good. read_params_fresh st c w s (is_ok_sound _ good))
            (λ _. (load_defaults-IsSound (read_params st c w s).1).checked))

  abbrev pub noted : Config W → Config W
  noted c = record c { corrections = u32 (c.corrections + 1) }

  abbrev pub reported : Config W → Services → Services
  reported c s = report Fault.config (count_outside param_count 0 c.value 0) s

  pub verify-cases :
      (c : Config W) (w : W) (s : Services)
      → (IsSound c × (verify c w s ≡ (ok, c, w, s)))
        ⊎ ((¬ IsSound c)
            × ((verify c w s).0 ≡ err_integrity)
            × ((verify c w s).1 ≡ (repair (noted c) w (reported c s)).0))
  unfolding verify
  verify-cases c w s =
      let outside = count_outside param_count 0 c.value 0 in
      elim (count_outside_zero param_count 0 c.value 0 (omega arith)) [
        | inr (some_out, inl p) ↦ absurd (omega arith)
        | inr (some_out, inr (j, p, q, o)) ↦ inr (
          λ v. absurd (ground (arith, o, v.in_limits j q)),
          ground (arith, some_out),
          ground (arith, some_out),
        )
        | inl (all, fine, _) ↦ elim (ℕ_discrete (live_crc c.value) c.live_crc) [
          | yes e ↦ inl (
            record { in_limits = λ i lt. fine i (omega arith) lt; checked = e },
            ground (arith, all, e),
          )
          | no ne ↦ inr (λ v. ne v.checked, ground (arith, all, ne), ground (arith, all, ne))
        ]
      ]

  -- Whatever the parameters have become and whatever the storage gives, a verification answers OK
  -- exactly when they were intact, and leaves them under a fresh checksum. Every parameter is
  -- inside its limits afterwards, unless the stored block was taken and ends before it: then it is
  -- as it was.
  pub verify_mends :
      (c : Config W) (w : W) (s : Services)
      → let (r, c', w', s') = verify c w s in
        ((r ≡ ok) ↔ IsSound c)
        × (live_crc c'.value ≡ c'.live_crc)
        × ((j : ℕ)
            → j < param_count
            → (in_range j (c'.value j) ≡ true)
              ⊎ (IsBeyond (noted c) w (reported c s) j × (c'.value j ≡ c.value j)))
  verify_mends c w s = elim (verify-cases c w s) [
    | inl (v, e) ↦ rw e ((λ _. v, λ _. refl), v.checked, λ j known. inl (v.in_limits j known))
    | inr (nv, r, e) ↦ (
      (λ h. cc (sym r ∙ h), λ v. absurd (nv v)),
      rw e (repair-IsFresh (noted c) w (reported c s)),
      λ j known. rw e (repair-Mends (noted c) w (reported c s) j known),
    )
  ]

  -- Nothing is wrong, or some parameter is outside its limits.
  pub IsSound-cases :
      (c : Config W)
      → live_crc c.value ≡ c.live_crc
      → IsSound c ⊎ ((j : ℕ) × (j < param_count) × (in_range j (c.value j) ≡ false))
  IsSound-cases c fresh = elim (count_outside_zero param_count 0 c.value 0 (omega arith)) [
    | inl (_, fine, _) ↦
        inl (record { in_limits = λ i lt. fine i (omega arith) lt; checked = fresh })
    | inr (_, inl p) ↦ absurd (omega arith)
    | inr (_, inr (j, p, q, out)) ↦ inr (j, q, out)
  ]

  repair_taken :
      (c : Config W) (st : Storage W) (w : W) (s : Services)
      → c.storage ≡ some st
      → (read_params st c w s).0 ≡ ok
      → (repair c w s).0 ≡ (read_params st c w s).1
  unfolding repair repair_from
  repair_taken c st w s set intact = ground (arith, set, intact)

  -- A stored block with fewer parameters repairs no more than those: a parameter behind its end
  -- that has left its limits, or has changed inside them, stays as it is, under a checksum that is
  -- computed anew. The block is intact and its values are inside their limits.
  pub verify_keeps :
      (c : Config W) (st : Storage W) (w : W) (s : Services) (j : ℕ)
      → c.storage ≡ some st
      → ¬ IsSound c
      → (read_params st (noted c) w (reported c s)).0 ≡ ok
      → (image_of (st.read Config.offset_params Config.image_bytes w).1).count ≤ j
      → let (r, c', w', s') = verify c w s in
        (c'.value j ≡ c.value j) × (live_crc c'.value ≡ c'.live_crc)
  verify_keeps c st w s j set bad intact short =
      let m = image_of (st.read Config.offset_params Config.image_bytes w).1 in
      let taken = repair_taken (noted c) st w (reported c s) set intact in
      elim (verify-cases c w s) [
        | inl (v, _) ↦ absurd (bad v)
        | inr (_, _, e) ↦ elim (read_params-cases st (noted c) w (reported c s)) [
          | inl (f, _) ↦ absurd (ground (arith, f, intact))
          | inr (_, same) ↦ (
            rw (e, taken, same) (take_image_beyond m (noted c) (reported c s) j short),
            rw (e, taken, same) (take_image_fresh m (noted c) (reported c s)),
          )
        ]
      ]
