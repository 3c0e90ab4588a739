-- ===== src/Config/Set.antt =====
-- When a parameter can be set, and the invariant over any sequence of calls.
use qiran_firmware.Base.{ℕ, ap, inl, inr, Bool, true, false, not, arith, dec_lt, ℕ_discrete}
use qiran_firmware.Base.{ltb, Bool-cases, u16, u32, ◌+◌, ◌<◌, ◌≡◌, ◌≢◌, ◌⊎◌, ◌&&◌, ◌||◌}
use qiran_firmware.Base.{if◌then◌else◌}
use qiran_firmware.Status.{is_ok, ok}
use qiran_firmware.Services.{Services, log_event}
use qiran_firmware.Fdir.{report}
use qiran_firmware.Fault
use qiran_firmware.Config.{Config, live_crc, set, get}
use qiran_firmware.Config.Table.{param_count, def_of, in_range}
use qiran_firmware.Config.Valid.{IsSound}

module _ {W : Type 0} where
  -- Whether `set` takes a value.
  abbrev pub allowed : ℕ → ℕ → Config W → Bool
  allowed id value c =
      ltb id param_count && in_range id value && (not c.locked || (def_of id).writable_in_flight)

  -- A parameter is set exactly when it is known, the value is inside its limits and, once the
  -- store is locked, it may be written in flight: then it reads back as the value, every other
  -- parameter as before, the change is counted and logged, and nothing else changes but the
  -- checksum, which is fresh. Otherwise the call fails and nothing changes in the store but its
  -- count of rejections, which counts a known parameter, and a value outside the limits of a known
  -- parameter is reported.
  pub set-get :
      (id value : ℕ) (c : Config W) (s : Services)
      → let (r, c', s') = set id value c s in
        ((allowed id value c ≡ true)
          × (r ≡ ok)
          × (get id c' ≡ value)
          × ((j : ℕ) → id ≢ j → get j c' ≡ get j c)
          × (c'.changes ≡ u32 (c.changes + 1))
          × (live_crc c'.value ≡ c'.live_crc)
          × (c' ≡ record c { value = c'.value; live_crc = c'.live_crc; changes = c'.changes })
          × (s' ≡ log_event (u16 id) value s))
        ⊎ ((allowed id value c ≡ false)
            × (is_ok r ≡ false)
            × (c' ≡ record c { rejections = c'.rejections })
            × (c'.rejections
                ≡ (if ltb id param_count then u32 (c.rejections + 1) else c.rejections))
            × (s' ≡ (
                if ltb id param_count && not (in_range id value)
                then report Fault.config id s
                else s)))
  unfolding set get
  set-get id value c s = elim (dec_lt id param_count) [
    | no big ↦ inr (ground arith, ground arith, ground arith, ground arith, ground arith)
    | yes known ↦ elim (Bool-cases (in_range id value)) [
      | inr out ↦ inr (
        ground (arith, out),
        ground (arith, out),
        ground (arith, out),
        ground (arith, out),
        ground (arith, out),
      )
      | inl within ↦ elim (Bool-cases (c.locked && not (def_of id).writable_in_flight)) [
        | inl shut ↦ inr (
          ground (arith, within, shut),
          ground (arith, within, shut),
          ground (arith, within, shut),
          ground (arith, within, shut),
          ground (arith, within, shut),
        )
        | inr free ↦ inl (
          ground (arith, within, free),
          ground (arith, within, free),
          ground (arith, within, free),
          λ j ne. ground (arith, within, free),
          ground (arith, within, free),
          ground (arith, within, free),
          ground (arith, within, free),
          ground (arith, within, free),
        )
      ]
    ]
  ]

  set_in_limits :
      (id value : ℕ) (c : Config W) (s : Services) (i : ℕ)
      → i < param_count
      → in_range i (c.value i) ≡ true
      → in_range i ((set id value c s).1.value i) ≡ true
  unfolding set
  set_in_limits id value c s i lt h = elim (Bool-cases (in_range id value)) [
    | inr out ↦ ground (arith, out, h)
    | inl within ↦ elim (ℕ_discrete id i) [
      | yes e ↦ ground (arith, within, h, ap (λ k. in_range k value) e)
      | no ne ↦ ground (arith, within, h, ne)
    ]
  ]

  set_checked :
      (id value : ℕ) (c : Config W) (s : Services)
      → live_crc c.value ≡ c.live_crc
      → live_crc (set id value c s).1.value ≡ (set id value c s).1.live_crc
  unfolding set
  set_checked id value c s h = ground (arith, h)

  pub set-IsSound :
      (id value : ℕ) (c : Config W) (s : Services) → IsSound c → IsSound (set id value c s).1
  set-IsSound id value c s v = record {
    in_limits = λ i lt. set_in_limits id value c s i lt (v.in_limits i lt);
    checked = set_checked id value c s v.checked;
  }
