-- ===== src/Health/Gate.antt =====
-- The watchdog is served exactly while no gating monitor is past its tolerance.
use qiran_firmware.Base.{ℕ, zero, suc, refl, ap, inl, inr, true, false, some, arith}
use qiran_firmware.Base.{ℕ_discrete, Bool-cases, u32, ◌+◌, ◌≤◌, ◌<◌, ◌≡◌, ◌∙◌, ◌⊎◌}
use qiran_firmware.Services.{Services}
use qiran_firmware.Health.{
  Monitor, Health, Verdict, healthy, failed, Backend, Watchdog, contributing, verdict_from,
  health_consolidate, same_verdict, tickle_if_healthy,
}

same_verdict_sound : (a b : Verdict) → same_verdict a b ≡ true → a ≡ b
same_verdict_sound healthy healthy e = refl
same_verdict_sound failed failed e = refl
same_verdict_sound healthy failed e = ground (arith, e)
same_verdict_sound failed healthy e = ground (arith, e)

module _ {W : Type 0} where
  -- Some of `n` monitors from `i` is past its tolerance.
  abbrev pub SomeContributes : ℕ → ℕ → (ℕ → Monitor W) → Type 0
  SomeContributes n i monitors =
      (j : ℕ) × (i ≤ j) × (j < i + n) × (contributing (monitors j) ≡ true)

  abbrev pub NoneContributes : ℕ → ℕ → (ℕ → Monitor W) → Type 0
  NoneContributes n i monitors = (j : ℕ) → i ≤ j → j < i + n → contributing (monitors j) ≡ false

  verdict_from-failed :
      (n i : ℕ) (monitors : ℕ → Monitor W) → verdict_from n i monitors failed ≡ failed
  unfolding verdict_from
  verdict_from-failed zero i monitors = refl
  verdict_from-failed (suc n) i monitors = ground (arith, verdict_from-failed n (i + 1) monitors)

  verdict_from-decides :
      (n i : ℕ) (monitors : ℕ → Monitor W)
      → ((verdict_from n i monitors healthy ≡ failed) × SomeContributes n i monitors)
        ⊎ ((verdict_from n i monitors healthy ≡ healthy) × NoneContributes n i monitors)
  unfolding verdict_from
  verdict_from-decides zero i monitors = inr (refl, λ j p q. absurd (omega arith))
  verdict_from-decides (suc n) i monitors = elim (Bool-cases (contributing (monitors i))) [
    | inl some_one ↦ inl (
      ground (arith, some_one, verdict_from-failed n (i + 1) monitors),
      (i, omega arith, omega arith, some_one),
    )
    | inr none_here ↦ elim (verdict_from-decides n (i + 1) monitors) [
      | inl (e, (j, p, q, c)) ↦ inl (ground (arith, none_here, e), (j, omega arith, omega arith, c))
      | inr (e, c) ↦ inr (
        ground (arith, none_here, e),
        λ j p q. elim (ℕ_discrete i j) [
          | yes same ↦ ground (arith, same, none_here, ap monitors same)
          | no other ↦ c j (omega arith) (omega arith)
        ],
      )
    ]
  ]

  consolidate_state :
      (h : Health W) (s : Services)
      → (health_consolidate h s).0.state ≡ verdict_from h.count 0 h.monitor healthy
  unfolding health_consolidate
  consolidate_state h s =
      let v = verdict_from h.count 0 h.monitor healthy in
      elim (Bool-cases (same_verdict v h.state)) [
        | inl same ↦ ground (arith, same, same_verdict_sound v h.state same)
        | inr other ↦ ground (arith, other)
      ]

  -- With the verdict formed from the monitors as they stand, a watchdog that is armed, with a
  -- backend, is kicked exactly when no gating monitor is past its tolerance; otherwise it is left
  -- to run out and the cycle is counted.
  pub tickle-consolidate :
      (h : Health W) (d : Watchdog W) (b : Backend W) (w : W) (s : Services)
      → d.armed ≡ true
      → d.backend ≡ some b
      → let (h', s') = health_consolidate h s in
        let (d', w') = tickle_if_healthy h' d w in
        (SomeContributes h.count 0 h.monitor × (w' ≡ w) × (d'.suppressed ≡ u32 (d.suppressed + 1)))
        ⊎ (NoneContributes h.count 0 h.monitor × (w' ≡ b.kick w) × (d'.suppressed ≡ d.suppressed))
  unfolding tickle_if_healthy
  tickle-consolidate h d b w s armed backend = elim (verdict_from-decides h.count 0 h.monitor) [
    | inl (e, some_one) ↦
        let f = consolidate_state h s ∙ e in inl (some_one, ground (arith, f), ground (arith, f))
    | inr (e, none_does) ↦
        let f = consolidate_state h s ∙ e in
        inr (none_does, ground (arith, f, armed, backend), ground (arith, f))
  ]
