-- ===== src/Config/Curve/Segment.antt =====
-- The power that a curve gives lies between those of the two points around the current.
use native.Mathlib.Nat.{mul-le-mul, mul-le-mul_left, div-le_of_le-mul, mod-eq_of_lt, mul_comm}
use qiran_firmware.Base.{ℕ, zero, suc, ap, subst, inl, inr, some, arith, dec_lt, ℕ_discrete}
use qiran_firmware.Base.{lt→ltb, u32, u64, sub32, ◌+◌, ◌-◌, ◌*◌, ◌/◌, ◌^◌, ◌≤◌, ◌<◌, ◌≡◌, ◌∙◌}
use qiran_firmware.Base.{◌⊎◌}
use qiran_firmware.Status.{ok}
use qiran_firmware.Config.Curve.{Point, Calibration, between, find_segment, expected}

-- Currents and powers fit their words, and neither falls from a point to the next of `count`.
pub record IsRising (li : ℕ → Point) (count : ℕ) : Type 0 where
  pub current_word : (i : ℕ) → i < count → (li i).current_ua < 4294967296
  pub power_word : (i : ℕ) → i < count → (li i).power_nw < 4294967296
  pub current_rises : (i : ℕ) → i + 1 < count → (li i).current_ua ≤ (li (i + 1)).current_ua
  pub power_rises : (i : ℕ) → i + 1 < count → (li i).power_nw ≤ (li (i + 1)).power_nw

quotient_bound : (rise run span : ℕ) → run ≤ span → (rise * run) / span ≤ rise
quotient_bound rise run span h =
    div-le_of_le-mul span
      (subst (λ (x : ℕ). rise * run ≤ x) (mul_comm rise span) (mul-le-mul_left rise h))

-- The product fits 64 bits and the quotient 32.
scaled :
    (rise run span : ℕ)
    → rise < 4294967296
    → run ≤ span
    → span < 4294967296
    → u32 (u64 (rise * run) / span) ≡ (rise * run) / span
scaled rise run span p q r =
    let fits : rise * run < 2 ^ 64 = omega (arith, product) in
    ap (λ (x : ℕ). u32 (x / span)) (mod-eq_of_lt fits)
    ∙ mod-eq_of_lt (omega (arith, quotient_bound rise run span q))
  where
    product : rise * run ≤ 4294967295 * 4294967295
    product =
        mul-le-mul {n₁ = rise} {m₁ = run} {n₂ = 4294967295} {m₂ = 4294967295} (omega arith)
          (omega arith)

-- Whole numbers, without any wrap-around.
abbrev interpolated : Point → Point → ℕ → ℕ
interpolated lo hi current =
    lo.power_nw
    + ((hi.power_nw - lo.power_nw) * (current - lo.current_ua)) / (hi.current_ua - lo.current_ua)

between_exact :
    (lo hi : Point) (current : ℕ)
    → lo.current_ua ≤ current
    → current ≤ hi.current_ua
    → hi.current_ua < 4294967296
    → lo.power_nw ≤ hi.power_nw
    → hi.power_nw < 4294967296
    → (between lo hi current ≡ lo.power_nw) ⊎ (between lo hi current ≡ interpolated lo hi current)
unfolding between
between_exact lo hi current a b c d e =
    let span : sub32 hi.current_ua lo.current_ua ≡ hi.current_ua - lo.current_ua = omega arith in
    let rise : sub32 hi.power_nw lo.power_nw ≡ hi.power_nw - lo.power_nw = omega arith in
    let run : sub32 current lo.current_ua ≡ current - lo.current_ua = omega arith in
    elim (ℕ_discrete (hi.current_ua - lo.current_ua) 0) [
      | yes z ↦ inl (ground (arith, span, z))
      | no nz ↦
          let q =
            scaled (hi.power_nw - lo.power_nw) (current - lo.current_ua)
              (hi.current_ua - lo.current_ua) (omega arith) (omega arith) (omega arith) in
          let small =
            quotient_bound (hi.power_nw - lo.power_nw) (current - lo.current_ua)
              (hi.current_ua - lo.current_ua) (omega arith) in
          inr (rw (span, rise, run, q) (ground (arith, nz, small)))
    ]

between_bounds :
    (lo hi : Point) (current : ℕ)
    → lo.current_ua ≤ current
    → current ≤ hi.current_ua
    → hi.current_ua < 4294967296
    → lo.power_nw ≤ hi.power_nw
    → hi.power_nw < 4294967296
    → (lo.power_nw ≤ between lo hi current) × (between lo hi current ≤ hi.power_nw)
between_bounds lo hi current a b c d e =
    let small =
      quotient_bound (hi.power_nw - lo.power_nw) (current - lo.current_ua)
        (hi.current_ua - lo.current_ua) (omega arith) in
    elim (between_exact lo hi current a b c d e) [
      | inl f ↦ (omega (arith, f), omega (arith, f))
      | inr f ↦ (omega (arith, f, small), omega (arith, f, small))
    ]

-- A power `p` on the segment of the curve from point `i`, around the current.
pub record IsOnSegment (li : ℕ → Point) (count current p : ℕ) (i : ℕ) : Type 0 where
  pub in_curve : i + 1 < count
  pub from_current : (li i).current_ua ≤ current
  pub to_current : current ≤ (li (i + 1)).current_ua
  pub from_power : (li i).power_nw ≤ p
  pub to_power : p ≤ (li (i + 1)).power_nw

on_segment :
    (li : ℕ → Point) (count current i : ℕ)
    → IsRising li count
    → i + 1 < count
    → (li i).current_ua ≤ current
    → current ≤ (li (i + 1)).current_ua
    → IsOnSegment li count current (between (li i) (li (i + 1)) current) i
on_segment li count current i v h a b =
    let (p, q) =
      between_bounds (li i) (li (i + 1)) current a b (v.current_word (i + 1) h) (v.power_rises i h)
        (v.power_word (i + 1) h) in
    record { in_curve = h; from_current = a; to_current = b; from_power = p; to_power = q }

back : (i : ℕ) → i + 1 - 1 ≡ i
back i = omega arith

segment_found :
    (n i : ℕ) (li : ℕ → Point) (count current : ℕ)
    → IsRising li count
    → i + 1 + n ≡ count
    → 0 < n
    → (li i).current_ua ≤ current
    → current ≤ (li (count - 1)).current_ua
    → (p : ℕ) × (j : ℕ) × (find_segment n (i + 1) li current ≡ (ok, some p))
      × IsOnSegment li count current p j
unfolding find_segment
segment_found zero i li count current v e pos a b = absurd (omega arith)
segment_found (suc n) i li count current v e pos a b =
    elim (dec_lt (li (i + 1)).current_ua current) [
      | yes past ↦ elim (ℕ_discrete n 0) [
        | yes z ↦
            let last : count - 1 ≡ i + 1 = omega arith in
            absurd (omega (arith, ap (λ k. (li k).current_ua) last))
        | no nz ↦
            let (p, j, f, s) =
              segment_found n (i + 1) li count current v (omega arith) (omega arith) (omega arith)
                b in
            (p, j, rw (lt→ltb _ _ past) f, s)
      ]
      | no np ↦ (
        between (li i) (li (i + 1)) current,
        i,
        ground (arith, np, ap li (back i)),
        on_segment li count current i v (omega arith) a (omega arith),
      )
    ]

-- On a curve that rises, a current between its first and its last point gets a power, and that
-- power lies between those of two neighbouring points around the current.
pub expected-IsOnSegment :
    (k : Calibration) (current : ℕ)
    → IsRising k.li k.li_count
    → 2 ≤ k.li_count
    → (k.li 0).current_ua ≤ current
    → current ≤ (k.li (k.li_count - 1)).current_ua
    → (p : ℕ) × (i : ℕ) × (expected current k ≡ (ok, some p))
      × IsOnSegment k.li k.li_count current p i
unfolding expected
expected-IsOnSegment k current v h a b =
    let (p, j, f, s) =
      segment_found (k.li_count - 1) 0 k.li k.li_count current v (omega arith) (omega arith) a b in
    (p, j, ground (arith, a, b, f), s)
