-- ===== src/Output/Pick.antt =====
-- Which slot is sent next.
use qiran_firmware.Base.{ℕ, zero, suc, refl, ap, subst, inl, inr, Bool, true, false, arith}
use qiran_firmware.Base.{ltb, get_or, ◌+◌, ◌≤◌, ◌<◌, ◌≡◌, ◌⊎◌, ◌&&◌, if◌then◌else◌}
use qiran_firmware.Ccsds.{class_count}
use qiran_firmware.Output.{Slot, k_priority, priority_of, output_depth, pick_from, pick}

-- The slots that are used hold a class that exists.
abbrev pub HasClasses : (ℕ → Slot) → Type 0
HasClasses slots = (j : ℕ) → (slots j).used ≡ true → (slots j).cls < class_count

abbrev pub rank : (ℕ → Slot) → ℕ → ℕ
rank slots j = priority_of (slots j).cls

-- Among the slots below `i`, `best` is the first of those that are sent soonest, or none is used.
abbrev pub IsBest : (ℕ → Slot) → ℕ → ℕ → Type 0
IsBest slots i best =
    ((best ≡ output_depth) × ((j : ℕ) → j < i → (slots j).used ≡ false))
    ⊎ ((best < i)
        × ((slots best).used ≡ true)
        × ((j : ℕ) → j < i → (slots j).used ≡ true → rank slots best ≤ rank slots j)
        × ((j : ℕ) → j < best → (slots j).used ≡ true → rank slots best < rank slots j))

rank-lt :
    (cls : ℕ)
    → cls < class_count
    → (priority_of cls ≡ get_or k_priority cls 0xFF) × (priority_of cls < 0xFF)
unfolding priority_of
rank-lt cls h = ground (arith, h)

-- The state of the scan before slot `i`: `bp` is the rank of `best`, or 0xFF before any is found.
abbrev IsScanned : (ℕ → Slot) → ℕ → ℕ → ℕ → Type 0
IsScanned slots i best bp =
    ((j : ℕ) → j < i → (slots j).used ≡ true → bp ≤ rank slots j)
    × ((best ≡ output_depth) × (bp ≡ 0xFF) × ((j : ℕ) → j < i → (slots j).used ≡ false)
        ⊎ (best < i)
          × ((slots best).used ≡ true)
          × (bp ≡ rank slots best)
          × ((j : ℕ) → j < best → (slots j).used ≡ true → bp < rank slots j))

below_suc : (i j : ℕ) → j < i + 1 → (j < i) ⊎ (j ≡ i)
below_suc i j h = ground (arith, h)

scan_skip :
    (i best bp : ℕ) (slots : ℕ → Slot)
    → ((slots i).used ≡ true → bp ≤ rank slots i)
    → ((slots i).used ≡ true → bp < 0xFF)
    → IsScanned slots i best bp
    → IsScanned slots (i + 1) best bp
scan_skip i best bp slots h found (all, shape) = (all', shape')
  where
    all' : (j : ℕ) → j < i + 1 → (slots j).used ≡ true → bp ≤ rank slots j
    all' j p u = elim (below_suc i j p) [
      | inl lt ↦ all j lt u
      | inr e ↦ ground (arith, e, u, h, ap slots e)
    ]

    shape' :
        (best ≡ output_depth) × (bp ≡ 0xFF) × ((j : ℕ) → j < i + 1 → (slots j).used ≡ false)
        ⊎ (best < i + 1)
          × ((slots best).used ≡ true)
          × (bp ≡ rank slots best)
          × ((j : ℕ) → j < best → (slots j).used ≡ true → bp < rank slots j)
    shape' = elim shape [
      | inl (a, b, c) ↦ inl (
        a,
        b,
        λ j p. elim (below_suc i j p) [
          | inl lt ↦ c j lt
          | inr e ↦ ground (arith, e, b, found, ap slots e)
        ],
      )
      | inr (a, b, c, d) ↦ inr (omega arith, b, c, d)
    ]

scan_take :
    (i best bp : ℕ) (slots : ℕ → Slot)
    → (slots i).used ≡ true
    → rank slots i < bp
    → IsScanned slots i best bp
    → IsScanned slots (i + 1) i (rank slots i)
scan_take i best bp slots u lt (all, shape) =
    (all', inr (omega arith, u, refl, λ j p w. ground (arith, lt, all j p w)))
  where
    all' : (j : ℕ) → j < i + 1 → (slots j).used ≡ true → rank slots i ≤ rank slots j
    all' j p w = elim (below_suc i j p) [
      | inl before ↦ ground (arith, lt, all j before w)
      | inr e ↦ ground (arith, e, ap slots e)
    ]

scan_step :
    (better : Bool) (i best bp : ℕ) (slots : ℕ → Slot)
    → HasClasses slots
    → let r = get_or k_priority (slots i).cls 0xFF in
      better ≡ ((slots i).used && ltb r bp)
      → IsScanned slots i best bp
      → IsScanned slots (i + 1) (if better then i else best) (if better then r else bp)
scan_step true i best bp slots v e h =
    let used : (slots i).used ≡ true = ground (arith, e) in
    let (same, _) = rank-lt (slots i).cls (v i used) in
    subst (IsScanned slots (i + 1) i) same
      (scan_take i best bp slots used (ground (arith, e, same)) h)
scan_step false i best bp slots v e h =
    scan_skip i best bp slots (λ u. ground (arith, e, u, rank-lt (slots i).cls (v i u)))
      (λ u. ground (arith, e, u, rank-lt (slots i).cls (v i u))) h

pick_from-IsScanned :
    (n i best bp : ℕ) (slots : ℕ → Slot)
    → HasClasses slots
    → IsScanned slots i best bp
    → (p : ℕ) × IsScanned slots (i + n) (pick_from n i best bp slots) p
unfolding pick_from
pick_from-IsScanned zero i best bp slots v h =
    (bp, subst (λ k. IsScanned slots k best bp) (omega arith) h)
pick_from-IsScanned (suc n) i best bp slots v h =
    let r = get_or k_priority (slots i).cls 0xFF in
    let better = (slots i).used && ltb r bp in
    let best' = if better then i else best in
    let bp' = if better then r else bp in
    let (p, w) =
      pick_from-IsScanned n (i + 1) best' bp' slots v (scan_step better i best bp slots v refl h) in
    (p, subst (λ k. IsScanned slots k (pick_from n (i + 1) best' bp' slots) p) (omega arith) w)

-- Where used slots hold classes that exist, the slot picked is one of those used whose class is
-- sent soonest, and the lowest of these; none is picked when no slot is used.
pub pick-IsBest : (slots : ℕ → Slot) → HasClasses slots → IsBest slots output_depth (pick slots)
unfolding pick
pick-IsBest slots v =
    let (p, (all, shape)) =
      pick_from-IsScanned output_depth 0 output_depth 0xFF slots v
        ((λ j lt. absurd (omega arith)), inl (refl, refl, λ j lt. absurd (omega arith))) in
    elim shape [
      | inl (a, b, c) ↦ inl (a, c)
      | inr (a, b, c, d) ↦
          inr
            (a, b, (λ j lt u. ground (arith, c, all j lt u)), λ j lt u. ground (arith, c, d j lt u))
    ]
