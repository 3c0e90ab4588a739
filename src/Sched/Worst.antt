-- ===== src/Sched/Worst.antt =====
-- The check of the task table finds the slot with the greatest demand.
use qiran_firmware.Base.{ℕ, zero, suc, refl, sym, ap, inl, inr, Bool, true, arith, ltb}
use qiran_firmware.Base.{
  leb→le, leb, subst, ℕ_discrete, Bool-cases, if_holds, ◌+◌, ◌-◌, ◌^◌, ◌≤◌, ◌<◌, ◌≡◌, ◌∙◌,
}
use qiran_firmware.Base.{◌⊎◌, ◌↔◌, if◌then◌else◌}
use qiran_firmware.Exec.{minor_per_major, budget_cycles}
use qiran_firmware.Sched.{
  TaskDef, TaskStat, Sched, due_at_slot, slot_sum, scan_slots, worst_slot_scan, sched_check,
  task_def, task_count,
}

module _ (tasks : ℕ → TaskDef) (stats : ℕ → TaskStat) where
  -- The cycles that `n` tasks from `i` may take, in a slot and in all.
  abbrev pub demand : ℕ → ℕ → ℕ → ℕ
  demand slot zero i = 0
  demand slot (suc n) i =
      (if due_at_slot (tasks i) slot then (stats i).cycles_worst else 0) + demand slot n (i + 1)

  abbrev pub total : ℕ → ℕ → ℕ
  total zero i = 0
  total (suc n) i = (stats i).cycles_worst + total n (i + 1)

  slot_sum-demand :
      (slot n i sum : ℕ)
      → sum + total n i < 2 ^ 32
      → slot_sum tasks stats slot n i sum ≡ sum + demand slot n i
  unfolding slot_sum
  slot_sum-demand slot zero i sum h = omega arith
  slot_sum-demand slot (suc n) i sum h = elim (Bool-cases (due_at_slot (tasks i) slot)) [
    | inl due ↦ ground (
      arith,
      due,
      slot_sum-demand slot n (i + 1) (sum + (stats i).cycles_worst) (omega (arith, h)),
      h,
    )
    | inr idle ↦ ground (arith, idle, slot_sum-demand slot n (i + 1) sum (omega (arith, h)))
  ]

  -- What has been found among the slots before `k`.
  pub record IsWorst (count k : ℕ) (found : ℕ × ℕ) : Type 0 where
    pub most : (slot : ℕ) → slot < k → demand slot count 0 ≤ found.0
    pub reached :
        ((found.0 ≡ 0) × (found.1 ≡ 0)) ⊎ ((found.1 < k) × (demand found.1 count 0 ≡ found.0))

  IsWorst-next :
      (count k sum : ℕ) (found : ℕ × ℕ)
      → IsWorst count k found
      → sum ≡ demand k count 0
      → IsWorst count (k + 1) (if ltb found.0 sum then (sum, k) else found)
  IsWorst-next count k sum found v e =
      if_holds (IsWorst count (k + 1)) (ltb found.0 sum)
        (λ more. record {
          most = λ slot lt. elim (ℕ_discrete slot k) [
            | yes same ↦ ground (arith, same, e)
            | no ne ↦ ground (arith, more, v.most slot (omega (arith, lt, ne)))
          ];
          reached = inr (omega arith, sym e);
        })
        (λ most. record {
          most = λ slot lt. elim (ℕ_discrete slot k) [
            | yes same ↦ ground (arith, same, e, most)
            | no ne ↦ v.most slot (omega (arith, lt, ne))
          ];
          reached = elim v.reached [ inl z ↦ inl z | inr (lt, at) ↦ inr (omega (arith, lt), at) ];
        })

  scan_slots-IsWorst :
      (count n k : ℕ) (found : ℕ × ℕ)
      → total count 0 < 2 ^ 32
      → IsWorst count k found
      → IsWorst count (k + n) (scan_slots tasks stats count n k found)
  unfolding scan_slots
  scan_slots-IsWorst count zero k found h v = subst (λ m. IsWorst count m found) (omega arith) v
  scan_slots-IsWorst count (suc n) k found h v =
      let sum = slot_sum tasks stats k count 0 0 in
      let next = if ltb found.0 sum then (sum, k) else found in
      subst (λ m. IsWorst count m (scan_slots tasks stats count n (k + 1) next)) (omega arith)
        (scan_slots-IsWorst count n (k + 1) next h (
          IsWorst-next count k sum found v
            (omega (arith, slot_sum-demand k count 0 0 (omega (arith, h))))))

  -- The scan finds the greatest demand of a slot, and a slot with that demand.
  pub worst_slot_scan-IsWorst :
      (count : ℕ)
      → total count 0 < 2 ^ 32
      → IsWorst count minor_per_major (worst_slot_scan tasks stats count)
  unfolding worst_slot_scan
  worst_slot_scan-IsWorst count h =
      scan_slots-IsWorst count minor_per_major 0 (0, 0) h
        (record { most = λ slot lt. absurd (omega (arith, lt)); reached = inl (refl, refl) })

  worst_reached :
      (count k : ℕ) (found : ℕ × ℕ)
      → 0 < k
      → IsWorst count k found
      → (found.1 < k) × (demand found.1 count 0 ≡ found.0)
  worst_reached count k found some_slot v = elim v.reached [
    | inl (no_demand, first) ↦ (
      omega (arith, first, some_slot),
      ap (λ slot. demand slot count 0) first ∙ omega (arith, v.most 0 some_slot, no_demand),
    )
    | inr got ↦ got
  ]

  -- What a check concludes from the worst sum and a budget.
  abbrev pub Concludes : ℕ → ℕ → ℕ → Bool → ℕ → ℕ → Type 0
  Concludes count k budget fits margin worst_slot =
      ((fits ≡ true) ↔ ((slot : ℕ) → slot < k → demand slot count 0 ≤ budget))
      × ((slot : ℕ) → slot < k → demand slot count 0 ≤ demand worst_slot count 0)
      × (worst_slot < k)
      × (margin ≡ budget - demand worst_slot count 0)

  worst-Concludes :
      (count k budget : ℕ) (found : ℕ × ℕ)
      → 0 < k
      → IsWorst count k found
      → Concludes count k budget
          (leb found.0 budget)
          (if leb found.0 budget then budget - found.0 else 0)
          found.1
  worst-Concludes count k budget found some_slot v =
      let (inside, at) = worst_reached count k found some_slot v in
      (
        (
          (λ fits slot lt. omega (arith, leb→le found.0 budget fits, v.most slot lt)),
          (λ all. ground (arith, all found.1 inside, at)),
        ),
        (λ slot lt. omega (arith, v.most slot lt, at)),
        inside,
        ground (arith, at),
      )

-- The check of the task table says that the tasks fit exactly when in every slot those that are due
-- fit into the cycles of a minor cycle. The slot it names is one with the greatest demand, and the
-- margin is what that demand leaves of the budget, or 0. The worst times of all tasks together fit a
-- 32-bit word.
pub sched_check-Concludes :
    (per_us : ℕ) (s : Sched)
    → total task_def s.stat task_count 0 < 2 ^ 32
    → let c = sched_check per_us s in
      Concludes task_def s.stat task_count minor_per_major
        (budget_cycles per_us)
        c.fits
        c.margin_cycles
        c.worst_slot
unfolding sched_check
sched_check-Concludes per_us s h =
    worst-Concludes task_def s.stat task_count minor_per_major (budget_cycles per_us)
      (worst_slot_scan task_def s.stat task_count) (omega arith)
      (worst_slot_scan-IsWorst task_def s.stat task_count h)
