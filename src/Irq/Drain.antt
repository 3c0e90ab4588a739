-- ===== src/Irq/Drain.antt =====
-- The loop `while (plat_irq_take(id, &ev)) { ... }`, which each consumer of a queue runs: the serial
-- link, the data path and fault management. No interrupt of the source is taken while it runs.
use qiran_firmware.Base.{ℕ, zero, suc, sym, ap, inl, inr, Option, none, some, List, [], arith}
use qiran_firmware.Base.{length, ◌<◌, ◌≡◌, ◌∙◌, ◌⊎◌, ◌∷◌}
use qiran_firmware.Irq.{Slot, Event, take_event}
use qiran_firmware.Irq.Refine.{IsValid, contents, view, take-IsValid, take_refines}
use qiran_firmware.Irq.Queue.{Queue, depart-cases}

-- The body for every event of a list, in order.
abbrev pub each : {A : Type 0} → (Event → A → A) → List Event → A → A
each body [] a = a
each body (e ∷ es) a = each body es (body e a)

module _ {W : Type 0} {A : Type 0} (body : Event → A → A) where
  -- `none` when the fuel ends first.
  unfoldable pub drain : ℕ → Slot W → A → Option (Slot W × A)
  drain zero s a = none
  drain (suc fuel) s a =
      let (e, s') = take_event s in
      elim e [ none ↦ some (s', a) | some ev ↦ drain fuel s' (body ev a) ]

  taken_cases :
      (s : Slot W)
      → IsValid s
      → ((contents s ≡ []) × ((take_event s).0 ≡ none) × (contents (take_event s).1 ≡ []))
        ⊎ ((e : Event) × ((take_event s).0 ≡ some e) × (contents s ≡ e ∷ contents (take_event s).1))
  taken_cases s v =
      let same = take_refines s v in
      let first = ap (λ (p : Option Event × Queue). p.0) same in
      let rest = ap (λ (p : Option Event × Queue). p.1.events) same in
      elim (depart-cases (view s)) [
        | inl (empty, e, f) ↦ inl (empty, first ∙ e, rest ∙ f)
        | inr (ev, e, f) ↦ inr (ev, first ∙ e, f ∙ ap (λ l. ev ∷ l) (sym rest))
      ]

  drain_step :
      (fuel : ℕ) (s : Slot W) (a : A) (o : Option Event)
      → (take_event s).0 ≡ o
      → drain (suc fuel) s a ≡ (elim o [
        | none ↦ some ((take_event s).1, a)
        | some ev ↦ drain fuel (take_event s).1 (body ev a)
      ])
  unfolding drain
  drain_step fuel s a o e =
      ap
        (λ (o : Option Event). elim o [
          | none ↦ some ((take_event s).1, a)
          | some ev ↦ drain fuel (take_event s).1 (body ev a)
        ])
        e

  -- With one round more than the queue holds events the loop ends: it has run its body on every
  -- event held, oldest first, and the queue is empty.
  pub drain-each :
      (fuel : ℕ) (s : Slot W) (a : A)
      → IsValid s
      → length (contents s) < fuel
      → (s' : Slot W) × (drain fuel s a ≡ some (s', each body (contents s) a))
        × (contents s' ≡ [])
        × IsValid s'
  drain-each zero s a v h = absurd (omega arith)
  drain-each (suc fuel) s a v h = elim (taken_cases s v) [
    | inl (empty, e, rest) ↦ (
      (take_event s).1,
      drain_step fuel s a none e ∙ ap (λ l. some ((take_event s).1, each body l a)) (sym empty),
      rest,
      take-IsValid s v,
    )
    | inr (ev, e, held) ↦
        let (s', f, done, v') =
          drain-each fuel (take_event s).1 (body ev a) (take-IsValid s v)
            (omega (arith, ap length held)) in
        (
          s',
          drain_step fuel s a (some ev) e ∙ f ∙ ap (λ l. some (s', each body l a)) (sym held),
          done,
          v',
        )
  ]
