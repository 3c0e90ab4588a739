-- ===== src/DataPath/Fifo.antt =====
-- The waiting buffers leave in the order in which they were completed.
use qiran_firmware.Base.{ℕ, zero, suc, refl, sym, ap, ap₂, inl, inr, true, false, Option}
use qiran_firmware.Base.{none, some, List, [], arith, ℕ_discrete, Bool-cases, Option-cases}
use qiran_firmware.Base.{u32, update, update_ne, ◌+◌, ◌-◌, ◌%◌, ◌≤◌, ◌<◌, ◌≡◌, ◌∙◌, ◌≢◌, ◌⊎◌}
use qiran_firmware.Base.{◌∷◌, ◌++◌}
use qiran_firmware.Status.{is_ok, ok, is_ok_sound}
use qiran_firmware.Services.{Services}
use qiran_firmware.Ddr.{Ddr, handoff, region_count, owner_pl_dma, owner_ps_processing}
use qiran_firmware.DataPath.{DataPath, State, take_ready, move_down, enqueue, complete, ready_slots}

-- The first `n` entries from `i`.
abbrev pub entries : ℕ → ℕ → (ℕ → ℕ) → List ℕ
entries zero i f = []
entries (suc n) i f = f i ∷ entries n (i + 1) f

abbrev pub waiting : DataPath → List ℕ
waiting p = entries p.ready_count 0 p.ready

entries_same :
    (n i j : ℕ) (f g : ℕ → ℕ)
    → ((k : ℕ) → k < n → f (i + k) ≡ g (j + k))
    → entries n i f ≡ entries n j g
entries_same zero i j f g h = refl
entries_same (suc n) i j f g h =
    ap₂ (λ (x : ℕ) (xs : List ℕ). x ∷ xs)
      (ap f (plus_zero i) ∙ h 0 (omega arith) ∙ ap g (sym (plus_zero j)))
      (entries_same n (i + 1) (j + 1) f g
        (λ k lt. ap f (plus_one i k) ∙ h (k + 1) (omega arith) ∙ ap g (sym (plus_one j k))))
  where
    plus_zero : (i : ℕ) → i ≡ i + 0
    plus_zero i = omega arith

    plus_one : (i k : ℕ) → i + 1 + k ≡ i + (k + 1)
    plus_one i k = omega arith

entries_append :
    (n i : ℕ) (f : ℕ → ℕ) (x : ℕ)
    → entries (suc n) i (update f (i + n) x) ≡ entries n i f ++ (x ∷ [])
entries_append zero i f x = ap (λ y. y ∷ []) (ground arith)
entries_append (suc n) i f x =
    ap₂ (λ (y : ℕ) (ys : List ℕ). y ∷ ys) (update_ne f (i + suc n) i x (λ e. omega arith))
      (ap (λ k. entries (suc n) (i + 1) (update f k x)) (omega arith)
        ∙ entries_append n (i + 1) f x)

-- Each entry moves down by one place.
move_down_at :
    (n i : ℕ) (f : ℕ → ℕ) (k : ℕ)
    → 0 < i
    → ((i ≤ k + 1) × (k + 1 < i + n) × (move_down n i f k ≡ f (k + 1)))
      ⊎ (((k + 1 < i) ⊎ (i + n ≤ k + 1)) × (move_down n i f k ≡ f k))
unfolding move_down
move_down_at zero i f k pos = inr (ground arith, refl)
move_down_at (suc n) i f k pos =
    elim (move_down_at n (i + 1) (update f (i - 1) (f i)) k (omega arith)) [
      | inl (p, q, e) ↦
          inl
            (omega arith, omega arith, e ∙ update_ne f (i - 1) (k + 1) (f i) (λ same. omega arith))
      | inr (p, e) ↦ elim (ℕ_discrete (i - 1) k) [
        | yes same ↦
            inl (omega arith, omega arith, e ∙ ground (arith, same, ap f (here i k pos same)))
        | no ne ↦ inr (ground (arith, p, ne), e ∙ update_ne f (i - 1) k (f i) ne)
      ]
    ]
  where
    here : (i k : ℕ) → 0 < i → i - 1 ≡ k → i ≡ k + 1
    here i k p e = omega arith

taken :
    (p : DataPath)
    → p.ready_count ≢ 0
    → take_ready p ≡ (
      some (p.ready 0),
      record p { ready = move_down (p.ready_count - 1) 1 p.ready; ready_count = p.ready_count - 1 },
    )
unfolding take_ready
taken p ne = ground (arith, ne)

-- A region leaves: the one that has waited longest, or none when none waits.
pub waiting-take_ready :
    (p : DataPath)
    → let (r, p') = take_ready p in
      ((p.ready_count ≡ 0) × (r ≡ none) × (p' ≡ p))
      ⊎ ((first : ℕ) × (r ≡ some first) × (waiting p ≡ first ∷ waiting p'))
unfolding take_ready
waiting-take_ready p = elim (ℕ_discrete p.ready_count 0) [
  | yes e ↦ inl (e, ground (arith, e), ground (arith, e))
  | no ne ↦ inr (
    p.ready 0,
    ground (arith, ne),
    ap (λ n. entries n 0 p.ready) (one_less p.ready_count ne)
        ∙ ap (λ l. p.ready 0 ∷ l)
            (entries_same (p.ready_count - 1) 1 0 p.ready (move_down (p.ready_count - 1) 1 p.ready)
              (λ k lt. elim (move_down_at (p.ready_count - 1) 1 p.ready k (omega arith)) [
                | inl (a, b, e) ↦
                    ap p.ready (plus k)
                    ∙ sym e
                    ∙ ap (move_down (p.ready_count - 1) 1 p.ready) (from k)
                | inr (a, e) ↦ absurd (ground (arith, a, lt))
              ]))
        ∙ ap (λ (q : Option ℕ × DataPath). p.ready 0 ∷ waiting q.1) (sym (taken p ne)),
  )
]
  where
    one_less : (n : ℕ) → n ≢ 0 → n ≡ suc (n - 1)
    one_less n h = omega arith

    plus : (k : ℕ) → 1 + k ≡ k + 1
    plus k = omega arith

    from : (k : ℕ) → k ≡ 0 + k
    from k = omega arith

joined : (n x : ℕ) (f : ℕ → ℕ) → entries (n + 1) 0 (update f n x) ≡ entries n 0 f ++ (x ∷ [])
joined n x f =
    ap₂ (λ a b. entries a 0 (update f b x)) (one_more n) (from_zero n) ∙ entries_append n 0 f x
  where
    one_more : (n : ℕ) → n + 1 ≡ suc n
    one_more n = omega arith

    from_zero : (n : ℕ) → n ≡ 0 + n
    from_zero n = omega arith

enqueued :
    (datum : ℕ) (st : State)
    → st.path.ready_count < ready_slots
    → is_ok (handoff (datum % region_count) owner_pl_dma owner_ps_processing st.ddr st.services).0
      ≡ true
    → (complete datum st).path ≡ record (st.path) {
      ready = update st.path.ready st.path.ready_count (datum % region_count);
      ready_count = st.path.ready_count + 1;
      completions = u32 (st.path.completions + 1);
    }
unfolding complete enqueue
enqueued datum st room good = ground (arith, room, good)

handoff_taken :
    (region from to : ℕ) (d : Ddr) (s : Services)
    → (handoff region from to d s).0 ≡ ok
    → ((handoff region from to d s).1.region region).owner ≡ to
unfolding handoff
handoff_taken region from to d s h = elim (Option-cases (d.region region).base) [
  | inl e ↦ absurd (ground (arith, h, e))
  | inr (base, e) ↦ ground (arith, h, e)
]

-- A completed region is either handed over, belongs to the processing and joins the end of the
-- waiting ones, of which there are fewer than slots; or its handover is refused, it is counted as
-- dropped, and the waiting ones stay as they are.
pub waiting-complete :
    (datum : ℕ) (st : State)
    → st.path.ready_count < ready_slots
    → let region = datum % region_count in
      let (r, d, s) = handoff region owner_pl_dma owner_ps_processing st.ddr st.services in
      let st' = complete datum st in
      ((r ≡ ok)
        × (waiting st'.path ≡ waiting st.path ++ (region ∷ []))
        × ((st'.ddr.region region).owner ≡ owner_ps_processing)
        × (st'.path.completions ≡ u32 (st.path.completions + 1)))
      ⊎ ((is_ok r ≡ false)
          × (waiting st'.path ≡ waiting st.path)
          × (st'.path.dropped ≡ u32 (st.path.dropped + 1)))
unfolding complete enqueue
waiting-complete datum st room =
    let region = datum % region_count in
    elim (Bool-cases
      (is_ok (handoff region owner_pl_dma owner_ps_processing st.ddr st.services).0)) [
        | inl good ↦
            let taken = is_ok_sound _ good in
            inl (
              taken,
              ap waiting (enqueued datum st room good)
                  ∙ joined st.path.ready_count (datum % region_count) st.path.ready,
              ground (
                arith,
                room,
                good,
                handoff_taken region owner_pl_dma owner_ps_processing st.ddr st.services taken,
              ),
              ground (arith, room, good),
            )
        | inr bad ↦ inr (bad, rw bad refl, rw bad refl)
      ]
