-- ===== src/Output/Queue.antt =====
-- The count of pending packets is the number of used slots.
use qiran_firmware.Base.{ℕ_discrete}
use qiran_firmware.Base.{ℕ, zero, suc, refl, ap, inl, inr, true, false, Option, none, some}
use qiran_firmware.Base.{arith, Bool-cases, Option-cases, update, ◌+◌, ◌≤◌, ◌<◌, ◌≡◌, ◌≢◌}
use qiran_firmware.Base.{◌↔◌, if◌then◌else◌}
use qiran_firmware.Status.{ok, err_busy}
use qiran_firmware.Services.{Services}
use qiran_firmware.Ccsds.{class_count}
use qiran_firmware.Output.{Slot, Output, output_depth, init, find_free, fill, submit, release}
use qiran_firmware.Output.Pick.{HasClasses}

-- The used slots among `n` from slot `i`.
unfoldable pub used_slots : ℕ → ℕ → (ℕ → Slot) → ℕ
used_slots zero i slots = 0
used_slots (suc n) i slots = (if (slots i).used then 1 else 0) + used_slots n (i + 1) slots

-- The count is the number of used slots, and a used slot's class exists.
pub record IsValid (o : Output) : Type 0 where
  pub pending_used : o.pending ≡ used_slots output_depth 0 o.slot
  pub has_classes : HasClasses o.slot

pub used_slots-le : (n i : ℕ) (slots : ℕ → Slot) → used_slots n i slots ≤ n
unfolding used_slots
used_slots-le zero i slots = omega arith
used_slots-le (suc n) i slots = ground (arith, used_slots-le n (i + 1) slots)

used_slots_outside :
    (n i k : ℕ) (slots : ℕ → Slot) (v : Slot)
    → k < i
    → used_slots n i (update slots k v) ≡ used_slots n i slots
unfolding used_slots
used_slots_outside zero i k slots v h = refl
used_slots_outside (suc n) i k slots v h =
    ground (arith, h, used_slots_outside n (i + 1) k slots v (omega arith))

-- Changing one slot changes the number by that slot.
pub used_slots-update :
    (n i k : ℕ) (slots : ℕ → Slot) (v : Slot)
    → i ≤ k
    → k < i + n
    → used_slots n i (update slots k v) + (if (slots k).used then 1 else 0)
      ≡ used_slots n i slots + (if v.used then 1 else 0)
unfolding used_slots
used_slots-update zero i k slots v p q = absurd (omega arith)
used_slots-update (suc n) i k slots v p q = elim (ℕ_discrete i k) [
  | yes e ↦ ground (arith, e, ap slots e, used_slots_outside n (i + 1) k slots v (omega arith))
  | no ne ↦ ground (arith, ne, used_slots-update n (i + 1) k slots v (omega arith) (omega arith))
]

-- The slot that a submission takes is free; none is found only when all are used.
pub find_free_sound :
    (n i : ℕ) (slots : ℕ → Slot) (k : ℕ)
    → find_free n i slots ≡ some k
    → (i ≤ k) × (k < i + n) × ((slots k).used ≡ false)
unfolding find_free
find_free_sound zero i slots k e = ground (arith, e)
find_free_sound (suc n) i slots k e = elim (Bool-cases (slots i).used) [
  | inl u ↦ ground (arith, find_free_sound n (i + 1) slots k (ground (arith, e, u)))
  | inr f ↦ ground (arith, e, f)
]

find_free-full :
    (n i : ℕ) (slots : ℕ → Slot) → find_free n i slots ≡ none → used_slots n i slots ≡ n
unfolding find_free used_slots
find_free-full zero i slots e = refl
find_free-full (suc n) i slots e = ground (arith, e, find_free-full n (i + 1) slots)

find_free-room :
    (slots : ℕ → Slot) (k : ℕ)
    → find_free output_depth 0 slots ≡ some k
    → used_slots output_depth 0 slots < output_depth
find_free-room slots k e =
    let v : Slot = record { source = 0; len = 0; cls = 0; used = true } in
    let (_, inside, free) = find_free_sound output_depth 0 slots k e in
    ground (
      arith,
      free,
      used_slots-update output_depth 0 k slots v (omega arith) inside,
      used_slots-le output_depth 0 (update slots k v),
    )

pub init-IsValid : IsValid init
unfolding init used_slots
init-IsValid = record { pending_used = refl; has_classes = λ j u. ground (arith, u) }

fill-IsValid :
    (i : ℕ) (v : Slot) (o : Output)
    → i < output_depth
    → (o.slot i).used ≡ false
    → v.used ≡ true
    → v.cls < class_count
    → IsValid o
    → IsValid (fill i v o)
unfolding fill
fill-IsValid i v o inside free used known w = record {
  pending_used = ground (
    arith,
    used_slots-update output_depth 0 i o.slot v (omega arith) (omega arith),
    free,
    used,
    used_slots-le output_depth 0 o.slot,
    w.pending_used,
  );
  has_classes = λ j u. ground (arith, known, u, w.has_classes j);
}

pub submit-IsValid :
    (cls : ℕ) (source : Option ℕ) (len : ℕ) (o : Output) (s : Services)
    → IsValid o
    → IsValid (submit cls source len o s).1
unfolding submit
submit-IsValid cls none len o s v = v
submit-IsValid cls (some source) len o s v = elim (Option-cases (find_free output_depth 0 o.slot)) [
  | inl full ↦ record {
    pending_used = ground (arith, full, v.pending_used);
    has_classes = λ j u. ground (arith, full, u, v.has_classes j);
  }
  | inr (i, found) ↦
      let (_, inside, free) = find_free_sound output_depth 0 o.slot i found in
      let slot : Slot = record { source = source; len = len; cls = cls; used = true } in
      record {
        pending_used = ground (
          arith,
          found,
          v.pending_used,
          (λ (known : cls < class_count).
              (fill-IsValid i slot o inside free refl known v).pending_used),
        );
        has_classes = λ j u. ground (
          arith,
          found,
          u,
          v.has_classes j,
          (λ (known : cls < class_count).
              (fill-IsValid i slot o inside free refl known v).has_classes j),
        );
      }
]

-- On a queue whose count is the number of its used slots, a submission of a class that exists,
-- with one to 1014 bytes, is refused exactly when all sixteen slots are used; then the slots are
-- as they were, and otherwise the packet is queued.
pub submit-busy_iff :
    (cls source len : ℕ) (o : Output) (s : Services)
    → IsValid o
    → cls < class_count
    → 0 < len
    → len + 10 ≤ 1024
    → let (st, o', s') = submit cls (some source) len o s in
      ((st ≡ err_busy) ↔ (o.pending ≡ output_depth))
      × ((st ≡ err_busy) → o'.slot ≡ o.slot)
      × ((o.pending ≢ output_depth) → (st ≡ ok) × (o'.pending ≡ o.pending + 1))
unfolding submit fill
submit-busy_iff cls source len o s v known some_data fits =
    elim (Option-cases (find_free output_depth 0 o.slot)) [
      | inl full ↦
          let all = find_free-full output_depth 0 o.slot full in
          (
            (
              ground (arith, full, all, v.pending_used, known, some_data, fits),
              ground (arith, full, all, v.pending_used, known, some_data, fits),
            ),
            ground (arith, full, known, some_data, fits),
            ground (arith, all, v.pending_used),
          )
      | inr (i, found) ↦
          let room = find_free-room o.slot i found in
          (
            (
              ground (arith, found, room, v.pending_used, known, some_data, fits),
              ground (arith, room, v.pending_used),
            ),
            ground (arith, found, known, some_data, fits),
            ground (arith, found, room, v.pending_used, known, some_data, fits),
          )
    ]

pub release-IsValid :
    (i : ℕ) (o : Output)
    → i < output_depth
    → (o.slot i).used ≡ true
    → IsValid o
    → IsValid (release i o)
unfolding release
release-IsValid i o inside used w = record {
  pending_used = ground (
    arith,
    used_slots-update output_depth 0 i o.slot (record (o.slot i) { used = false }) (omega arith)
        (omega arith),
    used,
    used_slots-le output_depth 0 o.slot,
    w.pending_used,
  );
  has_classes = λ j u. ground (arith, u, w.has_classes j);
}

-- A submission that is taken fills one slot that was free and changes no other.
pub submit_slot :
    (cls source n : ℕ) (o : Output) (s : Services)
    → (submit cls (some source) n o s).0 ≡ ok
    → (i : ℕ) × ((o.slot i).used ≡ false)
      × ((submit cls (some source) n o s).1.slot
          ≡ update o.slot i (record { source = source; len = n; cls = cls; used = true }))
unfolding submit fill
submit_slot cls source n o s h = elim (Option-cases (find_free output_depth 0 o.slot)) [
  | inl e ↦ absurd (ground (arith, h, e))
  | inr (i, e) ↦
      let (_, _, free) = find_free_sound output_depth 0 o.slot i e in
      (i, free, ground (arith, h, e))
]
