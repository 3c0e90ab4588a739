-- ===== src/Ccsds/Table.antt =====
-- The table of identifiers stays unambiguous, and lost packets show in the sequence count.
use qiran_firmware.Base.{ℕ, zero, suc, ap, inl, inr, true, false, arith, ℕ_discrete}
use qiran_firmware.Base.{Bool-cases, ◌+◌, ◌%◌, ◌^◌, ◌≤◌, ◌<◌, ◌≡◌, ◌≢◌, ◌==◌, if◌then◌else◌}
use qiran_firmware.Bits.Mask.{bit_and_mask}
use qiran_firmware.Services.{Services}
use qiran_firmware.Ccsds.{
  Ccsds, class_of, class_count, note_sequence, find_class, taken_by_other, set_apid, init,
}

-- No two classes share an identifier.
abbrev pub IsRouted : {W : Type 0} → Ccsds W → Type 0
IsRouted c = (i j : ℕ) → i < class_count → j < class_count → c.apid i ≡ c.apid j → i ≡ j

taken_by_other_sound :
    (n i : ℕ) (table : ℕ → ℕ) (cls apid : ℕ)
    → taken_by_other n i table cls apid ≡ false
    → (j : ℕ) → i ≤ j
    → j < i + n
    → j ≢ cls
    → table j ≢ apid
unfolding taken_by_other
taken_by_other_sound zero i table cls apid h j p q ne e = absurd (omega arith)
taken_by_other_sound (suc n) i table cls apid h j p q ne e = elim (ℕ_discrete i j) [
  | yes same ↦ ground (arith, h, ne, e, same, ap table same)
  | no other ↦
      taken_by_other_sound n (i + 1) table cls apid (ground (arith, h)) j (omega arith)
        (omega arith) ne e
]

find_class-own :
    (n i : ℕ) (table : ℕ → ℕ) (cls : ℕ)
    → i ≤ cls
    → cls < i + n
    → ((j : ℕ) → i ≤ j → j < i + n → table j ≡ table cls → j ≡ cls)
    → find_class n i table (table cls) ≡ cls
unfolding find_class
find_class-own zero i table cls p q h = absurd (omega arith)
find_class-own (suc n) i table cls p q h = elim (ℕ_discrete i cls) [
  | yes e ↦ ground (arith, ap table e, e)
  | no ne ↦ ground (
    arith,
    ne,
    h i (omega arith) (omega arith),
    find_class-own n (i + 1) table cls (omega arith) (omega arith)
        (λ j a b. h j (omega arith) (omega arith)),
  )
]

pub init-IsRouted : (W : Type 0) → IsRouted (init {W = W})
unfolding init
init-IsRouted W i j p q e = ground (arith, p, q, e)

module _ {W : Type 0} where
  -- Where no two classes share an identifier, none do after another is set, whether the call
  -- accepts or refuses it.
  pub set_apid-IsRouted :
      (cls apid : ℕ) (c : Ccsds W) → IsRouted c → IsRouted (set_apid cls apid c).1
  unfolding set_apid
  set_apid-IsRouted cls apid c v i j p q =
      elim (Bool-cases (taken_by_other class_count 0 c.apid cls apid)) [
        | inl taken ↦ λ e. v i j p q (ground (arith, taken, e))
        | inr free ↦ λ e. ground (
          arith,
          free,
          e,
          p,
          q,
          v i j p q,
          taken_by_other_sound class_count 0 c.apid cls apid free i (omega arith) p,
          taken_by_other_sound class_count 0 c.apid cls apid free j (omega arith) q,
        )
      ]

  -- So a packet is routed to the class whose identifier it carries.
  pub class_of-apid :
      (cls : ℕ) (c : Ccsds W) → IsRouted c → cls < class_count → class_of (c.apid cls) c ≡ cls
  unfolding class_of
  class_of-apid cls c v p =
      find_class-own class_count 0 c.apid cls (omega arith) p (λ j a b e. v j cls b p e)

  -- Of packets numbered in turn, where one is received and `lost` of those that follow are not,
  -- the next one received is counted as a gap exactly when some were lost, up to whole turns of
  -- the fourteen bits; and the gap is adopted, so the packet after it is not. The count of gaps is
  -- below 4000000000.
  pub note_sequence_lost :
      (cls count lost : ℕ) (c : Ccsds W) (s : Services)
      → c.gaps < 4000000000
      → c.rx_seen cls ≡ true
      → c.rx_expect cls ≡ count % 2 ^ 14
      → let (c', s') = note_sequence cls ((count + lost) % 2 ^ 14) c s in
        let (c'', s'') = note_sequence cls ((count + lost + 1) % 2 ^ 14) c' s' in
        (c'.gaps ≡ (if lost % 2 ^ 14 == 0 then c.gaps else c.gaps + 1)) × (c''.gaps ≡ c'.gaps)
  unfolding note_sequence
  note_sequence_lost cls count lost c s room seen expect =
      ground (arith, room, seen, expect, bit_and_mask 14 ((count + lost) % 2 ^ 14 + 1))
