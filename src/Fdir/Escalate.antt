-- ===== src/Fdir/Escalate.antt =====
-- A Critical class is escalated once when it reaches its limit, and not again until it is cleared.
use qiran_firmware.Base.{ℕ, zero, suc, refl, ap, inl, Bool, true, false, Option, arith}
use qiran_firmware.Base.{ℕ_discrete, u32, sub32, ◌+◌, ◌≤◌, ◌<◌, ◌≡◌, ◌≢◌, ◌⊎◌}
use qiran_firmware.Fault.{policy, critical}
use qiran_firmware.Services.{Services, log_fault}
use qiran_firmware.Fdir.{Uplink}
use qiran_firmware.Fdir.Service.{
  classify, service_class, classification_pass, note_occurrences, elevate,
}
use qiran_firmware.Fdir.Pass.{
  Leaves, escalate-Escalated, times_escalated, taken, classify-Classified,
}

abbrev pub is_elevated : ℕ → Services → Bool
is_elevated id s = (s.fdir.records id).elevated

-- From `s` to `t` the class was escalated once, or not at all; an elevated one was not, and one
-- that is not elevated at the end was not.
abbrev pub AtMostOnce : ℕ → Services → Services → Type 0
AtMostOnce id s t =
    (is_elevated id t ≡ is_elevated id s) × (times_escalated id t ≡ times_escalated id s)
    ⊎ (is_elevated id s ≡ false)
      × (is_elevated id t ≡ true)
      × (times_escalated id t ≡ u32 (times_escalated id s + 1))

pub AtMostOnce-trans :
    (id : ℕ) (s t u : Services) → AtMostOnce id s t → AtMostOnce id t u → AtMostOnce id s u
AtMostOnce-trans id s t u p q = ground arith

module _ {W : Type 0} (uplink : Option (Uplink W)) (id : ℕ) (leaves : Leaves id uplink)
    (tier : (policy id).severity ≡ critical) where
  classify-AtMostOnce :
      (j n : ℕ) (w : W) (s : Services) → AtMostOnce id s (classify uplink j n w s).1
  unfolding classify log_fault
  classify-AtMostOnce j n w s =
      let noted = note_occurrences j n s in
      ground (
        arith,
        escalate-Escalated uplink id j (s.fdir.detail j) w noted leaves,
        escalate-Escalated uplink id j (s.fdir.detail j) w (elevate j noted) leaves,
        tier,
      )

  service_class-AtMostOnce :
      (j : ℕ) (w : W) (s : Services) → AtMostOnce id s (service_class uplink j w s).1
  unfolding service_class
  service_class-AtMostOnce j w s =
      ground
        (arith, classify-AtMostOnce j (sub32 (s.fdir.reported j) (s.fdir.serviced j)) w (taken j s))

  pub pass-AtMostOnce :
      (rounds j : ℕ) (w : W) (s : Services)
      → AtMostOnce id s (classification_pass uplink rounds j w s).1
  unfolding classification_pass
  pass-AtMostOnce zero j w s = inl (refl, refl)
  pass-AtMostOnce (suc rounds) j w s =
      let (w', s') = service_class uplink j w s in
      AtMostOnce-trans id s s' (classification_pass uplink rounds (j + 1) w' s').1
        (service_class-AtMostOnce j w s) (pass-AtMostOnce rounds (j + 1) w' s')

  -- A class with new reports that bring it to its limit.
  abbrev pub Due : Services → Type 0
  Due s =
      (sub32 (s.fdir.reported id) (s.fdir.serviced id) ≢ 0)
      × ((policy id).limit ≢ 0)
      × ((policy id).limit
          ≤ u32 ((s.fdir.records id).occurrences + sub32 (s.fdir.reported id) (s.fdir.serviced id)))

  service_class-Due_other :
      (j : ℕ) (w : W) (s : Services) → j ≢ id → Due s → Due (service_class uplink j w s).1
  unfolding service_class
  service_class-Due_other j w s ne due = ground (
    arith,
    classify-Classified uplink id j (sub32 (s.fdir.reported j) (s.fdir.serviced j)) w (taken j s)
        leaves,
  )

  classify_due :
      (n : ℕ) (w : W) (s : Services)
      → (policy id).limit ≢ 0
      → (policy id).limit ≤ u32 ((s.fdir.records id).occurrences + n)
      → is_elevated id (classify uplink id n w s).1 ≡ true
  unfolding classify log_fault
  classify_due n w s p q =
      let noted = note_occurrences id n s in
      ground (
        arith,
        escalate-Escalated uplink id id (s.fdir.detail id) w (elevate id noted) leaves,
        tier,
      )

  service_class-Due :
      (w : W) (s : Services) → Due s → is_elevated id (service_class uplink id w s).1 ≡ true
  unfolding service_class
  service_class-Due w s due =
      ground (arith, classify_due (sub32 (s.fdir.reported id) (s.fdir.serviced id)) w (taken id s))

  -- A pass that comes by a Critical class whose new reports bring it to its limit leaves it elevated. The
  -- uplink may do anything but touch that class.
  pub pass_elevates :
      (rounds j : ℕ) (w : W) (s : Services)
      → j ≤ id
      → id < j + rounds
      → Due s
      → is_elevated id (classification_pass uplink rounds j w s).1 ≡ true
  unfolding classification_pass
  pass_elevates zero j w s p q due = absurd (omega arith)
  pass_elevates (suc rounds) j w s p q due =
      let (w', s') = service_class uplink j w s in
      elim (ℕ_discrete j id) [
        | yes e ↦ ground (
          arith,
          service_class-Due w s due,
          pass-AtMostOnce rounds (j + 1) w' s',
          ap (λ (k : ℕ). service_class uplink k w s) e,
        )
        | no ne ↦
            pass_elevates rounds (j + 1) w' s' (omega arith) (omega arith)
              (service_class-Due_other j w s ne due)
      ]
