-- ===== src/Fdir/Pass.antt =====
-- The loop's pass over the faults moves reports into the records and changes no class's count.
use qiran_firmware.Base.{ℕ, zero, suc, refl, Option, none, some, arith, u32, sub32, update}
use qiran_firmware.Base.{◌+◌, ◌≡◌, ◌∙◌, ◌==◌, if◌then◌else◌}
use qiran_firmware.Fault
use qiran_firmware.Fault.{policy, fault_count, severe, critical, medium, minor}
use qiran_firmware.Services.{Services, log_fault}
use qiran_firmware.Fdir.{occurrences, retries_exhausted, Uplink, escalate}
use qiran_firmware.Fdir.Service.{
  classify, service_class, classification_pass, note_occurrences, elevate,
}
use qiran_firmware.Fdir.Report.{IsCounting}

-- Two states agree on a class.
pub record SameClass (id : ℕ) (s t : Services) : Type 0 where
  pub same_reported : t.fdir.reported id ≡ s.fdir.reported id
  pub same_serviced : t.fdir.serviced id ≡ s.fdir.serviced id
  pub same_record : t.fdir.records id ≡ s.fdir.records id

-- A registered uplink whose hooks do not touch a class: they may report faults of other classes,
-- as the housekeeping link reports a failure to transmit.
pub record HooksLeave (W : Type 0) (id : ℕ) (u : Uplink W) : Type 0 where
  pub by_report_flag :
      (j : ℕ) (tier : Fault.Severity) (d : ℕ) (w : W) (s : Services)
      → SameClass id s (u.report_flag j tier d w s).2
  pub by_power_reset :
      (j : ℕ) (w : W) (s : Services) → SameClass id s (u.request_power_reset j w s).2

abbrev pub Leaves : {W : Type 0} → ℕ → Option (Uplink W) → Type 0
Leaves id none = Unit
Leaves id (some u) = HooksLeave _ id u

abbrev pub times_escalated : ℕ → Services → ℕ
times_escalated id s = (s.fdir.records id).escalations

-- What an escalation of class `j` does to the record and the counters of class `id`.
pub record Escalated (id j : ℕ) (s t : Services) : Type 0 where
  pub reported_kept : t.fdir.reported id ≡ s.fdir.reported id
  pub serviced_kept : t.fdir.serviced id ≡ s.fdir.serviced id
  pub occurrences_kept : (t.fdir.records id).occurrences ≡ (s.fdir.records id).occurrences
  pub elevated_kept : (t.fdir.records id).elevated ≡ (s.fdir.records id).elevated
  pub escalations_counted :
      times_escalated id t
      ≡ (if j == id then u32 (times_escalated id s + 1) else times_escalated id s)

abbrev counted : ℕ → Services → Services
counted j s = record s {
  fdir = record (s.fdir) {
    records =
        update s.fdir.records j
          (record (s.fdir.records j) { escalations = u32 ((s.fdir.records j).escalations + 1) });
  };
}

pub escalate-Escalated :
    {W : Type 0} (uplink : Option (Uplink W)) (id j detail : ℕ) (w : W) (s : Services)
    → Leaves id uplink
    → Escalated id j s (escalate uplink j detail w s).1
unfolding escalate
escalate-Escalated none id j detail w s leaves = ground arith
escalate-Escalated (some u) id j detail w s leaves = ground (
  arith,
  leaves.by_report_flag j (policy j).severity detail w (counted j s),
  leaves.by_power_reset j w (counted j s),
)

-- What classifying `n` occurrences of class `j` does to the counters of class `id`.
pub record Classified (id j n : ℕ) (s t : Services) : Type 0 where
  pub reported_kept : t.fdir.reported id ≡ s.fdir.reported id
  pub serviced_kept : t.fdir.serviced id ≡ s.fdir.serviced id
  pub occurrences_added : (t.fdir.records id).occurrences ≡ (
      if j == id
      then u32 ((s.fdir.records id).occurrences + n)
      else (s.fdir.records id).occurrences)

pub classify-Classified :
    {W : Type 0} (uplink : Option (Uplink W)) (id j n : ℕ) (w : W) (s : Services)
    → Leaves id uplink
    → Classified id j n s (classify uplink j n w s).1
unfolding classify log_fault
classify-Classified uplink id j n w s leaves =
    let noted = note_occurrences j n s in
    ground (
      arith,
      escalate-Escalated uplink id j (s.fdir.detail j) w noted leaves,
      escalate-Escalated uplink id j (s.fdir.detail j) w (elevate j noted) leaves,
    )

abbrev pub taken : ℕ → Services → Services
taken j s = record s {
  fdir = record (s.fdir) { serviced = update s.fdir.serviced j (s.fdir.reported j) };
}

module _ {W : Type 0} (uplink : Option (Uplink W)) (id : ℕ) (leaves : Leaves id uplink) where
  service_class-IsCounting :
      (j : ℕ) (w : W) (s : Services)
      → IsCounting id s
      → IsCounting id (service_class uplink j w s).1
  unfolding service_class
  service_class-IsCounting j w s v = ground (
    arith,
    classify-Classified uplink id j (sub32 (s.fdir.reported j) (s.fdir.serviced j)) w (taken j s)
        leaves,
  )

  service_class_occurrences :
      (j : ℕ) (w : W) (s : Services)
      → IsCounting id s
      → occurrences id (service_class uplink j w s).1 ≡ occurrences id s
  unfolding service_class occurrences
  service_class_occurrences j w s v = ground (
    arith,
    classify-Classified uplink id j (sub32 (s.fdir.reported j) (s.fdir.serviced j)) w (taken j s)
        leaves,
  )

  pub pass-IsCounting :
      (rounds j : ℕ) (w : W) (s : Services)
      → IsCounting id s
      → IsCounting id (classification_pass uplink rounds j w s).1
  unfolding classification_pass
  pass-IsCounting zero j w s v = v
  pass-IsCounting (suc rounds) j w s v =
      let (w', s') = service_class uplink j w s in
      pass-IsCounting rounds (j + 1) w' s' (service_class-IsCounting j w s v)

  -- With a class's counters 32-bit words, the loop's pass over any range of classes does not change the
  -- class's occurrences: the count that a caller reads is the same whether the pass has run or not. The
  -- uplink may do anything but touch that class.
  pub pass_occurrences :
      (rounds j : ℕ) (w : W) (s : Services)
      → IsCounting id s
      → occurrences id (classification_pass uplink rounds j w s).1 ≡ occurrences id s
  unfolding classification_pass
  pass_occurrences zero j w s v = refl
  pass_occurrences (suc rounds) j w s v =
      let (w', s') = service_class uplink j w s in
      pass_occurrences rounds (j + 1) w' s' (service_class-IsCounting j w s v)
      ∙ service_class_occurrences j w s v

  -- So the answer to "are the retries spent" is the same too.
  pub pass_retries_exhausted :
      (rounds j : ℕ) (w : W) (s : Services)
      → IsCounting id s
      → retries_exhausted id (classification_pass uplink rounds j w s).1 ≡ retries_exhausted id s
  unfolding retries_exhausted
  pass_retries_exhausted rounds j w s v = ground (arith, pass_occurrences rounds j w s v)
