-- ===== src/Fdir/History.antt =====
-- Any history of reports, service passes and clears.
use qiran_firmware.Base.{ℕ, zero, suc, refl, ap, inl, Option, List, [], arith, sub32, ◌+◌}
use qiran_firmware.Base.{◌-◌, ◌≡◌, ◌∙◌, ◌≢◌, ◌∷◌}
use qiran_firmware.Fault
use qiran_firmware.Fault.{policy, fault_count, critical}
use qiran_firmware.Services.{Services}
use qiran_firmware.Fdir.{report, clear, Uplink}
use qiran_firmware.Fdir.Service.{
  PlatformCounters, error_handling_service, collect_platform_counters, report_times, collect_irq,
  collect_uart, collect_overruns, irq_count,
}
use qiran_firmware.Fdir.Pass.{Leaves}
use qiran_firmware.Fdir.Escalate.{AtMostOnce, AtMostOnce-trans, pass-AtMostOnce}

pub data FaultOp : Type 0 where
  report_op : ℕ → ℕ → FaultOp
  clear_op : ℕ → FaultOp
  service_op : PlatformCounters → FaultOp

records-report : (j d : ℕ) (s : Services) → (report j d s).fdir.records ≡ s.fdir.records
unfolding report
records-report j d s = ground arith

records-report_times :
    (n j d : ℕ) (s : Services) → (report_times n j d s).fdir.records ≡ s.fdir.records
unfolding report_times
records-report_times zero j d s = refl
records-report_times (suc n) j d s =
    records-report_times n j d (report j d s) ∙ records-report j d s

records-collect_irq :
    (c : PlatformCounters) (n i : ℕ) (s : Services)
    → (collect_irq c n i s).fdir.records ≡ s.fdir.records
unfolding collect_irq report
records-collect_irq c zero i s = refl
records-collect_irq c (suc n) i s = records-collect_irq c n (i + 1) _ ∙ ground arith

-- Collecting the platform's counters only reports.
pub records-collect :
    (c : PlatformCounters) (s : Services)
    → (collect_platform_counters c s).fdir.records ≡ s.fdir.records
unfolding collect_platform_counters report
records-collect c s =
    records-collect_irq c irq_count 0 (collect_uart c (collect_overruns c s))
    ∙ ground (
      arith,
      records-report_times (sub32 c.overrun_events s.fdir.seen_overruns) Fault.cycle_overrun
          c.overrun_cycles_lost
          (record s { fdir = record (s.fdir) { seen_overruns = c.overrun_events } }),
    )

module _ {W : Type 0} (uplink : Option (Uplink W)) where
  unfoldable pub run_op : FaultOp → W → Services → W × Services
  run_op (report_op j d) w s = (w, report j d s)
  run_op (clear_op j) w s = (w, clear j s)
  run_op (service_op c) w s = error_handling_service uplink c w s

  unfoldable pub run_ops : List FaultOp → W → Services → W × Services
  run_ops [] w s = (w, s)
  run_ops (op ∷ ops) w s = let (w', s') = run_op op w s in run_ops ops w' s'

abbrev pub NeverCleared : ℕ → List FaultOp → Type 0
NeverCleared id [] = Unit
NeverCleared id (clear_op j ∷ ops) = (j ≢ id) × NeverCleared id ops
NeverCleared id (report_op j d ∷ ops) = NeverCleared id ops
NeverCleared id (service_op c ∷ ops) = NeverCleared id ops

module _ {W : Type 0} (uplink : Option (Uplink W)) (id : ℕ) (leaves : Leaves id uplink)
    (tier : (policy id).severity ≡ critical) where
  same_records : (s t : Services) → t.fdir.records ≡ s.fdir.records → AtMostOnce id s t
  same_records s t e = inl (ap (λ f. (f id).elevated) e, ap (λ f. (f id).escalations) e)

  clear_other : (j : ℕ) (s : Services) → j ≢ id → AtMostOnce id s (clear j s)
  unfolding clear
  clear_other j s ne = ground arith

  service_once :
      (c : PlatformCounters) (w : W) (s : Services)
      → AtMostOnce id s (error_handling_service uplink c w s).1
  unfolding error_handling_service
  service_once c w s =
      AtMostOnce-trans id s (collect_platform_counters c s) (error_handling_service uplink c w s).1
        (same_records s (collect_platform_counters c s) (records-collect c s))
        (pass-AtMostOnce uplink id leaves tier (fault_count - 1) 1 w
          (collect_platform_counters c s))

  -- Over any history of reports, clears of other classes and service passes, whatever the platform
  -- counters, a Critical class that is not cleared is escalated at most once; once it is elevated it
  -- is not escalated again. The uplink may do anything but touch that class.
  pub run_ops-AtMostOnce :
      (ops : List FaultOp) (w : W) (s : Services)
      → NeverCleared id ops
      → AtMostOnce id s (run_ops uplink ops w s).1
  unfolding run_ops run_op
  run_ops-AtMostOnce [] w s h = inl (refl, refl)
  run_ops-AtMostOnce (report_op j d ∷ ops) w s h =
      AtMostOnce-trans id s (report j d s) (run_ops uplink ops w (report j d s)).1
        (same_records s (report j d s) (records-report j d s))
        (run_ops-AtMostOnce ops w (report j d s) h)
  run_ops-AtMostOnce (clear_op j ∷ ops) w s h =
      AtMostOnce-trans id s (clear j s) (run_ops uplink ops w (clear j s)).1 (clear_other j s h.0)
        (run_ops-AtMostOnce ops w (clear j s) h.1)
  run_ops-AtMostOnce (service_op c ∷ ops) w s h =
      let (w', s') = error_handling_service uplink c w s in
      AtMostOnce-trans id s s' (run_ops uplink ops w' s').1 (service_once c w s)
        (run_ops-AtMostOnce ops w' s' h)
