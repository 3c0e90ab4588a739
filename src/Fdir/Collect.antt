-- ===== src/Fdir/Collect.antt =====
-- What the platform's counters add to the classes in front of theirs: nothing.
use qiran_firmware.Base.{ℕ, zero, suc, refl, arith, sub32, update, if_holds, ◌+◌, ◌<◌, ◌≡◌}
use qiran_firmware.Base.{◌∙◌, ◌≢◌, ◌==◌}
use qiran_firmware.Fault
use qiran_firmware.Services.{Services}
use qiran_firmware.Fdir.{report, occurrences}
use qiran_firmware.Fdir.Report.{IsCounting}
use qiran_firmware.Fdir.Pass.{SameClass}
use qiran_firmware.Fdir.Service.{
  PlatformCounters, collect_platform_counters, collect_irq, collect_uart, collect_overruns,
  report_times, irq_count,
}

-- The classes of the boot steps stand in front of those that the platform's counters report.
abbrev pub IsStepClass : ℕ → Type 0
IsStepClass id = (0 < id) × (id < Fault.cycle_overrun)

module _ (id : ℕ) (step : IsStepClass id) where
  report_other : (j d : ℕ) (s : Services) → id ≢ j → SameClass id s (report j d s)
  unfolding report
  report_other j d s ne = ground (arith, ne)

  SameClass-trans : (s t u : Services) → SameClass id s t → SameClass id t u → SameClass id s u
  SameClass-trans s t u v w = record {
    same_reported = w.same_reported ∙ v.same_reported;
    same_serviced = w.same_serviced ∙ v.same_serviced;
    same_record = w.same_record ∙ v.same_record;
  }

  same_class : (s : Services) → SameClass id s s
  same_class s = record { same_reported = refl; same_serviced = refl; same_record = refl }

  report_times_other : (n j d : ℕ) (s : Services) → id ≢ j → SameClass id s (report_times n j d s)
  unfolding report_times
  report_times_other zero j d s ne = same_class s
  report_times_other (suc n) j d s ne =
      SameClass-trans s (report j d s) _ (report_other j d s ne)
        (report_times_other n j d (report j d s) ne)

  collect_overruns_other :
      (c : PlatformCounters) (s : Services) → SameClass id s (collect_overruns c s)
  unfolding collect_overruns
  collect_overruns_other c s =
      if_holds (SameClass id s) (c.overrun_events == s.fdir.seen_overruns) (λ _. same_class s)
        (λ _.
          let seen : Services = record s {
            fdir = record (s.fdir) { seen_overruns = c.overrun_events };
          } in
          SameClass-trans s seen _
            (record { same_reported = refl; same_serviced = refl; same_record = refl })
            (report_times_other (sub32 c.overrun_events s.fdir.seen_overruns) Fault.cycle_overrun
              c.overrun_cycles_lost seen (omega (arith, step))))

  collect_uart_other : (c : PlatformCounters) (s : Services) → SameClass id s (collect_uart c s)
  unfolding collect_uart
  collect_uart_other c s =
      if_holds (SameClass id s) (c.uart_overflow == s.fdir.seen_uart_overflow) (λ _. same_class s)
        (λ _.
          let seen : Services = record s {
            fdir = record (s.fdir) { seen_uart_overflow = c.uart_overflow };
          } in
          SameClass-trans s seen _
            (record { same_reported = refl; same_serviced = refl; same_record = refl })
            (report_other Fault.uart_rx_overflow c.uart_overflow seen (omega (arith, step))))

  collect_irq_other :
      (c : PlatformCounters) (n i : ℕ) (s : Services) → SameClass id s (collect_irq c n i s)
  unfolding collect_irq
  collect_irq_other c zero i s = same_class s
  collect_irq_other c (suc n) i s =
      SameClass-trans s _ _
        (if_holds (SameClass id s) (c.irq_dropped i == s.fdir.seen_irq_dropped i)
          (λ _. same_class s)
          (λ _.
            let seen : Services = record s {
              fdir = record (s.fdir) {
                seen_irq_dropped = update s.fdir.seen_irq_dropped i (c.irq_dropped i);
              };
            } in
            SameClass-trans s seen _
              (record { same_reported = refl; same_serviced = refl; same_record = refl })
              (report_other Fault.irq_overflow i seen (omega (arith, step)))))
        (collect_irq_other c n (i + 1) _)

  pub collect_other :
      (c : PlatformCounters) (s : Services) → SameClass id s (collect_platform_counters c s)
  unfolding collect_platform_counters
  collect_other c s = SameClass-trans s _ _ (collect_overruns_other c s) (
      SameClass-trans _ _ _ (collect_uart_other c (collect_overruns c s))
        (collect_irq_other c irq_count 0 _))

  pub same_occurrences :
      (s t : Services)
      → SameClass id s t
      → IsCounting id s
      → IsCounting id t × (occurrences id t ≡ occurrences id s)
  unfolding occurrences
  same_occurrences s t v k = (
    record {
      reported_word = omega (arith, v.same_reported, k.reported_word);
      serviced_word = omega (arith, v.same_serviced, k.serviced_word);
      occurrences_word = ground (arith, v.same_record, k.occurrences_word);
    },
    ground (arith, v.same_reported, v.same_serviced, v.same_record),
  )
