-- ===== src/Fdir/Tests.antt =====
-- The properties of fault management at concrete states.
use qiran_firmware.Base.{ℕ, refl, true, some, [], arith, update, ◌+◌, ◌≡◌}
use qiran_firmware.Base.{◌∷◌}
use qiran_firmware.Status.{ok}
use qiran_firmware.Fault
use qiran_firmware.Fault.{policy, fault_count}
use qiran_firmware.Services.{Services}
use qiran_firmware.Samples.{quiet}
use qiran_firmware.Fdir.{Uplink, occurrences, retries_exhausted}
use qiran_firmware.Fdir.Service.{PlatformCounters}
use qiran_firmware.Fdir.Report.{IsCounting}
use qiran_firmware.Fdir.Pass.{HooksLeave}
use qiran_firmware.Fdir.Escalate.{AtMostOnce}
use qiran_firmware.Fdir.History.{report_op, service_op, run_ops, run_ops-AtMostOnce}

-- An uplink that counts its calls.
abbrev counting_uplink : Uplink ℕ
counting_uplink = record {
  report_flag = λ id tier detail w s. (ok, w + 1, s);
  request_power_reset = λ id w s. (ok, w + 1, s);
}

counting_uplink-HooksLeave : (id : ℕ) → HooksLeave ℕ id counting_uplink
counting_uplink-HooksLeave id = record {
  by_report_flag =
      λ j tier d w s. record { same_reported = refl; same_serviced = refl; same_record = refl };
  by_power_reset =
      λ j w s. record { same_reported = refl; same_serviced = refl; same_record = refl };
}

-- Three reports of a mirror that does not lock, whose limit is three.
abbrev three_reports : Services
three_reports = record quiet {
  fdir = record (quiet.fdir) { reported = update (λ _. 0) Fault.mrr_lock 3 };
}

three_reports-IsCounting : (id : ℕ) → IsCounting id three_reports
three_reports-IsCounting id = ground arith

quiet-IsCounting : IsCounting Fault.mrr_lock quiet
quiet-IsCounting = ground arith

limit_of_mrr_lock :
    ((policy Fault.mrr_lock).limit ≡ 3) × ((policy Fault.mrr_lock).severity ≡ Fault.critical)
unfolding policy
limit_of_mrr_lock = (refl, refl)

exhausted_after_three : retries_exhausted Fault.mrr_lock three_reports ≡ true
unfolding retries_exhausted occurrences policy
exhausted_after_three = refl

abbrev no_counters : PlatformCounters
no_counters = record {
  overrun_events = 0;
  overrun_cycles_lost = 0;
  uart_overflow = 0;
  irq_dropped = λ _. 0;
}

run_ops-AtMostOnce_example :
    AtMostOnce Fault.mrr_lock three_reports
      (run_ops
        (some counting_uplink)
        (service_op no_counters ∷ report_op Fault.mrr_lock 9 ∷ service_op no_counters ∷ [])
        0
        three_reports).1
run_ops-AtMostOnce_example =
    run_ops-AtMostOnce (some counting_uplink) Fault.mrr_lock
      (counting_uplink-HooksLeave Fault.mrr_lock) (limit_of_mrr_lock.1)
      (service_op no_counters ∷ report_op Fault.mrr_lock 9 ∷ service_op no_counters ∷ []) 0
      three_reports _
