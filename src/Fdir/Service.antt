-- ===== src/Fdir/Service.antt =====
-- The loop's half of src/svc/svc_fdir.c: classification of what was reported, collection of the
-- platform's counters, and re-entry accounting.
use qiran_firmware.Base.{ℕ, zero, suc, Bool, true, not, Option, List, [], ltb, leb, u16, u32}
use qiran_firmware.Base.{sub32, update, ◌+◌, ◌-◌, ◌&&◌, ◌∷◌, ◌==◌, if◌then◌else◌}
use qiran_firmware.Fault
use qiran_firmware.Fault.{
  minor, medium, critical, severe, severity_code, policy, fault_count, reentry_limit,
}
use qiran_firmware.Services.{Services, log_event, log_fault}
use qiran_firmware.Fdir.{report, Uplink, escalate}

-- What the service collects: `exec_stats_get`, `plat_isr_uart_overflow` and `plat_irq_stats_get`.
pub record PlatformCounters : Type 0 where
  pub overrun_events : ℕ
  pub overrun_cycles_lost : ℕ
  pub uart_overflow : ℕ
  pub irq_dropped : ℕ → ℕ

abbrev pub irq_count : ℕ
irq_count = 6

-- The first half of `classify`: the class's record, the tier's count and the log entry.
unfoldable pub note_occurrences : ℕ → ℕ → Services → Services
note_occurrences id n s =
    let tier = (policy id).severity in
    log_fault id tier (s.fdir.detail id) (record s {
      fdir = record (s.fdir) {
        records = update s.fdir.records id (record (s.fdir.records id) {
          occurrences = u32 ((s.fdir.records id).occurrences + n);
          last_detail = s.fdir.detail id;
          last_tick = s.fdir.tick id;
          flag = true;
        });
        by_severity =
            update s.fdir.by_severity (severity_code tier)
              (u32 (s.fdir.by_severity (severity_code tier) + n));
      };
    })

-- A Critical class at its limit that is not elevated yet.
unfoldable pub reaches_limit : ℕ → Services → Bool
reaches_limit id s =
    not ((policy id).limit == 0)
    && leb (policy id).limit (s.fdir.records id).occurrences
    && not (s.fdir.records id).elevated

unfoldable pub elevate : ℕ → Services → Services
elevate id s = record s {
  fdir = record (s.fdir) {
    records = update s.fdir.records id (record (s.fdir.records id) { elevated = true });
  };
}

-- `detail` is read before the record is changed, and nothing between changes it.
module _ {W : Type 0} (uplink : Option (Uplink W)) where
  unfoldable pub classify : ℕ → ℕ → W → Services → W × Services
  unfolding note_occurrences reaches_limit elevate
  classify id n w s =
      let detail = s.fdir.detail id in
      let noted = note_occurrences id n s in
      elim (policy id).severity [
        | severe ↦ escalate uplink id detail w noted
        | critical ↦
            if reaches_limit id noted
            then escalate uplink id detail w (elevate id noted)
            else (w, noted)
        | medium ↦ (w, noted)
        | minor ↦ (w, noted)
      ]

  -- One round of the loop of `error_handling_service`.
  unfoldable pub service_class : ℕ → W → Services → W × Services
  service_class id w s =
      let n = sub32 (s.fdir.reported id) (s.fdir.serviced id) in
      if n == 0
      then (w, s)
      else classify id n w (record s {
        fdir = record (s.fdir) { serviced = update s.fdir.serviced id (s.fdir.reported id) };
      })

  -- The loop with `rounds` classes left, from class `id` on.
  unfoldable pub classification_pass : ℕ → ℕ → W → Services → W × Services
  classification_pass zero id w s = (w, s)
  classification_pass (suc rounds) id w s =
      let (w', s') = service_class id w s in classification_pass rounds (id + 1) w' s'

-- `for (i = 0; i < delta; i++) svc_fdir_report(id, detail)`.
unfoldable pub report_times : ℕ → ℕ → ℕ → Services → Services
report_times zero id detail s = s
report_times (suc n) id detail s = report_times n id detail (report id detail s)

unfoldable pub collect_overruns : PlatformCounters → Services → Services
unfolding report_times
collect_overruns c s =
    if c.overrun_events == s.fdir.seen_overruns
    then s
    else report_times (sub32 c.overrun_events s.fdir.seen_overruns) Fault.cycle_overrun
        c.overrun_cycles_lost
        (record s { fdir = record (s.fdir) { seen_overruns = c.overrun_events } })

unfoldable pub collect_uart : PlatformCounters → Services → Services
collect_uart c s =
    if c.uart_overflow == s.fdir.seen_uart_overflow
    then s
    else report Fault.uart_rx_overflow c.uart_overflow
        (record s { fdir = record (s.fdir) { seen_uart_overflow = c.uart_overflow } })

unfoldable pub collect_irq : PlatformCounters → ℕ → ℕ → Services → Services
collect_irq c zero i s = s
collect_irq c (suc rounds) i s = collect_irq c rounds (i + 1) (
    if c.irq_dropped i == s.fdir.seen_irq_dropped i
    then s
    else report Fault.irq_overflow i (record s {
      fdir = record (s.fdir) {
        seen_irq_dropped = update s.fdir.seen_irq_dropped i (c.irq_dropped i);
      };
    }))

unfoldable pub collect_platform_counters : PlatformCounters → Services → Services
unfolding collect_overruns collect_uart collect_irq
collect_platform_counters c s = collect_irq c irq_count 0 (collect_uart c (collect_overruns c s))

module _ {W : Type 0} (uplink : Option (Uplink W)) where
  -- `error_handling_service`: classes 1 to `fault_count - 1` in order.
  unfoldable pub error_handling_service : PlatformCounters → W → Services → W × Services
  unfolding collect_platform_counters classification_pass
  error_handling_service c w s =
      classification_pass uplink (fault_count - 1) 1 w (collect_platform_counters c s)

  -- `svc_fdir_reentry_note`.
  unfoldable pub reentry_note : ℕ → W → Services → W × Services
  reentry_note cause w s =
      let n = u32 (s.fdir.reentries + 1) in
      let noted = log_event (u16 cause) n (record s { fdir = record (s.fdir) { reentries = n } }) in
      if ltb reentry_limit n then escalate uplink cause n w noted else (w, noted)

-- `svc_fdir_reentry_exceeded`.
unfoldable pub reentry_exceeded : Services → Bool
reentry_exceeded s = ltb reentry_limit s.fdir.reentries

-- One queue of `svc_fdir_service_interrupts`: the events that `plat_irq_take` hands out, oldest
-- first, until it has none.
report_events : ℕ → List ℕ → Services → Services
report_events id [] s = s
report_events id (datum ∷ rest) s = report_events id rest (report id datum s)

unfoldable pub service_interrupts : List ℕ → List ℕ → Services → Services
unfolding report_events
service_interrupts pl_errors watchdog_events s =
    report_events Fault.watchdog_expiry watchdog_events (report_events Fault.pl_error pl_errors s)
