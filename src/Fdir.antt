-- ===== src/Fdir.antt =====
-- src/svc/svc_fdir.c: fault reporting, classification and escalation. The uplink is registered by
-- another part; `W` is the state that it acts on beside the services.
pub mod Service
pub mod Report
pub mod Pass
pub mod Collect
pub mod Escalate
pub mod History
mod Tests
use qiran_firmware.Base.{ℕ, Bool, false, Option, none, some, ltb, leb, u32, sub32, update}
use qiran_firmware.Base.{◌+◌, ◌&&◌, ◌==◌, if◌then◌else◌}
use qiran_firmware.Status.{Status, ok, err_param, err_unsupported, is_ok}
use qiran_firmware.Fault
use qiran_firmware.Fault.{
  Severity, minor, medium, critical, severe, severity_code, log_only, report_flag, power_reset,
  policy, fault_count,
}
use qiran_firmware.Services.{FaultRecord, Fdir, Services, log_event, log_fault}

abbrev pub empty_record : FaultRecord
empty_record = record {
  occurrences = 0;
  escalations = 0;
  last_tick = 0;
  last_detail = 0;
  flag = false;
  elevated = false;
}

-- `svc_fdir_init`.
unfoldable pub init : Fdir
init = record {
  reported = λ _. 0;
  serviced = λ _. 0;
  detail = λ _. 0;
  tick = λ _. 0;
  records = λ _. empty_record;
  by_severity = λ _. 0;
  undelivered = 0;
  reentries = 0;
  seen_overruns = 0;
  seen_uart_overflow = 0;
  seen_irq_dropped = λ _. 0;
}

-- `svc_fdir_report`: three stores with interrupts off.
unfoldable pub report : ℕ → ℕ → Services → Services
report id detail s = if leb fault_count id then s else record s {
  fdir = record (s.fdir) {
    reported = update s.fdir.reported id (u32 (s.fdir.reported id + 1));
    detail = update s.fdir.detail id detail;
    tick = update s.fdir.tick id s.raw_tick;
  };
}

unserviced : ℕ → Services → ℕ
unserviced id s = sub32 (s.fdir.reported id) (s.fdir.serviced id)

-- `svc_fdir_occurrences`.
unfoldable pub occurrences : ℕ → Services → ℕ
unfolding unserviced
occurrences id s =
    if leb fault_count id then 0 else u32 ((s.fdir.records id).occurrences + unserviced id s)

-- `svc_fdir_retries_exhausted`.
unfoldable pub retries_exhausted : ℕ → Services → Bool
unfolding occurrences
retries_exhausted id s =
    if leb fault_count id
    then false
    else if (policy id).limit == 0
    then false
    else leb (policy id).limit (occurrences id s)

-- `svc_fdir_clear`.
unfoldable pub clear : ℕ → Services → Services
clear id s = if leb fault_count id then s else record s {
  fdir = record (s.fdir) {
    serviced = update s.fdir.serviced id (s.fdir.reported id);
    records =
        update s.fdir.records id
          (record (s.fdir.records id) { occurrences = 0; flag = false; elevated = false });
  };
}

-- `svc_fdir_flag`.
unfoldable pub flag : ℕ → Services → Bool
flag id s = ltb id fault_count && (s.fdir.records id).flag

-- `svc_fdir_uplink_t`, both hooks present.
pub record Uplink (W : Type 0) : Type 0 where
  pub report_flag : ℕ → Severity → ℕ → W → Services → Status × W × Services
  pub request_power_reset : ℕ → W → Services → Status × W × Services

-- The argument of `svc_fdir_set_uplink`, each hook possibly NULL.
pub record UplinkArgument (W : Type 0) : Type 0 where
  pub report_flag : Option (ℕ → Severity → ℕ → W → Services → Status × W × Services)
  pub request_power_reset : Option (ℕ → W → Services → Status × W × Services)

module _ {W : Type 0} where
  both_hooks :
      Option (ℕ → Severity → ℕ → W → Services → Status × W × Services)
      → Option (ℕ → W → Services → Status × W × Services)
      → Option (Uplink W)
  both_hooks (some r) (some p) = some (record { report_flag = r; request_power_reset = p })
  both_hooks _ _ = none

  -- `svc_fdir_set_uplink`, on the uplink registered so far.
  unfoldable pub set_uplink :
      Option (UplinkArgument W) → Option (Uplink W) → Status × Option (Uplink W)
  unfolding both_hooks
  set_uplink none old = (ok, none)
  set_uplink (some a) old = elim (both_hooks a.report_flag a.request_power_reset) [
    | none ↦ (err_param, old)
    | some u ↦ (ok, some u)
  ]

module _ {W : Type 0} (uplink : Option (Uplink W)) where
  -- What the `switch` of `escalate` returns in `st`, with what the hook did.
  deliver : ℕ → ℕ → W → Services → Status × W × Services
  deliver id detail w s = elim (policy id).escalation [
    | log_only ↦ (ok, w, s)
    | report_flag ↦ elim uplink [
      | none ↦ (err_unsupported, w, s)
      | some u ↦ u.report_flag id (policy id).severity detail w s
    ]
    | power_reset ↦ elim uplink [
      | none ↦ (err_unsupported, w, s)
      | some u ↦ u.request_power_reset id w s
    ]
  ]

  count_escalation : ℕ → Services → Services
  count_escalation id s = record s {
    fdir = record (s.fdir) {
      records =
          update s.fdir.records id (record (s.fdir.records id) {
            escalations = u32 ((s.fdir.records id).escalations + 1);
          });
    };
  }

  count_undelivered : Status → Services → Services
  count_undelivered st s =
      if is_ok st
      then s
      else record s { fdir = record (s.fdir) { undelivered = u32 (s.fdir.undelivered + 1) } }

  unfoldable pub escalate : ℕ → ℕ → W → Services → W × Services
  unfolding deliver count_escalation count_undelivered
  escalate id detail w s =
      let (st, w', s') = deliver id detail w (count_escalation id s) in
      (w', count_undelivered st s')
