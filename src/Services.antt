-- ===== src/Services.antt =====
-- The services that every other part calls: the tick counter, the log, the clock and the state of
-- fault management. An interrupt is taken between two calls of the model, so the tick is constant
-- inside one.
use qiran_firmware.Base.{ℕ, Bool}
use qiran_firmware.Fault
use qiran_firmware.Log
use qiran_firmware.Log.{Log}
use qiran_firmware.Time
use qiran_firmware.Time.{Time, Timeout}

-- `svc_fdir_record_t`.
pub record FaultRecord : Type 0 where
  pub occurrences : ℕ
  pub escalations : ℕ
  pub last_tick : ℕ
  pub last_detail : ℕ
  pub flag : Bool
  pub elevated : Bool

-- The state of src/svc/svc_fdir.c, its tables as functions of the fault class.
pub record Fdir : Type 0 where
  pub reported : ℕ → ℕ
  pub serviced : ℕ → ℕ
  pub detail : ℕ → ℕ
  pub tick : ℕ → ℕ
  pub records : ℕ → FaultRecord
  pub by_severity : ℕ → ℕ
  pub undelivered : ℕ
  pub reentries : ℕ
  pub seen_overruns : ℕ
  pub seen_uart_overflow : ℕ
  pub seen_irq_dropped : ℕ → ℕ

pub record Services : Type 0 where
  pub raw_tick : ℕ
  pub log : Log
  pub time : Time
  pub fdir : Fdir

-- `svc_log_event` and `svc_log_fault` where the caller holds all services.
unfoldable pub log_event : ℕ → ℕ → Services → Services
log_event code detail s = record s { log = Log.log_event s.raw_tick code detail s.log }

unfoldable pub log_fault : ℕ → Fault.Severity → ℕ → Services → Services
log_fault id severity detail s = record s {
  log = Log.log_fault s.raw_tick id severity detail s.log;
}

-- `svc_time_now_ms`.
unfoldable pub now_ms : Services → ℕ × Services
now_ms s = let (now, t) = Time.now_ms s.raw_tick s.time in (now, record s { time = t })

-- `svc_timeout_arm` and `svc_timeout_expired`, likewise.
unfoldable pub arm : ℕ → Services → Timeout × Services
arm duration_ms s =
    let (o, t) = Time.arm s.raw_tick duration_ms s.time in (o, record s { time = t })

unfoldable pub expired : Timeout → Services → Bool × Services
expired o s = let (e, t) = Time.expired s.raw_tick o s.time in (e, record s { time = t })
