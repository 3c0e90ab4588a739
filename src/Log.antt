-- ===== src/Log.antt =====
-- src/svc/svc_log.c: the fault log, a ring of records that drops the newest when it is full.
-- Each write runs with interrupts off, so a write is one step of the model.
pub mod Fifo
mod Tests
use qiran_firmware.Base.{ℕ, zero, suc, bit_and, Bool, true, false, List, [], ltb, u16, u32}
use qiran_firmware.Base.{sub32, update, ◌+◌, ◌-◌, ◌∷◌, ◌==◌, if◌then◌else◌}
use qiran_firmware.Fault.{Severity, severity_code}

-- `svc_log_category_t`.
pub data Category : Type 0 where
  event fault trace : Category

-- `svc_log_record_t`.
pub record LogRecord : Type 0 where
  pub tick : ℕ
  pub detail : ℕ
  pub code : ℕ
  pub severity : ℕ
  pub category : Category

pub record Log : Type 0 where
  pub buf : ℕ → LogRecord
  pub head : ℕ
  pub tail : ℕ
  pub dropped : ℕ
  pub total : ℕ
  pub fault_total : ℕ

abbrev pub log_depth : ℕ
log_depth = 128

abbrev pub log_mask : ℕ
log_mask = log_depth - 1

abbrev is_fault : Category → Bool
is_fault fault = true
is_fault _ = false

-- `tick` is what `exec_raw_tick_count` returns.
unfoldable pub push : ℕ → ℕ → Category → ℕ → ℕ → Log → Log
push tick code category severity detail s =
    let stored =
      if ltb log_mask (sub32 s.head s.tail)
      then record s { dropped = u32 (s.dropped + 1) }
      else record s {
        buf = update s.buf (bit_and s.head log_mask) (record {
          tick = tick;
          detail = detail;
          code = code;
          severity = severity;
          category = category;
        });
        head = u32 (s.head + 1);
      } in
    record stored {
      total = u32 (stored.total + 1);
      fault_total = if is_fault category then u32 (stored.fault_total + 1) else stored.fault_total;
    }

unfoldable pub init : Log → Log
init s = record s { head = 0; tail = 0; dropped = 0; total = 0; fault_total = 0 }

unfoldable pub log_event : ℕ → ℕ → ℕ → Log → Log
unfolding push
log_event tick code detail s = push tick code event 0 detail s

-- The class is cast to the 16 bits of the code field, the tier to 8.
unfoldable pub log_fault : ℕ → ℕ → Severity → ℕ → Log → Log
unfolding push
log_fault tick id severity detail s = push tick (u16 id) fault (severity_code severity) detail s

unfoldable pub log_trace : ℕ → ℕ → ℕ → Log → Log
unfolding push
log_trace tick code detail s = push tick code trace 0 detail s

-- The loop of `svc_log_read` with `max - n` rounds left.
unfoldable pub read : Log → ℕ → List LogRecord × Log
read s zero = ([], s)
read s (suc rounds) =
    let (records, s') = read (record s { tail = u32 (s.tail + 1) }) rounds in
    if s.head == s.tail then ([], s) else (s.buf (bit_and s.tail log_mask) ∷ records, s')

unfoldable pub count : Log → ℕ
count s = sub32 s.head s.tail
