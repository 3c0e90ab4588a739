-- ===== src/Samples.antt =====
-- Concrete states that the tests of the modules share.
use qiran_firmware.Base.{false}
use qiran_firmware.Services.{Services}
use qiran_firmware.Log.{event}

-- The services at start.
abbrev pub quiet : Services
quiet = record {
  raw_tick = 0;
  log = record {
    buf = λ _. record { tick = 0; detail = 0; code = 0; severity = 0; category = event };
    head = 0;
    tail = 0;
    dropped = 0;
    total = 0;
    fault_total = 0;
  };
  time = record { last_raw = 0; ticks = 0; epoch_ms = 0; epoch_valid = false };
  fdir = record {
    reported = λ _. 0;
    serviced = λ _. 0;
    detail = λ _. 0;
    tick = λ _. 0;
    records = λ _. record {
      occurrences = 0;
      escalations = 0;
      last_tick = 0;
      last_detail = 0;
      flag = false;
      elevated = false;
    };
    by_severity = λ _. 0;
    undelivered = 0;
    reentries = 0;
    seen_overruns = 0;
    seen_uart_overflow = 0;
    seen_irq_dropped = λ _. 0;
  };
}
