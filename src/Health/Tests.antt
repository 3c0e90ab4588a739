-- ===== src/Health/Tests.antt =====
-- The properties of the health gate at concrete monitors.
use qiran_firmware.Base.{ℕ, refl, true, false, some, arith, u32, ◌+◌, ◌≤◌}
use qiran_firmware.Base.{◌≡◌, ◌⊎◌, ◌<◌}
use qiran_firmware.Status.{ok, err_timeout}
use qiran_firmware.Samples.{quiet}
use qiran_firmware.Config.{Storage}
use qiran_firmware.Config.Verify.{IsBeyond, noted, reported}
use qiran_firmware.Config.Table.{param_count, in_range}
use qiran_firmware.Config.Curve.{blank_calibration}
use qiran_firmware.Config.Valid.{IsSound}
use qiran_firmware.Health.Init.{System, check_config_integrity, monitored_config}
use qiran_firmware.Health.{
  Monitor, Health, run_monitor, Backend, Watchdog, healthy, health_consolidate, tickle_if_healthy,
}
use qiran_firmware.Health.Gate.{SomeContributes, NoneContributes, tickle-consolidate}

-- A gating monitor that tolerates one failure and has seen two.
abbrev failing : Monitor ℕ
failing = record {
  check = λ w s. ((err_timeout, 7), w + 1, s);
  fault = 0;
  period = 25;
  tolerance = 1;
  countdown = 3;
  gating = true;
  runs = 2;
  failures = 2;
  consecutive = 2;
  last_value = 7;
  last_status = err_timeout;
}

abbrev one_failing : Health ℕ
one_failing = record { monitor = λ _. failing; count = 1; state = healthy; transitions = 0 }

abbrev counting_kicks : Backend ℕ
counting_kicks = record { arm = λ ms w. (ok, w); kick = λ w. w + 1 }

abbrev armed_watchdog : Watchdog ℕ
armed_watchdog = record { backend = some counting_kicks; armed = true; suppressed = 0 }

tickle-consolidate_example :
    let (h', s') = health_consolidate one_failing quiet in
    let (d', w') = tickle_if_healthy h' armed_watchdog 0 in
    (SomeContributes 1 0 one_failing.monitor × (w' ≡ 0) × (d'.suppressed ≡ u32 (0 + 1)))
    ⊎ (NoneContributes 1 0 one_failing.monitor × (w' ≡ 0 + 1) × (d'.suppressed ≡ 0))
tickle-consolidate_example =
    tickle-consolidate one_failing armed_watchdog counting_kicks 0 quiet refl refl

-- A storage that holds one block, and a configuration with it, all its values zero.
abbrev one_block : Storage (ℕ → ℕ)
one_block = record { read = λ offset n w. (ok, w, w); write = λ offset words n w. (ok, words) }

abbrev zeroed : System (ℕ → ℕ)
zeroed = record {
  overrun_events = 0;
  seen_overruns = 0;
  config = record {
    value = λ _. 0;
    live_crc = 0;
    locked = false;
    storage = some one_block;
    cal = blank_calibration;
    cal_valid = false;
    changes = 0;
    rejections = 0;
    corrections = 0;
  };
  storage = λ _. 0;
}

abbrev config_monitor : Monitor (System (ℕ → ℕ))
config_monitor = record {
  check = check_config_integrity;
  fault = 0;
  period = 25;
  tolerance = 1;
  countdown = 1;
  gating = true;
  runs = 0;
  failures = 0;
  consecutive = 0;
  last_value = 0;
  last_status = ok;
}

monitored_config_example :
    let (m1, w1, s1) = run_monitor config_monitor zeroed quiet in
    let (n1, w2, s2) = run_monitor config_monitor w1 quiet in
    (m1.consecutive ≤ 0 + 1)
    × ((IsSound w1.config × (n1.consecutive ≡ 0))
        ⊎ ((j : ℕ) × (j < param_count)
            × IsBeyond (noted zeroed.config) (λ _. 0) (reported zeroed.config quiet) j
            × (in_range j (w1.config.value j) ≡ false)))
monitored_config_example =
    monitored_config config_monitor config_monitor zeroed quiet quiet refl refl (omega arith)
      (omega arith)
