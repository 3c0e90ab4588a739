-- ===== src/Health.antt =====
-- src/svc/svc_health.c and src/svc/svc_watchdog.c: the monitors, the verdict that they form, and the
-- watchdog that is served while the verdict is healthy. A check belongs to its owner; `W` is what
-- checks and the watchdog's backend act on beside the services.
pub mod Period
pub mod Gate
pub mod Init
mod Tests
use qiran_firmware.Base.{ℕ, zero, suc, Bool, true, false, Option, none, some, ltb, leb, u16}
use qiran_firmware.Base.{u32, update, ◌+◌, ◌-◌, ◌%◌, ◌&&◌, ◌||◌, ◌==◌, if◌then◌else◌}
use qiran_firmware.Status.{Status, is_ok, ok, err_param, err_range, err_hardware}
use qiran_firmware.Fault.{no_fault, fault_count}
use qiran_firmware.Services.{Services, log_event}
use qiran_firmware.Fdir.{report}

-- `SVC_HEALTH_MONITOR_MAX`.
abbrev pub monitor_max : ℕ
monitor_max = 16

-- `svc_health_check_t` with its context in `W`: the status and the value.
abbrev pub Check : Type 0 → Type 0
Check W = W → Services → (Status × ℕ) × W × Services

-- `monitor_t`.
pub record Monitor (W : Type 0) : Type 0 where
  pub check : Check W
  pub fault : ℕ
  pub period : ℕ
  pub tolerance : ℕ
  pub countdown : ℕ
  pub gating : Bool
  pub runs : ℕ
  pub failures : ℕ
  pub consecutive : ℕ
  pub last_value : ℕ
  pub last_status : Status

-- `qiran_health_t`.
pub data Verdict : Type 0 where
  healthy failed : Verdict

abbrev verdict_code : Verdict → ℕ
verdict_code healthy = 0
verdict_code failed = 1

abbrev same_verdict : Verdict → Verdict → Bool
same_verdict healthy healthy = true
same_verdict failed failed = true
same_verdict _ _ = false

pub record Health (W : Type 0) : Type 0 where
  pub monitor : ℕ → Monitor W
  pub count : ℕ
  pub state : Verdict
  pub transitions : ℕ

-- The watchdog, its backend as what arming and kicking do.
pub record Backend (W : Type 0) : Type 0 where
  pub arm : ℕ → W → Status × W
  pub kick : W → W

pub record Watchdog (W : Type 0) : Type 0 where
  pub backend : Option (Backend W)
  pub armed : Bool
  pub suppressed : ℕ

module _ {W : Type 0} where
  -- `svc_health_register`, with a name and a check.
  unfoldable pub register : Check W → Bool → ℕ → ℕ → ℕ → Health W → Status × Health W
  register check gating period tolerance fault h =
      if (period == 0) || leb fault_count fault
      then (err_param, h)
      else if leb monitor_max h.count
      then (err_range, h)
      else (
        ok,
        record h {
          monitor = update h.monitor h.count (record {
            check = check;
            fault = fault;
            period = period;
            tolerance = tolerance;
            countdown = u32 (h.count % period + 1);
            gating = gating;
            runs = 0;
            failures = 0;
            consecutive = 0;
            last_value = 0;
            last_status = ok;
          });
          count = h.count + 1;
        },
      )

  -- `contributing`.
  unfoldable pub contributing : Monitor W → Bool
  contributing m = m.gating && ltb m.tolerance m.consecutive

  -- A monitor that is due, with the outcome of its check.
  unfoldable pub note_check : Status → ℕ → Monitor W → Monitor W
  note_check st value m =
      let m' = record m {
        countdown = m.period;
        runs = u32 (m.runs + 1);
        last_value = value;
        last_status = st;
      } in
      if is_ok st
      then record m' { consecutive = 0 }
      else record m' { failures = u32 (m.failures + 1); consecutive = u32 (m.consecutive + 1) }

  -- The body of the loop of `health_check`.
  unfoldable pub run_monitor : Monitor W → W → Services → Monitor W × W × Services
  run_monitor m w s =
      let ((st, value), w', s') = m.check w s in
      if ltb 1 m.countdown then (record m { countdown = m.countdown - 1 }, w, s) else (
        note_check st value m,
        w',
        if is_ok st || (m.fault == no_fault) then s' else report m.fault value s',
      )

  -- `health_check`: `n` monitors from `i`.
  unfoldable pub check_from :
      ℕ → ℕ → (ℕ → Monitor W) → W → Services → (ℕ → Monitor W) × W × Services
  check_from zero i monitors w s = (monitors, w, s)
  check_from (suc n) i monitors w s =
      let (m, w', s') = run_monitor (monitors i) w s in
      check_from n (i + 1) (update monitors i m) w' s'

  unfoldable pub health_check : Health W → W → Services → Health W × W × Services
  health_check h w s =
      let (monitors, w', s') = check_from h.count 0 h.monitor w s in
      (record h { monitor = monitors }, w', s')

  -- The loop of `health_consolidate`.
  unfoldable pub verdict_from : ℕ → ℕ → (ℕ → Monitor W) → Verdict → Verdict
  verdict_from zero i monitors verdict = verdict
  verdict_from (suc n) i monitors verdict =
      verdict_from n (i + 1) monitors (if contributing (monitors i) then failed else verdict)

  -- `health_consolidate`.
  unfoldable pub health_consolidate : Health W → Services → Health W × Services
  health_consolidate h s =
      let verdict = verdict_from h.count 0 h.monitor healthy in
      if same_verdict verdict h.state then (h, s) else (
        record h { state = verdict; transitions = u32 (h.transitions + 1) },
        log_event (u16 no_fault) (verdict_code verdict) s,
      )

  -- `svc_watchdog_init`, on the backend kept from before.
  unfoldable pub watchdog_init :
      ℕ
      → Option (Option (ℕ → W → Status × W) × Option (W → W))
      → Watchdog W
      → W
      → Status × Watchdog W × W
  watchdog_init timeout none d w = (ok, record { backend = none; armed = false; suppressed = 0 }, w)
  watchdog_init timeout (some (some arm, some kick)) d w =
      let (st, w') = arm timeout w in
      (
        if is_ok st then ok else err_hardware,
        record {
          backend = some (record { arm = arm; kick = kick });
          armed = is_ok st;
          suppressed = 0;
        },
        w',
      )
  watchdog_init timeout (some _) d w = (err_param, record d { armed = false; suppressed = 0 }, w)

  -- `watchdog_tickle_if_healthy`.
  unfoldable pub tickle_if_healthy : Health W → Watchdog W → W → Watchdog W × W
  tickle_if_healthy h d w = elim h.state [
    | failed ↦ (record d { suppressed = u32 (d.suppressed + 1) }, w)
    | healthy ↦ (d, if d.armed then elim d.backend [ none ↦ w | some b ↦ b.kick w ] else w)
  ]
