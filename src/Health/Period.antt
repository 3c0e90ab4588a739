-- ===== src/Health/Period.antt =====
-- When a monitor's check runs, and how its failures are counted.
use qiran_firmware.Base.{ℕ, length, zero, suc, refl, sym, ap, ap₂, subst, List, [], arith, ltb, ◌+◌}
use qiran_firmware.Base.{◌-◌, ◌<◌, ◌≡◌, ◌∙◌, ◌&&◌, ◌∷◌, if◌then◌else◌}
use qiran_firmware.Status.{Status, is_ok}
use qiran_firmware.Services.{Services}
use qiran_firmware.Health.{Monitor, run_monitor, note_check, contributing}

module _ {W : Type 0} where
  -- `n` cycles of one monitor.
  unfoldable pub run_times : ℕ → Monitor W → W → Services → Monitor W × W × Services
  run_times zero m w s = (m, w, s)
  run_times (suc n) m w s = let (m', w', s') = run_monitor m w s in run_times n m' w' s'

  abbrev counted_down : ℕ → Monitor W → Monitor W
  counted_down n m = record m { countdown = m.countdown - n }

  waits_once :
      (m : Monitor W) (w : W) (s : Services)
      → 1 < m.countdown
      → run_monitor m w s ≡ (counted_down 1 m, w, s)
  unfolding run_monitor
  waits_once m w s h = ground (arith, h)

  -- Before its countdown is over a monitor only counts down: its check is not called and nothing else
  -- changes.
  pub run_times_waits :
      (n : ℕ) (m : Monitor W) (w : W) (s : Services)
      → n < m.countdown
      → run_times n m w s ≡ (record m { countdown = m.countdown - n }, w, s)
  unfolding run_times
  run_times_waits zero m w s h = ap (λ k. (record m { countdown = k }, w, s)) (omega arith)
  run_times_waits (suc n) m w s h =
      ap (λ (p : Monitor W × W × Services). run_times n p.0 p.1 p.2)
        (waits_once m w s (omega arith))
      ∙ run_times_waits n (counted_down 1 m) w s (omega arith)
      ∙ ap (λ k. (record m { countdown = k }, w, s)) (omega arith)

  runs_once :
      (m : Monitor W) (w : W) (s : Services)
      → m.countdown ≡ 1
      → let ((st, value), w', s') = m.check w s in
        ((run_monitor m w s).0 ≡ note_check st value m) × ((run_monitor m w s).1 ≡ w')
  unfolding run_monitor
  runs_once m w s h = (ground (arith, h), ground (arith, h))

  -- In the cycle at which a monitor's countdown ends, and not before, its check is called, its
  -- outcome is kept and the countdown starts again at the period. The count of runs stays inside
  -- its 32 bits.
  pub run_times_runs :
      (n : ℕ) (m : Monitor W) (w : W) (s : Services)
      → m.countdown ≡ suc n
      → m.runs < 4294967295
      → let (m', w', s') = run_times (suc n) m w s in
        let ((st, value), w'', s'') = m.check w s in
        (m'.runs ≡ m.runs + 1)
        × (m'.countdown ≡ m.period)
        × (m'.last_status ≡ st)
        × (m'.last_value ≡ value)
        × (w' ≡ w'')
  unfolding run_times note_check
  run_times_runs zero m w s h room = ground (arith, room, runs_once m w s h)
  run_times_runs (suc n) m w s h room =
      subst
        (λ (p : Monitor W × W × Services).
          let (m', w', s') = run_times (suc n) p.0 p.1 p.2 in
          let ((st, value), w'', s'') = m.check w s in
          (m'.runs ≡ m.runs + 1)
          × (m'.countdown ≡ m.period)
          × (m'.last_status ≡ st)
          × (m'.last_value ≡ value)
          × (w' ≡ w''))
        (sym (waits_once m w s (omega arith)))
        (run_times_runs n (counted_down 1 m) w s (omega arith) room)

  -- The outcomes of a monitor's checks, oldest first.
  unfoldable pub note_checks : List (Status × ℕ) → Monitor W → Monitor W
  note_checks [] m = m
  note_checks ((st, value) ∷ rest) m = note_checks rest (note_check st value m)

-- The number of failures that end a list, after `n` before it.
unfoldable pub streak : ℕ → List (Status × ℕ) → ℕ
streak n [] = n
streak n ((st, value) ∷ rest) = streak (if is_ok st then 0 else n + 1) rest

note_check_counts :
    {W : Type 0} (st : Status) (value : ℕ) (m : Monitor W)
    → m.consecutive + 1 < 4294967296
    → let m' = note_check st value m in
      (m'.tolerance ≡ m.tolerance)
      × (m'.gating ≡ m.gating)
      × (m'.consecutive ≡ (if is_ok st then 0 else m.consecutive + 1))
unfolding note_check
note_check_counts st value m h = ground (arith, h)

-- A gating monitor counts against the verdict exactly while its last failures in a row, those
-- before included, outnumber its tolerance, and an advisory monitor never does. The failures in a
-- row fit 32 bits.
pub contributing-note_checks :
    {W : Type 0} (results : List (Status × ℕ)) (m : Monitor W)
    → m.consecutive + length results < 4294967296
    → contributing (note_checks results m)
      ≡ (m.gating && ltb m.tolerance (streak m.consecutive results))
unfolding contributing note_checks streak
contributing-note_checks [] m h = refl
contributing-note_checks ((st, value) ∷ rest) m h =
    let (same, gate, count) = note_check_counts st value m (omega arith) in
    contributing-note_checks rest (note_check st value m) (ground (arith, count, h))
    ∙ ap₂ (λ a b. a && b) gate (ap₂ ltb same (ap (λ k. streak k rest) count))
