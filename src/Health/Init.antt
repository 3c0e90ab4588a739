-- ===== src/Health/Init.antt =====
-- `svc_health_init` and its two monitors: deadline keeping and the integrity of the configuration.
use qiran_firmware.Base.{
  ℕ, refl, sym, ap, inl, inr, false, ◌⊎◌, ◌∙◌, subst, true, arith, ℕ_discrete, ◌+◌, ◌≤◌, ◌<◌,
}
use qiran_firmware.Base.{◌≡◌, ◌↔◌, ◌==◌, if◌then◌else◌}
use qiran_firmware.Status.{Status, ok, err_timeout}
use qiran_firmware.Fault
use qiran_firmware.Services.{Services}
use qiran_firmware.Config.{Config, verify}
use qiran_firmware.Config.Valid.{IsSound}
use qiran_firmware.Config.Table.{param_count, in_range}
use qiran_firmware.Config.Verify.{IsBeyond, noted, reported, verify_mends, IsSound-cases}
use qiran_firmware.Exec.{minor_per_major}
use qiran_firmware.Health.{Monitor, Health, Check, healthy, register, run_monitor, note_check}

-- What the two checks read and change: the overrun events of the executive, those seen, and the
-- configuration with its storage.
pub record System (V : Type 0) : Type 0 where
  pub overrun_events : ℕ
  pub seen_overruns : ℕ
  pub config : Config V
  pub storage : V

module _ {V : Type 0} where
  -- `check_exec_timing`.
  unfoldable pub check_exec_timing : Check (System V)
  check_exec_timing w s =
      if w.overrun_events == w.seen_overruns
      then ((ok, w.overrun_events), w, s)
      else ((err_timeout, w.overrun_events), record w { seen_overruns = w.overrun_events }, s)

  -- `check_config_integrity`.
  unfoldable pub check_config_integrity : Check (System V)
  check_config_integrity w s =
      let (r, c, v, s') = verify w.config w.storage s in
      ((r, w.config.corrections), record w { config = c; storage = v }, s')

  -- `svc_health_init`: the table keeps what it held, and is empty.
  unfoldable pub health_init : Health (System V) → System V → Health (System V) × System V
  health_init h w =
      let start = record h { count = 0; state = healthy; transitions = 0 } in
      let (r1, h1) = register check_exec_timing true 1 2 Fault.no_fault start in
      let (r2, h2) = register check_config_integrity true minor_per_major 1 Fault.no_fault h1 in
      (h2, record w { seen_overruns = 0 })

  check_config_integrity_lem :
      (w : System V) (s : Services)
      → let ((r, value), w', s') = check_config_integrity w s in
        (w'.config ≡ (verify w.config w.storage s).1) × ((r ≡ ok) ↔ IsSound w.config)
  unfolding check_config_integrity
  check_config_integrity_lem w s = (refl, (verify_mends w.config w.storage s).0)

  due_run :
      (m : Monitor (System V)) (w : System V) (s : Services)
      → m.check ≡ check_config_integrity
      → m.countdown ≤ 1
      → let ((r, value), w', s') = check_config_integrity w s in
        ((run_monitor m w s).0 ≡ note_check r value m) × ((run_monitor m w s).1 ≡ w')
  unfolding run_monitor
  due_run m w s e h = (ground (arith, e, h), ground (arith, e, h))

  note_ok :
      (r : Status) (value : ℕ) (m : Monitor (System V))
      → r ≡ ok
      → (note_check r value m).consecutive ≡ 0
  unfolding note_check
  note_ok r value m e = rw e refl

  note_at_most :
      (r : Status) (value : ℕ) (m : Monitor (System V))
      → (note_check r value m).consecutive ≤ m.consecutive + 1
  unfolding note_check
  note_at_most r value m = ground arith

  -- Whatever the parameters have become and whatever the storage gives, one run of the monitor of
  -- the configuration adds at most one failure in a row. Either it leaves the parameters sound, and
  -- its next run, on the state so left, finds nothing: the failures in a row are over, so that they
  -- do not reach the two that would count against the verdict. Or the stored block was taken, ends
  -- before a parameter, and that one is still outside its limits.
  pub monitored_config :
      (m n : Monitor (System V)) (w : System V) (s s' : Services)
      → m.check ≡ check_config_integrity
      → n.check ≡ check_config_integrity
      → m.countdown ≤ 1
      → n.countdown ≤ 1
      → let (m1, w1, s1) = run_monitor m w s in
        let (n1, w2, s2) = run_monitor n w1 s' in
        (m1.consecutive ≤ m.consecutive + 1)
        × ((IsSound w1.config × (n1.consecutive ≡ 0))
            ⊎ ((j : ℕ) × (j < param_count)
                × IsBeyond (noted w.config) w.storage (reported w.config s) j
                × (in_range j (w1.config.value j) ≡ false)))
  monitored_config m n w s s' em en hm hn =
      let (m-is, w-is) = due_run m w s em hm in
      let (changed, _) = check_config_integrity_lem w s in
      let (_, fresh, mended) = verify_mends w.config w.storage s in
      let w1 = (run_monitor m w s).1 in
      let same : w1.config ≡ (verify w.config w.storage s).1 =
        ap (λ (x : System V). x.config) w-is ∙ changed in
      let (n-is, _) = due_run n w1 s' en hn in
      (
        rw m-is (note_at_most _ _ m),
        elim (IsSound-cases (verify w.config w.storage s).1 fresh) [
          | inl v ↦
              let sound : IsSound w1.config = subst IsSound (sym same) v in
              inl (sound, rw n-is (note_ok _ _ n ((check_config_integrity_lem w1 s').1.1 sound)))
          | inr (j, known, out) ↦ inr (
            j,
            known,
            elim (mended j known) [
              | inl inside ↦ absurd (ground (arith, inside, out))
              | inr (beyond, _) ↦ beyond
            ],
            rw same out,
          )
        ],
      )

  -- After the start there are two gating monitors, that of the executive's timing, due at the next
  -- cycle and at each one after it, and that of the configuration, due once in every major cycle.
  pub health_init_monitors :
      (h : Health (System V)) (w : System V)
      → let (h', w') = health_init h w in
        (h'.count ≡ 2)
        × (h'.state ≡ healthy)
        × ((h'.monitor 0).check ≡ check_exec_timing)
        × ((h'.monitor 0).period ≡ 1)
        × ((h'.monitor 1).check ≡ check_config_integrity)
        × ((h'.monitor 1).period ≡ minor_per_major)
        × ((i : ℕ) → i < 2 → ((h'.monitor i).gating ≡ true) × (0 < (h'.monitor i).countdown))
  unfolding health_init register
  health_init_monitors h w = (
    refl,
    refl,
    refl,
    refl,
    refl,
    refl,
    λ i lt. elim (ℕ_discrete i 0) [
      | yes e ↦ rw e (refl, omega arith)
      | no ne ↦ let one : i ≡ 1 = omega arith in rw one (refl, omega arith)
    ],
  )
