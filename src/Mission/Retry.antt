-- ===== src/Mission/Retry.antt =====
-- A stage that keeps answering "retry" stalls, after as many retries as its fault class allows.
use qiran_firmware.Base.{ℕ, zero, suc, refl, sym, ap, subst, true, false, Option, some, arith}
use qiran_firmware.Base.{leb, u32, ◌+◌, ◌≤◌, ◌<◌, ◌≡◌, ◌∙◌, ◌≢◌, if◌then◌else◌}
use qiran_firmware.Fault
use qiran_firmware.Fault.{policy, fault_count}
use qiran_firmware.Services.{Services, now_ms, log_event}
use qiran_firmware.Fdir.{Uplink, report, occurrences, retries_exhausted}
use qiran_firmware.Fdir.Report.{
  IsCounting, report-IsCounting, occurrences-report, occurrences_fdir, IsCounting-fdir,
}
use qiran_firmware.Mission.{
  Mission, MissionStep, StepFn, retry, seq_step, run_stage, apply_result, check_budget, enter,
  default_step, fault_of,
}
use qiran_firmware.Mission.Moves.{run_cycles}

enter_fdir : (stage : ℕ) (m : Mission) (s : Services) → (enter stage m s).1.fdir ≡ s.fdir
unfolding enter now_ms log_event
enter_fdir stage m s = ground arith

enter_stage :
    (stage : ℕ) (m : Mission) (s : Services)
    → let m' = (enter stage m s).0 in
      (m'.stage ≡ stage) × (m'.stalled ≡ m.stalled) × (m'.aborted ≡ m.aborted)
unfolding enter
enter_stage stage m s = ground arith

exhausted_iff :
    (f : ℕ) (s : Services)
    → f < fault_count
    → (policy f).limit ≢ 0
    → retries_exhausted f s ≡ leb (policy f).limit (occurrences f s)
unfolding retries_exhausted
exhausted_iff f s inside limited = ground (arith, inside, limited)

-- One retry: the attempt is reported, and the stage stalls or is entered again.
pub retry_step :
    {W : Type 0} (uplink : Option (Uplink W)) (f : ℕ) (out : MissionStep) (m : Mission) (w : W)
    (s : Services)
    → out.result ≡ retry
    → let (m', w', s') = apply_result uplink f out m w s in
      (m'.stalled ≡ (if retries_exhausted f (report f out.detail s) then true else m.stalled))
      × (m'.stage ≡ m.stage)
      × (m'.aborted ≡ m.aborted)
      × (s'.fdir ≡ (report f out.detail s).fdir)
unfolding apply_result
retry_step uplink f out m w s e =
    let s' = report f out.detail s in
    let m' = record m { attempts = u32 (m.attempts + 1) } in
    ground (arith, e, enter_fdir m.stage m' s', enter_stage m.stage m' s')

check_budget_kept :
    (config : ℕ → ℕ) (m : Mission) (s : Services)
    → let m' = (check_budget config m s).0 in
      (m'.stage ≡ m.stage) × (m'.stalled ≡ m.stalled) × (m'.aborted ≡ m.aborted)
unfolding check_budget
check_budget_kept config m s = ground arith

-- An overrun of the budget is counted under its own class only.
check_budget_counts :
    (config : ℕ → ℕ) (f : ℕ) (m : Mission) (s : Services)
    → f ≢ Fault.stage_timeout
    → IsCounting f s
    → let s' = (check_budget config m s).1 in (occurrences f s' ≡ occurrences f s) × IsCounting f s'
unfolding check_budget occurrences report now_ms
check_budget_counts config f m s ne v = ground arith

-- A step function that answers "retry" under the class `f` whatever the state, and reports nothing
-- itself.
pub record AlwaysRetries (W : Type 0) (f stage : ℕ) (step : StepFn W) : Type 0 where
  pub answers_retry : (o : MissionStep) (w : W) (s : Services) → (step o w s).0.result ≡ retry
  pub under_class : (o : MissionStep) (w : W) (s : Services) → fault_of (step o w s).0 stage ≡ f
  pub reports_nothing : (o : MissionStep) (w : W) (s : Services) → (step o w s).2.fdir ≡ s.fdir

module _ {W : Type 0} (uplink : Option (Uplink W)) (config : ℕ → ℕ) (steps : ℕ → Option (StepFn W))
    (f : ℕ) (inside : f < fault_count) (limited : (policy f).limit ≢ 0) where
  retrying_stage :
      (step : StepFn W) (m : Mission) (w : W) (s : Services)
      → AlwaysRetries W f m.stage step
      → IsCounting f s
      → let (m', w', s') = run_stage uplink (some step) m w s in
        (m'.stalled
          ≡ (if leb (policy f).limit (u32 (occurrences f s + 1)) then true else m.stalled))
        × (m'.stage ≡ m.stage)
        × (m'.aborted ≡ m.aborted)
        × (occurrences f s' ≡ u32 (occurrences f s + 1))
        × IsCounting f s'
  unfolding run_stage
  retrying_stage step m w s always v =
      let o = default_step m.stage in
      let (out, w', s') = step o w s in
      let c = fault_of out m.stage in
      let t = (apply_result uplink c out m w' s').2 in
      let e : c ≡ f = always.under_class o w s in
      let same = always.reports_nothing o w s in
      let v' = IsCounting-fdir f s s' same v in
      let (stalls, stays, goes, fdir) =
        retry_step uplink c out m w' s' (always.answers_retry o w s) in
      let after : IsCounting f (report f out.detail s') = report-IsCounting f f out.detail s' v' in
      ground (
        arith,
        e,
        stalls,
        stays,
        goes,
        fdir,
        inside,
        ap (λ k. report k out.detail s') e,
        exhausted_iff f (report f out.detail s') inside limited,
        occurrences-report f f out.detail s' v',
        occurrences_fdir f s s' same,
        occurrences_fdir f (report c out.detail s') t fdir,
        IsCounting-fdir f (report f out.detail s') t,
      )

  abbrev pub Live : Mission → Type 0
  Live m = (m.stalled ≡ false) × (m.aborted ≡ false)

  retrying_cycle :
      (step : StepFn W) (m : Mission) (w : W) (s : Services)
      → f ≢ Fault.stage_timeout
      → steps m.stage ≡ some step
      → AlwaysRetries W f m.stage step
      → IsCounting f s
      → Live m
      → let (m', w', s') = seq_step uplink config steps m w s in
        (m'.stalled ≡ leb (policy f).limit (u32 (occurrences f s + 1)))
        × (m'.stage ≡ m.stage)
        × (m'.aborted ≡ false)
        × (occurrences f s' ≡ u32 (occurrences f s + 1))
        × IsCounting f s'
  unfolding seq_step
  retrying_cycle step m w s ne at always v live =
      let (m', s') = check_budget config m s in
      let (stays, stalls, goes) = check_budget_kept config m s in
      let (occ, v') = check_budget_counts config f m s ne v in
      let always' = subst (λ k. AlwaysRetries W f k step) (sym stays) always in
      let e : steps m'.stage ≡ some step = ap steps stays ∙ at in
      ground (
        arith,
        live,
        stays,
        stalls,
        goes,
        occ,
        retrying_stage step m' w s' always' v',
        ap (λ r. run_stage uplink r m' w s') e,
      )

  -- A stage whose function answers "retry" at every cycle, under a class with a limit (below 1000)
  -- other than that of an overrun budget, and reports nothing itself, stalls at exactly the cycle
  -- at which the class's occurrences reach the limit, and not before. The occurrences may start
  -- anywhere below the limit; the class's counters are 32-bit words.
  pub retries-stall :
      (n : ℕ) (step : StepFn W) (m : Mission) (w : W) (s : Services)
      → f ≢ Fault.stage_timeout
      → (policy f).limit < 1000
      → steps m.stage ≡ some step
      → AlwaysRetries W f m.stage step
      → IsCounting f s
      → Live m
      → occurrences f s < (policy f).limit
      → occurrences f s + n ≤ (policy f).limit
      → (run_cycles uplink config steps n m w s).0.stalled
        ≡ leb (policy f).limit (occurrences f s + n)
  unfolding run_cycles
  retries-stall zero step m w s ne low at always v live less le = ground (arith, live, less)
  retries-stall (suc zero) step m w s ne low at always v live less le =
      ground (arith, retrying_cycle step m w s ne at always v live, less, low)
  retries-stall (suc (suc n)) step m w s ne low at always v live less le =
      let (m', w', s') = seq_step uplink config steps m w s in
      let (stalls, stays, goes, occ, v') = retrying_cycle step m w s ne at always v live in
      let below : occurrences f s + 1 < (policy f).limit = omega arith in
      let live' : Live m' = ground (arith, stalls, goes, below, low) in
      let counted : occurrences f s' ≡ occurrences f s + 1 = ground (arith, occ, below, low) in
      let always' = subst (λ k. AlwaysRetries W f k step) (sym stays) always in
      ground (
        arith,
        counted,
        retries-stall (suc n) step m' w' s' ne low (ap steps stays ∙ at) always' v' live'
            (omega arith) (omega arith),
      )

-- A class without a limit never has its retries spent.
unlimited : (f : ℕ) (s : Services) → (policy f).limit ≡ 0 → retries_exhausted f s ≡ false
unfolding retries_exhausted
unlimited f s e = ground (arith, e)

unlimited_stage :
    {W : Type 0} (uplink : Option (Uplink W)) (f : ℕ) (step : StepFn W) (m : Mission) (w : W)
    (s : Services)
    → (policy f).limit ≡ 0
    → AlwaysRetries W f m.stage step
    → let m' = (run_stage uplink (some step) m w s).0 in
      (m'.stalled ≡ m.stalled) × (m'.aborted ≡ m.aborted) × (m'.stage ≡ m.stage)
unfolding run_stage
unlimited_stage uplink f step m w s e always =
    let o = default_step m.stage in
    let (out, w', s') = step o w s in
    let c = fault_of out m.stage in
    let (stalls, stays, goes, _) = retry_step uplink c out m w' s' (always.answers_retry o w s) in
    let never =
      unlimited c (report c out.detail s')
        (ap (λ k. (policy k).limit) (always.under_class o w s) ∙ e) in
    (ground (arith, stalls, never), goes, stays)

module _ {W : Type 0} (uplink : Option (Uplink W)) (config : ℕ → ℕ) (steps : ℕ → Option (StepFn W))
    (f : ℕ) where
  -- A stage whose function answers "retry" at every cycle, under a class whose limit is 0, is
  -- tried again at every cycle: it never stalls and never moves on, however many cycles pass. The
  -- function reports nothing itself.
  pub unlimited-retries :
      (n : ℕ) (step : StepFn W) (m : Mission) (w : W) (s : Services)
      → (policy f).limit ≡ 0
      → steps m.stage ≡ some step
      → AlwaysRetries W f m.stage step
      → (m.stalled ≡ false) × (m.aborted ≡ false)
      → let m' = (run_cycles uplink config steps n m w s).0 in
        (m'.stalled ≡ false) × (m'.aborted ≡ false) × (m'.stage ≡ m.stage)
  unfolding run_cycles seq_step
  unlimited-retries zero step m w s e at always live = (live.0, live.1, refl)
  unlimited-retries (suc n) step m w s e at always live =
      let (m', s') = check_budget config m s in
      let (m'', w'', s'') = seq_step uplink config steps m w s in
      let (stays, stalls, goes) = check_budget_kept config m s in
      let always' = subst (λ k. AlwaysRetries W f k step) (sym stays) always in
      let at' : steps m'.stage ≡ some step = ap steps stays ∙ at in
      let after : (m''.stalled ≡ false) × (m''.aborted ≡ false) × (m''.stage ≡ m.stage) = ground (
        arith,
        live,
        stays,
        stalls,
        goes,
        unlimited_stage uplink f step m' w s' e always',
        ap (λ r. run_stage uplink r m' w s') at',
      ) in
      let (a, b, c) =
        unlimited-retries n step m'' w'' s'' e (ap steps after.2 ∙ at)
          (subst (λ k. AlwaysRetries W f k step) (sym after.2) always) (after.0, after.1) in
      (a, b, c ∙ after.2)
