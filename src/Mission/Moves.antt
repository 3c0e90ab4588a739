-- ===== src/Mission/Moves.antt =====
-- How the position in the sequence can move.
use qiran_firmware.Base.{ℕ, zero, suc, Option, none, some, arith, ℕ_discrete, ◌+◌, ◌≤◌, ◌<◌}
use qiran_firmware.Base.{◌≡◌}
use qiran_firmware.Services.{Services}
use qiran_firmware.Fdir.{Uplink}
use qiran_firmware.Mission.{
  Mission, MissionStep, StepFn, done, back, stage_count, enter, check_budget, apply_result,
  seq_step, run_stage, default_step, fault_of,
}

check_budget_stage :
    (config : ℕ → ℕ) (m : Mission) (s : Services) → (check_budget config m s).0.stage ≡ m.stage
unfolding check_budget
check_budget_stage config m s = ground arith

-- A stage ahead is entered only behind the current one; a stage that an answer `back` names, only
-- when it lies behind.
apply_result_stage :
    {W : Type 0} (uplink : Option (Uplink W)) (fault : ℕ) (out : MissionStep) (m : Mission) (w : W)
    (s : Services)
    → m.stage < stage_count
    → let m' = (apply_result uplink fault out m w s).0 in
      (m'.stage < stage_count)
      × (m'.stage ≤ m.stage + 1)
      × (m.stage < m'.stage → out.result ≡ done)
      × (m'.stage < m.stage → out.result ≡ back)
unfolding apply_result enter
apply_result_stage uplink fault out m w s h = ground arith

run_stage_stage :
    {W : Type 0} (uplink : Option (Uplink W)) (f : Option (StepFn W)) (m : Mission) (w : W)
    (s : Services)
    → m.stage < stage_count
    → let m' = (run_stage uplink f m w s).0 in (m'.stage < stage_count) × (m'.stage ≤ m.stage + 1)
unfolding run_stage
run_stage_stage uplink none m w s h = (h, omega arith)
run_stage_stage uplink (some step) m w s h =
    let (out, w', s') = step (default_step m.stage) w s in
    let (inside, near, _, _) = apply_result_stage uplink (fault_of out m.stage) out m w' s' h in
    (inside, near)

module _ {W : Type 0} (uplink : Option (Uplink W)) (config : ℕ → ℕ)
    (steps : ℕ → Option (StepFn W)) where
  -- Whatever the stages do, one cycle leaves the position inside the list and takes it at most one
  -- stage forward.
  pub seq_step_stage :
      (m : Mission) (w : W) (s : Services)
      → m.stage < stage_count
      → let m' = (seq_step uplink config steps m w s).0 in
        (m'.stage < stage_count) × (m'.stage ≤ m.stage + 1)
  unfolding seq_step
  seq_step_stage m w s h =
      let (m', s') = check_budget config m s in
      ground (arith, check_budget_stage config m s, run_stage_stage uplink (steps m'.stage) m' w s')

  -- `n` cycles of the executive.
  unfoldable pub run_cycles : ℕ → Mission → W → Services → Mission × W × Services
  run_cycles zero m w s = (m, w, s)
  run_cycles (suc n) m w s =
      let (m', w', s') = seq_step uplink config steps m w s in run_cycles n m' w' s'

  -- Forwards, no stage is skipped: whatever the stages do, every stage from the first position of
  -- a run to a last one ahead of it was the current one at some cycle.
  pub no_stage_skipped :
      (n c : ℕ) (m : Mission) (w : W) (s : Services)
      → m.stage < stage_count
      → m.stage ≤ c
      → c ≤ (run_cycles n m w s).0.stage
      → (k : ℕ) × (k ≤ n) × ((run_cycles k m w s).0.stage ≡ c)
  unfolding run_cycles
  no_stage_skipped zero c m w s h p q = (0, omega arith, omega arith)
  no_stage_skipped (suc n) c m w s h p q = elim (ℕ_discrete m.stage c) [
    | yes here ↦ (0, omega arith, here)
    | no ne ↦
        let (m', w', s') = seq_step uplink config steps m w s in
        let (inside, near) = seq_step_stage m w s h in
        let (k, le, at) = no_stage_skipped n c m' w' s' inside (omega arith) q in
        (suc k, omega arith, at)
  ]
