-- ===== src/Mission/Hold.antt =====
-- What a sequence that is held does: nothing, until it is restarted.
use qiran_firmware.Base.{ℕ, zero, suc, refl, ap, true, Option, arith, ◌≡◌, ◌∙◌, ◌||◌}
use qiran_firmware.Services.{Services}
use qiran_firmware.Fdir.{Uplink}
use qiran_firmware.Mission.{Mission, StepFn, seq_step, abort_mission}
use qiran_firmware.Mission.Moves.{run_cycles}

-- Aborting twice is aborting once: the second cause is neither kept nor logged.
pub abort-abort :
    (first second : ℕ) (m : Mission) (s : Services)
    → let (m', s') = abort_mission first m s in abort_mission second m' s' ≡ (m', s')
unfolding abort_mission
abort-abort first second m s = ground arith

module _ {W : Type 0} (uplink : Option (Uplink W)) (config : ℕ → ℕ)
    (steps : ℕ → Option (StepFn W)) where
  held_step :
      (m : Mission) (w : W) (s : Services)
      → (m.aborted || m.stalled) ≡ true
      → seq_step uplink config steps m w s ≡ (m, w, s)
  unfolding seq_step
  held_step m w s h = ground (arith, h)

  -- A stalled or aborted sequence changes nothing for any number of cycles: neither its own state
  -- nor the services nor what the step functions act on.
  pub held_cycles :
      (n : ℕ) (m : Mission) (w : W) (s : Services)
      → (m.aborted || m.stalled) ≡ true
      → run_cycles uplink config steps n m w s ≡ (m, w, s)
  unfolding run_cycles
  held_cycles zero m w s h = refl
  held_cycles (suc n) m w s h =
      ap (λ (p : Mission × W × Services). run_cycles uplink config steps n p.0 p.1 p.2)
        (held_step m w s h)
      ∙ held_cycles n m w s h
