-- ===== src/Ddr/Tests.antt =====
-- The properties of the regions at concrete states.
use qiran_firmware.Base.{refl, inl, inr, none, some, [], arith}
use qiran_firmware.Base.{update, ◌≡◌, ◌∷◌}
use qiran_firmware.Status.{err_range, err_state}
use qiran_firmware.Samples.{quiet}
use qiran_firmware.Ddr
use qiran_firmware.Ddr.{Ddr, Region, owner_none, owner_pl_dma, region_count, is_free}
use qiran_firmware.Ddr.Valid.{IsValid, set_region_op, handoff_op, append_op, run_ops}
use qiran_firmware.Ddr.Owner.{owned_region}

-- Region 2 is the fabric's, with four of its sixteen bytes used.
abbrev filling : Ddr
filling = record {
  region =
      update (λ _. record { base = none; capacity = 0; used = 0; owner = owner_none }) 2
        (record { base = some 100; capacity = 16; used = 4; owner = owner_pl_dma });
  violations = 0;
  handoffs = 1;
  overruns = 0;
  memory = λ _. 0;
}

filling-IsValid : IsValid filling
filling-IsValid i = ground arith

append_too_much : (Ddr.append 2 owner_pl_dma (some (λ i. i)) 13 filling quiet).0 ≡ err_range
unfolding Ddr.append
append_too_much = refl

append_other_owner : (Ddr.append 2 owner_none (some (λ i. i)) 4 filling quiet).0 ≡ err_state
unfolding Ddr.append
append_other_owner = refl

owned_region_example :
    (run_ops
        (set_region_op 2 (some 0) 64 ∷ handoff_op 2 3 4 ∷ append_op 1 1 (some (λ i. i)) 8 ∷ [])
        filling
        quiet).0.region
      2
    ≡ filling.region 2
owned_region_example =
    owned_region 2
      (set_region_op 2 (some 0) 64 ∷ handoff_op 2 3 4 ∷ append_op 1 1 (some (λ i. i)) 8 ∷ [])
      filling quiet (λ e. ground (arith, e))
      (_, (inr (λ e. ground (arith, e)), (inl (λ e. ground (arith, e)), _)))
