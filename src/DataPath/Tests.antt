-- ===== src/DataPath/Tests.antt =====
-- The queue of completed buffers at a concrete one.
use qiran_firmware.Base.{false, none, some, [], arith, u32, update, ◌+◌}
use qiran_firmware.Base.{◌≡◌, ◌⊎◌, ◌∷◌, ◌++◌}
use qiran_firmware.Status.{is_ok, ok}
use qiran_firmware.Samples.{quiet}
use qiran_firmware.Ddr.{handoff, owner_none, owner_pl_dma, owner_ps_processing}
use qiran_firmware.DataPath.{State, complete}
use qiran_firmware.DataPath.Fifo.{waiting, waiting-complete}

-- Region 2 is the fabric's, and region 0 waits.
abbrev filled : State
filled = record {
  path = record { ready = λ _. 0; ready_count = 1; completions = 1; arm_failures = 0; dropped = 0 };
  ddr = record {
    region =
        update (λ _. record { base = none; capacity = 0; used = 0; owner = owner_none }) 2
          (record { base = some 100; capacity = 16; used = 4; owner = owner_pl_dma });
    violations = 0;
    handoffs = 1;
    overruns = 0;
    memory = λ _. 0;
  };
  services = quiet;
}

waiting-complete_example :
    let (r, d, s) = handoff 2 owner_pl_dma owner_ps_processing filled.ddr filled.services in
    let st' = complete 2 filled in
    ((r ≡ ok)
      × (waiting st'.path ≡ waiting filled.path ++ (2 ∷ []))
      × ((st'.ddr.region 2).owner ≡ owner_ps_processing)
      × (st'.path.completions ≡ u32 (filled.path.completions + 1)))
    ⊎ ((is_ok r ≡ false)
        × (waiting st'.path ≡ waiting filled.path)
        × (st'.path.dropped ≡ u32 (filled.path.dropped + 1)))
waiting-complete_example = waiting-complete 2 filled (omega arith)
