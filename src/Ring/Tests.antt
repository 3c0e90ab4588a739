-- ===== src/Ring/Tests.antt =====
-- Runs of the ring, and the properties at concrete rings.
use qiran_firmware.Base.{refl, true, false, some, List, [], arith, update, ◌≡◌}
use qiran_firmware.Base.{◌∷◌}
use qiran_firmware.Status.{ok, err_param}
use qiran_firmware.Ring
use qiran_firmware.Ring.{Op, Reply, push_byte, pop_byte, pushed, popped}
use qiran_firmware.Ring.Valid.{IsValid}
use qiran_firmware.Ring.Queue
use qiran_firmware.Ring.Refine.{view, run_refines}

-- Four bytes of storage, three of them held, with the counters about to wrap and wrapped.
abbrev wrapped : Ring.Ring
wrapped = record {
  buf = update (update (update (λ _. 0) 3 10) 0 20) 1 30;
  mask = 3;
  head = 2;
  tail = 4294967295;
  dropped = 0;
}

wrapped-IsValid : IsValid wrapped
wrapped-IsValid = record { width = 2; counted = ground arith }

abbrev two_too_many : List Op
two_too_many = push_byte 40 ∷ push_byte 50 ∷ pop_byte ∷ pop_byte ∷ []

run-wrapped :
    Ring.run wrapped two_too_many
    ≡ pushed true ∷ pushed false ∷ popped (some 10) ∷ popped (some 20) ∷ []
unfolding Ring.run Ring.push Ring.pop
run-wrapped = refl

init_of_six : (Ring.init wrapped (some (λ _. 0)) 6).0 ≡ err_param
unfolding Ring.init
init_of_six = refl

run_refines_example : Ring.run wrapped two_too_many ≡ Queue.run 4 (view wrapped) two_too_many
run_refines_example = run_refines two_too_many {r = wrapped} wrapped-IsValid

init_of_eight : (Ring.init wrapped (some (λ _. 0)) 8).0 ≡ ok
unfolding Ring.init
init_of_eight = refl
