-- ===== src/Spw/Tests.antt =====
-- The properties of the serial link at concrete devices.
use qiran_firmware.Base.{ℕ, min, refl, false, some, arith, u32, ◌+◌, ◌-◌, ◌≤◌, ◌≡◌}
use qiran_firmware.Status.{ok, err_hardware}
use qiran_firmware.Samples.{quiet}
use qiran_firmware.Fault
use qiran_firmware.Fdir.{occurrences}
use qiran_firmware.Ccsds
use qiran_firmware.Ccsds.{Ccsds, receive}
use qiran_firmware.Spw.{State, Ops, down, service, service_in, service_down, deliver_received}
use qiran_firmware.Spw.States.{Moves, service-Moves}
use qiran_firmware.Spw.Deliver.{deliver_received-returns}
use qiran_firmware.Spw.Retry.{Counts, serve_pairs, unreadable-serve_pairs}

-- A device that starts, whose status cannot be read, and that has nothing to give.
abbrev unreadable_device : Ops ℕ
unreadable_device = record {
  start = λ w. (ok, w);
  status = λ up word w. (err_hardware, up, word, w);
  send = λ packet n w. (ok, w);
  receive = λ rx n w. (0, rx, w);
}

abbrev link_down : State ℕ
link_down = record {
  spw = record {
    ops = some unreadable_device;
    state = down;
    start_budget = record { deadline_ms = 0; armed = false };
    attempts = 0;
    disconnects = 0;
    errors = 0;
    sent = 0;
    received = 0;
    status_word = 0;
    error_word = 0;
    rx = λ _. 0;
  };
  ccsds = Ccsds.init;
  world = 0;
  services = quiet;
}

abbrev after_start : State ℕ
after_start =
    let (l, w, s) = service_down 1000 unreadable_device link_down.spw 0 quiet in
    record link_down { spw = l; world = w; services = s }

started : service 1000 1 link_down ≡ some after_start
unfolding service service_in
started = refl

service-Moves_example : Moves down after_start.spw.state after_start.services
service-Moves_example = service-Moves 1000 1 unreadable_device link_down after_start refl started

none_counted : occurrences Fault.spw_link quiet ≡ u32 0
unfolding occurrences
none_counted = refl

unreadable-serve_pairs_example :
    (st' : State ℕ) × (serve_pairs 20 1000 1 link_down ≡ some st')
    × Counts unreadable_device down (0 + 20) st'
unreadable-serve_pairs_example =
    unreadable-serve_pairs 20 0 1000 1 unreadable_device link_down
      (record { starts = λ w. refl; unreadable = λ up word w. refl })
      (record { attached = refl; in_state = refl; counting = omega arith; counted = none_counted })

-- A device with as many bytes to give as its state says.
abbrev counted_device : Ops ℕ
counted_device = record unreadable_device { receive = λ rx n w. (min n w, rx, w - min n w) }

abbrev waiting : State ℕ
waiting = record link_down { world = 1500 }

deliver_received-returns_example :
    (st' : State ℕ) × (deliver_received 3 counted_device waiting ≡ some st') × (st'.world ≤ 1500)
unfolding Ccsds.init
deliver_received-returns_example =
    deliver_received-returns counted_device (λ w. w) 3 waiting (λ rx w. omega arith)
      (λ cls k e. cc e) (omega arith)
