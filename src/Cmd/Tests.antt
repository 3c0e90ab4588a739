-- ===== src/Cmd/Tests.antt =====
-- The properties of telecommands at concrete ones.
use qiran_firmware.Base.{
  ℕ, Option, ap, sym, u32, if◌then◌else◌, refl, false, not, none, some, [], arith, ltb, ◌+◌, ◌≡◌,
  ◌||◌, ◌∷◌,
}
use qiran_firmware.Status.{ok, err_busy}
use qiran_firmware.Samples.{quiet}
use qiran_firmware.Ccsds.{Buffer}
use qiran_firmware.Ring.{Ring}
use qiran_firmware.Ring.Valid.{IsValid, contents}
use qiran_firmware.Cmd
use qiran_firmware.Cmd.{
  Cmd, Handler, Transmit, State, build, submit, dispatch, init, assemble, take_bytes,
}
use qiran_firmware.Cmd.Table.{legal_in, def_of}
use qiran_firmware.Cmd.Legal.{applies_energy, legal_in_energy}
use qiran_firmware.Cmd.Process.{IsDispatchable, received_now, receipt_ms, submit-build}
use qiran_firmware.Cmd.Account.{is_final, IsCounted}
use qiran_firmware.Cmd.Calls.{serve, packet, run_ops, at_start, run_ops-accounted}
use qiran_firmware.Cmd.Stream.{assemble-take_bytes}

-- A handler that counts, and answers that the command goes on.
abbrev busy_handler : Handler ℕ
busy_handler parameter w s = (err_busy, w + 1, s)

abbrev blank : Cmd ℕ
blank = record {
  handler = λ _. some busy_handler;
  transmit = none;
  asm = λ _. 0;
  asm_len = 0;
  inflight = record {
    active = false;
    id = 0;
    parameter = 0;
    sequence = 0;
    receipt_ms = 0;
    budget = record { deadline_ms = 0; armed = false };
  };
  received = 0;
  completed = 0;
  rejected = 0;
  failed = 0;
  resyncs = 0;
  last_receipt_ms = 0;
}

abbrev idle : State ℕ
idle = record { cmd = blank; world = 0; services = quiet }

laser_off-IsDispatchable : IsDispatchable 4 0 9 idle
unfolding legal_in def_of Cmd.parameter_fits
laser_off-IsDispatchable = record { known = omega arith; idle = refl; legal = refl; fits = refl }

submit-build_example :
    let (r, b, n) = build 4 0 77 (λ _. 0) 13 in
    (r ≡ ok)
    × (submit (λ _. 0) 9 (some b) 13 idle
        ≡ (ok, dispatch (λ _. 0) 4 0 77 (receipt_ms idle) (received_now idle)))
submit-build_example =
    submit-build (λ _. 0) (λ _. 0) 9 4 0 77 idle (omega arith) (omega arith)
      laser_off-IsDispatchable

-- A transmitter that counts the final results, and a handler that lets its command go on.
abbrev counting : Transmit ℕ
counting b n w = (ok, w + (if is_final b n then 1 else 0))

abbrev going_on : Handler ℕ
going_on parameter w s = (err_busy, w, s)

abbrev all_going_on : ℕ → Option (Handler ℕ)
all_going_on id = some going_on

counting-IsCounted : IsCounted (λ w. w) counting all_going_on
counting-IsCounted = record {
  counts = λ b n w. refl;
  silent = λ id h e parameter w s.
      ap (λ (f : Option (Handler ℕ)). elim f [ none ↦ w | some g ↦ (g parameter w s).1 ]) (sym e);
}

-- The frame that turns the laser off, under sequence number 77.
abbrev laser_off : Buffer
laser_off = (build 4 0 77 (λ _. 0) 13).1

run_ops-accounted_example :
    let start = at_start (λ w. w) counting all_going_on counting-IsCounted blank 0 quiet in
    let st = run_ops (λ _. 0) (packet 9 laser_off 13 ∷ serve 9 (0xC5 ∷ 1 ∷ []) ∷ []) start in
    let running : ℕ = if st.cmd.inflight.active then 1 else 0 in
    (u32 (st.cmd.completed + st.cmd.rejected + st.cmd.failed + running) ≡ st.cmd.received)
    × (u32 (st.world + running) ≡ u32 (0 + st.cmd.received))
run_ops-accounted_example =
    run_ops-accounted (λ w. w) counting all_going_on counting-IsCounted (λ _. 0)
      (packet 9 laser_off 13 ∷ serve 9 (0xC5 ∷ 1 ∷ []) ∷ []) blank 0 quiet

-- A ring that holds three bytes.
abbrev three_bytes : Ring
three_bytes = record { buf = λ i. 0xC5 + i; mask = 255; head = 1; tail = 4294967294; dropped = 0 }

three_bytes-IsValid : IsValid three_bytes
three_bytes-IsValid = record { width = 8; counted = ground arith }

assemble-take_bytes_example :
    (r' : Ring) × (Cmd.assemble 1 (λ _. 0) 9 three_bytes idle
      ≡ some (r', take_bytes (λ _. 0) 9 (contents three_bytes) idle))
    × (contents r' ≡ [])
    × IsValid r'
assemble-take_bytes_example =
    assemble-take_bytes 1 (λ _. 0) 9 three_bytes idle three_bytes-IsValid (omega arith)

legal_in_energy_example : legal_in 3 5 ≡ (not (applies_energy 3) || ltb 5 2)
legal_in_energy_example = legal_in_energy 3 5 (omega arith) (omega arith)
