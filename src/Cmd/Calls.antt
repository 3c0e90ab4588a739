-- ===== src/Cmd/Calls.antt =====
-- The module of telecommands under any sequence of calls.
use qiran_firmware.Base.{
  ℕ, ◌+◌, u32, if◌then◌else◌, refl, not, Option, some, List, [], arith, if_holds, ◌≡◌, ◌&&◌,
}
use qiran_firmware.Base.{◌∷◌, ◌==◌}
use qiran_firmware.Status.{Status}
use qiran_firmware.Services.{Services}
use qiran_firmware.Ccsds.{Buffer}
use qiran_firmware.Irq.{Event}
use qiran_firmware.Cmd
use qiran_firmware.Cmd.{
  State, Cmd, Handler, Transmit, init, submit, process, take_bytes, track, note_event, intact,
  packet_id, frame_bytes,
}
use qiran_firmware.Cmd.Account.{
  IsCounted, Owes, reassembled, process_pays, take_bytes-Owes, track-Owes,
}

-- What happens to the module: a service with the bytes that it reads, an event of the serial line,
-- or a frame that comes inside a packet, at a stage of the mission.
pub data Op : Type 0 where
  serve : ℕ → List ℕ → Op
  line_event : Event → Op
  packet : ℕ → Buffer → ℕ → Op

module _ {W : Type 0} where
  unfoldable pub run_op : Buffer → Op → State W → State W
  run_op array (serve stage bytes) st = take_bytes array stage bytes (track array st)
  run_op array (line_event ev) st = record st { cmd = note_event ev st.cmd }
  run_op array (packet stage frame n) st = (submit array stage (some frame) n st).1

  unfoldable pub run_ops : Buffer → List Op → State W → State W
  run_ops array [] st = st
  run_ops array (op ∷ ops) st = run_ops array ops (run_op array op st)

module _ {W : Type 0} (answers : W → ℕ) (transmit : Transmit W) (handler : ℕ → Option (Handler W))
    (counted : IsCounted answers transmit handler) where
  module _ (before : ℕ) where
    abbrev Paid : State W → Type 0
    Paid st = Owes answers transmit handler counted before 0 0 st

    note_event-Paid :
        (ev : Event) (st : State W) → Paid st → Paid (record st { cmd = note_event ev st.cmd })
    unfolding note_event
    note_event-Paid ev st v =
        if_holds (λ (c : Cmd W). Paid (record st { cmd = c }))
          ((ev.kind == Cmd.kind_gap) && not (st.cmd.asm_len == 0))
          (λ _. reassembled answers transmit handler counted before st.cmd.asm 0 _ st v) (λ _. v)

    submit-Paid :
        (array : Buffer) (stage : ℕ) (frame : Buffer) (n : ℕ) (st : State W)
        → Paid st
        → Paid (submit array stage (some frame) n st).1
    unfolding submit
    submit-Paid array stage frame n st v =
        let P = λ (r : Status × State W). Paid r.1 in
        if_holds P (not (n == frame_bytes)) (λ _. v)
          (λ _.
            if_holds P (not (frame 0 == packet_id)) (λ _. v)
              (λ _.
                if_holds P (not (intact frame)) (λ _. v)
                  (λ _.
                    process_pays answers transmit handler counted before array stage frame st v)))

    run_op-Paid : (array : Buffer) (op : Op) (st : State W) → Paid st → Paid (run_op array op st)
    unfolding run_op
    run_op-Paid array (serve stage bytes) st v =
        take_bytes-Owes answers transmit handler counted before array stage bytes (track array st)
          (track-Owes answers transmit handler counted before array st v)
    run_op-Paid array (line_event ev) st v = note_event-Paid ev st v
    run_op-Paid array (packet stage frame n) st v = submit-Paid array stage frame n st v

    run_ops-Paid :
        (array : Buffer) (ops : List Op) (st : State W) → Paid st → Paid (run_ops array ops st)
    unfolding run_ops
    run_ops-Paid array [] st v = v
    run_ops-Paid array (op ∷ ops) st v =
        run_ops-Paid array ops (run_op array op st) (run_op-Paid array op st v)

  -- The state at the start, with the transmitter and the handlers.
  abbrev pub at_start : Cmd W → W → Services → State W
  at_start c w s = record {
    cmd = record (init c) { handler = handler; transmit = some transmit };
    world = w;
    services = s;
  }

  at_start-Paid : (c : Cmd W) (w : W) (s : Services) → Paid (answers w) (at_start c w s)
  unfolding init
  at_start-Paid c w s = record {
    received_word = omega arith;
    balanced = refl;
    answered = omega arith;
    attached = refl;
    registered = refl;
  }

  -- From the start on, whatever bytes, events and packets come in whatever order, and whatever the
  -- handlers answer, the commands received are those completed, rejected and failed and the one
  -- that may be running; and the transmitter has been given one final result for each command
  -- received, save the one that may be running, and no other. Both hold modulo 2 ^ 32, the width of
  -- the counts. The transmitter and the handlers are registered before, and the handlers send no
  -- results themselves.
  pub run_ops-accounted :
      (array : Buffer) (ops : List Op) (c : Cmd W) (w : W) (s : Services)
      → let st = run_ops array ops (at_start c w s) in
        let running : ℕ = if st.cmd.inflight.active then 1 else 0 in
        (u32 (st.cmd.completed + st.cmd.rejected + st.cmd.failed + running) ≡ st.cmd.received)
        × (u32 (answers st.world + running) ≡ u32 (answers w + st.cmd.received))
  run_ops-accounted array ops c w s =
      let v = run_ops-Paid (answers w) array ops (at_start c w s) (at_start-Paid c w s) in
      (omega (arith, v.balanced), omega (arith, v.balanced, v.answered))
