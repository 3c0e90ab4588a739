-- ===== src/Cmd/Process.antt =====
-- A frame that is built, submitted and passes the checks reaches its handler with what was built in.
use qiran_firmware.Base.{ℕ, refl, ap, true, false, some, arith, u32, ◌+◌, ◌^◌, ◌<◌, ◌≡◌, ◌∙◌}
use qiran_firmware.Status.{ok}
use qiran_firmware.Services.{now_ms}
use qiran_firmware.Ccsds.{Buffer}
use qiran_firmware.Cmd.{
  State, build, frame_bytes, submit, process, check_frame, dispatch, parameter_fits,
}
use qiran_firmware.Cmd.Table.{command_count, legal_in}
use qiran_firmware.Cmd.Frame.{IsFrame, frame, build-frame, frame-IsFrame}

module _ {W : Type 0} where
  -- The state with the receipt of a frame noted.
  abbrev pub received_now : State W → State W
  received_now st =
      let (now, s) = now_ms st.services in
      record st {
        cmd = record (st.cmd) { received = u32 (st.cmd.received + 1); last_receipt_ms = u32 now };
        services = s;
      }

  abbrev pub receipt_ms : State W → ℕ
  receipt_ms st = u32 (now_ms st.services).0

  -- A command that may be dispatched.
  pub record IsDispatchable (id parameter stage : ℕ) (st : State W) : Type 0 where
    pub known : id < command_count
    pub idle : st.cmd.inflight.active ≡ false
    pub legal : legal_in id stage ≡ true
    pub fits : parameter_fits id parameter ≡ true

  check_frame_passes :
      (array : Buffer) (stage now id parameter sequence : ℕ) (b old : Buffer) (st : State W)
      → IsFrame id parameter sequence old b
      → IsDispatchable id parameter stage st
      → check_frame array stage now b st ≡ dispatch array id parameter sequence now st
  unfolding check_frame
  check_frame_passes array stage now id parameter sequence b old st f d =
      rw (f.versioned, f.id_held, f.parameter_held, f.sequence_held)
        (ground (arith, d.known, d.idle, d.legal, d.fits))

  submit_frame :
      (array : Buffer) (stage id parameter sequence : ℕ) (b old : Buffer) (st : State W)
      → IsFrame id parameter sequence old b
      → submit array stage (some b) frame_bytes st ≡ (ok, process array stage b st)
  unfolding submit
  submit_frame array stage id parameter sequence b old st f = rw (f.marked, f.is_intact) refl

  process_checks :
      (array : Buffer) (stage : ℕ) (b : Buffer) (st : State W)
      → process array stage b st ≡ check_frame array stage (receipt_ms st) b (received_now st)
  unfolding process
  process_checks array stage b st = refl

  -- A frame that is built for a command can be submitted, whatever the buffer held: it is counted
  -- and its receipt noted, and the command is dispatched with the parameter and the sequence number
  -- built in. No command is running, and this one is known, legal at the stage of the mission and
  -- its parameter is inside its limits.
  pub submit-build :
      (array old : Buffer) (stage id parameter sequence : ℕ) (st : State W)
      → parameter < 2 ^ 32
      → sequence < 2 ^ 16
      → IsDispatchable id parameter stage st
      → let (r, b, n) = build id parameter sequence old frame_bytes in
        (r ≡ ok)
        × (submit array stage (some b) frame_bytes st
            ≡ (ok, dispatch array id parameter sequence (receipt_ms st) (received_now st)))
  submit-build array old stage id parameter sequence st p q d =
      let b = frame id parameter sequence old in
      let f = frame-IsFrame id parameter sequence old (omega (arith, d.known)) p q in
      let d' : IsDispatchable id parameter stage (received_now st) = record {
        known = d.known;
        idle = d.idle;
        legal = d.legal;
        fits = d.fits;
      } in
      rw (build-frame id parameter sequence old) (
        refl,
        submit_frame array stage id parameter sequence b old st f
            ∙ ap (λ (x : State W). (ok, x))
                (process_checks array stage b st
                  ∙ check_frame_passes array stage (receipt_ms st) id parameter sequence b old
                      (received_now st) f d'),
      )
