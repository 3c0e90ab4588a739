-- ===== src/Cmd.antt =====
-- src/comm/comm_cmd.c: telecommands, received, checked, dispatched, tracked and answered. The handlers
-- and the transmit function belong to their owners and act on `W`; the stage of the mission is read
-- by the caller. Bytes come from the ring that the serial interrupt fills.
pub mod Table
pub mod Frame
pub mod Process
pub mod Account
pub mod Calls
pub mod Stream
pub mod Legal
mod Tests
use qiran_firmware.Base.{ℕ, zero, suc, bit_or, Bool, true, false, not, Option, none, some}
use qiran_firmware.Base.{List, [], ltb, leb, length, u8, u16, u32, shl, update, int32_le, ◌+◌}
use qiran_firmware.Base.{◌-◌, ◌&&◌, ◌||◌, ◌∷◌, ◌==◌, if◌then◌else◌}
use qiran_firmware.Status.{
  Status, is_ok, is_busy, ok, err_param, err_state, err_integrity, err_unsupported, status_code,
}
use qiran_firmware.Fault
use qiran_firmware.Crc.{crc32}
use qiran_firmware.Time.{Timeout}
use qiran_firmware.Services.{Services, log_event, now_ms, arm, expired}
use qiran_firmware.Fdir.{report}
use qiran_firmware.Ccsds.{Buffer, bytes, put_u16, put_u32, get_u16, get_u32}
use qiran_firmware.Ring
use qiran_firmware.Ring.{Ring}
use qiran_firmware.Irq.{Event}
use qiran_firmware.Cmd.Table.{command_count, command_mode, def_of, legal_in, CommandDef}

abbrev pub packet_id : ℕ
packet_id = 0xC5

abbrev pub result_id : ℕ
result_id = 0xC6

abbrev pub version : ℕ
version = 1

abbrev pub frame_bytes : ℕ
frame_bytes = 13

-- `comm_cmd_result_t`.
abbrev pub completed : ℕ
completed = 0

abbrev pub accepted : ℕ
accepted = 1

abbrev pub reject_format : ℕ
reject_format = 16

abbrev pub reject_unknown : ℕ
reject_unknown = 17

abbrev pub reject_state : ℕ
reject_state = 18

abbrev pub reject_param : ℕ
reject_param = 19

abbrev pub reject_busy : ℕ
reject_busy = 20

abbrev pub command_failed : ℕ
command_failed = 32

abbrev pub command_timeout : ℕ
command_timeout = 33

-- The size of `chunk` in `assemble`, and the kind of an event that marks a gap.
abbrev pub chunk_bytes : ℕ
chunk_bytes = 64

abbrev pub kind_gap : ℕ
kind_gap = 1

-- `comm_put_u8`.
unfoldable pub put_u8 : Buffer → ℕ → ℕ → Buffer × ℕ
put_u8 buf at v = (update buf at (u8 v), at + 1)

-- `comm_cmd_handler_t`, its context in `W`. A handler does not call back into this module.
abbrev pub Handler : Type 0 → Type 0
Handler W = ℕ → W → Services → Status × W × Services

-- `comm_cmd_tx_fn_t`.
abbrev pub Transmit : Type 0 → Type 0
Transmit W = Buffer → ℕ → W → Status × W

-- `s_inflight`.
pub record Inflight : Type 0 where
  pub active : Bool
  pub id : ℕ
  pub parameter : ℕ
  pub sequence : ℕ
  pub receipt_ms : ℕ
  pub budget : Timeout

pub record Cmd (W : Type 0) : Type 0 where
  pub handler : ℕ → Option (Handler W)
  pub transmit : Option (Transmit W)
  pub asm : Buffer
  pub asm_len : ℕ
  pub inflight : Inflight
  pub received : ℕ
  pub completed : ℕ
  pub rejected : ℕ
  pub failed : ℕ
  pub resyncs : ℕ
  pub last_receipt_ms : ℕ

pub record State (W : Type 0) : Type 0 where
  pub cmd : Cmd W
  pub world : W
  pub services : Services

-- `comm_cmd_build` before its checksum.
unfoldable pub build_fields : ℕ → ℕ → ℕ → Buffer → Buffer × ℕ
build_fields id parameter sequence buf =
    let (b1, at1) = put_u8 buf 0 packet_id in
    let (b2, at2) = put_u8 b1 at1 version in
    let (b3, at3) = put_u8 b2 at2 (u8 id) in
    let (b4, at4) = put_u32 b3 at3 parameter in put_u16 b4 at4 sequence

-- `comm_cmd_build`, with a buffer of `len` bytes: the status, the buffer and what is stored in
-- `*written`.
unfoldable pub build : ℕ → ℕ → ℕ → Buffer → ℕ → Status × Buffer × Option ℕ
build id parameter sequence buf len =
    let (b, at) = build_fields id parameter sequence buf in
    let (b', at') = put_u32 b at (crc32 (bytes at 0 b)) in
    if ltb len frame_bytes
    then (err_param, buf, none)
    else (if at' == frame_bytes then ok else err_integrity, b', some at')

-- The packet of `send_result`, over what its array held.
unfoldable pub result_packet : ℕ → ℕ → ℕ → ℕ → ℕ → Buffer → Buffer × ℕ
result_packet id sequence receipt_ms result detail buf =
    let (b1, at1) = put_u8 buf 0 result_id in
    let (b2, at2) = put_u8 b1 at1 version in
    let (b3, at3) = put_u32 b2 at2 receipt_ms in
    let (b4, at4) = put_u16 b3 at3 sequence in
    let (b5, at5) = put_u8 b4 at4 id in
    let (b6, at6) = put_u8 b5 at5 result in
    let (b7, at7) = put_u32 b6 at6 detail in put_u32 b7 at7 (crc32 (bytes at7 0 b7))

-- The checksum test of a frame.
unfoldable pub intact : Buffer → Bool
intact frame = get_u32 frame (frame_bytes - 4) == crc32 (bytes (frame_bytes - 4) 0 frame)

-- The search of `resync`: the first start marker among `n` bytes from `i`.
unfoldable pub find_start : ℕ → ℕ → Buffer → Option ℕ
find_start zero i asm = none
find_start (suc n) i asm =
    let rest = find_start n (i + 1) asm in if asm i == packet_id then some i else rest

-- The copy of `resync`: `n` bytes from `i + j` to `j`.
unfoldable pub shift_down : ℕ → ℕ → ℕ → Buffer → Buffer
shift_down zero i j asm = asm
shift_down (suc n) i j asm = shift_down n i (j + 1) (update asm j (asm (i + j)))

-- The test of a command's parameter.
unfoldable pub parameter_fits : ℕ → ℕ → Bool
parameter_fits id parameter =
    let d = def_of id in
    not d.takes_parameter || (int32_le d.param_min parameter && int32_le parameter d.param_max)

module _ {W : Type 0} where
  -- `mode_handler`.
  unfoldable pub mode_handler : Handler W
  mode_handler parameter w s = (ok, w, s)

  -- `comm_cmd_init`.
  unfoldable pub init : Cmd W → Cmd W
  init c = record {
    handler = update (λ _. none) command_mode (some mode_handler);
    transmit = none;
    asm = c.asm;
    asm_len = 0;
    inflight = record (c.inflight) { active = false };
    received = 0;
    completed = 0;
    rejected = 0;
    failed = 0;
    resyncs = 0;
    last_receipt_ms = 0;
  }

  -- `comm_cmd_register`.
  unfoldable pub register : ℕ → Option (Handler W) → Cmd W → Status × Cmd W
  register id none c = (err_param, c)
  register id (some h) c = if leb command_count id then (err_param, c) else elim (c.handler id) [
    | some _ ↦ (err_state, c)
    | none ↦ (ok, record c { handler = update c.handler id (some h) })
  ]

  -- `comm_cmd_set_transmit`.
  unfoldable pub set_transmit : Option (Transmit W) → Cmd W → Status × Cmd W
  set_transmit t c = (ok, record c { transmit = t })

  -- `send_result`, its array of unknown contents at `array`.
  unfoldable pub send_result : Buffer → ℕ → ℕ → ℕ → ℕ → ℕ → State W → State W
  send_result array id sequence receipt_ms result detail st =
      let (b, at) = result_packet id sequence receipt_ms result detail array in
      record st {
        services = log_event (u16 (bit_or (shl id 8) result)) detail st.services;
        world = elim st.cmd.transmit [ none ↦ st.world | some t ↦ (t b at st.world).1 ];
      }

  -- `reject`.
  unfoldable pub reject : Buffer → ℕ → ℕ → ℕ → ℕ → ℕ → State W → State W
  reject array id sequence receipt_ms result detail st =
      send_result array id sequence receipt_ms result detail (record st {
        cmd = record (st.cmd) { rejected = u32 (st.cmd.rejected + 1) };
        services = report Fault.command_rejected (bit_or (shl id 8) result) st.services;
      })

  -- A command that succeeds, and one that fails.
  unfoldable pub complete : Buffer → ℕ → ℕ → ℕ → State W → State W
  complete array id sequence receipt_ms st =
      send_result array id sequence receipt_ms completed 0
        (record st { cmd = record (st.cmd) { completed = u32 (st.cmd.completed + 1) } })

  unfoldable pub fail : Buffer → ℕ → ℕ → ℕ → ℕ → ℕ → State W → State W
  fail array id sequence receipt_ms result detail st =
      send_result array id sequence receipt_ms result detail (record st {
        cmd = record (st.cmd) { failed = u32 (st.cmd.failed + 1) };
        services = report Fault.command_failed id st.services;
      })

  -- A command that goes on in later cycles.
  unfoldable pub keep_running : Buffer → ℕ → ℕ → ℕ → ℕ → State W → State W
  keep_running array id parameter sequence receipt_ms st =
      let (budget, s) = arm (def_of id).budget_ms st.services in
      send_result array id sequence receipt_ms accepted 0 (record st {
        cmd = record (st.cmd) {
          inflight = record {
            active = true;
            id = id;
            parameter = parameter;
            sequence = sequence;
            receipt_ms = receipt_ms;
            budget = budget;
          };
        };
        services = s;
      })

  -- `dispatch` to a handler.
  unfoldable pub run_handler : Buffer → Handler W → ℕ → ℕ → ℕ → ℕ → State W → State W
  run_handler array h id parameter sequence receipt_ms st =
      let (r, w, s) = h parameter st.world st.services in
      let st' = record st { world = w; services = s } in
      if is_ok r
      then complete array id sequence receipt_ms st'
      else if is_busy r
      then keep_running array id parameter sequence receipt_ms st'
      else fail array id sequence receipt_ms command_failed (status_code r) st'

  -- `dispatch`.
  unfoldable pub dispatch : Buffer → ℕ → ℕ → ℕ → ℕ → State W → State W
  dispatch array id parameter sequence receipt_ms st = elim (st.cmd.handler id) [
    | none ↦ fail array id sequence receipt_ms command_failed (status_code err_unsupported) st
    | some h ↦ run_handler array h id parameter sequence receipt_ms st
  ]

  -- `process` behind its counters.
  unfoldable pub check_frame : Buffer → ℕ → ℕ → Buffer → State W → State W
  check_frame array stage receipt_ms frame st =
      let id = frame 2 in
      let parameter = get_u32 frame 3 in
      let sequence = get_u16 frame 7 in
      if not (frame 1 == version)
      then reject array id sequence receipt_ms reject_format (frame 1) st
      else if leb command_count id
      then reject array id sequence receipt_ms reject_unknown id st
      else if st.cmd.inflight.active
      then reject array id sequence receipt_ms reject_busy st.cmd.inflight.id st
      else if not (legal_in id stage)
      then reject array id sequence receipt_ms reject_state stage st
      else if not (parameter_fits id parameter)
      then reject array id sequence receipt_ms reject_param parameter st
      else dispatch array id parameter sequence receipt_ms st

  -- `process`.
  unfoldable pub process : Buffer → ℕ → Buffer → State W → State W
  process array stage frame st =
      let (now, s) = now_ms st.services in
      check_frame array stage (u32 now) frame (record st {
        cmd = record (st.cmd) { received = u32 (st.cmd.received + 1); last_receipt_ms = u32 now };
        services = s;
      })

  -- `comm_cmd_submit`.
  unfoldable pub submit : Buffer → ℕ → Option Buffer → ℕ → State W → Status × State W
  submit array stage none len st = (err_param, st)
  submit array stage (some frame) len st =
      if not (len == frame_bytes)
      then (err_param, st)
      else if not (frame 0 == packet_id)
      then (err_param, st)
      else if not (intact frame)
      then (err_integrity, st)
      else (ok, process array stage frame st)

  -- `resync`.
  unfoldable pub resync : Cmd W → Cmd W
  resync c =
      let counted = record c { resyncs = u32 (c.resyncs + 1) } in
      elim (find_start (c.asm_len - 1) 1 c.asm) [
        | none ↦ record counted { asm_len = 0 }
        | some i ↦ record counted {
          asm = shift_down (c.asm_len - i) i 0 c.asm;
          asm_len = c.asm_len - i;
        }
      ]

  -- A frame that is complete.
  unfoldable pub end_frame : Buffer → ℕ → State W → State W
  end_frame array stage st =
      let st' = process array stage st.cmd.asm st in
      if intact st.cmd.asm
      then record st' { cmd = record (st'.cmd) { asm_len = 0 } }
      else record st { cmd = resync st.cmd }

  -- The inner loop's body of `assemble`: one byte.
  unfoldable pub take_byte : Buffer → ℕ → ℕ → State W → State W
  take_byte array stage byte st =
      let c = st.cmd in
      let stored = record st {
        cmd = record c { asm = update c.asm c.asm_len byte; asm_len = c.asm_len + 1 };
      } in
      if (c.asm_len == 0) && not (byte == packet_id)
      then st
      else if c.asm_len + 1 == frame_bytes
      then end_frame array stage stored
      else stored

  unfoldable pub take_bytes : Buffer → ℕ → List ℕ → State W → State W
  take_bytes array stage [] st = st
  take_bytes array stage (b ∷ bs) st = take_bytes array stage bs (take_byte array stage b st)

  -- `assemble`, on the ring that `plat_isr_uart_read` reads; `none` when the fuel ends first.
  unfoldable pub assemble : ℕ → Buffer → ℕ → Ring → State W → Option (Ring × State W)
  assemble zero array stage r st = none
  assemble (suc fuel) array stage r st =
      let (chunk, r') = Ring.read r chunk_bytes in
      let st' = take_bytes array stage chunk st in
      let rest = assemble fuel array stage r' st' in
      if length chunk == chunk_bytes then rest else some (r', st')

  -- `track` behind its call of the handler.
  unfoldable pub track_result : Buffer → Status → State W → State W
  track_result array r st =
      let f = st.cmd.inflight in
      let (late, s) = expired f.budget st.services in
      let watched = record st { services = s } in
      let ended = λ (t : State W). record t {
        cmd = record (t.cmd) { inflight = record (t.cmd.inflight) { active = false } };
      } in
      if is_busy r
      then (if late
          then fail array f.id f.sequence f.receipt_ms command_timeout (def_of f.id).budget_ms
              (ended watched)
          else watched)
      else if is_ok r
      then complete array f.id f.sequence f.receipt_ms (ended st)
      else fail array f.id f.sequence f.receipt_ms command_failed (status_code r) (ended st)

  -- `track`; a command in flight has a handler.
  unfoldable pub track : Buffer → State W → State W
  track array st = elim (st.cmd.handler st.cmd.inflight.id) [
    | none ↦ st
    | some h ↦
        let (r, w, s) = h st.cmd.inflight.parameter st.world st.services in
        if st.cmd.inflight.active
        then track_result array r (record st { world = w; services = s })
        else st
  ]

  -- The body of the loop of `comm_cmd_service_interrupts`.
  unfoldable pub note_event : Event → Cmd W → Cmd W
  note_event ev c =
      if (ev.kind == kind_gap) && not (c.asm_len == 0)
      then record c { asm_len = 0; resyncs = u32 (c.resyncs + 1) }
      else c

  -- `comm_cmd_service`.
  unfoldable pub service : ℕ → Buffer → ℕ → Ring → State W → Option (Ring × State W)
  service fuel array stage r st = assemble fuel array stage r (track array st)
