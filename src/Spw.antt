-- ===== src/Spw.antt =====
-- src/comm/comm_spw_link.c: the serial link, brought up, watched and read once in every service. The
-- device behind its four operations, and the packet consumers, act on `W`. The budget for a start
-- is the parameter of the configuration, read by the caller.
pub mod States
pub mod Deliver
pub mod Retry
mod Tests
use qiran_firmware.Base.{ℕ, zero, suc, Bool, true, false, not, Option, none, some, u32, ◌+◌}
use qiran_firmware.Base.{◌&&◌, ◌==◌, if◌then◌else◌}
use qiran_firmware.Status.{Status, is_ok, ok, err_param, err_state, status_code}
use qiran_firmware.Fault
use qiran_firmware.Time.{Timeout}
use qiran_firmware.Time
use qiran_firmware.Services.{Services, log_event, arm, expired}
use qiran_firmware.Fdir.{report, retries_exhausted}
use qiran_firmware.Irq
use qiran_firmware.Irq.{Event}
use qiran_firmware.Irq.Drain.{drain}
use qiran_firmware.Ccsds.{Buffer, Ccsds, receive}
use qiran_firmware.Output.{Link}

-- `SPW_RX_BYTES`.
abbrev pub rx_bytes : ℕ
rx_bytes = 512

-- `comm_spw_state_t`.
pub data LinkState : Type 0 where
  down starting run failed : LinkState

-- `comm_spw_ops_t`, its context in `W`. What `status` stores starts as what was there; `receive`
-- gives the number of bytes and the buffer that it was given.
pub record Ops (W : Type 0) : Type 0 where
  pub start : W → Status × W
  pub status : Bool → ℕ → W → Status × Bool × ℕ × W
  pub send : Buffer → ℕ → W → Status × W
  pub receive : Buffer → ℕ → W → ℕ × Buffer × W

-- The argument of `comm_spw_link_set_ops`, each operation possibly NULL.
pub record OpsArgument (W : Type 0) : Type 0 where
  pub start : Option (W → Status × W)
  pub status : Option (Bool → ℕ → W → Status × Bool × ℕ × W)
  pub send : Option (Buffer → ℕ → W → Status × W)
  pub receive : Option (Buffer → ℕ → W → ℕ × Buffer × W)

pub record Spw (W : Type 0) : Type 0 where
  pub ops : Option (Ops W)
  pub state : LinkState
  pub start_budget : Timeout
  pub attempts : ℕ
  pub disconnects : ℕ
  pub errors : ℕ
  pub sent : ℕ
  pub received : ℕ
  pub status_word : ℕ
  pub error_word : ℕ
  pub rx : Buffer

-- The link with the packet layer, the device and the services.
pub record State (W : Type 0) : Type 0 where
  pub spw : Spw W
  pub ccsds : Ccsds W
  pub world : W
  pub services : Services

abbrev pub is_run : LinkState → Bool
is_run run = true
is_run _ = false

module _ {W : Type 0} where
  -- `comm_spw_link_init`.
  unfoldable pub init : Spw W → Spw W
  init l = record {
    ops = none;
    state = down;
    start_budget = Time.disarm l.start_budget;
    attempts = 0;
    disconnects = 0;
    errors = 0;
    sent = 0;
    received = 0;
    status_word = 0;
    error_word = 0;
    rx = l.rx;
  }

  all_ops : OpsArgument W → Option (Ops W)
  all_ops a = elim a.start [
    | none ↦ none
    | some f ↦ elim a.status [
      | none ↦ none
      | some g ↦ elim a.send [
        | none ↦ none
        | some h ↦ elim a.receive [
          | none ↦ none
          | some k ↦ some (record { start = f; status = g; send = h; receive = k })
        ]
      ]
    ]
  ]

  -- `comm_spw_link_set_ops`.
  unfoldable pub set_ops : Option (OpsArgument W) → Spw W → Status × Spw W
  unfolding all_ops
  set_ops none l = (ok, init l)
  set_ops (some a) l = elim (all_ops a) [
    | none ↦ (err_param, l)
    | some ops ↦ (ok, record l { ops = some ops; state = down })
  ]

  -- `comm_spw_link_running`.
  unfoldable pub running : Spw W → Bool
  running l = is_run l.state

  -- What a send comes to that the device answers with `st`.
  unfoldable pub note_send : Status → Spw W → Services → Spw W × Services
  note_send st l s =
      if is_ok st
      then (record l { sent = u32 (l.sent + 1) }, s)
      else (record l { errors = u32 (l.errors + 1) }, report Fault.spw_link (status_code st) s)

  -- `comm_spw_link_send`, of data that is present; without operations the link never runs.
  unfoldable pub send : Buffer → ℕ → Spw W → W → Services → Status × Spw W × W × Services
  send packet len l w s =
      if len == 0
      then (err_param, l, w, s)
      else if not (is_run l.state)
      then (err_state, l, w, s)
      else elim l.ops [
        | none ↦ (err_state, l, w, s)
        | some ops ↦
            let (st, w') = ops.send packet len w in
            let (l', s') = note_send st l s in (st, l', w', s')
      ]

  -- The link as the outbound queue uses it.
  unfoldable pub output_link : Link (Spw W × W)
  output_link = record {
    running = λ p. running p.0;
    send = λ packet len p s. let (st, l, w, s') = send packet len p.0 p.1 s in (st, (l, w), s');
  }

  -- The body of the loop of `comm_spw_link_service_interrupts`.
  unfoldable pub note_error : Event → Spw W × Services → Spw W × Services
  note_error ev (l, s) = (
    record l { errors = u32 (l.errors + 1); error_word = ev.datum },
    report Fault.spw_link ev.datum s,
  )

  -- `comm_spw_link_service_interrupts`, on the queue of its source.
  unfoldable pub service_interrupts :
      {V : Type 0} → ℕ → Irq.Slot V → Spw W → Services → Option (Irq.Slot V × Spw W × Services)
  service_interrupts fuel slot l s = elim l.ops [
    | none ↦ some (slot, l, s)
    | some _ ↦ elim (drain note_error fuel slot (l, s)) [
      | none ↦ none
      | some (slot', (l', s')) ↦ some (slot', l', s')
    ]
  ]

  -- A packet of `n` bytes in the staging buffer, handed on.
  unfoldable pub hand_on : ℕ → State W → State W
  hand_on n st =
      let (_, c, w, s) = receive (some st.spw.rx) n st.ccsds st.world st.services in
      if n == 0 then st else record {
        spw = record (st.spw) { received = u32 (st.spw.received + 1) };
        ccsds = c;
        world = w;
        services = s;
      }

  -- One round of `deliver_received`: the number of bytes, and the state behind it.
  unfoldable pub deliver_round : Ops W → State W → ℕ × State W
  deliver_round ops st =
      let (n, rx, w) = ops.receive st.spw.rx rx_bytes st.world in
      (n, hand_on n (record st { spw = record (st.spw) { rx = rx }; world = w }))

  -- `deliver_received`; `none` when the fuel ends first.
  unfoldable pub deliver_received : ℕ → Ops W → State W → Option (State W)
  deliver_received zero ops st = none
  deliver_received (suc fuel) ops st =
      let (n, st') = deliver_round ops st in
      let rest = deliver_received fuel ops st' in if n == rx_bytes then rest else some st'

  -- A start that the device refuses.
  unfoldable pub start_refused : Spw W → Services → Spw W × Services
  start_refused l s =
      let s' = report Fault.spw_link 0 s in
      (
        record l {
          errors = u32 (l.errors + 1);
          state = if retries_exhausted Fault.spw_link s' then failed else l.state;
        },
        s',
      )

  -- The case SPW_LINK_DOWN of `comm_spw_link_service`.
  unfoldable pub service_down : ℕ → Ops W → Spw W → W → Services → Spw W × W × Services
  service_down budget_ms ops l w s =
      let counted = record l { attempts = u32 (l.attempts + 1) } in
      let (st, w') = ops.start w in
      let (refused, s1) = start_refused counted s in
      let (budget, s2) = arm budget_ms s in
      if is_ok st
      then (record counted { start_budget = budget; state = starting }, w', s2)
      else (refused, w', s1)

  -- A start whose budget is spent: given up for good, or tried again.
  unfoldable pub start_overdue : Spw W → Services → Spw W × Services
  start_overdue l s =
      let s' = report Fault.spw_link l.status_word s in
      (
        record l {
          error_word = l.status_word;
          state = if retries_exhausted Fault.spw_link s' then failed else down;
        },
        s',
      )

  -- The case SPW_LINK_STARTING.
  unfoldable pub service_starting : Ops W → Spw W → W → Services → Spw W × W × Services
  service_starting ops l w s =
      let (st, up, word, w') = ops.status false l.status_word w in
      let seen = record l { status_word = word } in
      let (late, s') = expired l.start_budget s in
      let (overdue, s'') = start_overdue seen s' in
      if not (is_ok st)
      then (
        record seen { errors = u32 (l.errors + 1); state = down },
        w',
        report Fault.spw_link 0 s,
      )
      else if up
      then (
        record seen { state = run; start_budget = Time.disarm l.start_budget },
        w',
        log_event 0 word s,
      )
      else if late
      then (overdue, w', s'')
      else (seen, w', s')

  -- The case SPW_LINK_RUN before it delivers: whether the link is still up.
  unfoldable pub watch_run : Ops W → Spw W → W → Services → Bool × Spw W × W × Services
  watch_run ops l w s =
      let (st, up, word, w') = ops.status false l.status_word w in
      let seen = record l { status_word = word } in
      if is_ok st && up then (true, seen, w', s) else (
        false,
        record seen { disconnects = u32 (l.disconnects + 1); error_word = word; state = down },
        w',
        report Fault.spw_link word s,
      )

  -- The case SPW_LINK_RUN.
  unfoldable pub service_run : ℕ → Ops W → State W → Option (State W)
  service_run fuel ops st =
      let (up, l, w, s) = watch_run ops st.spw st.world st.services in
      let st' = record st { spw = l; world = w; services = s } in
      let delivered = deliver_received fuel ops st' in if up then delivered else some st'

  -- The `switch` of `comm_spw_link_service`.
  unfoldable pub service_in : LinkState → ℕ → ℕ → Ops W → State W → Option (State W)
  service_in down budget_ms fuel ops st =
      let (l, w, s) = service_down budget_ms ops st.spw st.world st.services in
      some (record st { spw = l; world = w; services = s })
  service_in starting budget_ms fuel ops st =
      let (l, w, s) = service_starting ops st.spw st.world st.services in
      some (record st { spw = l; world = w; services = s })
  service_in run budget_ms fuel ops st = service_run fuel ops st
  service_in failed budget_ms fuel ops st = some st

  -- `comm_spw_link_service`, with fuel for the packets that it delivers.
  unfoldable pub service : ℕ → ℕ → State W → Option (State W)
  service budget_ms fuel st = elim st.spw.ops [
    | none ↦ some st
    | some ops ↦ service_in st.spw.state budget_ms fuel ops st
  ]
