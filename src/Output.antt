-- ===== src/Output.antt =====
-- src/comm/comm_output.c: the outbound queue. A descriptor names a buffer of its producer, which is
-- read when the packet is built: `load` gives the contents at that time. The link
-- (src/comm/comm_spw_link.c) is used through `Link`.
pub mod Pick
pub mod Queue
pub mod Service
pub mod Left
mod Tests
use qiran_firmware.Base.{ℕ, zero, suc, Bool, true, false, not, Option, none, some, List, []}
use qiran_firmware.Base.{ltb, leb, get_or, u32, sub32, update, ◌+◌, ◌&&◌, ◌||◌, ◌∷◌, ◌==◌}
use qiran_firmware.Base.{if◌then◌else◌}
use qiran_firmware.Status.{Status, is_ok, ok, err_param, err_range, err_busy}
use qiran_firmware.Fault
use qiran_firmware.Services.{Services}
use qiran_firmware.Fdir.{report}
use qiran_firmware.Ccsds.{Buffer, Ccsds, class_count, build, primary_header_bytes, integrity_bytes}

-- `COMM_OUTPUT_DEPTH` and `OUTPUT_PACKET_BYTES`.
abbrev pub output_depth : ℕ
output_depth = 16

abbrev pub output_packet_bytes : ℕ
output_packet_bytes = 1024

abbrev pub k_priority : List ℕ
k_priority = 3 ∷ 4 ∷ 2 ∷ 1 ∷ 0 ∷ 4 ∷ []

-- `comm_output_priority_of`.
unfoldable pub priority_of : ℕ → ℕ
priority_of cls = if ltb cls class_count then get_or k_priority cls 0xFF else 0xFF

-- `slot_t`; `source` names the producer's buffer.
pub record Slot : Type 0 where
  pub source : ℕ
  pub len : ℕ
  pub cls : ℕ
  pub used : Bool

pub record Output : Type 0 where
  pub slot : ℕ → Slot
  pub pending : ℕ
  pub high_water : ℕ
  pub submitted : ℕ
  pub sent : ℕ
  pub rejected : ℕ
  pub failed : ℕ
  pub packet : Buffer

-- `comm_output_init`.
unfoldable pub init : Output
init = record {
  slot = λ _. record { source = 0; len = 0; cls = 0; used = false };
  pending = 0;
  high_water = 0;
  submitted = 0;
  sent = 0;
  rejected = 0;
  failed = 0;
  packet = λ _. 0;
}

-- The first free slot of `n` from `i`, as the loop of `comm_output_submit` finds it.
unfoldable pub find_free : ℕ → ℕ → (ℕ → Slot) → Option ℕ
find_free zero i slots = none
find_free (suc n) i slots =
    let rest = find_free n (i + 1) slots in if (slots i).used then rest else some i

unfoldable pub fill : ℕ → Slot → Output → Output
fill i slot o =
    let pending = u32 (o.pending + 1) in
    record o {
      slot = update o.slot i slot;
      pending = pending;
      submitted = u32 (o.submitted + 1);
      high_water = if ltb o.high_water pending then pending else o.high_water;
    }

-- `comm_output_submit`; a NULL buffer is `none`.
unfoldable pub submit : ℕ → Option ℕ → ℕ → Output → Services → Status × Output × Services
submit cls none len o s = (err_param, o, s)
submit cls (some source) len o s =
    if leb class_count cls || (len == 0)
    then (err_param, o, s)
    else if ltb output_packet_bytes (u32 (u32 (len + primary_header_bytes) + integrity_bytes))
    then (err_range, o, s)
    else elim (find_free output_depth 0 o.slot) [
      | some i ↦ (ok, fill i (record { source = source; len = len; cls = cls; used = true }) o, s)
      | none ↦
          (err_busy, record o { rejected = u32 (o.rejected + 1) }, report Fault.output_queue cls s)
    ]

-- The loop of `pick`: `n` rounds from slot `i`.
unfoldable pub pick_from : ℕ → ℕ → ℕ → ℕ → (ℕ → Slot) → ℕ
pick_from zero i best best_priority slots = best
pick_from (suc n) i best best_priority slots =
    let p = get_or k_priority (slots i).cls 0xFF in
    let better = (slots i).used && ltb p best_priority in
    pick_from n (i + 1) (if better then i else best) (if better then p else best_priority) slots

-- `pick`.
unfoldable pub pick : (ℕ → Slot) → ℕ
pick slots = pick_from output_depth 0 output_depth 0xFF slots

-- A slot given back.
unfoldable pub release : ℕ → Output → Output
release i o = record o {
  slot = update o.slot i (record (o.slot i) { used = false });
  pending = sub32 o.pending 1;
}

-- The link: whether it runs, and what a packet does to it.
pub record Link (W : Type 0) : Type 0 where
  pub running : W → Bool
  pub send : Buffer → ℕ → W → Services → Status × W × Services

pub record State (W : Type 0) : Type 0 where
  pub output : Output
  pub ccsds : Ccsds W
  pub world : W
  pub services : Services

-- What one round of the loop of `comm_output_service` ends with.
pub data Round (W : Type 0) : Type 0 where
  return continue : State W → Round W

module _ {W : Type 0} where
  -- A packet that cannot be built: dropped and reported.
  unfoldable pub drop_packet : ℕ → Buffer → Ccsds W → State W → State W
  drop_packet i packet c st = record st {
    output = record (release i (record (st.output) { packet = packet })) {
      failed = u32 (st.output.failed + 1);
    };
    ccsds = c;
    services = report Fault.output_queue (st.output.slot i).cls st.services;
  }

  -- A packet that the link does not take: left queued.
  unfoldable pub leave_packet : Buffer → Ccsds W → W → Services → State W → State W
  leave_packet packet c w s st = record {
    output = record (st.output) { packet = packet };
    ccsds = c;
    world = w;
    services = s;
  }

  -- A packet that the link takes.
  unfoldable pub pass_packet : ℕ → Buffer → Ccsds W → W → Services → State W → State W
  pass_packet i packet c w s st = record {
    output = record (release i (record (st.output) { packet = packet })) {
      sent = u32 (st.output.sent + 1);
    };
    ccsds = c;
    world = w;
    services = s;
  }

module _ {W : Type 0} (link : Link W) (load : ℕ → Buffer) where
  -- The loop body with a packet built in the staging buffer.
  unfoldable pub send_built : ℕ → Buffer → ℕ → Ccsds W → State W → Round W
  send_built i packet size c st =
      let (sent, w, s) = link.send packet size st.world st.services in
      if not (is_ok sent)
      then return (leave_packet packet c w s st)
      else continue (pass_packet i packet c w s st)

  -- The loop body with a slot picked.
  unfoldable pub send_slot : ℕ → State W → Round W
  send_slot i st =
      let o = st.output in
      let slot = o.slot i in
      let (built, packet, written, c) =
        build slot.cls (load slot.source) slot.len o.packet output_packet_bytes st.ccsds in
      let size : ℕ = elim written [ none ↦ 0 | some n ↦ n ] in
      if not (is_ok built)
      then continue (drop_packet i packet c st)
      else send_built i packet size c st

  unfoldable pub round : State W → Round W
  round st =
      let i = pick st.output.slot in
      if not (link.running st.world)
      then return st
      else if leb output_depth i
      then return st
      else send_slot i st

  -- `comm_output_service`; `none` when the fuel ends first.
  unfoldable pub service : ℕ → State W → Option (State W)
  service zero st = none
  service (suc fuel) st = elim (round st) [
    | return st' ↦ some st'
    | continue st' ↦ service fuel st'
  ]
