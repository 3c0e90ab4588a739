-- ===== src/Spw/Deliver.antt =====
-- The loop that reads the link ends once its device has no more to give.
use qiran_firmware.Base.{ℕ, zero, suc, refl, sym, ap, subst, not, Option, some, arith}
use qiran_firmware.Base.{ℕ_discrete, ltb, leb, if_holds, option_holds, ◌+◌, ◌-◌, ◌*◌, ◌≤◌}
use qiran_firmware.Base.{◌<◌, ◌≡◌, ◌∙◌, ◌||◌, ◌==◌}
use qiran_firmware.Status.{Status}
use qiran_firmware.Services.{Services}
use qiran_firmware.Ccsds.{
  Buffer, Ccsds, Consumer, Header, deliver, note_sequence, receive_packet, receive, header_of,
  class_of, get_u32, bytes, primary_header_bytes, integrity_bytes, class_count,
}
use qiran_firmware.Crc.{crc32}
use qiran_firmware.Spw.{State, Ops, hand_on, deliver_round, deliver_received, rx_bytes}
use qiran_firmware.Spw.States.{deliver_step}

module _ {W : Type 0} (ops : Ops W) (backlog : W → ℕ) where
  -- A device with `backlog` bytes to give gives some of them, and has so much less then.
  abbrev pub IsFinite : Type 0
  IsFinite =
      (rx : Buffer) (w : W)
      → let (n, rx', w') = ops.receive rx rx_bytes w in backlog w ≡ n + backlog w'

  -- The packet consumers do not add to them.
  abbrev pub ConsumersKeep : (ℕ → Option (Consumer W)) → Type 0
  ConsumersKeep consumer =
      (cls : ℕ) (k : Consumer W)
      → consumer cls ≡ some k
      → (h : Header) (app : Buffer) (n : ℕ) (w : W) (s : Services)
      → backlog (k h app n w s).1 ≡ backlog w

  -- What a call of the packet layer leaves: the backlog and the consumers.
  abbrev Leaves : Ccsds W → W → Status × Ccsds W × W × Services → Type 0
  Leaves c w r = (backlog r.2 ≡ backlog w) × (r.1.consumer ≡ c.consumer)

  deliver-Leaves :
      (cls : ℕ) (h : Header) (app : Buffer) (n : ℕ) (c : Ccsds W) (w : W) (s : Services)
      → ConsumersKeep c.consumer
      → Leaves c w (deliver cls h app n c w s)
  unfolding deliver note_sequence
  deliver-Leaves cls h app n c w s keep =
      option_holds (Leaves c w) (c.consumer cls) (λ _. (refl, refl))
        (λ k e. (keep cls k e h app n w _, refl))

  receive_packet-Leaves :
      (h : Header) (packet : Buffer) (n : ℕ) (c : Ccsds W) (w : W) (s : Services)
      → ConsumersKeep c.consumer
      → Leaves c w (receive_packet h packet n c w s)
  unfolding receive_packet
  receive_packet-Leaves h packet n c w s keep =
      let field_len = h.data_length + 1 in
      let app_len = field_len - integrity_bytes in
      if_holds (Leaves c w)
        (not (primary_header_bytes + field_len == n) || ltb field_len integrity_bytes)
        (λ _. (refl, refl))
        (λ _.
          if_holds (Leaves c w)
            (not (
              get_u32 packet (primary_header_bytes + app_len)
              == crc32 (bytes app_len primary_header_bytes packet)))
            (λ _. (refl, refl))
            (λ _.
              if_holds (Leaves c w) (leb class_count (class_of h.apid c)) (λ _. (refl, refl))
                (λ _. deliver-Leaves (class_of h.apid c) h _ app_len c w s keep)))

  receive-Leaves :
      (packet : Buffer) (n : ℕ) (c : Ccsds W) (w : W) (s : Services)
      → ConsumersKeep c.consumer
      → Leaves c w (receive (some packet) n c w s)
  unfolding receive
  receive-Leaves packet n c w s keep =
      if_holds (Leaves c w) (ltb n primary_header_bytes) (λ _. (refl, refl))
        (λ _. receive_packet-Leaves (header_of packet) packet n c w s keep)

  -- The same of the state of the link.
  abbrev StateLeaves : State W → State W → Type 0
  StateLeaves st st' =
      (backlog st'.world ≡ backlog st.world) × (st'.ccsds.consumer ≡ st.ccsds.consumer)

  hand_on_leaves :
      (n : ℕ) (st : State W) → ConsumersKeep st.ccsds.consumer → StateLeaves st (hand_on n st)
  unfolding hand_on
  hand_on_leaves n st keep =
      if_holds (StateLeaves st) (n == 0) (λ _. (refl, refl))
        (λ _. receive-Leaves st.spw.rx n st.ccsds st.world st.services keep)

  round_leaves :
      (st : State W)
      → IsFinite
      → ConsumersKeep st.ccsds.consumer
      → let (n, st') = deliver_round ops st in
        (backlog st.world ≡ n + backlog st'.world) × (st'.ccsds.consumer ≡ st.ccsds.consumer)
  unfolding deliver_round
  round_leaves st finite keep =
      let (n, rx, w) = ops.receive st.spw.rx rx_bytes st.world in
      let got : State W = record st { spw = record (st.spw) { rx = rx }; world = w } in
      let (same, table) = hand_on_leaves n got keep in
      (finite st.spw.rx st.world ∙ ap (λ k. n + k) (sym same), table)

  -- With one round more than there are whole buffers waiting the reading of the link ends, and no
  -- more bytes wait then than before. The device gives no more bytes than
  -- it has waiting, and the packet consumers do not add to them.
  pub deliver_received-returns :
      (fuel : ℕ) (st : State W)
      → IsFinite
      → ConsumersKeep st.ccsds.consumer
      → backlog st.world < fuel * rx_bytes
      → (st' : State W) × (deliver_received fuel ops st ≡ some st')
        × (backlog st'.world ≤ backlog st.world)
  deliver_received-returns zero st finite keep h = absurd (omega arith)
  deliver_received-returns (suc fuel) st finite keep h =
      let next = (deliver_round ops st).1 in
      let (less, table) = round_leaves st finite keep in
      elim (ℕ_discrete (deliver_round ops st).0 rx_bytes) [
        | yes full ↦
            let (st', e, below) =
              deliver_received-returns fuel next finite (subst ConsumersKeep (sym table) keep)
                (omega (arith, less)) in
            (st', deliver_step fuel ops st ∙ ground (arith, full, e), omega (arith, below, less))
        | no last ↦ (next, deliver_step fuel ops st ∙ ground (arith, last), omega (arith, less))
      ]
