-- ===== src/Output/Left.antt =====
-- A packet that the link refuses.
use qiran_firmware.Base.{ℕ, suc, ap₂, Option, bit_and, refl, ap, true, false, some, arith, u32, ◌+◌}
use qiran_firmware.Base.{◌≤◌, ◌<◌, ◌≡◌, ◌∙◌}
use qiran_firmware.Status.{Status, ok, is_ok}
use qiran_firmware.Ccsds.{Buffer, Ccsds, build, header_of, packet_header}
use qiran_firmware.Ccsds.Packet.{CanBuild, build-IsPacket}
use qiran_firmware.Output.{
  Link, State, Round, return, continue, output_depth, output_packet_bytes, pick, send_slot,
  send_built, leave_packet, round, service,
}

module _ {W : Type 0} (link : Link W) (load : ℕ → Buffer) where
  -- A slot is picked, and its packet can be built.
  pub record IsWaiting (st : State W) : Type 0 where
    pub running : link.running st.world ≡ true
    pub picked : pick st.output.slot < output_depth
    pub buildable :
        let slot = st.output.slot (pick st.output.slot) in CanBuild slot.cls slot.len st.ccsds
    pub fits : (st.output.slot (pick st.output.slot)).len + 10 ≤ output_packet_bytes
    pub small :
        let slot = st.output.slot (pick st.output.slot) in
        (i : ℕ) → i < slot.len → load slot.source i < 256

  refused_slot :
      (i size : ℕ) (packet : Buffer) (c : Ccsds W) (st : State W)
      → let slot = st.output.slot i in
        build slot.cls (load slot.source) slot.len st.output.packet output_packet_bytes st.ccsds
          ≡ (ok, packet, some size, c)
        → is_ok (link.send packet size st.world st.services).0 ≡ false
        → let (answer, w, s) = link.send packet size st.world st.services in
          send_slot link load i st ≡ return (leave_packet packet c w s st)
  unfolding send_slot send_built
  refused_slot i size packet c st made bad = ground (arith, made, bad)

  build_moves :
      (cls n len : ℕ) (app buf : Buffer) (c : Ccsds W)
      → (build cls app n buf len c).0 ≡ ok
      → let c' = (build cls app n buf len c).3 in
        (c'.tx_count cls ≡ bit_and (c.tx_count cls + 1) 0x3FFF)
        × (c'.sent cls ≡ u32 (c.sent cls + 1))
  unfolding build
  build_moves cls n len app buf c good = ground (arith, good)

  round_sends :
      (st : State W)
      → link.running st.world ≡ true
      → pick st.output.slot < output_depth
      → round link load st ≡ send_slot link load (pick st.output.slot) st
  unfolding round
  round_sends st up inside = ground (arith, up, inside)

  service_returns_round :
      (fuel : ℕ) (st st' : State W)
      → round link load st ≡ return st'
      → service link load (suc fuel) st ≡ some st'
  unfolding service
  service_returns_round fuel st st' e =
      ap
        (λ (r : Round W). elim r as (λ _. Option (State W)) [
          | return x ↦ some x
          | continue x ↦ service link load fuel x
        ])
        e

  -- A packet that is picked, that can be built and that the link, which runs, refuses: the service
  -- returns with every slot of the queue and its counts of waiting and sent packets as they were,
  -- so that the packet waits on. It was built under the class's sequence count, and that count has
  -- moved on by one, modulo 2 ^ 14, as has the class's count of packets sent.
  pub service_refused :
      (fuel : ℕ) (st : State W)
      → IsWaiting st
      → ((packet : Buffer) (n : ℕ) → is_ok (link.send packet n st.world st.services).0 ≡ false)
      → let slot = st.output.slot (pick st.output.slot) in
        (st' : State W) × (service link load (suc fuel) st ≡ some st')
        × (st'.output.slot ≡ st.output.slot)
        × (st'.output.pending ≡ st.output.pending)
        × (st'.output.sent ≡ st.output.sent)
        × (header_of st'.output.packet ≡ packet_header slot.cls slot.len st.ccsds)
        × (st'.ccsds.tx_count slot.cls ≡ bit_and (st.ccsds.tx_count slot.cls + 1) 0x3FFF)
        × (st'.ccsds.sent slot.cls ≡ u32 (st.ccsds.sent slot.cls + 1))
  unfolding leave_packet
  service_refused fuel st v refuses =
      let i = pick st.output.slot in
      let slot = st.output.slot i in
      let (r, packet, written, c) =
        build slot.cls (load slot.source) slot.len st.output.packet output_packet_bytes st.ccsds in
      let (good, size, made) =
        build-IsPacket slot.cls slot.len output_packet_bytes (load slot.source) st.output.packet
          st.ccsds v.buildable v.fits v.small in
      let (count, sent) =
        build_moves slot.cls slot.len output_packet_bytes (load slot.source) st.output.packet
          st.ccsds good in
      let (answer, w, s) = link.send packet (slot.len + 10) st.world st.services in
      (
        leave_packet packet c w s st,
        service_returns_round fuel st (leave_packet packet c w s st) (
            round_sends st v.running v.picked
            ∙ refused_slot i (slot.len + 10) packet c st
                (ap₂ (λ (a : Status) (b : Option ℕ). (a, packet, b, c)) good size)
                (refuses packet (slot.len + 10))),
        refl,
        refl,
        refl,
        made.header_stored,
        count,
        sent,
      )
