-- ===== src/Output/Service.antt =====
-- The service loop ends and keeps the queue's invariant.
use qiran_firmware.Base.{ℕ, zero, suc, refl, sym, ap, subst, inl, inr, Bool, true}
use qiran_firmware.Base.{false, not, Option, none, some, arith, leb, ◌+◌, ◌≤◌, ◌<◌, ◌≡◌}
use qiran_firmware.Base.{◌∙◌, if◌then◌else◌}
use qiran_firmware.Status.{is_ok}
use qiran_firmware.Ccsds.{Buffer, Ccsds, build}
use qiran_firmware.Output.{
  Output, Link, State, Round, return, continue, output_depth, output_packet_bytes, pick, release,
  send_slot, send_built, drop_packet, leave_packet, pass_packet, round, service,
}
use qiran_firmware.Output.Pick.{pick-IsBest, HasClasses}
use qiran_firmware.Output.Queue.{
  IsValid, used_slots, used_slots-le, used_slots-update, release-IsValid,
}

module _ {W : Type 0} (link : Link W) (load : ℕ → Buffer) where
  -- A round that goes on has given one slot back; one that returns has changed no slot.
  abbrev RoundEnds : State W → Round W → Type 0
  RoundEnds st (return st') = IsValid st'.output × (st'.output.slot ≡ st.output.slot)
  RoundEnds st (continue st') = IsValid st'.output × (st'.output.pending + 1 ≡ st.output.pending)

  if_ends :
      (st : State W) (b : Bool) (x y : Round W)
      → RoundEnds st x
      → RoundEnds st y
      → RoundEnds st (if b then x else y)
  if_ends st true x y p q = p
  if_ends st false x y p q = q

  released :
      (i : ℕ) (o o' : Output)
      → IsValid o
      → i < output_depth
      → (o.slot i).used ≡ true
      → o'.slot ≡ (release i o).slot
      → o'.pending ≡ (release i o).pending
      → IsValid o' × (o'.pending + 1 ≡ o.pending)
  unfolding release
  released i o o' v inside used same count =
      let w = release-IsValid i o inside used v in
      let after =
        used_slots-update output_depth 0 i o.slot (record (o.slot i) { used = false }) (omega arith)
          inside in
      (
        record {
          pending_used = count ∙ w.pending_used ∙ ap (used_slots output_depth 0) (sym same);
          has_classes = subst (λ f. HasClasses f) (sym same) w.has_classes;
        },
        ground (arith, count, v.pending_used, after, used, used_slots-le output_depth 0 o.slot),
      )

  send_built_ends :
      (i : ℕ) (packet : Buffer) (size : ℕ) (c : Ccsds W) (st : State W)
      → IsValid st.output
      → i < output_depth
      → (st.output.slot i).used ≡ true
      → RoundEnds st (send_built link load i packet size c st)
  unfolding send_built leave_packet pass_packet release
  send_built_ends i packet size c st v inside used =
      let (sent, w, s) = link.send packet size st.world st.services in
      if_ends st (not (is_ok sent)) (return (leave_packet packet c w s st))
        (continue (pass_packet i packet c w s st))
        (record { pending_used = v.pending_used; has_classes = v.has_classes }, refl)
        (released i st.output (pass_packet i packet c w s st).output v inside used refl refl)

  send_slot_ends :
      (i : ℕ) (st : State W)
      → IsValid st.output
      → i < output_depth
      → (st.output.slot i).used ≡ true
      → RoundEnds st (send_slot link load i st)
  unfolding send_slot drop_packet release
  send_slot_ends i st v inside used =
      let slot = st.output.slot i in
      let (built, packet, written, c) =
        build slot.cls (load slot.source) slot.len st.output.packet output_packet_bytes st.ccsds in
      let size : ℕ = elim written [ none ↦ 0 | some n ↦ n ] in
      if_ends st (not (is_ok built)) (continue (drop_packet i packet c st))
        (send_built link load i packet size c st)
        (released i st.output (drop_packet i packet c st).output v inside used refl refl)
        (send_built_ends i packet size c st v inside used)

  round_ends : (st : State W) → IsValid st.output → RoundEnds st (round link load st)
  unfolding round
  round_ends st v =
      let i = pick st.output.slot in
      let idle : RoundEnds st (return st) = (v, refl) in
      let chosen : RoundEnds st
          (if leb output_depth i then return st else send_slot link load i st) =
        elim (pick-IsBest st.output.slot v.has_classes) [
          | inl (nothing, _) ↦
              let over : true ≡ leb output_depth i = ground (arith, nothing) in
              subst (λ b. RoundEnds st (if b then return st else send_slot link load i st)) over
                idle
          | inr (inside, used, _, _) ↦
              if_ends st (leb output_depth i) (return st) (send_slot link load i st) idle
                (send_slot_ends i st v inside used)
        ] in
      if_ends st (not (link.running st.world)) (return st)
        (if leb output_depth i then return st else send_slot link load i st) idle chosen

  -- On a queue whose count is the number of its used slots, the loop ends: with a round more than
  -- there are packets waiting the service returns, whatever the link answers; the count is still
  -- right and no packet was added.
  pub service-returns :
      (fuel : ℕ) (st : State W)
      → IsValid st.output
      → st.output.pending < fuel
      → (st' : State W) × (service link load fuel st ≡ some st')
        × IsValid st'.output
        × (st'.output.pending ≤ st.output.pending)
  unfolding service
  service-returns zero st v h = absurd (omega arith)
  service-returns (suc fuel) st v h =
      go (round link load st) (round_ends st v) (λ st'' w lt. service-returns fuel st'' w lt)
    where
      go :
          (r : Round W)
          → RoundEnds st r
          → ((st'' : State W)
              → IsValid st''.output
              → st''.output.pending < fuel
              → (st' : State W) × (service link load fuel st'' ≡ some st')
                × IsValid st'.output
                × (st'.output.pending ≤ st''.output.pending))
          → (st' : State W) × ((elim r as (λ _. Option (State W)) [
            | return st'' ↦ some st''
            | continue st'' ↦ service link load fuel st''
          ])
              ≡ some st')
            × IsValid st'.output
            × (st'.output.pending ≤ st.output.pending)
      go (return st') (w, same) next = (
        st',
        refl,
        w,
        ground (arith, v.pending_used, w.pending_used, ap (used_slots output_depth 0) same),
      )
      go (continue st') (w, fewer) next =
          let (st'', e, w', le) = next st' w (omega arith) in (st'', e, w', omega arith)
