-- ===== src/Ccsds/Route.antt =====
-- What the receiver does with a packet: it hands it to the consumer of its class, unless it was
-- corrupted, and notices the packets that are missing.
use qiran_firmware.Base.{ℕ, sym, ap, ap₂, some, arith, length, u32, ◌+◌, ◌-◌, ◌≤◌, ◌<◌, ◌≡◌}
use qiran_firmware.Base.{◌∙◌, ◌≢◌, ◌∷◌, ◌++◌}
use qiran_firmware.Status.{err_integrity}
use qiran_firmware.Fault
use qiran_firmware.Services.{Services}
use qiran_firmware.Fdir.{report}
use qiran_firmware.Crc.{crc32}
use qiran_firmware.Crc.Detect.{crc32_detects_byte}
use qiran_firmware.Ccsds.{
  Buffer, Header, Ccsds, Consumer, get_u32, bytes, packet_header, build, header_of, class_of,
  class_count, deliver, note_sequence, receive_packet, receive,
}
use qiran_firmware.Ccsds.Packet.{
  IsPacket, CanBuild, build-IsPacket, bytes_same, bytes-IsByte, bytes_split, get_u32_same,
  header_of_same,
}

-- Buffers that differ in one byte of a range have different checksums over it.
crc32-bytes-differ :
    (n p : ℕ) (b broken : Buffer)
    → ((i : ℕ) → 6 ≤ i → i < 6 + n → b i < 256)
    → ((i : ℕ) → 6 ≤ i → i < 6 + n → broken i < 256)
    → p < n
    → broken (6 + p) ≢ b (6 + p)
    → ((i : ℕ) → i ≢ 6 + p → broken i ≡ b i)
    → crc32 (bytes n 6 broken) ≢ crc32 (bytes n 6 b)
crc32-bytes-differ n p b broken small small' inside differs same e =
    let before = bytes p 6 b in
    let after = bytes (n - p - 1) (6 + p + 1) b in
    let left : bytes p 6 broken ≡ before =
      bytes_same p 6 broken b (λ i _ lt. same i (omega arith)) in
    let right : bytes (n - p - 1) (6 + p + 1) broken ≡ after =
      bytes_same (n - p - 1) (6 + p + 1) broken b (λ i ge _. same i (omega arith)) in
    let mixed : bytes n 6 broken ≡ before ++ (broken (6 + p) ∷ after) =
      bytes_split n 6 p broken inside ∙ ap₂ (λ xs ys. xs ++ (broken (6 + p) ∷ ys)) left right in
    differs (
      crc32_detects_byte before after (broken (6 + p)) (b (6 + p))
        (bytes-IsByte p 6 b (λ i q r. small i q (omega arith)))
        (bytes-IsByte (n - p - 1) (6 + p + 1) b (λ i q r. small i (omega arith) (omega arith)))
        (small' (6 + p) (omega arith) (omega arith)) (small (6 + p) (omega arith) (omega arith))
        (ap crc32 (sym mixed) ∙ e ∙ ap crc32 (bytes_split n 6 p b inside)))

module _ {W : Type 0} where
  -- An intact packet of a class that the receiver knows is handed on with its header and data.
  pub receive-IsPacket :
      (h : Header) (app : Buffer) (n : ℕ) (b : Buffer) (r : Ccsds W) (w : W) (s : Services)
      → IsPacket h app n b
      → h.data_length ≡ n + 3
      → class_of h.apid r < class_count
      → receive (some b) (n + 10) r w s ≡ deliver (class_of h.apid r) h (λ i. b (6 + i)) n r w s
  unfolding receive receive_packet
  receive-IsPacket h app n b r w s p length known =
      let passes : receive_packet h b (n + 10) r w s
          ≡ deliver (class_of h.apid r) h (λ i. b (6 + i)) n r w s =
        ground (arith, length, known, p.checksum_right, trimmed) in
      ground (arith, passes, ap (λ k. receive_packet k b (n + 10) r w s) p.header_stored)
    where
      trimmed : h.data_length + 1 - 4 ≡ n
      trimmed = omega arith

  -- What one unit builds for a class, in a buffer with room and from bytes, with an assigned
  -- identifier and a count in range, another that gives the class's identifier to the same class
  -- receives: the consumer registered there is called once, with the header and the data that were
  -- sent, and its answer is the answer.
  pub receive-build :
      (cls n len : ℕ) (app buf : Buffer) (c r : Ccsds W) (k : Consumer W) (w : W) (s : Services)
      → CanBuild cls n c
      → n + 10 ≤ len
      → ((i : ℕ) → i < n → app i < 256)
      → class_of (c.apid cls) r ≡ cls
      → r.consumer cls ≡ some k
      → let b = (build cls app n buf len c).1 in
        let (r', s') = note_sequence cls (c.tx_count cls) r s in
        let (st, w', s'') = k (packet_header cls n c) (λ i. b (6 + i)) n w s' in
        (receive (some b) (n + 10) r w s ≡ (st, r', w', s''))
        × ((i : ℕ) → i < n → b (6 + i) ≡ app i)
  unfolding deliver packet_header note_sequence
  receive-build cls n len app buf c r k w s can room small route registered =
      let b = (build cls app n buf len c).1 in
      let (_, _, p) = build-IsPacket cls n len app buf c can room small in
      let h = packet_header cls n c in
      let e =
        receive-IsPacket h app n b r w s p (ground (arith, can)) (ground (arith, route, can)) in
      let d : deliver cls h (λ i. b (6 + i)) n r w s ≡ (
          let (r', s') = note_sequence cls (c.tx_count cls) r s in
          let (st, w', s'') = k h (λ i. b (6 + i)) n w s' in (st, r', w', s'')) =
        ground (arith, registered) in
      (e ∙ ap (λ j. deliver j h (λ i. b (6 + i)) n r w s) route ∙ d, p.data_stored)

  -- An intact packet whose data was changed in one byte on the way is refused: no consumer sees
  -- it, nothing but a counter of the receiver changes, and the error is counted and reported. The
  -- data before and after are bytes.
  pub receive_corrupted :
      (h : Header) (app : Buffer) (n p : ℕ) (b broken : Buffer) (r : Ccsds W) (w : W) (s : Services)
      → IsPacket h app n b
      → h.data_length ≡ n + 3
      → ((i : ℕ) → 6 ≤ i → i < 6 + n → b i < 256)
      → ((i : ℕ) → 6 ≤ i → i < 6 + n → broken i < 256)
      → p < n
      → broken (6 + p) ≢ b (6 + p)
      → ((i : ℕ) → i ≢ 6 + p → broken i ≡ b i)
      → let (st, r', w', s') = receive (some broken) (n + 10) r w s in
        (st ≡ err_integrity)
        × (r' ≡ record r { integrity_errors = u32 (r.integrity_errors + 1) })
        × (w' ≡ w)
        × (s' ≡ report Fault.packet_integrity h.apid s)
  unfolding receive receive_packet
  receive_corrupted h app n p b broken r w s packet length small small' inside differs same =
      let changed = crc32-bytes-differ n p b broken small small' inside differs same in
      let head : header_of broken ≡ h =
        header_of_same broken b (λ i lt. same i (omega arith)) ∙ packet.header_stored in
      let stored : get_u32 broken (6 + n) ≡ crc32 (bytes n 6 b) =
        get_u32_same broken b (6 + n) (λ i ge. same i (omega arith)) ∙ packet.checksum_right in
      let trimmed : h.data_length + 1 - 4 ≡ n = omega arith in
      ground (
        arith,
        length,
        trimmed,
        changed,
        head,
        stored,
        ap (λ k. receive_packet k broken (n + 10) r w s) head,
      )
