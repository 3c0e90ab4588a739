-- ===== src/Ccsds/Tests.antt =====
-- The properties of packets at concrete ones.
use qiran_firmware.Base.{ℕ, refl, true, none, some, arith, u32, update, ◌+◌, ◌%◌, ◌≤◌}
use qiran_firmware.Base.{◌<◌, ◌≡◌}
use qiran_firmware.Status.{ok, err_integrity}
use qiran_firmware.Fault
use qiran_firmware.Samples.{quiet}
use qiran_firmware.Fdir.{report}
use qiran_firmware.Ccsds
use qiran_firmware.Ccsds.{
  Buffer, Header, Consumer, Ccsds, build, receive, note_sequence, packet_header, set_apid, class_of,
  build_header, parse_header,
}
use qiran_firmware.Ccsds.Framing.{FitsHeader}
use qiran_firmware.Ccsds.Packet.{IsPacket, CanBuild, build-IsPacket}
use qiran_firmware.Ccsds.Route.{receive-build, receive_corrupted}
use qiran_firmware.Ccsds.Table.{IsRouted, init-IsRouted, class_of-apid}

abbrev a_header : Header
a_header = record {
  version = 0;
  packet_type = 1;
  secondary_header = true;
  apid = 0x123;
  seq_flags = 3;
  seq_count = 9000;
  data_length = 513;
}

a_header-FitsHeader : FitsHeader a_header
a_header-FitsHeader = omega arith

-- A consumer that keeps the first byte of the data.
abbrev keep_first : Consumer ℕ
keep_first h app n w s = (ok, app 0, s)

abbrev unit_at_start : Ccsds ℕ
unit_at_start = Ccsds.init

abbrev listening : Ccsds ℕ
listening = record (unit_at_start) { consumer = λ cls. some keep_first }

abbrev app_bytes : Buffer
app_bytes i = (i + 65) % 256

unit_at_start-CanBuild : CanBuild 3 5 unit_at_start
unfolding Ccsds.init
unit_at_start-CanBuild = (omega arith, omega arith, omega arith, omega arith)

unit_at_start-IsRouted : IsRouted unit_at_start
unit_at_start-IsRouted = init-IsRouted ℕ

routes_health : class_of (unit_at_start.apid 3) listening ≡ 3
routes_health = class_of-apid 3 listening unit_at_start-IsRouted (omega arith)

receive-build_example :
    let b = (build 3 app_bytes 5 (λ _. 0) 64 unit_at_start).1 in
    let (r', s') = note_sequence 3 (unit_at_start.tx_count 3) listening quiet in
    let (st, w', s'') = keep_first (packet_header 3 5 unit_at_start) (λ i. b (6 + i)) 5 0 s' in
    (receive (some b) (5 + 10) listening 0 quiet ≡ (st, r', w', s''))
    × ((i : ℕ) → i < 5 → b (6 + i) ≡ app_bytes i)
receive-build_example =
    receive-build 3 5 64 app_bytes (λ _. 0) unit_at_start listening keep_first 0 quiet
      unit_at_start-CanBuild (omega arith) (λ i lt. omega arith) routes_health refl

-- A receiver that has seen a packet of class 3 and expects the count 16382.
abbrev expecting : Ccsds ℕ
expecting = record {
  apid = λ _. 0;
  consumer = λ _. none;
  tx_count = λ _. 0;
  rx_seen = λ _. true;
  rx_expect = λ _. 16382;
  sent = λ _. 0;
  received = λ _. 1;
  gaps = 0;
  integrity_errors = 0;
  length_errors = 0;
  unroutable = 0;
}

-- A packet of class 3 with two bytes of data, and the same with the second byte changed.
abbrev whole : Buffer
whole = (build 3 app_bytes 2 (λ _. 0) 64 unit_at_start).1

two_bytes-CanBuild : CanBuild 3 2 unit_at_start
unfolding Ccsds.init
two_bytes-CanBuild = (omega arith, omega arith, omega arith, omega arith)

whole-IsPacket : IsPacket (packet_header 3 2 unit_at_start) app_bytes 2 whole
whole-IsPacket =
    (build-IsPacket 3 2 64 app_bytes (λ _. 0) unit_at_start two_bytes-CanBuild (omega arith)
      (λ i lt. omega arith)).2

abbrev changed : Buffer
changed = update whole 7 0

whole_bytes : (i : ℕ) → 6 ≤ i → i < 8 → whole i < 256
whole_bytes i p q = ground (
  arith,
  p,
  q,
  whole-IsPacket.data_stored 0 (omega arith),
  whole-IsPacket.data_stored 1 (omega arith),
)

length_of_two : (packet_header 3 2 unit_at_start).data_length ≡ 2 + 3
unfolding packet_header
length_of_two = refl

receive_corrupted_example :
    let (st, r', w', s') = receive (some changed) (2 + 10) listening 0 quiet in
    (st ≡ err_integrity)
    × (r' ≡ record (listening) { integrity_errors = u32 (listening.integrity_errors + 1) })
    × (w' ≡ 0)
    × (s' ≡ report Fault.packet_integrity (packet_header 3 2 unit_at_start).apid quiet)
receive_corrupted_example =
    receive_corrupted (packet_header 3 2 unit_at_start) app_bytes 2 1 whole changed listening 0
      quiet whole-IsPacket length_of_two whole_bytes (λ i p q. ground (arith, whole_bytes i p q))
      (omega arith) (ground (arith, whole-IsPacket.data_stored 1 (omega arith)))
      (λ i ne. ground (arith, ne))
