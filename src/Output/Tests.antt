-- ===== src/Output/Tests.antt =====
-- The properties of the outbound queue at concrete queues.
use qiran_firmware.Base.{ℕ, bit_and, refl, true, false, some, arith, ltb, u32, update}
use qiran_firmware.Base.{◌+◌, ◌≤◌, ◌≡◌, if◌then◌else◌}
use qiran_firmware.Status.{ok, err_busy}
use qiran_firmware.Samples.{quiet}
use qiran_firmware.Ccsds
use qiran_firmware.Ccsds.{Buffer, Ccsds, header_of, packet_header}
use qiran_firmware.Ccsds.Packet.{CanBuild}
use qiran_firmware.Output
use qiran_firmware.Output.{
  Slot, Output, Link, State, Round, return, output_depth, output_packet_bytes, submit, pick,
  service, send_slot, leave_packet,
}
use qiran_firmware.Output.Pick.{IsBest, HasClasses, pick-IsBest}
use qiran_firmware.Output.Queue.{IsValid, used_slots}
use qiran_firmware.Output.Service.{service-returns}
use qiran_firmware.Output.Left.{IsWaiting, service_refused}

-- A raw packet in slot 0, and health in slots 1 and 2.
abbrev three_queued : ℕ → Slot
three_queued =
    update
      (update
        (update (λ _. record { source = 0; len = 0; cls = 0; used = false }) 0
          (record { source = 1; len = 40; cls = 1; used = true }))
        1 (record { source = 2; len = 10; cls = 3; used = true }))
      2 (record { source = 3; len = 10; cls = 3; used = true })

three_queued-HasClasses : HasClasses three_queued
three_queued-HasClasses j u = ground (arith, u)

abbrev queue : Output
queue = record {
  slot = three_queued;
  pending = 3;
  high_water = 3;
  submitted = 3;
  sent = 0;
  rejected = 0;
  failed = 0;
  packet = λ _. 0;
}

queue-IsValid : IsValid queue
unfolding used_slots
queue-IsValid = record { pending_used = refl; has_classes = three_queued-HasClasses }

pick_health : pick three_queued ≡ 1
unfolding pick Output.pick_from
pick_health = refl

pick-IsBest_example : IsBest three_queued output_depth (pick three_queued)
pick-IsBest_example = pick-IsBest three_queued three_queued-HasClasses

-- A link that takes two packets and then no more.
abbrev two_packets : Link ℕ
two_packets = record {
  running = λ w. true;
  send = λ packet n w s. (if ltb w 2 then ok else err_busy, w + 1, s);
}

abbrev sources : ℕ → Buffer
sources source i = source

abbrev at_start : State ℕ
at_start = record { output = queue; ccsds = Ccsds.init; world = 0; services = quiet }

service-returns_example :
    (st' : State ℕ) × (service two_packets sources 17 at_start ≡ some st')
    × IsValid st'.output
    × (st'.output.pending ≤ 3)
service-returns_example =
    service-returns two_packets sources 17 at_start queue-IsValid (omega arith)

-- A link that takes nothing.
abbrev stuck : Link ℕ
stuck = record { running = λ w. true; send = λ packet n w s. (err_busy, w, s) }

initial-CanBuild : CanBuild 3 10 (Ccsds.init {W = ℕ})
unfolding Ccsds.init
initial-CanBuild = (omega arith, omega arith, omega arith, omega arith)

at_start-IsWaiting : IsWaiting stuck sources at_start
unfolding pick Output.pick_from Ccsds.init
at_start-IsWaiting = record {
  running = refl;
  picked = omega arith;
  buildable = initial-CanBuild;
  fits = omega arith;
  small = λ i lt. omega arith;
}

service_refused_example :
    let slot = queue.slot (pick queue.slot) in
    (st' : State ℕ) × (service stuck sources 1 at_start ≡ some st')
    × (st'.output.slot ≡ queue.slot)
    × (st'.output.pending ≡ 3)
    × (st'.output.sent ≡ 0)
    × (header_of st'.output.packet ≡ packet_header slot.cls slot.len at_start.ccsds)
    × (st'.ccsds.tx_count slot.cls ≡ bit_and (at_start.ccsds.tx_count slot.cls + 1) 0x3FFF)
    × (st'.ccsds.sent slot.cls ≡ u32 (at_start.ccsds.sent slot.cls + 1))
service_refused_example =
    service_refused stuck sources 0 at_start at_start-IsWaiting (λ packet n. refl)
