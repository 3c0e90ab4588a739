-- ===== src/Nand/Tests.antt =====
-- The properties of the store of records on a memory that keeps what is written.
use qiran_firmware.Base.{ℕ, refl, ap, inl, inr, true, false, some, arith, ltb, Option-cases}
use qiran_firmware.Base.{◌+◌, ◌-◌, ◌%◌, ◌<◌, ◌≡◌, ◌∙◌, if◌then◌else◌}
use qiran_firmware.Status.{is_ok, ok, err_hardware}
use qiran_firmware.Samples.{quiet}
use qiran_firmware.Services.{Services}
use qiran_firmware.Ccsds.{Buffer}
use qiran_firmware.Output
use qiran_firmware.Output.{Output, submit}
use qiran_firmware.Nand
use qiran_firmware.Nand.{Ops, Nand, State, store, transfer_service, record_class, stage_source}
use qiran_firmware.Nand.Flash.{IsFlash, written}
use qiran_firmware.Nand.Records.{store_failed}
use qiran_firmware.Nand.Transfer.{IsAt, submission, transfer_service-submit}
use qiran_firmware.Nand.Roundtrip.{CanStore, at_record, transfer_service-store}
use qiran_firmware.Nand.Staging.{descriptor, transfer_service_overwrites}

abbrev memory_ops : Ops (ℕ → ℕ)
memory_ops = record {
  erase = λ at n w. (ok, w);
  write = λ at src n w. (ok, written w at src n);
  read = λ at dst n w. (ok, λ i. if ltb i n then w (at + i) else dst i, w);
  capacity_bytes = 1000;
}

abbrev contents_of : (ℕ → ℕ) → ℕ → ℕ
contents_of w = w

memory_ops-IsFlash : IsFlash memory_ops contents_of
memory_ops-IsFlash = record {
  writes = λ at src n w e a. refl;
  reads = λ at dst n w. (refl, λ i lt. ground (arith, lt), λ a. refl);
}

abbrev empty_store : Nand (ℕ → ℕ)
empty_store = record {
  ops = some memory_ops;
  used = 0;
  records = 0;
  sequence = 0;
  transfer_active = false;
  transfer_offset = 0;
  transferred = 0;
  write_failures = 0;
  read_failures = 0;
  stage = λ _. 0;
}

abbrev four_bytes : Buffer
four_bytes i = (i + 65) % 256

empty_store-CanStore : CanStore memory_ops contents_of memory_ops-IsFlash empty_store four_bytes 4
empty_store-CanStore = record {
  attached = refl;
  capacity_word = omega arith;
  inside = omega arith;
  numbered = omega arith;
  fits_stage = omega arith;
  of_bytes = λ i lt. omega arith;
}

queue_takes : (submit (record_class 2) (some stage_source) 4 Output.init quiet).0 ≡ ok
unfolding submit record_class Output.init Output.find_free
queue_takes = refl

stored : (store 2 four_bytes 4 (λ _. 0) empty_store (λ _. 0) quiet).0 ≡ ok
unfolding store Nand.write_record
stored = refl

transfer_service-store_example :
    let (r, n, w', s1) = store 2 four_bytes 4 (λ _. 0) empty_store (λ _. 0) quiet in
    let st =
      transfer_service
        (λ _. 0)
        (at_record memory_ops contents_of memory_ops-IsFlash 0 n w' Output.init quiet) in
    ((i : ℕ) → i < 4 → st.nand.stage i ≡ four_bytes i)
    × (st.output ≡ (submit (record_class 2) (some stage_source) 4 Output.init quiet).1)
    × (st.nand.transfer_offset ≡ st.nand.used)
transfer_service-store_example =
    transfer_service-store memory_ops contents_of memory_ops-IsFlash 2 four_bytes 4 (λ _. 0)
      (λ _. 0) empty_store (λ _. 0) quiet quiet Output.init empty_store-CanStore stored queue_takes

-- A device that takes no write.
abbrev worn_ops : Ops (ℕ → ℕ)
worn_ops = record memory_ops { write = λ at src n w. (err_hardware, w) }

abbrev worn_store : Nand (ℕ → ℕ)
worn_store = record empty_store { ops = some worn_ops; used = 24; records = 1; sequence = 1 }

not_stored : is_ok (store 2 four_bytes 4 (λ _. 0) worn_store (λ _. 0) quiet).0 ≡ false
unfolding store Nand.write_record
not_stored = refl

store_failed_example :
    let (r, n', w', s') = store 2 four_bytes 4 (λ _. 0) worn_store (λ _. 0) quiet in
    (n'.used ≡ 24)
    × (n'.records ≡ 1)
    × (n'.sequence ≡ 1)
    × (n'.transferred ≡ 0)
    × (n'.transfer_offset ≡ 0)
store_failed_example =
    store_failed worn_ops 2 four_bytes 4 (λ _. 0) worn_store (λ _. 0) quiet refl not_stored

-- Two records, the second with other data.
abbrev other_bytes : Buffer
other_bytes i = (i + 97) % 256

abbrev header_one : Buffer
header_one = Nand.record_header 2 0 four_bytes 4 (λ _. 0)

abbrev header_two : Buffer
header_two = Nand.record_header 2 1 other_bytes 4 (λ _. 0)

abbrev two_records : ℕ → ℕ
two_records =
    written (written (written (written (λ _. 0) 0 header_one 20) 20 four_bytes 4) 24 header_two 20)
      44 other_bytes 4

abbrev sending : State (ℕ → ℕ)
sending = record {
  nand = record empty_store { used = 48; records = 2; sequence = 2; transfer_active = true };
  output = Output.init;
  world = two_records;
  services = quiet;
}

from_start : (i : ℕ) → 0 + i - 0 ≡ i
from_start i = omega arith

sending-IsAt : IsAt memory_ops contents_of memory_ops-IsFlash sending 2 0 4 four_bytes
sending-IsAt = record {
  attached = refl;
  active = refl;
  used_word = omega arith;
  inside = omega arith;
  known = omega arith;
  numbered = omega arith;
  some_data = omega arith;
  fits_stage = omega arith;
  of_bytes = λ i lt. omega arith;
  held = record {
    header_array = λ _. 0;
    header_held = λ i lt. ground (arith, lt, ap header_one (from_start i));
    payload_held = λ i lt. ground (arith, lt);
  };
}

abbrev sent_one : State (ℕ → ℕ)
sent_one = transfer_service (λ _. 0) sending

first_taken :
    (submission memory_ops contents_of memory_ops-IsFlash sending 2 0 4 four_bytes sending-IsAt
      (λ _. 0)).0
    ≡ ok
first_taken = queue_takes

from_second : (i : ℕ) → 24 + i - 24 ≡ i
from_second i = omega arith

sent_one-IsAt : IsAt memory_ops contents_of memory_ops-IsFlash sent_one 2 1 4 other_bytes
sent_one-IsAt =
    let (_, _, offset, _, active, used, same, device) =
      transfer_service-submit memory_ops contents_of memory_ops-IsFlash sending 2 0 4 four_bytes
        sending-IsAt (λ _. 0) first_taken in
    record {
      attached = device;
      active = active;
      used_word = omega (arith, used);
      inside = omega (arith, used, offset);
      known = omega arith;
      numbered = omega arith;
      some_data = omega arith;
      fits_stage = omega arith;
      of_bytes = λ i lt. omega arith;
      held = record {
        header_array = λ _. 0;
        header_held = λ i lt.
            same (sent_one.nand.transfer_offset + i)
            ∙ ap (λ k. two_records (k + i)) offset
            ∙ ground (arith, lt, ap header_two (from_second i));
        payload_held = λ i lt.
            same (sent_one.nand.transfer_offset + 20 + i)
            ∙ ap (λ k. two_records (k + 20 + i)) offset
            ∙ ground (arith, lt);
      };
    }

submit_status :
    (cls source n : ℕ) (o : Output) (s t : Services)
    → (submit cls (some source) n o s).0 ≡ (submit cls (some source) n o t).0
unfolding submit
submit_status cls source n o s t = elim (Option-cases (Output.find_free 16 0 o.slot)) [
  | inl e ↦ ground (arith, e)
  | inr (i, e) ↦ ground (arith, e)
]

abbrev after_one : Output
after_one = (submit (record_class 2) (some stage_source) 4 Output.init quiet).1

takes_two : (submit (record_class 2) (some stage_source) 4 after_one quiet).0 ≡ ok
unfolding submit record_class Output.init Output.find_free Output.fill
takes_two = refl

second_taken :
    (submission memory_ops contents_of memory_ops-IsFlash sent_one 2 1 4 other_bytes sent_one-IsAt
      (λ _. 0)).0
    ≡ ok
second_taken =
    let (_, queued, _, _, _, _, _, _) =
      transfer_service-submit memory_ops contents_of memory_ops-IsFlash sending 2 0 4 four_bytes
        sending-IsAt (λ _. 0) first_taken in
    ap (λ (o : Output). (submit (record_class 2) (some stage_source) 4 o sent_one.services).0)
      queued
    ∙ submit_status (record_class 2) stage_source 4 after_one sent_one.services quiet
    ∙ takes_two

transfer_service_overwrites_example :
    let st2 = transfer_service (λ _. 0) sent_one in
    (i : ℕ) × (st2.output.slot i ≡ descriptor 2 4)
    × ((j : ℕ) → j < 4 → st2.nand.stage j ≡ other_bytes j)
transfer_service_overwrites_example =
    transfer_service_overwrites memory_ops contents_of memory_ops-IsFlash sending 2 0 4 2 1 4
      four_bytes other_bytes (λ _. 0) (λ _. 0) sending-IsAt first_taken sent_one-IsAt second_taken
