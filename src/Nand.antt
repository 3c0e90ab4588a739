-- ===== src/Nand.antt =====
-- src/data/storage_nand.c: one run's records in non-volatile memory, and their transfer to the
-- outbound queue. The memory device is a parameter that acts on `W`. A buffer is a function of the
-- index into it; the staging buffer is the one that the queue's descriptors name `stage_source`.
pub mod Flash
pub mod Records
pub mod Transfer
pub mod Roundtrip
pub mod Staging
mod Tests
use qiran_firmware.Base.{ℕ, Bool, true, false, not, Option, none, some, ltb, leb, u32, sub32}
use qiran_firmware.Base.{◌+◌, ◌&&◌, ◌||◌, ◌==◌, if◌then◌else◌}
use qiran_firmware.Status.{
  Status, is_ok, ok, err_param, err_state, err_hardware, err_range, err_busy, err_unsupported,
}
use qiran_firmware.Fault
use qiran_firmware.Crc.{crc32}
use qiran_firmware.Services.{Services, log_event}
use qiran_firmware.Fdir.{report}
use qiran_firmware.Ccsds.{Buffer, bytes, put_u32, get_u32}
use qiran_firmware.Output.{Output, submit}

-- `nand_record_type_t`.
abbrev pub record_raw : ℕ
record_raw = 0

abbrev pub record_processed : ℕ
record_processed = 1

abbrev pub record_health : ℕ
record_health = 2

abbrev pub record_count : ℕ
record_count = 3

abbrev pub record_magic : ℕ
record_magic = 0x514E4452

abbrev pub header_bytes : ℕ
header_bytes = 20

-- `NAND_TRANSFER_STAGE`.
abbrev pub transfer_stage : ℕ
transfer_stage = 512

-- The name of `s_stage` among the buffers that descriptors of the queue name.
abbrev pub stage_source : ℕ
stage_source = 1

-- `storage_nand_ops_t`, its context in `W`; `read` gives the buffer that it was given.
pub record Ops (W : Type 0) : Type 0 where
  pub erase : ℕ → ℕ → W → Status × W
  pub write : ℕ → Buffer → ℕ → W → Status × W
  pub read : ℕ → Buffer → ℕ → W → Status × Buffer × W
  pub capacity_bytes : ℕ

-- The argument of `storage_nand_set_ops`, each operation possibly NULL.
pub record OpsArgument (W : Type 0) : Type 0 where
  pub erase : Option (ℕ → ℕ → W → Status × W)
  pub write : Option (ℕ → Buffer → ℕ → W → Status × W)
  pub read : Option (ℕ → Buffer → ℕ → W → Status × Buffer × W)
  pub capacity_bytes : ℕ

-- The state; ready exactly when there are operations.
pub record Nand (W : Type 0) : Type 0 where
  pub ops : Option (Ops W)
  pub used : ℕ
  pub records : ℕ
  pub sequence : ℕ
  pub transfer_active : Bool
  pub transfer_offset : ℕ
  pub transferred : ℕ
  pub write_failures : ℕ
  pub read_failures : ℕ
  pub stage : Buffer

-- The CCSDS class of a record: the private `class_of`.
unfoldable pub record_class : ℕ → ℕ
record_class type = if type == record_processed then 2 else if type == record_health then 3 else 1

-- The header that `storage_nand_store` writes, over what the array held.
unfoldable pub record_header : ℕ → ℕ → Buffer → ℕ → Buffer → Buffer
record_header type sequence src len old =
    let (h1, at1) = put_u32 old 0 record_magic in
    let (h2, at2) = put_u32 h1 at1 type in
    let (h3, at3) = put_u32 h2 at2 sequence in
    let (h4, at4) = put_u32 h3 at3 len in (put_u32 h4 at4 (crc32 (bytes len 0 src))).0

-- What `storage_nand_transfer_service` reads out of a header.
pub record Found : Type 0 where
  pub magic : ℕ
  pub type : ℕ
  pub len : ℕ
  pub crc : ℕ

unfoldable pub found_in : Buffer → Found
found_in h = record {
  magic = get_u32 h 0;
  type = get_u32 h 4;
  len = get_u32 h 12;
  crc = get_u32 h 16;
}

-- The test of a header at an offset.
unfoldable pub is_record : Found → ℕ → ℕ → Bool
is_record f offset used = not (
    not (f.magic == record_magic)
    || leb record_count f.type
    || (f.len == 0)
    || ltb used (u32 (u32 (offset + header_bytes) + f.len)))

module _ {W : Type 0} where
  -- `storage_nand_init`; the staging buffer keeps its contents.
  unfoldable pub init : Nand W → Nand W
  init n = record {
    ops = none;
    used = 0;
    records = 0;
    sequence = 0;
    transfer_active = false;
    transfer_offset = 0;
    transferred = 0;
    write_failures = 0;
    read_failures = 0;
    stage = n.stage;
  }

  all_ops : OpsArgument W → Option (Ops W)
  all_ops a = elim a.erase [
    | none ↦ none
    | some f ↦ elim a.write [
      | none ↦ none
      | some g ↦ elim a.read [
        | none ↦ none
        | some h ↦
            if a.capacity_bytes == 0
            then none
            else some (record { erase = f; write = g; read = h; capacity_bytes = a.capacity_bytes })
      ]
    ]
  ]

  -- `storage_nand_set_ops`.
  unfoldable pub set_ops : Option (OpsArgument W) → Nand W → Status × Nand W
  unfolding all_ops
  set_ops none n = (ok, init n)
  set_ops (some a) n = elim (all_ops a) [
    | none ↦ (err_param, n)
    | some ops ↦ (ok, record n { ops = some ops; used = 0; records = 0 })
  ]

  -- A write that the device refuses.
  unfoldable pub write_failed : ℕ → Nand W → Services → Nand W × Services
  write_failed detail n s =
      (record n { write_failures = u32 (n.write_failures + 1) }, report Fault.nand_write detail s)

  -- `storage_nand_store` behind its guards.
  unfoldable pub write_record :
      Ops W → ℕ → Buffer → ℕ → Buffer → Nand W → W → Services → Status × Nand W × W × Services
  write_record ops type src len array n w s =
      let (st1, w1) =
        ops.write n.used (record_header type n.sequence src len array) header_bytes w in
      let (st2, w2) = ops.write (u32 (n.used + header_bytes)) src len w1 in
      let (n', s') = write_failed n.used n s in
      if not (is_ok st1)
      then (err_hardware, n', w1, s')
      else if not (is_ok st2)
      then (err_hardware, n', w2, s')
      else (
        ok,
        record n {
          used = u32 (n.used + u32 (header_bytes + len));
          records = u32 (n.records + 1);
          sequence = u32 (n.sequence + 1);
        },
        w2,
        s,
      )

  -- `storage_nand_store`, of data that is present; `array` is what the header's array held.
  unfoldable pub store :
      ℕ → Buffer → ℕ → Buffer → Nand W → W → Services → Status × Nand W × W × Services
  store type src len array n w s =
      if leb record_count type || (len == 0) then (err_param, n, w, s) else elim n.ops [
        | none ↦ (err_unsupported, n, w, s)
        | some ops ↦
            if n.transfer_active
            then (err_busy, n, w, s)
            else if ltb (sub32 ops.capacity_bytes n.used) (u32 (header_bytes + len))
            then (err_range, n, w, report Fault.nand_write n.used s)
            else write_record ops type src len array n w s
      ]

  -- `storage_nand_transfer_begin`.
  unfoldable pub transfer_begin : Nand W → Status × Nand W
  transfer_begin n = elim n.ops [
    | none ↦ (err_unsupported, n)
    | some _ ↦
        if n.transfer_active
        then (err_busy, n)
        else (ok, record n { transfer_offset = 0; transferred = 0; transfer_active = true })
  ]

  -- `storage_nand_transfer_complete`.
  unfoldable pub transfer_complete : Nand W → Bool
  transfer_complete n =
      not n.transfer_active && (n.transferred == n.records) && not (n.records == 0)

  -- `storage_nand_clear`.
  unfoldable pub clear : Nand W → W → Services → Status × Nand W × W × Services
  clear n w s = elim n.ops [
    | none ↦ (err_unsupported, n, w, s)
    | some ops ↦
        let (st, w') = ops.erase 0 n.used w in
        let (n', s') = write_failed 0 n s in
        if n.transfer_active
        then (err_busy, n, w, s)
        else if not (n.records == 0) && not (n.transferred == n.records)
        then (err_state, n, w, s)
        else if not (is_ok st)
        then (err_hardware, n', w', s')
        else (ok, record n { used = 0; records = 0; transferred = 0; transfer_offset = 0 }, w', s)
  ]

-- The store with the queue, the memory and the services.
pub record State (W : Type 0) : Type 0 where
  pub nand : Nand W
  pub output : Output
  pub world : W
  pub services : Services

module _ {W : Type 0} where
  -- Damage that stops the transfer.
  unfoldable pub stop_transfer : State W → State W
  stop_transfer st = record st {
    nand = record (st.nand) {
      read_failures = u32 (st.nand.read_failures + 1);
      transfer_active = false;
    };
    services = report Fault.nand_write st.nand.transfer_offset st.services;
  }

  -- The offset behind a record of `len` bytes.
  unfoldable pub next_offset : ℕ → Nand W → ℕ
  next_offset len n = u32 (n.transfer_offset + u32 (header_bytes + len))

  -- A record that cannot be sent: passed over and reported under a class.
  unfoldable pub skip_record : ℕ → ℕ → ℕ → State W → State W
  skip_record fault detail len st = record st {
    nand = record (st.nand) {
      read_failures = u32 (st.nand.read_failures + 1);
      transfer_offset = next_offset len st.nand;
    };
    services = report fault detail st.services;
  }

  -- A record in the staging buffer, given to the queue.
  unfoldable pub submit_record : Found → State W → State W
  submit_record f st =
      let (r, o, s) =
        submit (record_class f.type) (some stage_source) f.len st.output st.services in
      let kept = record st { output = o; services = s } in
      if not (is_ok r) then kept else record kept {
        nand = record (st.nand) {
          transfer_offset = next_offset f.len st.nand;
          transferred = u32 (st.nand.transferred + 1);
        };
      }

  -- A record whose header was accepted and whose length fits.
  unfoldable pub send_record : Ops W → Found → State W → State W
  send_record ops f st =
      let n = st.nand in
      let (r, stage, w) =
        ops.read (u32 (n.transfer_offset + header_bytes)) n.stage f.len st.world in
      let staged = record st { nand = record n { stage = stage }; world = w } in
      if not (is_ok r)
      then stop_transfer staged
      else if not (crc32 (bytes f.len 0 stage) == f.crc)
      then skip_record Fault.packet_integrity n.transfer_offset f.len staged
      else submit_record f staged

  -- The service with a header read from the transfer's offset.
  unfoldable pub service_header : Ops W → Status → Found → State W → State W
  service_header ops r f st =
      if not (is_ok r)
      then stop_transfer st
      else if not (is_record f st.nand.transfer_offset st.nand.used)
      then stop_transfer st
      else if ltb transfer_stage f.len
      then skip_record Fault.nand_write f.len f.len st
      else send_record ops f st

  -- `storage_nand_transfer_service`; `array` is what the header's array held.
  unfoldable pub transfer_service : Buffer → State W → State W
  transfer_service array st =
      let n = st.nand in
      elim n.ops [
        | none ↦ st
        | some ops ↦
            let (r, header, w) = ops.read n.transfer_offset array header_bytes st.world in
            if not n.transfer_active
            then st
            else if leb n.used n.transfer_offset
            then (record st {
              nand = record n { transfer_active = false };
              services = log_event 0 n.transferred st.services;
            })
            else service_header ops r (found_in header) (record st { world = w })
      ]
