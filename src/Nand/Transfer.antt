-- ===== src/Nand/Transfer.antt =====
-- A record that is held is what the transfer puts into the staging buffer and submits.
use qiran_firmware.Base.{ℕ, refl, ap, true, some, arith, u32, ◌+◌, ◌^◌, ◌≤◌, ◌<◌, ◌≡◌, ◌∙◌}
use qiran_firmware.Status.{Status, is_ok, ok}
use qiran_firmware.Services.{Services}
use qiran_firmware.Crc.{crc32}
use qiran_firmware.Ccsds.{Buffer, bytes}
use qiran_firmware.Ccsds.Packet.{bytes_same}
use qiran_firmware.Output.{Output, submit}
use qiran_firmware.Nand.{
  Ops, State, found_in, is_record, record_header, record_magic, record_count, record_class,
  header_bytes, transfer_stage, stage_source, next_offset, submit_record, send_record,
  service_header, transfer_service,
}
use qiran_firmware.Nand.Flash.{IsFlash}
use qiran_firmware.Nand.Records.{HoldsRecord, found_in_same, found_in-record_header}

module _ {W : Type 0} (ops : Ops W) (mem : W → ℕ → ℕ) (flash : IsFlash ops mem) where
  -- A transfer under way at a record that fits the staging buffer.
  pub record IsAt (st : State W) (type sequence len : ℕ) (src : Buffer) : Type 0 where
    pub attached : st.nand.ops ≡ some ops
    pub active : st.nand.transfer_active ≡ true
    pub used_word : st.nand.used < 2 ^ 32
    pub inside : st.nand.transfer_offset + header_bytes + len ≤ st.nand.used
    pub known : type < record_count
    pub numbered : sequence < 2 ^ 32
    pub some_data : 0 < len
    pub fits_stage : len ≤ transfer_stage
    pub of_bytes : (i : ℕ) → i < len → src i < 256
    pub held : HoldsRecord (mem st.world) st.nand.transfer_offset type sequence len src

  module _ (st : State W) (type sequence len : ℕ) (src : Buffer) (v : IsAt st type sequence len src)
      (array : Buffer) where
    abbrev header_read : Status × Buffer × W
    header_read = ops.read st.nand.transfer_offset array header_bytes st.world

    read_found :
        let f = found_in header_read.1 in
        (f.magic ≡ record_magic)
        × (f.type ≡ type)
        × (f.len ≡ len)
        × (f.crc ≡ crc32 (bytes len 0 src))
    read_found =
        let (_, filled, _) = flash.reads st.nand.transfer_offset array header_bytes st.world in
        rw
          (found_in_same header_read.1 (record_header type sequence src len v.held.header_array)
            (λ i lt. filled i lt ∙ v.held.header_held i lt))
          (found_in-record_header type sequence len src v.held.header_array (omega (arith, v.known))
            v.numbered (omega (arith, v.fits_stage)) v.of_bytes)

    accepted : is_record (found_in header_read.1) st.nand.transfer_offset st.nand.used ≡ true
    unfolding is_record
    accepted = ground (arith, read_found, v.known, v.some_data, v.inside, v.used_word)

    abbrev payload_read : Status × Buffer × W
    payload_read =
        ops.read (u32 (st.nand.transfer_offset + header_bytes)) st.nand.stage len header_read.2

    payload_filled : (i : ℕ) → i < len → payload_read.1 i ≡ src i
    payload_filled i lt =
        let at : u32 (st.nand.transfer_offset + header_bytes)
            ≡ st.nand.transfer_offset + header_bytes =
          omega (arith, v.inside, v.used_word) in
        let (_, filled, _) =
          flash.reads (u32 (st.nand.transfer_offset + header_bytes)) st.nand.stage len
            header_read.2 in
        let (_, _, same) = flash.reads st.nand.transfer_offset array header_bytes st.world in
        filled i lt
        ∙ same (u32 (st.nand.transfer_offset + header_bytes) + i)
        ∙ ap (λ k. mem st.world (k + i)) at
        ∙ v.held.payload_held i lt

    -- The state with the record in the staging buffer.
    abbrev staged : State W
    staged = record st {
      nand = record (st.nand) { stage = payload_read.1 };
      world = payload_read.2;
    }

    checksum_right : crc32 (bytes len 0 payload_read.1) ≡ crc32 (bytes len 0 src)
    checksum_right =
        ap crc32 (bytes_same len 0 payload_read.1 src (λ i p q. payload_filled i (omega arith)))

    sends :
        send_record ops (found_in header_read.1) (record st { world = header_read.2 })
        ≡ submit_record (found_in header_read.1) staged
    unfolding send_record
    sends =
        let (magic, type_is, len_is, crc_is) = read_found in
        let (r, _, _) =
          flash.reads (u32 (st.nand.transfer_offset + header_bytes)) st.nand.stage len
            header_read.2 in
        rw len_is (ground (arith, r, crc_is, checksum_right))

    serviced : transfer_service array st ≡ submit_record (found_in header_read.1) staged
    unfolding transfer_service service_header
    serviced =
        let (magic, type_is, len_is, crc_is) = read_found in
        let (r, _, _) = flash.reads st.nand.transfer_offset array header_bytes st.world in
        ground (
          arith, v.attached, v.active, v.inside, v.used_word, v.fits_stage, accepted, r, len_is,
          sends,
        )

    abbrev pub submission : Status × Output × Services
    submission = submit (record_class type) (some stage_source) len st.output st.services

    submits :
        is_ok submission.0 ≡ true
        → submit_record (found_in header_read.1) staged ≡ record staged {
          output = submission.1;
          services = submission.2;
          nand = record (staged.nand) {
            transfer_offset = next_offset len st.nand;
            transferred = u32 (st.nand.transferred + 1);
          };
        }
    unfolding submit_record next_offset
    submits e = let (magic, type_is, len_is, crc_is) = read_found in rw (type_is, len_is, e) refl

    -- The service of a transfer at a record: the staging buffer holds the record's data, a
    -- descriptor of its class and length is queued for it, and the transfer moves on to the next
    -- record. The queue takes the descriptor.
    pub transfer_service-submit :
        submission.0 ≡ ok
        → let st' = transfer_service array st in
          ((i : ℕ) → i < len → st'.nand.stage i ≡ src i)
          × (st'.output ≡ submission.1)
          × (st'.nand.transfer_offset ≡ st.nand.transfer_offset + header_bytes + len)
          × (st'.nand.transferred ≡ u32 (st.nand.transferred + 1))
          × (st'.nand.transfer_active ≡ true)
          × (st'.nand.used ≡ st.nand.used)
          × ((a : ℕ) → mem st'.world a ≡ mem st.world a)
          × (st'.nand.ops ≡ some ops)
    unfolding next_offset
    transfer_service-submit taken =
        let (_, _, same) = flash.reads st.nand.transfer_offset array header_bytes st.world in
        let (_, _, same') =
          flash.reads (u32 (st.nand.transfer_offset + header_bytes)) st.nand.stage len
            header_read.2 in
        rw (serviced, submits (ap is_ok taken))
          (
            payload_filled,
            refl,
            omega (arith, v.inside, v.used_word),
            refl,
            v.active,
            refl,
            λ a. same' a ∙ same a,
            v.attached,
          )
