-- ===== src/Nand/Roundtrip.antt =====
-- What is stored is what is sent.
use qiran_firmware.Base.{ℕ, refl, sym, true, some, arith, ◌^◌, ◌≤◌, ◌<◌, ◌≡◌, ◌∙◌}
use qiran_firmware.Status.{ok}
use qiran_firmware.Services.{Services}
use qiran_firmware.Ccsds.{Buffer}
use qiran_firmware.Output.{Output, submit}
use qiran_firmware.Nand.{
  Nand, Ops, State, transfer_stage, stage_source, record_class, store, transfer_service,
}
use qiran_firmware.Nand.Flash.{IsFlash}
use qiran_firmware.Nand.Records.{store-HoldsRecord}
use qiran_firmware.Nand.Transfer.{IsAt, transfer_service-submit}

module _ {W : Type 0} (ops : Ops W) (mem : W → ℕ → ℕ) (flash : IsFlash ops mem) where
  -- The device and the record of a store that succeeds.
  pub record CanStore (n : Nand W) (src : Buffer) (len : ℕ) : Type 0 where
    pub attached : n.ops ≡ some ops
    pub capacity_word : ops.capacity_bytes < 2 ^ 32
    pub inside : n.used ≤ ops.capacity_bytes
    pub numbered : n.sequence < 2 ^ 32
    pub fits_stage : len ≤ transfer_stage
    pub of_bytes : (i : ℕ) → i < len → src i < 256

  -- The state in which a transfer has come to the end of what was used before the store.
  abbrev pub at_record : ℕ → Nand W → W → Output → Services → State W
  at_record at n w o s = record {
    nand = record n { transfer_active = true; transfer_offset = at };
    output = o;
    world = w;
    services = s;
  }

  -- A record that is stored with success, of up to 512 bytes, is sent when a transfer comes to
  -- it: its data stand in the staging buffer, a descriptor of its class and length is submitted
  -- for them, and the transfer has reached the end of what is used. The device works as a memory
  -- and its capacity fits 32 bits; the queue takes the descriptor.
  pub transfer_service-store :
      (type : ℕ) (src : Buffer) (len : ℕ) (array array' : Buffer) (n : Nand W) (w : W)
      (s s' : Services) (o : Output)
      → CanStore n src len
      → (store type src len array n w s).0 ≡ ok
      → (submit (record_class type) (some stage_source) len o s').0 ≡ ok
      → let (r, stored, w', s1) = store type src len array n w s in
        let st = transfer_service array' (at_record n.used stored w' o s') in
        ((i : ℕ) → i < len → st.nand.stage i ≡ src i)
        × (st.output ≡ (submit (record_class type) (some stage_source) len o s').1)
        × (st.nand.transfer_offset ≡ st.nand.used)
  transfer_service-store type src len array array' n w s s' o v done taken =
      let (r, stored, w', s1) = store type src len array n w s in
      let (held, kept, end, most, known, some_data, device) =
        store-HoldsRecord ops mem flash type src len array n w s v.attached v.capacity_word v.inside
          (omega (arith, v.fits_stage)) done in
      let at : IsAt ops mem flash (at_record n.used stored w' o s') type n.sequence len src =
        record {
          attached = device;
          active = refl;
          used_word = omega (arith, most, v.capacity_word);
          inside = omega (arith, end);
          known = known;
          numbered = v.numbered;
          some_data = some_data;
          fits_stage = v.fits_stage;
          of_bytes = v.of_bytes;
          held = held;
        } in
      let (staged, queued, next, _, _, same, _, _) =
        transfer_service-submit ops mem flash (at_record n.used stored w' o s') type n.sequence len
          src at array' taken in
      (staged, queued, next ∙ sym end ∙ sym same)
