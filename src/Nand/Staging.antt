-- ===== src/Nand/Staging.antt =====
-- One staging buffer for all records: a descriptor that still waits sees the next record's data.
use qiran_firmware.Base.{ℕ, refl, ap, true, false, update, update_self, update_ne, ◌<◌, ◌≡◌}
use qiran_firmware.Base.{◌∙◌}
use qiran_firmware.Status.{ok}
use qiran_firmware.Ccsds.{Buffer}
use qiran_firmware.Output.{Output, Slot}
use qiran_firmware.Output.Queue.{submit_slot}
use qiran_firmware.Nand.{Ops, State, record_class, stage_source, transfer_service}
use qiran_firmware.Nand.Flash.{IsFlash}
use qiran_firmware.Nand.Transfer.{IsAt, submission, transfer_service-submit}

abbrev pub descriptor : ℕ → ℕ → Slot
descriptor type len = record {
  source = stage_source;
  len = len;
  cls = record_class type;
  used = true;
}

kept_slot :
    (f : ℕ → Slot) (i k : ℕ) (v d : Slot)
    → (f i) ≡ d
    → d.used ≡ true
    → (f k).used ≡ false
    → update f k v i ≡ d
kept_slot f i k v d e used free =
    update_ne f k i v (λ same. cc (e, used, free, ap (λ j. (f j).used) same)) ∙ e

module _ {W : Type 0} (ops : Ops W) (mem : W → ℕ → ℕ) (flash : IsFlash ops mem) where
  -- Two records sent in services that follow one another, with nothing taken from the queue
  -- between: the descriptor of the first still waits, with its class and length, and names the
  -- staging buffer, which now holds the data of the second. The queue takes both descriptors.
  pub transfer_service_overwrites :
      (st : State W) (type sequence len type' sequence' len' : ℕ) (src src' array array' : Buffer)
      (v : IsAt ops mem flash st type sequence len src)
      → (submission ops mem flash st type sequence len src v array).0 ≡ ok
      → let st1 = transfer_service array st in
        (v' : IsAt ops mem flash st1 type' sequence' len' src')
        → (submission ops mem flash st1 type' sequence' len' src' v' array').0 ≡ ok
        → let st2 = transfer_service array' st1 in
          (i : ℕ) × (st2.output.slot i ≡ descriptor type len)
          × ((j : ℕ) → j < len' → st2.nand.stage j ≡ src' j)
  transfer_service_overwrites st type sequence len type' sequence' len' src src' array array' v h v'
        h' =
      let st1 = transfer_service array st in
      let (_, queued, _, _, _, _, _, _) =
        transfer_service-submit ops mem flash st type sequence len src v array h in
      let (staged', queued', _, _, _, _, _, _) =
        transfer_service-submit ops mem flash st1 type' sequence' len' src' v' array' h' in
      let (i, _, first) =
        submit_slot (record_class type) stage_source len st.output st.services h in
      let (k, free, second) =
        submit_slot (record_class type') stage_source len' st1.output st1.services h' in
      (
        i,
        ap (λ (o : Output). o.slot i) queued'
            ∙ ap (λ (f : ℕ → Slot). f i) second
            ∙ kept_slot st1.output.slot i k (descriptor type' len') (descriptor type len)
                (ap (λ (o : Output). o.slot i) queued
                  ∙ ap (λ (f : ℕ → Slot). f i) first
                  ∙ update_self st.output.slot i (descriptor type len))
                refl free,
        staged',
      )
