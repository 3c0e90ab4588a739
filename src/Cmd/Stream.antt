-- ===== src/Cmd/Stream.antt =====
-- The assembly of frames stays inside its array, whatever bytes come.
use qiran_firmware.Base.{ℕ, zero, suc, refl, sym, ap, inl, inr, not, some, List, [], arith}
use qiran_firmware.Base.{ℕ_discrete, Bool-cases, length, length-append, if_holds}
use qiran_firmware.Base.{option_holds, ◌+◌, ◌-◌, ◌*◌, ◌≤◌, ◌<◌, ◌≡◌, ◌∙◌, ◌&&◌, ◌∷◌, ◌++◌}
use qiran_firmware.Base.{◌==◌}
use qiran_firmware.Ccsds.{Buffer}
use qiran_firmware.Ring
use qiran_firmware.Ring.{Ring}
use qiran_firmware.Ring.Refine.{read-HasRead}
use qiran_firmware.Ring.Valid.{IsValid, contents}
use qiran_firmware.Cmd.{
  State, Cmd, find_start, resync, end_frame, take_byte, take_bytes, assemble, intact, packet_id,
  frame_bytes, chunk_bytes,
}

nil_of_length : (xs : List ℕ) → length xs ≡ 0 → xs ≡ []
nil_of_length [] e = refl
nil_of_length (x ∷ xs) e = absurd (omega (arith, e))

-- A start marker is found at or behind the place where the search begins.
find_start_from : (n i : ℕ) (asm : Buffer) (k : ℕ) → find_start n i asm ≡ some k → i ≤ k
unfolding find_start
find_start_from zero i asm k e = absurd (cc e)
find_start_from (suc n) i asm k e = elim (Bool-cases (asm i == packet_id)) [
  | inl here ↦ ground (arith, here, e)
  | inr on ↦ ground (arith, find_start_from n (i + 1) asm k (ground (arith, on, e)))
]

module _ {W : Type 0} where
  -- There is room for one byte more.
  abbrev pub HasRoom : State W → Type 0
  HasRoom st = st.cmd.asm_len < frame_bytes

  resync_room : (c : Cmd W) → c.asm_len ≤ frame_bytes → (resync c).asm_len < frame_bytes
  unfolding resync
  resync_room c h =
      option_holds (λ (d : Cmd W). d.asm_len < frame_bytes) (find_start (c.asm_len - 1) 1 c.asm)
        (λ _. omega arith) (λ i e. omega (arith, find_start_from (c.asm_len - 1) 1 c.asm i e))

  end_frame_room :
      (array : Buffer) (stage : ℕ) (st : State W)
      → st.cmd.asm_len ≤ frame_bytes
      → HasRoom (end_frame array stage st)
  unfolding end_frame
  end_frame_room array stage st h =
      if_holds HasRoom (intact st.cmd.asm) (λ _. omega arith) (λ _. resync_room st.cmd h)

  take_byte_room :
      (array : Buffer) (stage byte : ℕ) (st : State W)
      → HasRoom st
      → HasRoom (take_byte array stage byte st)
  unfolding take_byte
  take_byte_room array stage byte st h =
      if_holds HasRoom ((st.cmd.asm_len == 0) && not (byte == packet_id)) (λ _. h)
        (λ _.
          if_holds HasRoom (st.cmd.asm_len + 1 == frame_bytes)
            (λ _. end_frame_room array stage _ (omega arith)) (λ more. ground (arith, more, h)))

  -- Any bytes, at any stage of the mission, leave room for the next one in the array that frames
  -- are assembled in, so none is stored behind its 13 bytes.
  pub take_bytes-HasRoom :
      (array : Buffer) (stage : ℕ) (bytes : List ℕ) (st : State W)
      → HasRoom st
      → HasRoom (take_bytes array stage bytes st)
  unfolding take_bytes
  take_bytes-HasRoom array stage [] st h = h
  take_bytes-HasRoom array stage (b ∷ bs) st h =
      take_bytes-HasRoom array stage bs (take_byte array stage b st)
        (take_byte_room array stage b st h)

  take_bytes-append :
      (array : Buffer) (stage : ℕ) (xs ys : List ℕ) (st : State W)
      → take_bytes array stage (xs ++ ys) st
        ≡ take_bytes array stage ys (take_bytes array stage xs st)
  unfolding take_bytes
  take_bytes-append array stage [] ys st = refl
  take_bytes-append array stage (x ∷ xs) ys st =
      take_bytes-append array stage xs ys (take_byte array stage x st)

  -- The reading of the ring ends, with one round more than it holds chunks of 64 bytes, and what it
  -- comes to is what its bytes come to in order.
  pub assemble-take_bytes :
      (fuel : ℕ) (array : Buffer) (stage : ℕ) (r : Ring) (st : State W)
      → IsValid r
      → length (contents r) < fuel * chunk_bytes
      → (r' : Ring) × (assemble fuel array stage r st
          ≡ some (r', take_bytes array stage (contents r) st))
        × (contents r' ≡ [])
        × IsValid r'
  unfolding assemble take_bytes
  assemble-take_bytes zero array stage r st v h = absurd (omega arith)
  assemble-take_bytes (suc fuel) array stage r st v h =
      let chunk = (Ring.read r chunk_bytes).0 in
      let r1 = (Ring.read r chunk_bytes).1 in
      let got = read-HasRead chunk_bytes v in
      let st1 = take_bytes array stage chunk st in
      let size : length chunk + length (contents r1) ≡ length (contents r) =
        sym (length-append chunk (contents r1)) ∙ ap length got.in_order in
      let whole : take_bytes array stage (contents r1) st1
          ≡ take_bytes array stage (contents r) st =
        sym (take_bytes-append array stage chunk (contents r1) st)
        ∙ ap (λ (l : List ℕ). take_bytes array stage l st) got.in_order in
      elim (ℕ_discrete (length chunk) chunk_bytes) [
        | yes full ↦
            let (r', e, empty, valid) =
              assemble-take_bytes fuel array stage r1 st1 got.valid (omega (arith, size)) in
            (r', ground (arith, full) ∙ e ∙ ap (λ (x : State W). some (r', x)) whole, empty, valid)
        | no short ↦
            let none_left : contents r1 ≡ [] =
              nil_of_length (contents r1) (omega (arith, got.as_many, size)) in
            (
              r1,
              ground (arith, short)
                  ∙ ap (λ (x : State W). some (r1, x))
                      (sym (ap (λ (l : List ℕ). take_bytes array stage l st1) none_left) ∙ whole),
              none_left,
              got.valid,
            )
      ]
