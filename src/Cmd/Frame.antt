-- ===== src/Cmd/Frame.antt =====
-- A command frame that is built is accepted as it was built.
use qiran_firmware.Base.{ℕ, bit_or, refl, ap, ap₂, inl, true, some, arith, u8, u16, shl}
use qiran_firmware.Base.{update, ◌^◌, ◌<◌, ◌≡◌, ◌∙◌}
use qiran_firmware.Status.{ok}
use qiran_firmware.Crc.{crc32}
use qiran_firmware.Crc.Table.{crc32-lt}
use qiran_firmware.Ccsds.{Buffer, bytes, put_u16, put_u32, get_u16, get_u32}
use qiran_firmware.Ccsds.Bytes.{
  get_u32-put_u32, put_u32_bytes, get_u32_near, get_u16-put_u16, put_u16_bytes, put_u32-lt,
  put_u16-lt,
}
use qiran_firmware.Ccsds.Packet.{bytes_same, bytes-IsByte}
use qiran_firmware.Cmd.{build, build_fields, put_u8, packet_id, version, frame_bytes, intact}

module _ (id parameter sequence : ℕ) (old : Buffer) where
  -- The buffer after each field.
  abbrev identified : Buffer
  identified = update (update (update old 0 (u8 packet_id)) 1 (u8 version)) 2 (u8 (u8 id))

  abbrev parametrised : Buffer
  parametrised = (put_u32 identified 3 parameter).0

  abbrev numbered : Buffer
  numbered = (put_u16 parametrised 7 sequence).0

  abbrev checksum : ℕ
  checksum = crc32 (bytes 9 0 numbered)

  abbrev pub frame : Buffer
  frame = (put_u32 numbered 9 checksum).0

  pub build-frame : build id parameter sequence old frame_bytes ≡ (ok, frame, some frame_bytes)
  unfolding build build_fields put_u8 put_u32 put_u16
  build-frame = refl

  -- What the fields of a frame are.
  pub record IsFrame (b : Buffer) : Type 0 where
    pub marked : b 0 ≡ packet_id
    pub versioned : b 1 ≡ version
    pub id_held : b 2 ≡ id
    pub parameter_held : get_u32 b 3 ≡ parameter
    pub sequence_held : get_u16 b 7 ≡ sequence
    pub is_intact : intact b ≡ true

  module _ (fits_id : id < 256) (fits_parameter : parameter < 2 ^ 32)
      (fits_sequence : sequence < 2 ^ 16) where
    identified-lt : (i : ℕ) → i < 3 → identified i < 256
    identified-lt i lt = ground arith

    numbered-lt : (i : ℕ) → i < 9 → numbered i < 256
    numbered-lt i lt =
        put_u16-lt parametrised 7 sequence i
          (λ p. put_u32-lt identified 3 parameter i (identified-lt i) p) lt

    checksum-lt : checksum < 2 ^ 32
    checksum-lt =
        crc32-lt (bytes 9 0 numbered) (bytes-IsByte 9 0 numbered (λ i p q. numbered-lt i q))

    -- The bytes in front of the checksum are those before it was stored.
    frame_kept : (i : ℕ) → i < 9 → frame i ≡ numbered i
    frame_kept i lt =
        let (_, _, _, _, kept) = put_u32_bytes numbered 9 checksum checksum-lt in kept i (inl lt)

    numbered_kept : (i : ℕ) → i < 7 → numbered i ≡ parametrised i
    numbered_kept i lt =
        let (_, _, kept) = put_u16_bytes parametrised 7 sequence fits_sequence in kept i (inl lt)

    parametrised_kept : (i : ℕ) → i < 3 → parametrised i ≡ identified i
    parametrised_kept i lt =
        let (_, _, _, _, kept) = put_u32_bytes identified 3 parameter fits_parameter in
        kept i (inl lt)

    head_kept : (i : ℕ) → i < 3 → frame i ≡ identified i
    head_kept i lt =
        frame_kept i (omega arith) ∙ numbered_kept i (omega arith) ∙ parametrised_kept i lt

    parameter_kept : get_u32 frame 3 ≡ parameter
    parameter_kept =
        get_u32_near frame parametrised 3
          (λ i p q. frame_kept i (omega arith) ∙ numbered_kept i (omega arith))
        ∙ get_u32-put_u32 identified 3 parameter fits_parameter

    sequence_kept : get_u16 frame 7 ≡ sequence
    unfolding get_u16
    sequence_kept =
        ap₂ (λ (a b : ℕ). u16 (bit_or (u16 (shl a 8)) b)) (frame_kept 7 (omega arith))
          (frame_kept 8 (omega arith))
        ∙ get_u16-put_u16 parametrised 7 sequence fits_sequence

    frame-intact : intact frame ≡ true
    unfolding intact
    frame-intact =
        let e = get_u32-put_u32 numbered 9 checksum checksum-lt in
        let f : crc32 (bytes 9 0 frame) ≡ checksum =
          ap crc32 (bytes_same 9 0 frame numbered (λ i p q. frame_kept i q)) in
        ground (arith, e, f)

    pub frame-IsFrame : IsFrame frame
    frame-IsFrame = record {
      marked = head_kept 0 (omega arith);
      versioned = head_kept 1 (omega arith);
      id_held = head_kept 2 (omega arith) ∙ omega (arith, fits_id);
      parameter_held = parameter_kept;
      sequence_held = sequence_kept;
      is_intact = frame-intact;
    }
