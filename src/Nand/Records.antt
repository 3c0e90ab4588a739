-- ===== src/Nand/Records.antt =====
-- A record that is stored is held behind the earlier ones, and none of those changes.
use qiran_firmware.Base.{ℕ, refl, sym, ap, inl, inr, false, some, arith, ltb, leb, Bool-cases}
use qiran_firmware.Base.{u32, sub32, ◌+◌, ◌-◌, ◌^◌, ◌≤◌, ◌<◌, ◌≡◌, ◌∙◌, ◌⊎◌, ◌||◌, ◌==◌}
use qiran_firmware.Status.{Status, is_ok, ok, is_ok_sound}
use qiran_firmware.Services.{Services}
use qiran_firmware.Crc.{crc32}
use qiran_firmware.Ccsds.{Buffer, bytes, put_u32, get_u32}
use qiran_firmware.Ccsds.Bytes.{get_u32-put_u32, get_u32_near, get_u32_kept}
use qiran_firmware.Ccsds.Packet.{bytes-IsByte}
use qiran_firmware.Crc.Table.{crc32-lt}
use qiran_firmware.Nand.{
  Nand, Ops, found_in, record_header, record_magic, record_count, header_bytes, store, write_record,
  write_failed,
}
use qiran_firmware.Nand.Flash.{IsFlash}

put_u32_end : (b : Buffer) (at v : ℕ) → (put_u32 b at v).1 ≡ at + 4
unfolding put_u32
put_u32_end b at v = refl

-- Only the bytes of the header matter.
pub found_in_same :
    (g h : Buffer) → ((i : ℕ) → i < header_bytes → g i ≡ h i) → found_in g ≡ found_in h
unfolding found_in
found_in_same g h e = ground (
  arith,
  get_u32_near g h 0 (λ i p q. e i (omega arith)),
  get_u32_near g h 4 (λ i p q. e i (omega arith)),
  get_u32_near g h 12 (λ i p q. e i (omega arith)),
  get_u32_near g h 16 (λ i p q. e i (omega arith)),
)

-- The header with its fields at their places.
header_at :
    (type sequence len : ℕ) (src old : Buffer)
    → record_header type sequence src len old
      ≡ (put_u32
          (put_u32
            (put_u32 (put_u32 (put_u32 old 0 record_magic).0 4 type).0 8 sequence).0
            12
            len).0
          16
          (crc32 (bytes len 0 src))).0
unfolding record_header put_u32
header_at type sequence len src old = refl

fields_read :
    (type sequence len crc : ℕ) (old : Buffer)
    → type < 2 ^ 32
    → sequence < 2 ^ 32
    → len < 2 ^ 32
    → crc < 2 ^ 32
    → let h1 = (put_u32 old 0 record_magic).0 in
      let h2 = (put_u32 h1 4 type).0 in
      let h3 = (put_u32 h2 8 sequence).0 in
      let h4 = (put_u32 h3 12 len).0 in
      let h5 = (put_u32 h4 16 crc).0 in
      (get_u32 h5 0 ≡ record_magic)
      × (get_u32 h5 4 ≡ type)
      × (get_u32 h5 12 ≡ len)
      × (get_u32 h5 16 ≡ crc)
fields_read type sequence len crc old a b c d =
    let h1 = (put_u32 old 0 record_magic).0 in
    let h2 = (put_u32 h1 4 type).0 in
    let h3 = (put_u32 h2 8 sequence).0 in
    let h4 = (put_u32 h3 12 len).0 in
    (
      get_u32_kept h4 16 0 crc d (omega arith)
          ∙ get_u32_kept h3 12 0 len c (omega arith)
          ∙ get_u32_kept h2 8 0 sequence b (omega arith)
          ∙ get_u32_kept h1 4 0 type a (omega arith)
          ∙ get_u32-put_u32 old 0 record_magic (omega arith),
      get_u32_kept h4 16 4 crc d (omega arith)
          ∙ get_u32_kept h3 12 4 len c (omega arith)
          ∙ get_u32_kept h2 8 4 sequence b (omega arith)
          ∙ get_u32-put_u32 h1 4 type a,
      get_u32_kept h4 16 12 crc d (omega arith) ∙ get_u32-put_u32 h3 12 len c,
      get_u32-put_u32 h4 16 crc d,
    )

-- A header is read back as it was written.
pub found_in-record_header :
    (type sequence len : ℕ) (src old : Buffer)
    → type < 2 ^ 32
    → sequence < 2 ^ 32
    → len < 2 ^ 32
    → ((i : ℕ) → i < len → src i < 256)
    → let f = found_in (record_header type sequence src len old) in
      (f.magic ≡ record_magic) × (f.type ≡ type) × (f.len ≡ len) × (f.crc ≡ crc32 (bytes len 0 src))
unfolding found_in
found_in-record_header type sequence len src old a b c d =
    rw (header_at type sequence len src old) (
      fields_read type sequence len (crc32 (bytes len 0 src)) old a b c
        (crc32-lt (bytes len 0 src) (bytes-IsByte len 0 src (λ i p q. d i (omega arith)))))

-- Record `type`, `sequence`, with the first `len` bytes of `src`, stands in the memory at `at`.
pub record HoldsRecord (mem : ℕ → ℕ) (at type sequence len : ℕ) (src : Buffer) : Type 0 where
  pub header_array : Buffer
  pub header_held :
      (i : ℕ) → i < header_bytes → mem (at + i) ≡ record_header type sequence src len header_array i
  pub payload_held : (i : ℕ) → i < len → mem (at + header_bytes + i) ≡ src i

module _ {W : Type 0} (ops : Ops W) where
  -- The two writes of `write_record`.
  abbrev header_write : ℕ → Buffer → ℕ → Buffer → Nand W → W → Status × W
  header_write type src len array n w =
      ops.write n.used (record_header type n.sequence src len array) header_bytes w

  abbrev payload_write : ℕ → Buffer → ℕ → Buffer → Nand W → W → Status × W
  payload_write type src len array n w =
      ops.write (u32 (n.used + header_bytes)) src len (header_write type src len array n w).1

  -- The outcome of `write_record` when it succeeds.
  write_record_ok :
      (type : ℕ) (src : Buffer) (len : ℕ) (array : Buffer) (n : Nand W) (w : W) (s : Services)
      → (write_record ops type src len array n w s).0 ≡ ok
      → let (r, n', w', s') = write_record ops type src len array n w s in
        ((header_write type src len array n w).0 ≡ ok)
        × ((payload_write type src len array n w).0 ≡ ok)
        × (w' ≡ (payload_write type src len array n w).1)
        × (n'.used ≡ u32 (n.used + u32 (header_bytes + len)))
        × (n'.records ≡ u32 (n.records + 1))
        × (n'.ops ≡ n.ops)
  unfolding write_record
  write_record_ok type src len array n w s h =
      elim (Bool-cases (is_ok (header_write type src len array n w).0)) [
        | inr bad ↦ absurd (ground (arith, h, bad))
        | inl good ↦ elim (Bool-cases (is_ok (payload_write type src len array n w).0)) [
          | inr bad ↦ absurd (ground (arith, h, good, bad))
          | inl fine ↦ (
            is_ok_sound _ good,
            is_ok_sound _ fine,
            ground (arith, good, fine),
            ground (arith, good, fine),
            ground (arith, good, fine),
            rw (good, fine) refl,
          )
        ]
      ]

  store_writes :
      (type : ℕ) (src : Buffer) (len : ℕ) (array : Buffer) (n : Nand W) (w : W) (s : Services)
      → n.ops ≡ some ops
      → (leb record_count type || (len == 0)) ≡ false
      → n.transfer_active ≡ false
      → ltb (sub32 ops.capacity_bytes n.used) (u32 (header_bytes + len)) ≡ false
      → store type src len array n w s ≡ write_record ops type src len array n w s
  unfolding store
  store_writes type src len array n w s e fine idle room = ground (arith, e, fine, idle, room)

  -- `store` has succeeded only where its guards let it write.
  store_ok :
      (type : ℕ) (src : Buffer) (len : ℕ) (array : Buffer) (n : Nand W) (w : W) (s : Services)
      → n.ops ≡ some ops
      → (store type src len array n w s).0 ≡ ok
      → (type < record_count)
        × (0 < len)
        × (u32 (header_bytes + len) ≤ sub32 ops.capacity_bytes n.used)
        × (store type src len array n w s ≡ write_record ops type src len array n w s)
  unfolding store
  store_ok type src len array n w s e h = elim (Bool-cases (leb record_count type || (len == 0))) [
    | inl bad ↦ absurd (ground (arith, h, bad))
    | inr fine ↦ elim (Bool-cases n.transfer_active) [
      | inl bad ↦ absurd (ground (arith, h, e, fine, bad))
      | inr idle ↦
          elim (Bool-cases (ltb (sub32 ops.capacity_bytes n.used) (u32 (header_bytes + len)))) [
            | inl bad ↦ absurd (ground (arith, h, e, fine, idle, bad))
            | inr room ↦ (
              ground (arith, fine),
              ground (arith, fine),
              ground (arith, room),
              ground (arith, e, fine, idle, room),
            )
          ]
    ]
  ]

  module _ (mem : W → ℕ → ℕ) (flash : IsFlash ops mem) where
    -- A record is written behind what is used: it is held there, everything below is as before.
    writes_held :
        (type : ℕ) (src : Buffer) (len : ℕ) (array : Buffer) (n : Nand W) (w : W)
        → n.used + header_bytes + len < 2 ^ 32
        → (header_write type src len array n w).0 ≡ ok
        → (payload_write type src len array n w).0 ≡ ok
        → let w' = (payload_write type src len array n w).1 in
          HoldsRecord (mem w') n.used type n.sequence len src
          × ((a : ℕ) → a < n.used → mem w' a ≡ mem w a)
    writes_held type src len array n w fits e f =
        let at : u32 (n.used + header_bytes) ≡ n.used + header_bytes = omega arith in
        let w1 = (header_write type src len array n w).1 in
        let head =
          flash.writes n.used (record_header type n.sequence src len array) header_bytes w e in
        let body = flash.writes (u32 (n.used + header_bytes)) src len w1 f in
        (
          record {
            header_array = array;
            header_held = λ i lt.
                body (n.used + i)
                ∙ ground (arith, at, lt)
                ∙ head (n.used + i)
                ∙ ground
                    (arith, lt, ap (record_header type n.sequence src len array) (from i n.used));
            payload_held = λ i lt.
                body (n.used + header_bytes + i)
                ∙ ground (arith, at, lt, ap src (from i (n.used + header_bytes)));
          },
          λ a lt. body a ∙ ground (arith, at, lt) ∙ head a ∙ ground (arith, lt),
        )
      where
        from : (i k : ℕ) → k + i - k ≡ i
        from i k = omega arith

    -- A store that succeeds leaves its record in the memory behind the earlier ones, which are as
    -- before, and what is used grows by the record and stays inside the device. The device works
    -- as a memory, its capacity and the record's length fit 32 bits, and what is used lies inside
    -- the capacity.
    pub store-HoldsRecord :
        (type : ℕ) (src : Buffer) (len : ℕ) (array : Buffer) (n : Nand W) (w : W) (s : Services)
        → n.ops ≡ some ops
        → ops.capacity_bytes < 2 ^ 32
        → n.used ≤ ops.capacity_bytes
        → header_bytes + len < 2 ^ 32
        → (store type src len array n w s).0 ≡ ok
        → let (r, n', w', s') = store type src len array n w s in
          HoldsRecord (mem w') n.used type n.sequence len src
          × ((a : ℕ) → a < n.used → mem w' a ≡ mem w a)
          × (n'.used ≡ n.used + header_bytes + len)
          × (n'.used ≤ ops.capacity_bytes)
          × (type < record_count)
          × (0 < len)
          × (n'.ops ≡ some ops)
    store-HoldsRecord type src len array n w s e cap inside fits h =
        let (known, some_data, room, same) = store_ok type src len array n w s e h in
        let done = sym (ap (λ (r : Status × Nand W × W × Services). r.0) same) ∙ h in
        let (e1, e2, world, end, _, device) = write_record_ok type src len array n w s done in
        let enough : n.used + header_bytes + len ≤ ops.capacity_bytes = omega arith in
        let (held, kept) = writes_held type src len array n w (omega (arith, enough)) e1 e2 in
        let grown : u32 (n.used + u32 (header_bytes + len)) ≡ n.used + header_bytes + len =
          omega arith in
        rw same (
          rw world held,
          rw world kept,
          end ∙ grown,
          omega (arith, end, grown),
          known,
          some_data,
          device ∙ e,
        )

  write_record_failed :
      (type : ℕ) (src : Buffer) (len : ℕ) (array : Buffer) (n : Nand W) (w : W) (s : Services)
      → is_ok (write_record ops type src len array n w s).0 ≡ false
      → (write_record ops type src len array n w s).1
        ≡ record n { write_failures = u32 (n.write_failures + 1) }
  unfolding write_record write_failed
  write_record_failed type src len array n w s h =
      elim (Bool-cases (is_ok (header_write type src len array n w).0)) [
        | inr bad ↦ rw bad refl
        | inl good ↦ elim (Bool-cases (is_ok (payload_write type src len array n w).0)) [
          | inr bad ↦ rw (good, bad) refl
          | inl fine ↦ absurd (ground (arith, h, good, fine))
        ]
      ]

  store_failed_cases :
      (type : ℕ) (src : Buffer) (len : ℕ) (array : Buffer) (n : Nand W) (w : W) (s : Services)
      → n.ops ≡ some ops
      → is_ok (store type src len array n w s).0 ≡ false
      → ((store type src len array n w s).1 ≡ n)
        ⊎ ((store type src len array n w s).1
            ≡ record n { write_failures = u32 (n.write_failures + 1) })
  unfolding store
  store_failed_cases type src len array n w s e h =
      elim (Bool-cases (leb record_count type || (len == 0))) [
        | inl bad ↦ inl (ground (arith, bad))
        | inr fine ↦ elim (Bool-cases n.transfer_active) [
          | inl bad ↦ inl (ground (arith, e, fine, bad))
          | inr idle ↦
              elim (Bool-cases (ltb (sub32 ops.capacity_bytes n.used) (u32 (header_bytes + len)))) [
                | inl bad ↦ inl (ground (arith, e, fine, idle, bad))
                | inr room ↦
                    let same : store type src len array n w s
                        ≡ write_record ops type src len array n w s =
                      store_writes type src len array n w s e fine idle room in
                    inr (
                      ap (λ (r : Status × Nand W × W × Services). r.1) same
                      ∙ write_record_failed type src len array n w s
                          (ap (λ (r : Status × Nand W × W × Services). is_ok r.0) (sym same) ∙ h))
              ]
        ]
      ]

  -- A store that fails counts no record and moves no end, so that the next one writes over what it
  -- left. The store has a device.
  pub store_failed :
      (type : ℕ) (src : Buffer) (len : ℕ) (array : Buffer) (n : Nand W) (w : W) (s : Services)
      → n.ops ≡ some ops
      → is_ok (store type src len array n w s).0 ≡ false
      → let (r, n', w', s') = store type src len array n w s in
        (n'.used ≡ n.used)
        × (n'.records ≡ n.records)
        × (n'.sequence ≡ n.sequence)
        × (n'.transferred ≡ n.transferred)
        × (n'.transfer_offset ≡ n.transfer_offset)
  store_failed type src len array n w s e h =
      elim (store_failed_cases type src len array n w s e h) [
        | inl same ↦ rw same (refl, refl, refl, refl, refl)
        | inr same ↦ rw same (refl, refl, refl, refl, refl)
      ]
