-- ===== src/Ccsds/Packet.antt =====
-- A packet that is built is received: its header, its data and its checksum.
use qiran_firmware.Base.{ℕ, zero, suc, refl, sym, ap, ap₂, subst, inl, some, arith, ltb, leb}
use qiran_firmware.Base.{All, update, ◌+◌, ◌-◌, ◌^◌, ◌≤◌, ◌<◌, ◌≡◌, ◌∙◌, ◌&&◌, ◌∷◌, ◌++◌}
use qiran_firmware.Base.{if◌then◌else◌}
use qiran_firmware.Status.{ok}
use qiran_firmware.Crc.{crc32}
use qiran_firmware.Crc.Table.{IsByte, crc32-lt}
use qiran_firmware.Ccsds.{
  Buffer, Header, Ccsds, get_u16, get_u32, bytes, copy_app, packet_header, packet_body,
  build_header, build, header_of, class_count,
}
use qiran_firmware.Ccsds.Bytes.{put_u32_bytes, get_u32-put_u32}
use qiran_firmware.Ccsds.Framing.{FitsHeader, build_header_words, header_of_words, get_u16_same}

copy_app_bytes :
    (n i : ℕ) (app buf : Buffer) (a : ℕ)
    → copy_app n i app buf a ≡ (if leb (6 + i) a && ltb a (6 + i + n) then app (a - 6) else buf a)
unfolding copy_app
copy_app_bytes zero i app buf a = ground arith
copy_app_bytes (suc n) i app buf a =
    ground (arith, copy_app_bytes n (i + 1) app (update buf (6 + i) (app i)) a, index)
  where
    index : a ≡ 6 + i → app (a - 6) ≡ app i
    index e = ap app (omega arith)

pub bytes_same :
    (n at : ℕ) (b c : Buffer)
    → ((i : ℕ) → at ≤ i → i < at + n → b i ≡ c i)
    → bytes n at b ≡ bytes n at c
unfolding bytes
bytes_same zero at b c h = refl
bytes_same (suc n) at b c h =
    ap₂ (λ x xs. x ∷ xs) (h at (omega arith) (omega arith))
      (bytes_same n (at + 1) b c (λ i p q. h i (omega arith) (omega arith)))

pub bytes-IsByte :
    (n at : ℕ) (b : Buffer)
    → ((i : ℕ) → at ≤ i → i < at + n → b i < 256)
    → All IsByte (bytes n at b)
unfolding bytes
bytes-IsByte zero at b h = _
bytes-IsByte (suc n) at b h = (
  h at (omega arith) (omega arith),
  bytes-IsByte n (at + 1) b (λ i p q. h i (omega arith) (omega arith)),
)

-- The bytes on both sides of one of them.
pub bytes_split :
    (n at p : ℕ) (b : Buffer)
    → p < n
    → bytes n at b ≡ bytes p at b ++ (b (at + p) ∷ bytes (n - p - 1) (at + p + 1) b)
unfolding bytes
bytes_split zero at p b h = absurd (omega arith)
bytes_split (suc n) at zero b h = ground arith
bytes_split (suc n) at (suc p) b h = ground (arith, bytes_split n (at + 1) p b (omega arith))

pub get_u32_same :
    (b c : Buffer) (at : ℕ) → ((i : ℕ) → at ≤ i → b i ≡ c i) → get_u32 b at ≡ get_u32 c at
unfolding get_u32
get_u32_same b c at h = ground (
  arith,
  h at (omega arith),
  h (at + 1) (omega arith),
  h (at + 2) (omega arith),
  h (at + 3) (omega arith),
)

pub header_of_same : (b c : Buffer) → ((i : ℕ) → i < 6 → b i ≡ c i) → header_of b ≡ header_of c
unfolding header_of get_u16
header_of_same b c h = ground (
  arith,
  h 0 (omega arith),
  h 1 (omega arith),
  h 2 (omega arith),
  h 3 (omega arith),
  h 4 (omega arith),
  h 5 (omega arith),
)

-- The parts of a packet's body: what stands before it is kept, then the data, then the checksum
-- over the data as it stands in the packet.
pub record HasBody (app : Buffer) (n : ℕ) (buf b : Buffer) : Type 0 where
  pub head_kept : (i : ℕ) → i < 6 → b i ≡ buf i
  pub data_copied : (i : ℕ) → i < n → b (6 + i) ≡ app i
  pub checksum_stored : get_u32 b (6 + n) ≡ crc32 (bytes n 6 b)

pub packet_body-HasBody :
    (app : Buffer) (n : ℕ) (buf : Buffer)
    → ((i : ℕ) → i < n → app i < 256)
    → HasBody app n buf (packet_body app n buf)
unfolding packet_body
packet_body-HasBody app n buf small =
    let copied = copy_app n 0 app buf in
    let crc = crc32 (bytes n 6 copied) in
    let b = packet_body app n buf in
    let taken : (i : ℕ) → i < n → copied (6 + i) ≡ app i =
      λ i p. ground (arith, copy_app_bytes n 0 app buf (6 + i), p, ap app (shift i)) in
    let byte : (i : ℕ) → 6 ≤ i → i < 6 + n → copied i < 256 =
      λ i p q. ground (arith, copy_app_bytes n 0 app buf i, p, q, small (i - 6)) in
    let word = crc32-lt (bytes n 6 copied) (bytes-IsByte n 6 copied byte) in
    let (_, _, _, _, keep) = put_u32_bytes copied (6 + n) crc word in
    record {
      head_kept =
          λ i p. keep i (inl (omega arith)) ∙ ground (arith, copy_app_bytes n 0 app buf i, p);
      data_copied = λ i p. keep (6 + i) (inl (omega arith)) ∙ taken i p;
      checksum_stored =
          get_u32-put_u32 copied (6 + n) crc word
          ∙ ap crc32 (bytes_same n 6 copied b (λ i p q. sym (keep i (inl (omega arith)))));
    }
  where
    shift : (i : ℕ) → 6 + i - 6 ≡ i
    shift i = omega arith

-- The header of a packet of a class fits its fields.
abbrev pub CanBuild : {W : Type 0} → ℕ → ℕ → Ccsds W → Type 0
CanBuild cls n c =
    (cls < class_count) × (n + 4 ≤ 65536) × (c.apid cls < 2 ^ 11) × (c.tx_count cls < 2 ^ 14)

packet_header-FitsHeader :
    {W : Type 0} (cls n : ℕ) (c : Ccsds W) → CanBuild cls n c → FitsHeader (packet_header cls n c)
unfolding packet_header
packet_header-FitsHeader cls n c can = ground (arith, can)

-- A packet as `comm_ccsds_build` makes it: header, data, checksum.
pub record IsPacket (h : Header) (app : Buffer) (n : ℕ) (b : Buffer) : Type 0 where
  pub header_stored : header_of b ≡ h
  pub data_stored : (i : ℕ) → i < n → b (6 + i) ≡ app i
  pub checksum_right : get_u32 b (6 + n) ≡ crc32 (bytes n 6 b)

-- Given room for the packet, an assigned identifier and bytes for data, `comm_ccsds_build` answers
-- `ok`, stores the packet's size and leaves the packet in the buffer: the class's header, the data
-- and the checksum over it.
pub build-IsPacket :
    {W : Type 0} (cls n len : ℕ) (app buf : Buffer) (c : Ccsds W)
    → CanBuild cls n c
    → n + 10 ≤ len
    → ((i : ℕ) → i < n → app i < 256)
    → let (st, b, written, c') = build cls app n buf len c in
      (st ≡ ok) × (written ≡ some (n + 10)) × IsPacket (packet_header cls n c) app n b
unfolding build
build-IsPacket cls n len app buf c can room small =
    let h = packet_header cls n c in
    let (st, headed) = build_header h buf len in
    let f = packet_header-FitsHeader cls n c can in
    let (good, p, q, r, _) = build_header_words h buf len f (omega arith) in
    let body = packet_body-HasBody app n headed small in
    let b = packet_body app n headed in
    let same : (at : ℕ) → at + 1 < 6 → get_u16 b at ≡ get_u16 headed at = λ at lt.
      get_u16_same b headed at (body.head_kept at (omega arith)) (body.head_kept (at + 1) lt) in
    let packet : IsPacket h app n b = record {
      header_stored =
          header_of_words h b f (same 0 (omega arith) ∙ p) (same 2 (omega arith) ∙ q)
            (same 4 (omega arith) ∙ r);
      data_stored = body.data_copied;
      checksum_right = body.checksum_stored;
    } in
    (
      ground (arith, can, room, good),
      ground (arith, can, room, good),
      subst (IsPacket h app n) (ground (arith, can, room, good)) packet,
    )
