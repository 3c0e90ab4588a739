-- ===== src/Ccsds/Framing.antt =====
-- The primary header: what is built is parsed back.
use qiran_firmware.Base.{ℕ, refl, sym, subst, inl, inr, some, arith, ◌+◌, ◌*◌, ◌/◌, ◌^◌, ◌≤◌}
use qiran_firmware.Base.{◌<◌, ◌≡◌, ◌∙◌, if◌then◌else◌}
use qiran_firmware.Bits.Mask.{bit_and_mask, bit_or_disjoint}
use qiran_firmware.Status.{Status, ok}
use qiran_firmware.Ccsds.{
  Buffer, Header, word0, word1, put_u16, get_u16, build_header, header_of, parse_header,
}
use qiran_firmware.Ccsds.Bytes.{get_u16-put_u16, put_u16_bytes}

-- The fields fit their widths in the header.
pub record FitsHeader (h : Header) : Type 0 where
  pub version_fits : h.version < 2 ^ 3
  pub type_fits : h.packet_type < 2
  pub apid_fits : h.apid < 2 ^ 11
  pub flags_fit : h.seq_flags < 2 ^ 2
  pub count_fits : h.seq_count < 2 ^ 14
  pub length_fits : h.data_length < 2 ^ 16

abbrev pub flag_bit : Header → ℕ
flag_bit h = if h.secondary_header then 1 else 0

pub word0_value :
    (h : Header)
    → FitsHeader h
    → word0 h ≡ ((h.version * 2 + h.packet_type) * 2 + flag_bit h) * 2 ^ 11 + h.apid
unfolding word0
word0_value h f =
    let e = bit_or_disjoint 13 h.version (h.packet_type * 2 ^ 12) (omega arith) in
    let g =
      bit_or_disjoint 12 (h.version * 2 + h.packet_type) (flag_bit h * 2 ^ 11) (ground arith) in
    let k =
      bit_or_disjoint 11 ((h.version * 2 + h.packet_type) * 2 + flag_bit h) h.apid (omega arith) in
    ground (
      arith,
      e,
      g,
      k,
      bit_and_mask 3 h.version,
      bit_and_mask 1 h.packet_type,
      bit_and_mask 11 h.apid,
    )

pub word1_value : (h : Header) → FitsHeader h → word1 h ≡ h.seq_flags * 2 ^ 14 + h.seq_count
unfolding word1
word1_value h f = ground (
  arith,
  bit_or_disjoint 14 h.seq_flags h.seq_count f.count_fits,
  bit_and_mask 2 h.seq_flags,
  bit_and_mask 14 h.seq_count,
)

header_eq :
    (h k : Header)
    → h.version ≡ k.version
    → h.packet_type ≡ k.packet_type
    → h.secondary_header ≡ k.secondary_header
    → h.apid ≡ k.apid
    → h.seq_flags ≡ k.seq_flags
    → h.seq_count ≡ k.seq_count
    → h.data_length ≡ k.data_length
    → h ≡ k
header_eq h k a b c d e f g = ground arith

pub get_u16_same :
    (b c : Buffer) (at : ℕ) → b at ≡ c at → b (at + 1) ≡ c (at + 1) → get_u16 b at ≡ get_u16 c at
unfolding get_u16
get_u16_same b c at p q = ground (arith, p, q)

-- A buffer whose words are those of a header holds that header.
pub header_of_words :
    (h : Header) (b : Buffer)
    → FitsHeader h
    → get_u16 b 0 ≡ word0 h
    → get_u16 b 2 ≡ word1 h
    → get_u16 b 4 ≡ h.data_length
    → header_of b ≡ h
unfolding header_of
header_of_words h b f p q r =
    let w = word0_value h f in
    let v = word1_value h f in
    let x = get_u16 b 0 in
    let y = get_u16 b 2 in
    header_eq (header_of b) h (ground (arith, p, w, bit_and_mask 3 (x / 2 ^ 13)))
      (ground (arith, p, w, bit_and_mask 1 (x / 2 ^ 12)))
      (ground (arith, p, w, bit_and_mask 1 (x / 2 ^ 11))) (ground (arith, p, w, bit_and_mask 11 x))
      (ground (arith, q, v, bit_and_mask 2 (y / 2 ^ 14))) (ground (arith, q, v, bit_and_mask 14 y))
      r

word0-lt : (h : Header) → FitsHeader h → word0 h < 2 ^ 16
word0-lt h f = ground (arith, word0_value h f)

word1-lt : (h : Header) → FitsHeader h → word1 h < 2 ^ 16
word1-lt h f = ground (arith, word1_value h f)

abbrev with_words : Header → Buffer → Buffer
with_words h buf = (put_u16 (put_u16 (put_u16 buf 0 (word0 h)).0 2 (word1 h)).0 4 h.data_length).0

built :
    (h : Header) (buf : Buffer) (len : ℕ)
    → FitsHeader h
    → 6 ≤ len
    → build_header h buf len ≡ (ok, with_words h buf)
unfolding build_header put_u16
built h buf len f room = ground (arith, room)

-- A header that is built is in the buffer, and the bytes behind it are kept.
pub build_header_words :
    (h : Header) (buf : Buffer) (len : ℕ)
    → FitsHeader h
    → 6 ≤ len
    → let (st, b) = build_header h buf len in
      (st ≡ ok)
      × (get_u16 b 0 ≡ word0 h)
      × (get_u16 b 2 ≡ word1 h)
      × (get_u16 b 4 ≡ h.data_length)
      × ((i : ℕ) → 6 ≤ i → b i ≡ buf i)
build_header_words h buf len f room =
    let b0 = (put_u16 buf 0 (word0 h)).0 in
    let b1 = (put_u16 b0 2 (word1 h)).0 in
    let b2 = with_words h buf in
    let (_, _, keep0) = put_u16_bytes buf 0 (word0 h) (word0-lt h f) in
    let (_, _, keep1) = put_u16_bytes b0 2 (word1 h) (word1-lt h f) in
    let (_, _, keep2) = put_u16_bytes b1 4 h.data_length f.length_fits in
    let e = built h buf len f room in
    subst
      (λ (p : Status × Buffer).
        (p.0 ≡ ok)
        × (get_u16 p.1 0 ≡ word0 h)
        × (get_u16 p.1 2 ≡ word1 h)
        × (get_u16 p.1 4 ≡ h.data_length)
        × ((i : ℕ) → 6 ≤ i → p.1 i ≡ buf i))
      (sym e)
      (
        refl,
        get_u16_same b2 b1 0 (keep2 0 (inl (omega arith))) (keep2 1 (inl (omega arith)))
            ∙ get_u16_same b1 b0 0 (keep1 0 (inl (omega arith))) (keep1 1 (inl (omega arith)))
            ∙ get_u16-put_u16 buf 0 (word0 h) (word0-lt h f),
        get_u16_same b2 b1 2 (keep2 2 (inl (omega arith))) (keep2 3 (inl (omega arith)))
            ∙ get_u16-put_u16 b0 2 (word1 h) (word1-lt h f),
        get_u16-put_u16 b1 4 h.data_length f.length_fits,
        λ i far.
            keep2 i (inr (omega arith)) ∙ keep1 i (inr (omega arith)) ∙ keep0 i (inr (omega arith)),
      )

-- A header whose fields fit their widths is parsed back from the buffer that it is built in.
pub parse_header-build_header :
    (h : Header) (buf : Buffer) (len : ℕ)
    → FitsHeader h
    → 6 ≤ len
    → let (st, b) = build_header h buf len in (st ≡ ok) × (parse_header (some b) len ≡ (ok, some h))
unfolding parse_header
parse_header-build_header h buf len f room =
    let (st, p, q, r, _) = build_header_words h buf len f room in
    (st, ground (arith, room, header_of_words h (build_header h buf len).1 f p q r))
