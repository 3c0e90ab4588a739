-- ===== src/Ccsds.antt =====
-- include/qiran/comm/comm_bytes.h and src/comm/comm_ccsds.c: byte packing, and the space packets
-- that carry every message. A buffer is a function of the index into it.
pub mod Bytes
pub mod Framing
pub mod Packet
pub mod Route
pub mod Table
mod Tests
use qiran_firmware.Base.{ℕ, zero, suc, bit_and, bit_or, Bool, true, false, not, Option, none}
use qiran_firmware.Base.{some, List, [], ltb, leb, get_or, u8, u16, u32, shl, shr, update}
use qiran_firmware.Base.{◌+◌, ◌-◌, ◌&&◌, ◌||◌, ◌∷◌, ◌==◌, if◌then◌else◌}
use qiran_firmware.Status.{
  Status, is_ok, ok, err_param, err_range, err_state, err_integrity, err_unsupported,
}
use qiran_firmware.Fault
use qiran_firmware.Crc.{crc32}
use qiran_firmware.Services.{Services}
use qiran_firmware.Fdir.{report}

abbrev pub Buffer : Type 0
Buffer = ℕ → ℕ

-- `comm_put_u16`, `comm_put_u32`: the buffer and the index behind the value.
unfoldable pub put_u16 : Buffer → ℕ → ℕ → Buffer × ℕ
put_u16 buf at v = (update (update buf at (u8 (shr v 8))) (at + 1) (u8 (bit_and v 0xFF)), at + 2)

unfoldable pub put_u32 : Buffer → ℕ → ℕ → Buffer × ℕ
put_u32 buf at v =
    let b0 = update buf at (u8 (shr v 24)) in
    let b1 = update b0 (at + 1) (u8 (bit_and (shr v 16) 0xFF)) in
    let b2 = update b1 (at + 2) (u8 (bit_and (shr v 8) 0xFF)) in
    (update b2 (at + 3) (u8 (bit_and v 0xFF)), at + 4)

-- `comm_get_u16`, `comm_get_u32`.
unfoldable pub get_u16 : Buffer → ℕ → ℕ
get_u16 buf at = u16 (bit_or (u16 (shl (buf at) 8)) (buf (at + 1)))

unfoldable pub get_u32 : Buffer → ℕ → ℕ
get_u32 buf at =
    bit_or (bit_or (bit_or (u32 (shl (buf at) 24)) (shl (buf (at + 1)) 16)) (shl (buf (at + 2)) 8))
      (buf (at + 3))

-- The bytes of a buffer from an index on, as the checksum takes them.
unfoldable pub bytes : ℕ → ℕ → Buffer → List ℕ
bytes zero at buf = []
bytes (suc n) at buf = buf at ∷ bytes n (at + 1) buf

-- `CCSDS_PRIMARY_HEADER_BYTES` and the other constants of comm_ccsds.h.
abbrev pub primary_header_bytes : ℕ
primary_header_bytes = 6

abbrev pub integrity_bytes : ℕ
integrity_bytes = 4

abbrev pub apid_max : ℕ
apid_max = 0x7FF

abbrev pub apid_idle : ℕ
apid_idle = 0x7FF

abbrev pub seq_count_max : ℕ
seq_count_max = 0x3FFF

abbrev pub data_field_max : ℕ
data_field_max = 65536

abbrev pub class_count : ℕ
class_count = 6

-- `ccsds_header_t`; the enumerations as their values.
pub record Header : Type 0 where
  pub version : ℕ
  pub packet_type : ℕ
  pub secondary_header : Bool
  pub apid : ℕ
  pub seq_flags : ℕ
  pub seq_count : ℕ
  pub data_length : ℕ

abbrev pub k_default_apid : List ℕ
k_default_apid = 0x001 ∷ 0x010 ∷ 0x011 ∷ 0x020 ∷ 0x030 ∷ 0x040 ∷ []

-- `ccsds_consumer_t` with its context in `W`: the header, the application data and its length. A
-- consumer does not call back into this module.
abbrev pub Consumer : Type 0 → Type 0
Consumer W = Header → Buffer → ℕ → W → Services → Status × W × Services

pub record Ccsds (W : Type 0) : Type 0 where
  pub apid : ℕ → ℕ
  pub consumer : ℕ → Option (Consumer W)
  pub tx_count : ℕ → ℕ
  pub rx_seen : ℕ → Bool
  pub rx_expect : ℕ → ℕ
  pub sent : ℕ → ℕ
  pub received : ℕ → ℕ
  pub gaps : ℕ
  pub integrity_errors : ℕ
  pub length_errors : ℕ
  pub unroutable : ℕ

-- `comm_ccsds_build_header`, with a buffer of `len` bytes.
unfoldable pub word0 : Header → ℕ
word0 h = u16 (
    bit_or
      (bit_or (bit_or (shl (bit_and h.version 0x07) 13) (shl (bit_and h.packet_type 0x01) 12))
        (shl (if h.secondary_header then 1 else 0) 11))
      (bit_and h.apid apid_max))

unfoldable pub word1 : Header → ℕ
word1 h = u16 (bit_or (shl (bit_and h.seq_flags 0x03) 14) (bit_and h.seq_count seq_count_max))

unfoldable pub build_header : Header → Buffer → ℕ → Status × Buffer
unfolding word0 word1
build_header h buf len =
    if ltb len primary_header_bytes
    then (err_param, buf)
    else if ltb 7 h.version || ltb apid_max h.apid || ltb seq_count_max h.seq_count
    then (err_range, buf)
    else (let (b0, at0) = put_u16 buf 0 (word0 h) in
        let (b1, at1) = put_u16 b0 at0 (word1 h) in (ok, (put_u16 b1 at1 h.data_length).0))

-- What `comm_ccsds_parse_header` stores, from at least six bytes.
unfoldable pub header_of : Buffer → Header
header_of buf =
    let word0 = get_u16 buf 0 in
    let word1 = get_u16 buf 2 in
    record {
      version = u8 (bit_and (shr word0 13) 0x07);
      packet_type = bit_and (shr word0 12) 0x01;
      secondary_header = not (bit_and (shr word0 11) 0x01 == 0);
      apid = bit_and word0 apid_max;
      seq_flags = bit_and (shr word1 14) 0x03;
      seq_count = bit_and word1 seq_count_max;
      data_length = get_u16 buf 4;
    }

unfoldable pub parse_header : Option Buffer → ℕ → Status × Option Header
parse_header none len = (err_param, none)
parse_header (some buf) len =
    if ltb len primary_header_bytes then (err_param, none) else (ok, some (header_of buf))

-- `comm_ccsds_packet_bytes`.
unfoldable pub packet_bytes : Header → ℕ
packet_bytes h = u32 (primary_header_bytes + h.data_length + 1)

-- `for (i = 0; i < app_len; i++) buf[6 + i] = app_data[i]`, `n` rounds from `i`.
unfoldable pub copy_app : ℕ → ℕ → Buffer → Buffer → Buffer
copy_app zero i app buf = buf
copy_app (suc n) i app buf = copy_app n (i + 1) app (update buf (primary_header_bytes + i) (app i))

-- The scan of `comm_ccsds_class_of` from class `i`.
unfoldable pub find_class : ℕ → ℕ → (ℕ → ℕ) → ℕ → ℕ
find_class zero i table apid = class_count
find_class (suc n) i table apid =
    let rest = find_class n (i + 1) table apid in if table i == apid then i else rest

-- The scan of `comm_ccsds_set_apid`: another class has the identifier.
unfoldable pub taken_by_other : ℕ → ℕ → (ℕ → ℕ) → ℕ → ℕ → Bool
taken_by_other zero i table cls apid = false
taken_by_other (suc n) i table cls apid =
    (not (i == cls) && (table i == apid)) || taken_by_other n (i + 1) table cls apid

-- `comm_ccsds_build` behind its header: the data and the checksum, which is taken over the copy.
unfoldable pub packet_body : Buffer → ℕ → Buffer → Buffer
packet_body app app_len buf =
    let copied = copy_app app_len 0 app buf in
    (put_u32 copied (primary_header_bytes + app_len)
      (crc32 (bytes app_len primary_header_bytes copied))).0

module _ {W : Type 0} where
  -- `comm_ccsds_init`.
  unfoldable pub init : Ccsds W
  init = record {
    apid = λ i. get_or k_default_apid i 0;
    consumer = λ _. none;
    tx_count = λ _. 0;
    rx_seen = λ _. false;
    rx_expect = λ _. 0;
    sent = λ _. 0;
    received = λ _. 0;
    gaps = 0;
    integrity_errors = 0;
    length_errors = 0;
    unroutable = 0;
  }

  -- `comm_ccsds_set_apid`.
  unfoldable pub set_apid : ℕ → ℕ → Ccsds W → Status × Ccsds W
  set_apid cls apid c =
      if leb class_count cls || ltb apid_max apid || (apid == apid_idle)
      then (err_param, c)
      else if taken_by_other class_count 0 c.apid cls apid
      then (err_state, c)
      else (ok, record c { apid = update c.apid cls apid })

  -- `comm_ccsds_class_of`.
  unfoldable pub class_of : ℕ → Ccsds W → ℕ
  class_of apid c = find_class class_count 0 c.apid apid

  -- `comm_ccsds_register`.
  unfoldable pub register : ℕ → Option (Consumer W) → Ccsds W → Status × Ccsds W
  register cls none c = (err_param, c)
  register cls (some k) c = if leb class_count cls then (err_param, c) else elim (c.consumer cls) [
    | some _ ↦ (err_state, c)
    | none ↦ (ok, record c { consumer = update c.consumer cls (some k) })
  ]

  -- The header that `comm_ccsds_build` gives a packet.
  unfoldable pub packet_header : ℕ → ℕ → Ccsds W → Header
  packet_header cls app_len c = record {
    version = 0;
    packet_type = 0;
    secondary_header = false;
    apid = c.apid cls;
    seq_flags = 3;
    seq_count = c.tx_count cls;
    data_length = u16 (u32 (app_len + integrity_bytes) - 1);
  }

  -- `comm_ccsds_build` with both buffers present: the status, the buffer and what is stored in
  -- `*written`.
  unfoldable pub build :
      ℕ → Buffer → ℕ → Buffer → ℕ → Ccsds W → Status × Buffer × Option ℕ × Ccsds W
  build cls app app_len buf len c =
      let field_len = u32 (app_len + integrity_bytes) in
      let total = u32 (primary_header_bytes + field_len) in
      let (st, headed) = build_header (packet_header cls app_len c) buf len in
      if leb class_count cls
      then (err_param, buf, none, c)
      else if (field_len == 0) || ltb data_field_max field_len
      then (err_range, buf, none, c)
      else if ltb len total
      then (err_range, buf, none, c)
      else if is_ok st
      then (
        ok,
        packet_body app app_len headed,
        some total,
        record c {
          tx_count = update c.tx_count cls (bit_and (c.tx_count cls + 1) seq_count_max);
          sent = update c.sent cls (u32 (c.sent cls + 1));
        },
      )
      else (st, headed, none, c)

  -- `comm_ccsds_receive` from its sequence check on.
  unfoldable pub note_sequence : ℕ → ℕ → Ccsds W → Services → Ccsds W × Services
  note_sequence cls count c s =
      let gap = c.rx_seen cls && not (count == c.rx_expect cls) in
      (
        record c {
          gaps = if gap then u32 (c.gaps + 1) else c.gaps;
          rx_seen = update c.rx_seen cls true;
          rx_expect = update c.rx_expect cls (bit_and (count + 1) seq_count_max);
          received = update c.received cls (u32 (c.received cls + 1));
        },
        if gap
            then report Fault.packet_sequence (bit_or (u32 (shl (c.rx_expect cls) 16)) count) s
            else s,
      )

  unfoldable pub deliver :
      ℕ → Header → Buffer → ℕ → Ccsds W → W → Services → Status × Ccsds W × W × Services
  deliver cls h app app_len c w s =
      let (c', s') = note_sequence cls h.seq_count c s in
      elim (c'.consumer cls) [
        | none ↦ (err_unsupported, record c' { unroutable = u32 (c'.unroutable + 1) }, w, s')
        | some k ↦ let (st, w', s'') = k h app app_len w s' in (st, c', w', s'')
      ]

  -- `comm_ccsds_receive` on a packet of at least six bytes.
  unfoldable pub receive_packet :
      Header → Buffer → ℕ → Ccsds W → W → Services → Status × Ccsds W × W × Services
  receive_packet h packet len c w s =
      let field_len = h.data_length + 1 in
      let app_len = field_len - integrity_bytes in
      let cls = class_of h.apid c in
      if not (primary_header_bytes + field_len == len) || ltb field_len integrity_bytes
      then (
        err_integrity,
        record c { length_errors = u32 (c.length_errors + 1) },
        w,
        report Fault.packet_integrity field_len s,
      )
      else if not (
          get_u32 packet (primary_header_bytes + app_len)
          == crc32 (bytes app_len primary_header_bytes packet))
      then (
        err_integrity,
        record c { integrity_errors = u32 (c.integrity_errors + 1) },
        w,
        report Fault.packet_integrity h.apid s,
      )
      else if leb class_count cls
      then (
        err_unsupported,
        record c { unroutable = u32 (c.unroutable + 1) },
        w,
        report Fault.packet_integrity h.apid s,
      )
      else deliver cls h (λ i. packet (primary_header_bytes + i)) app_len c w s

  -- `comm_ccsds_receive`.
  unfoldable pub receive :
      Option Buffer → ℕ → Ccsds W → W → Services → Status × Ccsds W × W × Services
  receive none len c w s = (err_param, c, w, s)
  receive (some packet) len c w s =
      if ltb len primary_header_bytes
      then (err_param, c, w, s)
      else receive_packet (header_of packet) packet len c w s
