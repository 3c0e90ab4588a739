-- ===== src/Ddr.antt =====
-- src/data/storage_ddr.c: the regions of external memory and who owns each. Memory is a function
-- from addresses to bytes; a source buffer does not overlap the region that it is copied to.
pub mod Valid
pub mod Owner
pub mod Content
pub mod Slot
mod Tests
use qiran_firmware.Base.{ℕ, zero, suc, bit_or, Bool, false, not, Option, none, some, ltb, leb}
use qiran_firmware.Base.{u32, sub32, shl, update, ◌+◌, ◌*◌, ◌||◌, ◌==◌, if◌then◌else◌}
use qiran_firmware.Status.{Status, ok, err_param, err_range, err_state, err_unsupported}
use qiran_firmware.Fault
use qiran_firmware.Services.{Services}
use qiran_firmware.Fdir.{report}

-- `ddr_owner_t`.
abbrev pub owner_none : ℕ
owner_none = 0

abbrev pub owner_pl_dma : ℕ
owner_pl_dma = 1

abbrev pub owner_ps_processing : ℕ
owner_ps_processing = 2

abbrev pub owner_count : ℕ
owner_count = 5

-- `DDR_REGION_COUNT`, `DDR_CHANNELS` and `DDR_RAW_SLOTS`.
abbrev pub region_count : ℕ
region_count = 7

abbrev pub channels : ℕ
channels = 2

abbrev pub raw_slots : ℕ
raw_slots = 2

-- `region_t`; `base` is an address.
pub record Region : Type 0 where
  pub base : Option ℕ
  pub capacity : ℕ
  pub used : ℕ
  pub owner : ℕ

pub record Ddr : Type 0 where
  pub region : ℕ → Region
  pub violations : ℕ
  pub handoffs : ℕ
  pub overruns : ℕ
  pub memory : ℕ → ℕ

-- `storage_ddr_init`, on the memory as it is.
unfoldable pub init : (ℕ → ℕ) → Ddr
init memory = record {
  region = λ _. record { base = none; capacity = 0; used = 0; owner = owner_none };
  violations = 0;
  handoffs = 0;
  overruns = 0;
  memory = memory;
}

abbrev pub with_region : ℕ → Region → Ddr → Ddr
with_region i r d = record d { region = update d.region i r }

-- `storage_ddr_set_region`.
unfoldable pub set_region : ℕ → Option ℕ → ℕ → Ddr → Status × Ddr
set_region region none bytes d = (err_param, d)
set_region region (some base) bytes d =
    if leb region_count region
    then (err_param, d)
    else if bytes == 0
    then (err_param, d)
    else if not ((d.region region).owner == owner_none)
    then (err_state, d)
    else (
      ok,
      with_region region (record (d.region region) { base = some base; capacity = bytes; used = 0 })
          d,
    )

-- `violation`.
unfoldable pub violation : ℕ → ℕ → Ddr → Services → Ddr × Services
violation region expected d s = (
  record d { violations = u32 (d.violations + 1) },
  report Fault.buffer_ownership
      (bit_or (bit_or (u32 (shl region 16)) (u32 (shl expected 8))) (d.region region).owner) s,
)

-- `storage_ddr_handoff`.
unfoldable pub handoff : ℕ → ℕ → ℕ → Ddr → Services → Status × Ddr × Services
unfolding violation
handoff region from to d s =
    if leb region_count region || leb owner_count from || leb owner_count to
    then (err_param, d, s)
    else elim (d.region region).base [
      | none ↦ (err_unsupported, d, s)
      | some _ ↦
          if not ((d.region region).owner == from)
          then (let (d', s') = violation region from d s in (err_state, d', s'))
          else (
            ok,
            record (with_region region (record (d.region region) { owner = to }) d) {
              handoffs = u32 (d.handoffs + 1);
            },
            s,
          )
    ]

-- `storage_ddr_clear`.
unfoldable pub clear : ℕ → ℕ → Ddr → Services → Status × Ddr × Services
unfolding violation
clear region from d s =
    if leb region_count region || leb owner_count from
    then (err_param, d, s)
    else if not ((d.region region).owner == from)
    then (let (d', s') = violation region from d s in (err_state, d', s'))
    else (ok, with_region region (record (d.region region) { used = 0; owner = owner_none }) d, s)

-- `for (i = 0; i < len; i++) dst[i] = src[i]`, `n` rounds from `i`.
unfoldable pub copy : ℕ → ℕ → ℕ → (ℕ → ℕ) → (ℕ → ℕ) → ℕ → ℕ
copy zero i dst src memory = memory
copy (suc n) i dst src memory = copy n (i + 1) dst src (update memory (dst + i) (src i))

overrun : ℕ → Ddr → Services → Ddr × Services
overrun region d s =
    (record d { overruns = u32 (d.overruns + 1) }, report Fault.ddr_overrun region s)

-- `storage_ddr_append`.
unfoldable pub append : ℕ → ℕ → Option (ℕ → ℕ) → ℕ → Ddr → Services → Status × Ddr × Services
unfolding violation overrun
append region owner none len d s = (err_param, d, s)
append region owner (some src) len d s =
    let r = d.region region in
    if leb region_count region || len == 0 then (err_param, d, s) else elim r.base [
      | none ↦ (err_unsupported, d, s)
      | some base ↦
          if not (r.owner == owner)
          then (let (d', s') = violation region owner d s in (err_state, d', s'))
          else if ltb (sub32 r.capacity r.used) len
          then (let (d', s') = overrun region d s in (err_range, d', s'))
          else (
            ok,
            record (with_region region (record r { used = u32 (r.used + len) }) d) {
              memory = copy len 0 (base + r.used) src d.memory;
            },
            s,
          )
    ]

-- `storage_ddr_set_used`.
unfoldable pub set_used : ℕ → ℕ → ℕ → Ddr → Services → Status × Ddr × Services
unfolding violation overrun
set_used region owner used d s =
    let r = d.region region in
    if leb region_count region then (err_param, d, s) else elim r.base [
      | none ↦ (err_unsupported, d, s)
      | some _ ↦
          if not (r.owner == owner)
          then (let (d', s') = violation region owner d s in (err_state, d', s'))
          else if ltb r.capacity used
          then (let (d', s') = overrun region d s in (err_range, d', s'))
          else (ok, with_region region (record r { used = used }) d, s)
    ]

-- `storage_ddr_read` with both outputs present: the base and the length.
unfoldable pub read : ℕ → ℕ → Ddr → Services → (Status × Option (ℕ × ℕ)) × Ddr × Services
unfolding violation
read region owner d s =
    let r = d.region region in
    if leb region_count region then ((err_param, none), d, s) else elim r.base [
      | none ↦ ((err_unsupported, none), d, s)
      | some base ↦
          if not (r.owner == owner)
          then (let (d', s') = violation region owner d s in ((err_state, none), d', s'))
          else ((ok, some (base, r.used)), d, s)
    ]

-- `storage_ddr_free`.
unfoldable pub free : ℕ → Ddr → ℕ
free region d =
    if leb region_count region then 0 else sub32 (d.region region).capacity (d.region region).used

unfoldable pub is_free : Region → Bool
is_free r = elim r.base [ none ↦ false | some _ ↦ r.owner == owner_none ]

-- The loop of `storage_ddr_free_raw_slot` from slot `i`.
unfoldable pub find_slot : ℕ → ℕ → ℕ → Ddr → ℕ
unfolding is_free
find_slot zero first i d = region_count
find_slot (suc n) first i d =
    let rest = find_slot n first (i + 1) d in
    if is_free (d.region (first + i)) then first + i else rest

-- `storage_ddr_free_raw_slot`.
unfoldable pub free_raw_slot : ℕ → Ddr → ℕ
unfolding find_slot
free_raw_slot channel d =
    if leb channels channel then region_count else find_slot raw_slots (channel * raw_slots) 0 d
