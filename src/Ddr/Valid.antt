-- ===== src/Ddr/Valid.antt =====
-- A region never holds more than it has room for, whatever is called.
use qiran_firmware.Base.{ℕ, Option, none, some, List, [], arith, ◌^◌, ◌≤◌, ◌<◌, ◌∷◌}
use qiran_firmware.Services.{Services}
use qiran_firmware.Ddr.{Ddr, Region, init, set_region, handoff, clear, append, set_used, read}

-- A region's use stays inside its capacity, a 32-bit word.
abbrev pub IsRegion : Region → Type 0
IsRegion r = (r.used ≤ r.capacity) × (r.capacity < 2 ^ 32)

abbrev pub IsValid : Ddr → Type 0
IsValid d = (i : ℕ) → IsRegion (d.region i)

pub data DdrOp : Type 0 where
  set_region_op : ℕ → Option ℕ → ℕ → DdrOp
  handoff_op : ℕ → ℕ → ℕ → DdrOp
  clear_op : ℕ → ℕ → DdrOp
  append_op : ℕ → ℕ → Option (ℕ → ℕ) → ℕ → DdrOp
  set_used_op : ℕ → ℕ → ℕ → DdrOp
  read_op : ℕ → ℕ → DdrOp

-- The state after one call.
unfoldable pub run_op : DdrOp → Ddr → Services → Ddr × Services
run_op (set_region_op i base bytes) d s = ((set_region i base bytes d).1, s)
run_op (handoff_op i from to) d s = let (_, d', s') = handoff i from to d s in (d', s')
run_op (clear_op i from) d s = let (_, d', s') = clear i from d s in (d', s')
run_op (append_op i owner src len) d s = let (_, d', s') = append i owner src len d s in (d', s')
run_op (set_used_op i owner used) d s = let (_, d', s') = set_used i owner used d s in (d', s')
run_op (read_op i owner) d s = let (_, d', s') = read i owner d s in (d', s')

unfoldable pub run_ops : List DdrOp → Ddr → Services → Ddr × Services
run_ops [] d s = (d, s)
run_ops (op ∷ ops) d s = let (d', s') = run_op op d s in run_ops ops d' s'

-- The sizes that a call passes are 32-bit words.
abbrev pub HasWords : DdrOp → Type 0
HasWords (set_region_op i base bytes) = bytes < 2 ^ 32
HasWords (append_op i owner src len) = len < 2 ^ 32
HasWords _ = Unit

pub init-IsValid : (memory : ℕ → ℕ) → IsValid (init memory)
unfolding init
init-IsValid memory i = ground arith

run_op-IsValid :
    (op : DdrOp) (d : Ddr) (s : Services) → HasWords op → IsValid d → IsValid (run_op op d s).0
unfolding run_op set_region handoff clear append set_used read
run_op-IsValid (set_region_op i none bytes) d s h v j = v j
run_op-IsValid (set_region_op i (some base) bytes) d s h v j = ground (arith, v j, v i)
run_op-IsValid (handoff_op i from to) d s h v j = ground (arith, v j, v i)
run_op-IsValid (clear_op i from) d s h v j = ground (arith, v j, v i)
run_op-IsValid (append_op i owner none len) d s h v j = v j
run_op-IsValid (append_op i owner (some src) len) d s h v j = ground (arith, v j, v i)
run_op-IsValid (set_used_op i owner used) d s h v j = ground (arith, v j, v i)
run_op-IsValid (read_op i owner) d s h v j = ground (arith, v j, v i)

abbrev pub AllHaveWords : List DdrOp → Type 0
AllHaveWords [] = Unit
AllHaveWords (op ∷ ops) = HasWords op × AllHaveWords ops

-- Where every region's use is inside its capacity, it still is after any sequence of calls with
-- 32-bit sizes.
pub run_ops-IsValid :
    (ops : List DdrOp) (d : Ddr) (s : Services)
    → AllHaveWords ops
    → IsValid d
    → IsValid (run_ops ops d s).0
unfolding run_ops
run_ops-IsValid [] d s h v = v
run_ops-IsValid (op ∷ ops) d s h v =
    let (d', s') = run_op op d s in run_ops-IsValid ops d' s' h.1 (run_op-IsValid op d s h.0 v)
