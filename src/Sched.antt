-- ===== src/Sched.antt =====
-- src/exec/exec_sched.c: the table of tasks, what each costs in cycles of the processor, and the check
-- that the tasks of every slot fit into a minor cycle.
pub mod Worst
mod Tests
use qiran_firmware.Base.{ℕ, zero, suc, Bool, true, false, not, List, [], ltb, leb, get_or, u32}
use qiran_firmware.Base.{
  u64, sub32, update, ◌+◌, ◌-◌, ◌/◌, ◌%◌, ◌||◌, ◌&&◌, ◌∷◌, ◌==◌, if◌then◌else◌,
}
use qiran_firmware.Exec.{minor_per_major, budget_cycles}

-- `EXEC_TASK_COUNT`.
abbrev pub task_count : ℕ
task_count = 11

-- `exec_cycle_class_t`.
pub data Cycle : Type 0 where
  minor major spread : Cycle

-- `exec_task_def_t`; the names are not kept.
pub record TaskDef : Type 0 where
  pub cycle : Cycle
  pub period_slots : ℕ
  pub phase_slot : ℕ
  pub estimate_us : ℕ

abbrev pub every_slot : TaskDef
every_slot = record { cycle = minor; period_slots = 1; phase_slot = 0; estimate_us = 0 }

abbrev pub once_a_major : TaskDef
once_a_major = record {
  cycle = major;
  period_slots = minor_per_major;
  phase_slot = 0;
  estimate_us = 0;
}

abbrev pub k_task : List TaskDef
k_task =
    every_slot ∷ every_slot ∷ every_slot ∷ every_slot ∷ every_slot ∷ every_slot ∷ every_slot
    ∷ every_slot ∷ every_slot ∷ once_a_major ∷ every_slot ∷ []

unfoldable pub task_def : ℕ → TaskDef
task_def id = get_or k_task id every_slot

-- `exec_task_stat_t`.
pub record TaskStat : Type 0 where
  pub runs : ℕ
  pub cycles_last : ℕ
  pub cycles_worst : ℕ
  pub cycles_total : ℕ

-- `s_stat` and `s_entered`.
pub record Sched : Type 0 where
  pub stat : ℕ → TaskStat
  pub entered : ℕ → ℕ

-- The loop of `exec_sched_init`: `n` tasks from `i`.
unfoldable pub init_from : ℕ → ℕ → Sched → Sched
init_from zero i s = s
init_from (suc n) i s = init_from n (i + 1) (record {
  stat = update s.stat i (record { runs = 0; cycles_last = 0; cycles_worst = 0; cycles_total = 0 });
  entered = update s.entered i 0;
})

unfoldable pub init : Sched → Sched
init s = init_from task_count 0 s

-- `exec_task_enter`, at a reading of the cycle counter.
unfoldable pub task_enter : ℕ → ℕ → Sched → Sched
task_enter id now s =
    if ltb id task_count then record s { entered = update s.entered id now } else s

-- `exec_task_leave`, at a reading of the cycle counter.
unfoldable pub task_leave : ℕ → ℕ → Sched → Sched
task_leave id now s =
    let elapsed = sub32 now (s.entered id) in
    let t = s.stat id in
    if leb task_count id then s else record s {
      stat = update s.stat id (record {
        runs = u32 (t.runs + 1);
        cycles_last = elapsed;
        cycles_worst = if ltb t.cycles_worst elapsed then elapsed else t.cycles_worst;
        cycles_total = u64 (t.cycles_total + elapsed);
      });
    }

-- `due_at_slot`.
unfoldable pub due_at_slot : TaskDef → ℕ → Bool
due_at_slot t slot = elim t.cycle [
  | minor ↦ true
  | major ↦ slot == 0
  | spread ↦ not (t.period_slots == 0) && (slot % t.period_slots == t.phase_slot)
]

-- The inner loop of `worst_slot_scan`: `n` tasks from `i` are added to `sum`.
unfoldable pub slot_sum : (ℕ → TaskDef) → (ℕ → TaskStat) → ℕ → ℕ → ℕ → ℕ → ℕ
slot_sum tasks stats slot zero i sum = sum
slot_sum tasks stats slot (suc n) i sum =
    slot_sum tasks stats slot n (i + 1)
      (if due_at_slot (tasks i) slot then u32 (sum + (stats i).cycles_worst) else sum)

-- The outer loop of `worst_slot_scan`: `n` slots from `slot`, with the worst before them.
unfoldable pub scan_slots : (ℕ → TaskDef) → (ℕ → TaskStat) → ℕ → ℕ → ℕ → ℕ × ℕ → ℕ × ℕ
scan_slots tasks stats count zero slot found = found
scan_slots tasks stats count (suc n) slot found =
    let sum = slot_sum tasks stats slot count 0 0 in
    scan_slots tasks stats count n (slot + 1) (if ltb found.0 sum then (sum, slot) else found)

-- `worst_slot_scan`: the worst sum and its slot.
unfoldable pub worst_slot_scan : (ℕ → TaskDef) → (ℕ → TaskStat) → ℕ → ℕ × ℕ
worst_slot_scan tasks stats count = scan_slots tasks stats count minor_per_major 0 (0, 0)

-- `exec_task_due`, with what `exec_slot` answers.
unfoldable pub task_due : ℕ → ℕ → Bool
task_due id slot = ltb id task_count && due_at_slot (task_def id) slot

-- `exec_task_mean_cycles`.
unfoldable pub task_mean_cycles : ℕ → Sched → ℕ
task_mean_cycles id s =
    if leb task_count id || ((s.stat id).runs == 0)
    then 0
    else u32 ((s.stat id).cycles_total / (s.stat id).runs)

-- `exec_sched_check_t`.
pub record Check : Type 0 where
  pub worst_slot_cycles : ℕ
  pub worst_slot : ℕ
  pub budget : ℕ
  pub margin_cycles : ℕ
  pub estimate_sum_us : ℕ
  pub fits : Bool
  pub complete : Bool

unfoldable pub is_minor : TaskDef → Bool
is_minor t = elim t.cycle [ minor ↦ true | major ↦ false | spread ↦ false ]

-- The loop of `exec_sched_check`: `n` tasks from `i`, with the sum of the estimates and whether every
-- task of each cycle has run.
unfoldable pub check_from : ℕ → ℕ → Sched → ℕ × Bool → ℕ × Bool
check_from zero i s found = found
check_from (suc n) i s (sum, complete) = check_from n (i + 1) s (
  u32 (sum + (task_def i).estimate_us),
  complete && not (is_minor (task_def i) && ((s.stat i).runs == 0)),
)

-- `exec_sched_check`, with what `plat_cpu_cycles_per_us` answers.
unfoldable pub sched_check : ℕ → Sched → Check
sched_check per_us s =
    let (worst, slot) = worst_slot_scan task_def s.stat task_count in
    let (sum, complete) = check_from task_count 0 s (0, true) in
    record {
      worst_slot_cycles = worst;
      worst_slot = slot;
      budget = budget_cycles per_us;
      margin_cycles = if leb worst (budget_cycles per_us) then budget_cycles per_us - worst else 0;
      estimate_sum_us = sum;
      fits = leb worst (budget_cycles per_us);
      complete = complete;
    }
