-- ===== src/Lib.antt =====
-- A model of the payload firmware, with the theorems that make its parts correct.
--
-- The firmware runs one loop in minor cycles of 20 ms, paced by a tick interrupt. Each cycle serves
-- interrupts, health, communication, the mission sequence, data and faults in a fixed order; every part
-- is a C file with static state and functions on it. A part is modelled by a record of its state and one
-- function per operation that takes the state and returns it changed. `Base` has the lists, tests, fixed
-- width words and arrays that all share, `Bits` the laws of the bit operations, `Window` the circular
-- buffers between two free-running counters, and `Samples` a state for tests.
--
--   Status    include/qiran/qiran_types.h: the status of every fallible operation
--   Ring      src/svc/svc_ring.c: a byte ring between one interrupt and one consumer
--   Crc       src/svc/svc_crc.c: the checksum of frames, packets and records
--   Log       src/svc/svc_log.c: the fault log, which drops the newest when it is full
--   Time      src/svc/svc_time.c: milliseconds and timeouts on a 32-bit tick counter
--   Fault     include/qiran/svc/svc_fault.h and the policy table of src/svc/svc_fdir.c
--   Services  the log, the clock and fault management as one state, which the parts below take
--   Fdir      src/svc/svc_fdir.c: reports, and the loop's pass that classifies and escalates them
--   Mission   src/mission/mission_seq.c: the setup and operations sequence
--   Ddr       src/data/storage_ddr.c: the regions of external memory and who owns each
--   Exec      src/exec/exec_core.c: ticks, slots, overruns and major cycles
--   Ccsds     src/comm/comm_ccsds.c and include/qiran/comm/comm_bytes.h: space packets
--   Output    src/comm/comm_output.c: the outbound queue, by priority
--   Health    src/svc/svc_health.c and src/svc/svc_watchdog.c: monitors, verdict, watchdog
--   Config    src/svc/svc_config.c: parameters with limits, their storage and the calibration
--   Irq       src/plat/plat_irq.c: a queue of events per interrupt source
--   Spw       src/comm/comm_spw_link.c: the serial link, its start sequence and its traffic
--   Nand      src/data/storage_nand.c: records in flash memory and their transfer
--   Cmd       src/comm/comm_cmd.c: telecommands, their frames, checks, handlers and results
--   DataPath  src/data/data_path.c: acquisition buffers and the queue of those to be reduced
--   Sched     src/exec/exec_sched.c: the task table, what tasks cost, and whether they fit
--   Boot      src/plat/plat_boot.c, plat_devinit.c and plat_safe_outputs.c of the same folder
--
-- Interaction. The parts report faults to `Fdir.report` and write to the log, so they take and return
-- `Services`. The mission sequence reads the occurrences of a class as its count of retries. The outbound
-- queue builds packets with `Ccsds` and hands them to a link, which `Spw.output_link` is, and `Nand`
-- gives it the records of a transfer. The watchdog reads the verdict of `Health`, one of whose monitors
-- is the verification of `Config`. `Spw`, `DataPath` and `Fdir` take their events from `Irq`; `Cmd` reads the
-- bytes of a `Ring`; `DataPath` hands regions of `Ddr` on; `Boot` services the faults of `Fdir` at once.
--
-- Conventions. A C array is a function of its index, written by `update`. A w-bit integer is a number of
-- ℕ and each operation writes its wrap-around out; an `int32_t` is its bit pattern. A pointer that the
-- source tests for NULL is an `Option`. A callback is a parameter that acts on a state of its own, `W`,
-- and on the services. An interrupt is an operation that comes between two operations of the loop; where
-- the loop reads two counters that an interrupt advances together, `late` interrupts come between.
--
-- Loops over a table are structural recursion on the rounds that are left. The loops without such a
-- bound have fuel, and a theorem says how much is enough: `Exec.reduce` the slot itself, because each
-- round takes 25 from it; `Output.service` one round more than packets wait, because a round that goes on
-- gives back a slot; `Irq.Drain.drain` one round more than events are held; `Cmd.assemble` one round more
-- than chunks of 64 bytes are held; `Spw.deliver_received` one more than buffers of 512 bytes wait; and
-- `Boot.run_attempts` one attempt more than are left before the limit of the step's class.
-- `Exec.wait_loop` takes the list of what wakes the processor.
--
-- Not modelled: the housekeeping link (src/comm/comm_rs485_hk.c), the start of communication
-- (src/comm/comm_process.c), data products (src/data/data_product.c), the major cycle and its trace
-- (src/exec/exec_major.c), the photonic scheduler, the self test (src/plat/plat_post.c), the receive
-- interrupt (src/plat/plat_isr_uart.c) and register access. What a device, a handler, a storage or the
-- interrupt controller does is a parameter of the part that calls it.
-- The tables of names for traces are left out, and so are functions that only return one variable.
pub mod Base
pub mod Bits
pub mod Status
pub mod Window
pub mod Ring
pub mod Crc
pub mod Fault
pub mod Log
pub mod Time
pub mod Services
pub mod Samples
pub mod Fdir
pub mod Mission
pub mod Ddr
pub mod Exec
pub mod Ccsds
pub mod Output
pub mod Config
pub mod Health
pub mod Irq
pub mod Spw
pub mod Nand
pub mod Cmd
pub mod DataPath
pub mod Sched
pub mod Boot
