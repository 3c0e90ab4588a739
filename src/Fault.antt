-- ===== src/Fault.antt =====
-- include/qiran/svc/svc_fault.h and the policy table of src/svc/svc_fdir.c. A fault class is the
-- number that the enumeration gives it, since the sources index tables by it and test its range.
use qiran_firmware.Base.{ℕ, List, [], get_or, ◌∷◌}

-- `qiran_severity_t`.
pub data Severity : Type 0 where
  minor medium critical severe : Severity

abbrev pub severity_code : Severity → ℕ
severity_code minor = 0
severity_code medium = 1
severity_code critical = 2
severity_code severe = 3

abbrev pub severity_count : ℕ
severity_count = 4

-- `qiran_escalation_t`.
pub data Escalation : Type 0 where
  log_only report_flag power_reset : Escalation

abbrev pub no_fault : ℕ
no_fault = 0

abbrev pub boot_image : ℕ
boot_image = 1

abbrev pub safe_outputs : ℕ
safe_outputs = 2

abbrev pub post : ℕ
post = 3

abbrev pub devinit : ℕ
devinit = 4

abbrev pub link_establish : ℕ
link_establish = 5

abbrev pub cycle_overrun : ℕ
cycle_overrun = 6

abbrev pub irq_overflow : ℕ
irq_overflow = 7

abbrev pub uart_rx_overflow : ℕ
uart_rx_overflow = 8

abbrev pub pl_error : ℕ
pl_error = 9

abbrev pub watchdog_expiry : ℕ
watchdog_expiry = 10

abbrev pub memory : ℕ
memory = 11

abbrev pub config : ℕ
config = 12

abbrev pub stage_timeout : ℕ
stage_timeout = 13

abbrev pub precond : ℕ
precond = 14

abbrev pub control_loop : ℕ
control_loop = 15

abbrev pub overcurrent : ℕ
overcurrent = 16

abbrev pub brownout : ℕ
brownout = 17

abbrev pub temperature : ℕ
temperature = 18

abbrev pub laser_tec : ℕ
laser_tec = 19

abbrev pub laser_power : ℕ
laser_power = 20

abbrev pub mrr_lock : ℕ
mrr_lock = 21

abbrev pub crow_tune : ℕ
crow_tune = 22

abbrev pub umzi_tune : ℕ
umzi_tune = 23

abbrev pub dli_lock : ℕ
dli_lock = 24

abbrev pub mrr_relock : ℕ
mrr_relock = 25

abbrev pub spad_optical_power : ℕ
spad_optical_power = 26

abbrev pub spad_dark_count : ℕ
spad_dark_count = 27

abbrev pub spw_link : ℕ
spw_link = 28

abbrev pub packet_integrity : ℕ
packet_integrity = 29

abbrev pub packet_sequence : ℕ
packet_sequence = 30

abbrev pub output_queue : ℕ
output_queue = 31

abbrev pub hk_sample : ℕ
hk_sample = 32

abbrev pub hk_transmit : ℕ
hk_transmit = 33

abbrev pub command_rejected : ℕ
command_rejected = 34

abbrev pub command_failed : ℕ
command_failed = 35

abbrev pub ddr_overrun : ℕ
ddr_overrun = 36

abbrev pub nand_write : ℕ
nand_write = 37

abbrev pub buffer_ownership : ℕ
buffer_ownership = 38

abbrev pub data_product : ℕ
data_product = 39

abbrev pub fault_count : ℕ
fault_count = 40

abbrev pub stage_retry_limit : ℕ
stage_retry_limit = 3

abbrev pub reset_request_limit : ℕ
reset_request_limit = 3

abbrev pub reentry_limit : ℕ
reentry_limit = 5

-- `svc_fdir_policy_t`.
pub record Policy : Type 0 where
  pub severity : Severity
  pub escalation : Escalation
  pub limit : ℕ

abbrev policy_row : Severity → Escalation → ℕ → Policy
policy_row s e l = record { severity = s; escalation = e; limit = l }

abbrev pub k_policy : List Policy
k_policy =
    policy_row minor log_only 0
    ∷ policy_row critical power_reset reset_request_limit
    ∷ policy_row severe report_flag 0
    ∷ policy_row critical power_reset reset_request_limit
    ∷ policy_row critical power_reset reset_request_limit
    ∷ policy_row critical power_reset reset_request_limit
    ∷ policy_row critical report_flag 5
    ∷ policy_row medium log_only 0
    ∷ policy_row minor log_only 0
    ∷ policy_row critical report_flag 5
    ∷ policy_row severe report_flag 0
    ∷ policy_row critical power_reset 3
    ∷ policy_row critical report_flag 3
    ∷ policy_row critical report_flag 3
    ∷ policy_row critical report_flag stage_retry_limit
    ∷ policy_row critical report_flag 5
    ∷ policy_row severe power_reset 0
    ∷ policy_row severe power_reset 0
    ∷ policy_row severe power_reset 0
    ∷ policy_row critical report_flag stage_retry_limit
    ∷ policy_row critical report_flag stage_retry_limit
    ∷ policy_row critical report_flag stage_retry_limit
    ∷ policy_row critical report_flag stage_retry_limit
    ∷ policy_row critical report_flag stage_retry_limit
    ∷ policy_row critical report_flag stage_retry_limit
    ∷ policy_row critical report_flag stage_retry_limit
    ∷ policy_row severe report_flag 0
    ∷ policy_row medium log_only 0
    ∷ policy_row critical report_flag 3
    ∷ policy_row medium log_only 0
    ∷ policy_row medium log_only 0
    ∷ policy_row critical report_flag 5
    ∷ policy_row medium log_only 0
    ∷ policy_row critical report_flag 5
    ∷ policy_row minor log_only 0
    ∷ policy_row critical report_flag 3
    ∷ policy_row critical report_flag 3
    ∷ policy_row critical report_flag 3
    ∷ policy_row critical report_flag 3
    ∷ policy_row medium log_only 0
    ∷ []

-- `k_policy[id]`; every reader has tested `id` against the count.
unfoldable pub policy : ℕ → Policy
policy id = get_or k_policy id (policy_row minor log_only 0)
