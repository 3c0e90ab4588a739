-- ===== src/Fdir/Report.antt =====
-- Reports count, and the answer to "are the retries spent" is the same before and after the
-- loop's pass over the faults.
use qiran_firmware.Base.{ℕ, arith, ltb, u32, ◌+◌, ◌^◌, ◌<◌, ◌≡◌, ◌&&◌, ◌==◌, if◌then◌else◌}
use qiran_firmware.Fault.{fault_count}
use qiran_firmware.Services.{Services}
use qiran_firmware.Fdir.{report, occurrences, clear}

-- The counters of a class are 32-bit words.
pub record IsCounting (id : ℕ) (s : Services) : Type 0 where
  pub reported_word : s.fdir.reported id < 2 ^ 32
  pub serviced_word : s.fdir.serviced id < 2 ^ 32
  pub occurrences_word : (s.fdir.records id).occurrences < 2 ^ 32

pub report-IsCounting :
    (id j detail : ℕ) (s : Services) → IsCounting id s → IsCounting id (report j detail s)
unfolding report
report-IsCounting id j detail s v = ground arith

-- With its counters 32-bit words, a class in the table has one occurrence more (modulo 2 ^ 32) as soon
-- as it is reported, before any service pass, and none more when another class is reported; a class
-- outside the table has none.
pub occurrences-report :
    (id j detail : ℕ) (s : Services)
    → IsCounting id s
    → occurrences id (report j detail s)
      ≡ (if ltb id fault_count && (id == j) then u32 (occurrences id s + 1) else occurrences id s)
unfolding occurrences report
occurrences-report id j detail s v = ground arith

-- With its counters 32-bit words, a class has no occurrences once it is cleared, and clearing another
-- class does not change how many it has.
pub occurrences-clear :
    (id j : ℕ) (s : Services)
    → IsCounting id s
    → occurrences id (clear j s) ≡ (if id == j then 0 else occurrences id s)
unfolding occurrences clear
occurrences-clear id j s v = ground arith

-- Both depend on the state of fault management alone.
pub occurrences_fdir :
    (f : ℕ) (s t : Services) → t.fdir ≡ s.fdir → occurrences f t ≡ occurrences f s
unfolding occurrences
occurrences_fdir f s t e = ground (arith, e)

pub IsCounting-fdir : (f : ℕ) (s t : Services) → t.fdir ≡ s.fdir → IsCounting f s → IsCounting f t
IsCounting-fdir f s t e v = ground (arith, e)
