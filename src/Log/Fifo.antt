-- ===== src/Log/Fifo.antt =====
-- The log against a list of at most `log_depth` records, oldest first.
use mathlib.Core.List.{append-nil, append_assoc}
use qiran_firmware.Base.{ℕ, zero, suc, min, refl, sym, ap, List, [], arith, dec_lt}
use qiran_firmware.Base.{ℕ_discrete, ltb, length, length-append, take, u32, sub32, take_pos}
use qiran_firmware.Base.{take-nil, ◌+◌, ◌-◌, ◌<◌, ◌≡◌, ◌∙◌, ◌∷◌, ◌++◌, if◌then◌else◌}
use qiran_firmware.Window.{window, length-window}
use qiran_firmware.Window.Counter.{
  IsCounted, counter_append, counter_split, counted_write, counted_read,
}
use qiran_firmware.Log.{LogRecord, Log, Category, log_depth, log_mask, is_fault, push, init, read}

pub record IsValid (s : Log) : Type 0 where
  pub counted : IsCounted 7 log_mask s.head s.tail

abbrev pub contents : Log → List LogRecord
contents s = window log_depth s.buf s.tail (sub32 s.head s.tail)

pub length-contents : (s : Log) → length (contents s) ≡ sub32 s.head s.tail
length-contents s = length-window log_depth s.buf s.tail (sub32 s.head s.tail)

pub init-IsValid : (s : Log) → IsValid (init s)
unfolding init
init-IsValid s = omega arith

module _ (tick code : ℕ) (category : Category) (severity detail : ℕ) where
  abbrev pub entry : LogRecord
  entry = record {
    tick = tick;
    detail = detail;
    code = code;
    severity = severity;
    category = category;
  }

  pub push-IsValid : (s : Log) → IsValid s → IsValid (push tick code category severity detail s)
  unfolding push
  push-IsValid s v = record { counted = ground (arith, counted_write v.counted) }

  -- A write appends the record behind those held, and on a full log changes none of them.
  pub contents-push :
      (s : Log)
      → IsValid s
      → contents (push tick code category severity detail s)
        ≡ (if ltb (length (contents s)) log_depth then contents s ++ (entry ∷ []) else contents s)
  unfolding push
  contents-push s v = ground (arith, length-contents s, counter_append v.counted s.buf entry)

  -- Every write is counted, a fault entry also as such, kept or not; a drop is counted exactly when
  -- the log was full.
  pub push_counts :
      (s : Log)
      → let s' = push tick code category severity detail s in
        (s'.total ≡ u32 (s.total + 1))
        × (s'.fault_total ≡ (if is_fault category then u32 (s.fault_total + 1) else s.fault_total))
        × (s'.dropped
            ≡ (if ltb (length (contents s)) log_depth then s.dropped else u32 (s.dropped + 1)))
  unfolding push
  push_counts s = ground (arith, length-contents s)

abbrev pub push_entry : LogRecord → Log → Log
push_entry e s = push e.tick e.code e.category e.severity e.detail s

push_entry-IsValid : (e : LogRecord) (s : Log) → IsValid s → IsValid (push_entry e s)
push_entry-IsValid e = push-IsValid e.tick e.code e.category e.severity e.detail

push_entry_room :
    (e : LogRecord) (s : Log)
    → IsValid s
    → length (contents s) < log_depth
    → contents (push_entry e s) ≡ contents s ++ (e ∷ [])
push_entry_room e s v h =
    ground (arith, contents-push e.tick e.code e.category e.severity e.detail s v)

push_entry_full :
    (e : LogRecord) (s : Log)
    → IsValid s
    → ¬ (length (contents s) < log_depth)
    → contents (push_entry e s) ≡ contents s
push_entry_full e s v h =
    ground (arith, contents-push e.tick e.code e.category e.severity e.detail s v)

pub push_all : List LogRecord → Log → Log
push_all [] s = s
push_all (e ∷ es) s = push_all es (push_entry e s)

push_all-append :
    (es : List LogRecord) (s : Log)
    → IsValid s
    → contents (push_all es s) ≡ contents s ++ take (log_depth - length (contents s)) es
unfolding push_all
push_all-append [] s v =
    sym (append-nil (contents s))
    ∙ ap (λ (l : List LogRecord). contents s ++ l)
        (sym (take-nil (log_depth - length (contents s))))
push_all-append (e ∷ es) s v = elim (dec_lt (length (contents s)) log_depth) [
  | yes room ↦ ground (
    arith,
    push_all-append es (push_entry e s) (push_entry-IsValid e s v),
    push_entry_room e s v room,
    length-append (contents s) (e ∷ []),
    append_assoc (contents s) (e ∷ []) (take (log_depth - length (contents s) - 1) es),
    take_pos (log_depth - length (contents s)) e es,
  )
  | no full ↦ ground (
    arith,
    push_all-append es (push_entry e s) (push_entry-IsValid e s v),
    push_entry_full e s v full,
  )
]

-- Of any sequence of writes to a fresh log, whatever it was before, the first `log_depth` are held,
-- in order: a cascade never displaces the fault that started it.
pub push_all-contents :
    (es : List LogRecord) (s : Log) → contents (push_all es (init s)) ≡ take log_depth es
unfolding init
push_all-contents es s = push_all-append es (init s) (init-IsValid s)

-- What `svc_log_read` hands over, with what is left.
pub record HasRead (s : Log) (limit : ℕ) (result : List LogRecord × Log) : Type 0 where
  pub valid : IsValid result.1
  pub in_order : result.0 ++ contents result.1 ≡ contents s
  pub as_many : length result.0 ≡ min limit (length (contents s))

-- On a valid log `svc_log_read` returns the oldest records in order, as many as are held up to
-- `max`, and leaves the rest in a valid log.
pub log_read-HasRead : (limit : ℕ) (s : Log) → IsValid s → HasRead s limit (read s limit)
unfolding read
log_read-HasRead zero s v = record { valid = v; in_order = refl; as_many = omega arith }
log_read-HasRead (suc limit) s v = elim (ℕ_discrete s.head s.tail) [
  | yes empty ↦ record {
    valid = ground (arith, empty, v);
    in_order = ground (arith, empty);
    as_many = ground (arith, empty, length-contents s);
  }
  | no ne ↦
      let rest =
        log_read-HasRead limit (record s { tail = u32 (s.tail + 1) })
          (record { counted = counted_read v.counted ne }) in
      record {
        valid = ground (arith, rest.valid);
        in_order = ground (arith, rest.in_order, counter_split v.counted s.buf ne);
        as_many = ground (arith, rest.as_many, counter_split v.counted s.buf ne);
      }
]
