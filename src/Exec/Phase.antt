-- ===== src/Exec/Phase.antt =====
-- The executive keeps phase with the interrupts, however far the loop falls behind.
use qiran_firmware.Base.{ℕ, zero, suc, refl, sym, ap₂, subst, arith, u32, sub32, ◌+◌, ◌-◌}
use qiran_firmware.Base.{◌/◌, ◌%◌, ◌^◌, ◌≤◌, ◌<◌, ◌≡◌}
use qiran_firmware.Exec.{
  Exec, init, reduce, advance, on_minor_tick, ticks, resync, collect, count_overrun, collect_majors,
  end_body,
}

-- Enough rounds of the loop of `advance` leave the remainder.
pub reduce-mod : (fuel slot : ℕ) → slot ≤ fuel → reduce fuel slot ≡ slot % 25
unfolding reduce
reduce-mod zero slot h = ground arith
reduce-mod (suc fuel) slot h = ground (arith, reduce-mod fuel (slot - 25))

-- The counters after `t` interrupts, where the loop last collected tick `c`.
pub record IsCounted (t c : ℕ) (e : Exec) : Type 0 where
  pub behind : c ≤ t
  pub ticks_counted : e.isr_ticks ≡ t % 2 ^ 32
  pub majors_counted : e.isr_majors ≡ (t / 25) % 2 ^ 32
  pub position_counted : e.isr_position ≡ t % 25
  pub consumed_counted : e.consumed ≡ c % 2 ^ 32
  pub slot_counted : e.slot ≡ c % 25
  pub elapsed_counted : e.elapsed_minor ≡ c % 2 ^ 64

pub init-IsCounted : IsCounted 0 0 init
unfolding init
init-IsCounted = ground arith

pub tick-IsCounted : (t c : ℕ) (e : Exec) → IsCounted t c e → IsCounted (t + 1) c (on_minor_tick e)
unfolding on_minor_tick
tick-IsCounted t c e v = ground arith

pub ticks-IsCounted : (n t c : ℕ) (e : Exec) → IsCounted t c e → IsCounted (t + n) c (ticks n e)
unfolding ticks
ticks-IsCounted zero t c e v = subst (λ k. IsCounted k c e) (omega arith) v
ticks-IsCounted (suc n) t c e v =
    subst (λ k. IsCounted k c (ticks n (on_minor_tick e))) (omega arith)
      (ticks-IsCounted n (t + 1) c (on_minor_tick e) (tick-IsCounted t c e v))

-- The counters do not depend on how late the loop is.
abbrev pub Near : ℕ → ℕ → Type 0
Near t c = t < c + 2 ^ 32 - 25

collect_majors-IsCounted : (t c : ℕ) (e : Exec) → IsCounted t c e → IsCounted t c (collect_majors e)
unfolding collect_majors
collect_majors-IsCounted t c e v = ground arith

count_overrun-IsCounted :
    (t c pending : ℕ) (e : Exec) → IsCounted t c e → IsCounted t c (count_overrun pending e)
unfolding count_overrun
count_overrun-IsCounted t c pending e v = ground arith

taken-IsCounted :
    (t c pending : ℕ) (e : Exec)
    → Near t c
    → IsCounted t c e
    → pending ≡ sub32 e.isr_ticks e.consumed
    → IsCounted t t (advance pending (record e { consumed = e.isr_ticks }))
unfolding advance
taken-IsCounted t c pending e near v same =
    let few : pending ≡ t - c = ground (arith, near) in
    let slot = u32 (e.slot + pending) in ground (arith, near, few, reduce-mod slot slot)

count_overrun_ticks :
    (pending : ℕ) (e : Exec)
    → let e' = count_overrun pending e in (e'.isr_ticks ≡ e.isr_ticks) × (e'.consumed ≡ e.consumed)
unfolding count_overrun
count_overrun_ticks pending e = ground arith

-- A collection before it looks at the majors.
abbrev pub gathered : ℕ → Exec → Exec
gathered late e =
    let pending = sub32 e.isr_ticks e.consumed in
    ticks late (advance pending (record (count_overrun pending e) { consumed = e.isr_ticks }))

pub gathered-IsCounted :
    (t c late : ℕ) (e : Exec)
    → Near t c
    → IsCounted t c e
    → IsCounted (t + late) t (gathered late e)
gathered-IsCounted t c late e near v =
    let pending = sub32 e.isr_ticks e.consumed in
    let o = count_overrun pending e in
    let (same, kept) = count_overrun_ticks pending e in
    ticks-IsCounted late t t (advance pending (record o { consumed = e.isr_ticks })) (
      subst (λ k. IsCounted t t (advance pending (record o { consumed = k }))) same
        (taken-IsCounted t c pending o near (count_overrun-IsCounted t c pending e v)
          (sym (ap₂ sub32 same kept))))

pub collect-IsCounted :
    (t c late cycles : ℕ) (e : Exec)
    → Near t c
    → IsCounted t c e
    → IsCounted (t + late) t (collect late cycles e)
unfolding collect
collect-IsCounted t c late cycles e near v =
    let w =
      collect_majors-IsCounted (t + late) t (gathered late e)
        (gathered-IsCounted t c late e near v) in
    ground (arith, w)

pub resync-IsCounted :
    (t c late cycles : ℕ) (e : Exec)
    → Near t c
    → IsCounted t c e
    → IsCounted (t + late) t (resync late cycles e)
unfolding resync advance
resync-IsCounted t c late cycles e near v =
    let e' = record (advance (sub32 e.isr_ticks e.consumed) e) { consumed = e.isr_ticks } in
    let at : IsCounted t t e' = taken-IsCounted t c (sub32 e.isr_ticks e.consumed) e near v refl in
    let w = ticks-IsCounted late t t e' at in ground (arith, w)

-- What the interrupt and the loop do, in any order: `t` interrupts were taken and the loop last
-- collected tick `c`. The loop may fall behind by anything less than the range of its counters.
pub data Reach : ℕ → ℕ → Exec → Type 0 where
  start : Reach 0 0 init
  interrupt : {t c : ℕ} {e : Exec} → Reach t c e → Reach (t + 1) c (on_minor_tick e)
  collected :
      {t c : ℕ} {e : Exec} (late cycles : ℕ)
      → Near t c
      → Reach t c e
      → Reach (t + late) t (collect late cycles e)
  body_ended : {t c : ℕ} {e : Exec} (cycles : ℕ) → Reach t c e → Reach t c (end_body cycles e)
  resynced :
      {t c : ℕ} {e : Exec} (late cycles : ℕ)
      → Near t c
      → Reach t c e
      → Reach (t + late) t (resync late cycles e)

end_body-IsCounted :
    (t c cycles : ℕ) (e : Exec) → IsCounted t c e → IsCounted t c (end_body cycles e)
unfolding end_body
end_body-IsCounted t c cycles e v = ground arith

-- In every state that the interrupt and the loop can reach, the slot is the tick that the loop
-- last collected modulo 25, the elapsed count is that tick (modulo 2 ^ 64), and the interrupt's
-- own counters are those of the ticks taken, modulo their widths. The loop may fall behind by
-- fewer than 2 ^ 32 - 25 ticks.
pub Reach-IsCounted : (t c : ℕ) (e : Exec) → Reach t c e → IsCounted t c e
Reach-IsCounted _ _ _ start = init-IsCounted
Reach-IsCounted _ _ _ (interrupt {t} {c} {e} r) = tick-IsCounted t c e (Reach-IsCounted t c e r)
Reach-IsCounted _ _ _ (collected {t} {c} {e} late cycles near r) =
    collect-IsCounted t c late cycles e near (Reach-IsCounted t c e r)
Reach-IsCounted _ _ _ (body_ended {t} {c} {e} cycles r) =
    end_body-IsCounted t c cycles e (Reach-IsCounted t c e r)
Reach-IsCounted _ _ _ (resynced {t} {c} {e} late cycles near r) =
    resync-IsCounted t c late cycles e near (Reach-IsCounted t c e r)
