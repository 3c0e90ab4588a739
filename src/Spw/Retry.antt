-- ===== src/Spw/Retry.antt =====
-- When the link is given up: a refused start counts against the retries of its class, a status that
-- cannot be read is reported likewise but does not.
use qiran_firmware.Base.{ℕ, zero, suc, refl, ap, subst, Bool, false, Option, none, some}
use qiran_firmware.Base.{arith, u32, ◌+◌, ◌≡◌, ◌∙◌}
use qiran_firmware.Status.{Status, is_ok}
use qiran_firmware.Fault
use qiran_firmware.Fault.{fault_count, policy}
use qiran_firmware.Services.{Services, arm}
use qiran_firmware.Fdir.{report, occurrences}
use qiran_firmware.Fdir.Report.{
  IsCounting, report-IsCounting, occurrences-report, occurrences_fdir, IsCounting-fdir,
}
use qiran_firmware.Spw.{
  State, Ops, LinkState, down, starting, service_down, service_starting, service_in, service,
}
use qiran_firmware.Spw.States.{service_with_ops}

arm_fdir : (ms : ℕ) (s : Services) → (arm ms s).1.fdir ≡ s.fdir
unfolding arm
arm_fdir ms s = refl

report_counts :
    (n detail : ℕ) (s : Services)
    → IsCounting Fault.spw_link s
    → occurrences Fault.spw_link s ≡ u32 n
    → occurrences Fault.spw_link (report Fault.spw_link detail s) ≡ u32 (n + 1)
report_counts n detail s v e =
    occurrences-report Fault.spw_link Fault.spw_link detail s v ∙ ground (arith, e)

module _ {W : Type 0} where
  -- A device whose starts succeed and whose status cannot be read.
  pub record IsUnreadable (ops : Ops W) : Type 0 where
    pub starts : (w : W) → (ops.start w).0 ≡ Status.ok
    pub unreadable : (up : Bool) (word : ℕ) (w : W) → is_ok (ops.status up word w).0 ≡ false

  -- The state after a service: where the link is, and what the class has counted.
  pub record Counts (ops : Ops W) (x : LinkState) (n : ℕ) (st : State W) : Type 0 where
    pub attached : st.spw.ops ≡ some ops
    pub in_state : st.spw.state ≡ x
    pub counting : IsCounting Fault.spw_link st.services
    pub counted : occurrences Fault.spw_link st.services ≡ u32 n

  start-Counts :
      (budget fuel : ℕ) (ops : Ops W) (n : ℕ) (st : State W)
      → IsUnreadable ops
      → Counts ops down n st
      → (st' : State W) × (service_in down budget fuel ops st ≡ some st')
        × Counts ops starting n st'
  unfolding service_in service_down
  start-Counts budget fuel ops n st u c =
      let (l, w, s) = service_down budget ops st.spw st.world st.services in
      (
        record st { spw = l; world = w; services = s },
        refl,
        rw (u.starts st.world) (record {
          attached = c.attached;
          in_state = refl;
          counting =
              IsCounting-fdir Fault.spw_link st.services (arm budget st.services).1
                (arm_fdir budget st.services) c.counting;
          counted =
              occurrences_fdir Fault.spw_link st.services (arm budget st.services).1
                (arm_fdir budget st.services)
              ∙ c.counted;
        }),
      )

  unread-Counts :
      (budget fuel : ℕ) (ops : Ops W) (n : ℕ) (st : State W)
      → IsUnreadable ops
      → Counts ops starting n st
      → (st' : State W) × (service_in starting budget fuel ops st ≡ some st')
        × Counts ops down (n + 1) st'
  unfolding service_in service_starting
  unread-Counts budget fuel ops n st u c =
      let (l, w, s) = service_starting ops st.spw st.world st.services in
      (
        record st { spw = l; world = w; services = s },
        refl,
        rw (u.unreadable false st.spw.status_word st.world) (record {
          attached = c.attached;
          in_state = refl;
          counting = report-IsCounting Fault.spw_link Fault.spw_link 0 st.services c.counting;
          counted = report_counts n 0 st.services c.counting c.counted;
        }),
      )

  -- `n` pairs of services.
  unfoldable pub serve_pairs : ℕ → ℕ → ℕ → State W → Option (State W)
  serve_pairs zero budget fuel st = some st
  serve_pairs (suc n) budget fuel st = elim (service budget fuel st) [
    | none ↦ none
    | some st1 ↦ elim (service budget fuel st1) [
      | none ↦ none
      | some st2 ↦ serve_pairs n budget fuel st2
    ]
  ]

  pair-Counts :
      (budget fuel : ℕ) (ops : Ops W) (n : ℕ) (st : State W)
      → IsUnreadable ops
      → Counts ops down n st
      → (st1 : State W) × (st2 : State W) × (service budget fuel st ≡ some st1)
        × (service budget fuel st1 ≡ some st2)
        × Counts ops down (n + 1) st2
  pair-Counts budget fuel ops n st u c =
      let (st1, e1, c1) = start-Counts budget fuel ops n st u c in
      let (st2, e2, c2) = unread-Counts budget fuel ops n st1 u c1 in
      (
        st1,
        st2,
        service_with_ops budget fuel ops st c.attached
            ∙ ap (λ x. service_in x budget fuel ops st) c.in_state
            ∙ e1,
        service_with_ops budget fuel ops st1 c1.attached
            ∙ ap (λ x. service_in x budget fuel ops st1) c1.in_state
            ∙ e2,
        c2,
      )

  pairs_step :
      (n budget fuel : ℕ) (st st1 st2 : State W)
      → service budget fuel st ≡ some st1
      → service budget fuel st1 ≡ some st2
      → serve_pairs (suc n) budget fuel st ≡ serve_pairs n budget fuel st2
  unfolding serve_pairs
  pairs_step n budget fuel st st1 st2 e f =
      ap
        (λ (o : Option (State W)). elim o [
          | none ↦ none
          | some st1 ↦ elim (service budget fuel st1) [
            | none ↦ none
            | some st2 ↦ serve_pairs n budget fuel st2
          ]
        ])
        e
      ∙ ap
          (λ (o : Option (State W)). elim o [
            | none ↦ none
            | some st2 ↦ serve_pairs n budget fuel st2
          ])
          f

  pairs_done : (budget fuel : ℕ) (st : State W) → serve_pairs 0 budget fuel st ≡ some st
  unfolding serve_pairs
  pairs_done budget fuel st = refl

  -- A link whose starts succeed and whose status cannot be read is never given up: after any
  -- number of pairs of services it is down again, to be started again, although each pair adds an
  -- occurrence to its class, whose limit is 3. It has operations, is down, and its class's
  -- counters are 32-bit words.
  pub unreadable-serve_pairs :
      (n k budget fuel : ℕ) (ops : Ops W) (st : State W)
      → IsUnreadable ops
      → Counts ops down k st
      → (st' : State W) × (serve_pairs n budget fuel st ≡ some st') × Counts ops down (k + n) st'
  unreadable-serve_pairs zero k budget fuel ops st u c =
      (st, pairs_done budget fuel st, subst (λ (m : ℕ). Counts ops down m st) (omega arith) c)
  unreadable-serve_pairs (suc n) k budget fuel ops st u c =
      let (st1, st2, e, f, c2) = pair-Counts budget fuel ops k st u c in
      let (st', g, c') = unreadable-serve_pairs n (k + 1) budget fuel ops st2 u c2 in
      (
        st',
        pairs_step n budget fuel st st1 st2 e f ∙ g,
        subst (λ (m : ℕ). Counts ops down m st') (omega arith) c',
      )
