-- ===== src/Spw/States.antt =====
-- The states of the link, and when it gives up.
use qiran_firmware.Base.{ℕ, zero, suc, refl, sym, ap, subst, inl, inr, true, false, Option}
use qiran_firmware.Base.{none, some, Bool-cases, u32, ◌+◌, ◌≡◌, ◌∙◌, ◌≢◌, ◌⊎◌, ◌&&◌, ◌==◌}
use qiran_firmware.Base.{if◌then◌else◌}
use qiran_firmware.Status.{is_ok}
use qiran_firmware.Fault
use qiran_firmware.Services.{Services, expired}
use qiran_firmware.Fdir.{report, retries_exhausted}
use qiran_firmware.Spw.{
  Spw, State, Ops, LinkState, down, starting, run, failed, hand_on, deliver_round, deliver_received,
  start_refused, service_down, start_overdue, service_starting, watch_run, service_run, service_in,
  service, rx_bytes,
}

-- One service of the link.
pub data Move : LinkState → LinkState → Type 0 where
  refused : Move down down
  given_up : Move down failed
  commanded : Move down starting
  waiting : Move starting starting
  established : Move starting run
  undone : Move starting down
  abandoned : Move starting failed
  kept : Move run run
  disconnected : Move run down
  over : Move failed failed

-- The state moves, and the link is only given up when the retries of its class are spent.
abbrev pub Moves : LinkState → LinkState → Services → Type 0
Moves a b s =
    Move a b × ((a ≡ failed) ⊎ ((b ≢ failed) ⊎ (retries_exhausted Fault.spw_link s ≡ true)))

pub starting_ne_failed : starting ≢ failed
starting_ne_failed e = cc e

pub down_ne_failed : down ≢ failed
down_ne_failed e = cc e

pub run_ne_failed : run ≢ failed
run_ne_failed e = cc e

kept-Moves : (x : LinkState) (s : Services) → x ≡ run → Moves run x s
kept-Moves x s e = rw e (kept, inr (inl run_ne_failed))

-- What holds of a result, if there is one.
abbrev pub Holds : {A : Type 0} → (A → Type 0) → Option A → Type 0
Holds P none = Unit
Holds P (some a) = P a

pub Holds-map :
    {A : Type 0} {P Q : A → Type 0} (o : Option A) → ((a : A) → P a → Q a) → Holds P o → Holds Q o
Holds-map none f h = tt
Holds-map (some a) f h = f a h

module _ {W : Type 0} where
  hand_on_state : (n : ℕ) (st : State W) → (hand_on n st).spw.state ≡ st.spw.state
  unfolding hand_on
  hand_on_state n st = elim (Bool-cases (n == 0)) [ inl e ↦ rw e refl | inr e ↦ rw e refl ]

  deliver_round_state :
      (ops : Ops W) (st : State W) → (deliver_round ops st).1.spw.state ≡ st.spw.state
  unfolding deliver_round
  deliver_round_state ops st = hand_on_state _ _

  never :
      (ops : Ops W) (st : State W)
      → Holds (λ st'. st'.spw.state ≡ st.spw.state) (deliver_received 0 ops st)
  unfolding deliver_received
  never ops st = tt

  pub deliver_step :
      (fuel : ℕ) (ops : Ops W) (st : State W)
      → deliver_received (suc fuel) ops st ≡ (
          if (deliver_round ops st).0 == rx_bytes
          then deliver_received fuel ops (deliver_round ops st).1
          else some (deliver_round ops st).1)
  unfolding deliver_received
  deliver_step fuel ops st = refl

  -- Deliveries do not touch the state of the link.
  deliver_state :
      (fuel : ℕ) (ops : Ops W) (st : State W)
      → Holds (λ st'. st'.spw.state ≡ st.spw.state) (deliver_received fuel ops st)
  deliver_state zero ops st = never ops st
  deliver_state (suc fuel) ops st =
      let next = (deliver_round ops st).1 in
      let same = deliver_round_state ops st in
      subst (Holds (λ st'. st'.spw.state ≡ st.spw.state)) (sym (deliver_step fuel ops st))
        (elim (Bool-cases ((deliver_round ops st).0 == rx_bytes)) [
          | inl full ↦ rw full (
              Holds-map (deliver_received fuel ops next) (λ st' e. e ∙ same)
                (deliver_state fuel ops next))
          | inr last ↦ rw last same
        ])

  start_refused-Moves :
      (l : Spw W) (s : Services)
      → l.state ≡ down
      → let (l', s') = start_refused l s in Moves down l'.state s'
  unfolding start_refused
  start_refused-Moves l s e =
      elim (Bool-cases (retries_exhausted Fault.spw_link (report Fault.spw_link 0 s))) [
        | inl spent ↦ rw spent (given_up, inr (inr refl))
        | inr more ↦ rw (more, e) (refused, inr (inl down_ne_failed))
      ]

  service_down-Moves :
      (budget : ℕ) (ops : Ops W) (l : Spw W) (w : W) (s : Services)
      → l.state ≡ down
      → let (l', w', s') = service_down budget ops l w s in Moves down l'.state s'
  unfolding service_down
  service_down-Moves budget ops l w s e = elim (Bool-cases (is_ok (ops.start w).0)) [
    | inl good ↦ rw good (commanded, inr (inl starting_ne_failed))
    | inr bad ↦ rw bad (start_refused-Moves (record l { attempts = u32 (l.attempts + 1) }) s e)
  ]

  start_overdue-Moves :
      (l : Spw W) (s : Services) → let (l', s') = start_overdue l s in Moves starting l'.state s'
  unfolding start_overdue
  start_overdue-Moves l s =
      elim (Bool-cases (retries_exhausted Fault.spw_link (report Fault.spw_link l.status_word s))) [
        | inl spent ↦ rw spent (abandoned, inr (inr refl))
        | inr more ↦ rw more (undone, inr (inl down_ne_failed))
      ]

  service_starting-Moves :
      (ops : Ops W) (l : Spw W) (w : W) (s : Services)
      → l.state ≡ starting
      → let (l', w', s') = service_starting ops l w s in Moves starting l'.state s'
  unfolding service_starting
  service_starting-Moves ops l w s e =
      let (st, up, word, w') = ops.status false l.status_word w in
      let (late, s') = expired l.start_budget s in
      elim (Bool-cases (is_ok st)) [
        | inr bad ↦ rw bad (undone, inr (inl down_ne_failed))
        | inl good ↦ rw good (elim (Bool-cases up) [
          | inl yes_up ↦ rw yes_up (established, inr (inl run_ne_failed))
          | inr not_up ↦ rw not_up (elim (Bool-cases late) [
            | inl over_time ↦
                rw over_time (start_overdue-Moves (record l { status_word = word }) s')
            | inr in_time ↦ rw (in_time, e) (waiting, inr (inl starting_ne_failed))
          ])
        ])
      ]

  watch_run_state :
      (ops : Ops W) (l : Spw W) (w : W) (s : Services)
      → l.state ≡ run
      → let (up, l', w', s') = watch_run ops l w s in
        ((up ≡ true) × (l'.state ≡ run)) ⊎ ((up ≡ false) × (l'.state ≡ down))
  unfolding watch_run
  watch_run_state ops l w s e =
      let (st, up, word, w') = ops.status false l.status_word w in
      elim (Bool-cases (is_ok st && up)) [
        | inl good ↦ inl (rw good refl, rw good e)
        | inr bad ↦ inr (rw bad refl, rw bad refl)
      ]

  service_run-Moves :
      (fuel : ℕ) (ops : Ops W) (st : State W)
      → st.spw.state ≡ run
      → Holds (λ st'. Moves run st'.spw.state st'.services) (service_run fuel ops st)
  unfolding service_run
  service_run-Moves fuel ops st e =
      let (up, l, w, s) = watch_run ops st.spw st.world st.services in
      elim (watch_run_state ops st.spw st.world st.services e) [
        | inl (good, same) ↦ rw good (
            Holds-map (deliver_received fuel ops (record st { spw = l; world = w; services = s }))
              (λ st' f. kept-Moves _ st'.services (f ∙ same))
              (deliver_state fuel ops (record st { spw = l; world = w; services = s })))
        | inr (bad, same) ↦ rw (bad, same) (disconnected, inr (inl down_ne_failed))
      ]

  service_in-Moves :
      (x : LinkState) (budget fuel : ℕ) (ops : Ops W) (st : State W)
      → st.spw.state ≡ x
      → Holds (λ st'. Moves x st'.spw.state st'.services) (service_in x budget fuel ops st)
  unfolding service_in
  service_in-Moves down budget fuel ops st e =
      service_down-Moves budget ops st.spw st.world st.services e
  service_in-Moves starting budget fuel ops st e =
      service_starting-Moves ops st.spw st.world st.services e
  service_in-Moves run budget fuel ops st e = service_run-Moves fuel ops st e
  service_in-Moves failed budget fuel ops st e = rw e (over, inl refl)

  pub service_with_ops :
      (budget fuel : ℕ) (ops : Ops W) (st : State W)
      → st.spw.ops ≡ some ops
      → service budget fuel st ≡ service_in st.spw.state budget fuel ops st
  unfolding service
  service_with_ops budget fuel ops st e =
      ap
        (λ (o : Option (Ops W)). elim o [
          | none ↦ some st
          | some ops ↦ service_in st.spw.state budget fuel ops st
        ])
        e

  -- Whatever the device answers, one service of a link with operations moves its state along the
  -- start sequence only: down, starting, run, and back to down. It never runs without having been
  -- started, it is given up only when the retries of its class are spent, and once given up it
  -- stays so.
  pub service-Moves :
      (budget fuel : ℕ) (ops : Ops W) (st st' : State W)
      → st.spw.ops ≡ some ops
      → service budget fuel st ≡ some st'
      → Moves st.spw.state st'.spw.state st'.services
  service-Moves budget fuel ops st st' e f =
      subst (Holds (λ st'. Moves st.spw.state st'.spw.state st'.services))
        (sym (service_with_ops budget fuel ops st e) ∙ f)
        (service_in-Moves st.spw.state budget fuel ops st refl)
