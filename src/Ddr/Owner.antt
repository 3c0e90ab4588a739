-- ===== src/Ddr/Owner.antt =====
-- Only its owner can change a region.
use qiran_firmware.Base.{ℕ, refl, sym, ap, subst, none, some, List, [], arith, ◌≡◌, ◌∙◌, ◌≢◌}
use qiran_firmware.Base.{◌⊎◌, ◌∷◌}
use qiran_firmware.Services.{Services}
use qiran_firmware.Ddr.{Ddr, Region, owner_none, set_region, handoff, clear, append, set_used, read}
use qiran_firmware.Ddr.Valid.{
  DdrOp, set_region_op, handoff_op, clear_op, append_op, set_used_op, read_op, run_op, run_ops,
}

-- The call does not claim to be made by the owner `o` of region `i`.
abbrev pub NotBy : ℕ → ℕ → DdrOp → Type 0
NotBy i o (set_region_op j base bytes) = Unit
NotBy i o (handoff_op j from to) = (j ≢ i) ⊎ (from ≢ o)
NotBy i o (clear_op j from) = (j ≢ i) ⊎ (from ≢ o)
NotBy i o (append_op j owner src len) = (j ≢ i) ⊎ (owner ≢ o)
NotBy i o (set_used_op j owner used) = (j ≢ i) ⊎ (owner ≢ o)
NotBy i o (read_op j owner) = Unit

run_op_owned :
    (i : ℕ) (op : DdrOp) (d : Ddr) (s : Services)
    → (d.region i).owner ≢ owner_none
    → NotBy i (d.region i).owner op
    → (run_op op d s).0.region i ≡ d.region i
unfolding run_op set_region handoff clear append set_used read
run_op_owned i (set_region_op j none bytes) d s owned h = refl
run_op_owned i (set_region_op j (some base) bytes) d s owned h = ground (arith, owned, h)
run_op_owned i (handoff_op j from to) d s owned h = ground (arith, owned, h)
run_op_owned i (clear_op j from) d s owned h = ground (arith, owned, h)
run_op_owned i (append_op j owner none len) d s owned h = refl
run_op_owned i (append_op j owner (some src) len) d s owned h = ground (arith, owned, h)
run_op_owned i (set_used_op j owner used) d s owned h = ground (arith, owned, h)
run_op_owned i (read_op j owner) d s owned h = ground (arith, owned, h)

abbrev pub AllNotBy : ℕ → ℕ → List DdrOp → Type 0
AllNotBy i o [] = Unit
AllNotBy i o (op ∷ ops) = NotBy i o op × AllNotBy i o ops

-- While a region is owned, no sequence of calls by others changes its base, its capacity, its use
-- or its owner, and so no reconfiguration moves it.
pub owned_region :
    (i : ℕ) (ops : List DdrOp) (d : Ddr) (s : Services)
    → (d.region i).owner ≢ owner_none
    → AllNotBy i (d.region i).owner ops
    → (run_ops ops d s).0.region i ≡ d.region i
unfolding run_ops
owned_region i [] d s owned h = refl
owned_region i (op ∷ ops) d s owned h =
    let (d', s') = run_op op d s in
    let e = run_op_owned i op d s owned h.0 in
    let o = ap (λ (r : Region). r.owner) e in
    owned_region i ops d' s' (λ z. owned (sym o ∙ z)) (subst (λ k. AllNotBy i k ops) (sym o) h.1)
    ∙ e
