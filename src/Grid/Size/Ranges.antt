-- ===== src/Grid/Size/Ranges.antt =====
-- The ranges of global voxel indices that `size_grid` gives to the processes.
use vpic.Prelude.{
  ℕ, ◌+◌, ◌≤◌, ◌<◌, ◌≡◌, refl, sym, ◌∙◌, arith, update, update_self, update_ne, for_range,
  for_range_inv, sum_below, sum_below-add-one, sum_below_mono, sum_below-congr,
}
use native.Mathlib.Decide.{dec_lt}
use vpic.Grid.State.{World}
use vpic.Grid.Size.{make_range, sum_range}

record Summed (nv : ℕ → ℕ) (i : ℕ) (s : (ℕ → ℕ) × ℕ) : Type 0 where
  total : s.1 ≡ sum_below nv i
  done : (k : ℕ) → k < i → s.0 k ≡ sum_below nv k
  left : (k : ℕ) → i ≤ k → s.0 k ≡ nv k

sum_range-Summed :
    (nv : ℕ → ℕ) (i : ℕ) (s : (ℕ → ℕ) × ℕ) → Summed nv i s → Summed nv (i + 1) (sum_range i s)
sum_range-Summed nv i s h = record {
  total = rw (h.total, h.left i (omega arith)) (sym (sum_below-add-one nv i));
  done = λ k lt. elim (dec_lt k i) [
    | yes p ↦ update_ne s.0 i k s.1 (omega arith) ∙ h.done k p
    | no p ↦ let e : k ≡ i = omega arith in rw e (update_self s.0 i s.1 ∙ h.total)
  ];
  left = λ k le. update_ne s.0 i k s.1 (omega arith) ∙ h.left k (omega arith);
}

-- The range of a process begins behind all voxels of the processes before it.
pub make_range_lem : (w : World) (r : ℕ) → r ≤ w.size → make_range w r ≡ sum_below w.all_nv r
unfolding make_range sum_below
make_range_lem w r h =
    summed.done r (omega arith)
    ∙ sum_below-congr gathered w.all_nv r (λ k lt. update_ne w.all_nv w.size k 0 (omega arith))
  where
    gathered : ℕ → ℕ
    gathered = update w.all_nv w.size 0

    summed : Summed gathered (w.size + 1) (for_range (w.size + 1) 0 sum_range (gathered, 0))
    summed =
        for_range_inv (Summed gathered) sum_range (w.size + 1) 0 (w.size + 1) (gathered, 0)
          (omega arith) (λ k t lo hi. sum_range-Summed gathered k t)
          (record { total = refl; done = λ k lt. absurd (omega arith); left = λ k le. refl })

-- The range of process 0 begins at 0, each process has as many global indices as it has voxels, and
-- the range of a process begins where those of all processes before it have ended, up to the end of
-- the last one.
pub make_range_disjoint :
    (w : World) (r q : ℕ)
    → r < q
    → q ≤ w.size
    → (make_range w 0 ≡ 0)
      × (make_range w (r + 1) ≡ make_range w r + w.all_nv r)
      × (make_range w (r + 1) ≤ make_range w q)
unfolding sum_below
make_range_disjoint w r q h k =
    let start = make_range_lem w r (omega arith) in
    let end = make_range_lem w (r + 1) (omega arith) in
    let next = sum_below-add-one w.all_nv r in
    (
      make_range_lem w 0 (omega arith),
      omega arith,
      omega (
        arith,
        make_range_lem w q (omega arith),
        sum_below_mono w.all_nv (r + 1) q (omega arith),
      ),
    )
