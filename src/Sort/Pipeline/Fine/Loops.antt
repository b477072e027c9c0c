-- ===== src/Sort/Pipeline/Fine/Loops.antt =====
-- What the loops of one subsort of `subsort_pipeline_scalar` write.
use native.Mathlib.Decide.{dec_lt}
use vpic.Prelude.{
  ℕ, ◌+◌, ◌≤◌, ◌<◌, ◌≡◌, sym, ◌∙◌, ap, Option, arith, List, ◌⊎◌, get_elem?, update, update_self,
  update_ne,
}
use vpic.Sort.Scatter.{count, with_key, scatter, scatter_lem, scatter_skips}
use vpic.Sort.Legacy.{Particle, live, voxel_of, Partition}
use vpic.Sort.Legacy.Places.{Apart-sums}
use vpic.Sort.Runs.{IsFilled}
use vpic.Sort.Subsorts.{p2v_mono}
use vpic.Sort.Pipeline.{Args, Arrays, subsort_of}
use vpic.Sort.Pipeline.Fine.{
  all, in_voxel, place, total, first_voxel, slice, slice_range, count-slice, with_key-slice,
}
use vpic.Sort.Pipeline.Fine.Partial.{IsPartial, Ready, Sorted, converted, converted-IsPartial}

module _ {ℓ} {F : Type ℓ} (args : Args) (p : ℕ → Option (Particle F))
    (some_subsort : 0 < args.n_subsort) (ordered : args.vl ≤ args.vh)
    (filled : IsFilled p args.vl args.vh args.n 0) (aux : ℕ → Option (Particle F)) (cp : ℕ → ℕ)
    (bounds : (s : ℕ) → s ≤ args.n_subsort → cp s ≡ total args p s)
    (gathered : (s : ℕ)
      → s < args.n_subsort
      → live (count (subsort_of args) s (all args p)) (total args p s) aux
        ≡ slice args p some_subsort ordered filled s) where
  abbrev pub first : ℕ → ℕ
  first s = first_voxel args p s

  abbrev pub own : ℕ → List (Particle F)
  own s = slice args p some_subsort ordered filled s

  abbrev pub IsReady : Arrays F → Type ℓ
  IsReady a = Ready args p some_subsort ordered filled aux cp bounds gathered a

  abbrev pub IsSorted : ℕ → Arrays F → Type ℓ
  IsSorted s a = Sorted args p some_subsort ordered filled aux cp bounds gathered s a

  abbrev pub table : (next partition : ℕ → ℕ) (s : ℕ) → Partition
  table next partition s =
      converted args p some_subsort ordered filled aux cp bounds gathered next partition s

  grows : (s : ℕ) → first s ≤ first (s + 1)
  grows s = p2v_mono s args.n_subsort args.vl args.vh some_subsort

  partial :
      (next partition : ℕ → ℕ) (s : ℕ)
      → s < args.n_subsort
      → IsPartial
          (in_voxel args p)
          (first s)
          (first (s + 1))
          partition
          (first (s + 1))
          (table next partition s)
  partial next partition s hs =
      converted-IsPartial args p some_subsort ordered filled aux cp bounds gathered next partition s
        hs (grows s)

  -- What the loops of subsort `s` leave.
  abbrev pub partition_after : (next partition : ℕ → ℕ) (s : ℕ) → ℕ → ℕ
  partition_after next partition s =
      update (table next partition s).partition (first (s + 1)) (table next partition s).j

  abbrev pub p_after :
      (next partition : ℕ → ℕ) (q : ℕ → Option (Particle F)) (s : ℕ) → ℕ → Option (Particle F)
  p_after next partition q s = scatter voxel_of (own s) (table next partition s).next q

  pub partition_after_in :
      (next partition : ℕ → ℕ) (s v : ℕ)
      → s < args.n_subsort
      → first s ≤ v
      → v ≤ first (s + 1)
      → partition_after next partition s v ≡ place args p v
  partition_after_in next partition s v hs lo hi =
      let h = partial next partition s hs in
      elim (dec_lt v (first (s + 1))) [
        | yes lt ↦
            update_ne (table next partition s).partition (first (s + 1)) v
              (table next partition s).j (omega arith)
            ∙ h.starts v lo lt
        | no ge ↦
            let e : v ≡ first (s + 1) = omega (arith, hi, ge) in
            ap (partition_after next partition s) e
            ∙ update_self (table next partition s).partition (first (s + 1))
                (table next partition s).j
            ∙ h.total
            ∙ ap (place args p) (sym e)
      ]

  pub partition_after_out :
      (next partition : ℕ → ℕ) (s v : ℕ)
      → s < args.n_subsort
      → (v < first s) ⊎ (first (s + 1) < v)
      → partition_after next partition s v ≡ partition v
  partition_after_out next partition s v hs out =
      update_ne (table next partition s).partition (first (s + 1)) v (table next partition s).j
        (grind (arith, out, grows s))
      ∙ (partial next partition s hs).others v (grind (arith, out))

  copies :
      (next partition : ℕ → ℕ) (s v m : ℕ)
      → s < args.n_subsort
      → m < count voxel_of v (own s)
      → (table next partition s).next v ≡ place args p v
  copies next partition s v m hs lt =
      let (lo, hi, few) = slice_range args p some_subsort ordered filled s v m lt in
      (partial next partition s hs).copies v lo hi

  pub p_after_in :
      (next partition : ℕ → ℕ) (q : ℕ → Option (Particle F)) (s v m : ℕ)
      → s < args.n_subsort
      → first s ≤ v
      → v < first (s + 1)
      → m < in_voxel args p v
      → p_after next partition q s (place args p v + m)
        ≡ get_elem? (with_key voxel_of v (all args p)) m
  p_after_in next partition q s v m hs lo hi lt =
      let few : m < count voxel_of v (own s) =
        omega (arith, count-slice args p some_subsort ordered filled s v hs lo hi, lt) in
      ap (λ j. p_after next partition q s (j + m)) (sym (copies next partition s v m hs few))
      ∙ scatter_lem voxel_of (own s) (table next partition s).next q v m
          (λ w x a b ne ha hb e.
            let (wlo, whi, wfew) = slice_range args p some_subsort ordered filled s w a ha in
            let (xlo, xhi, xfew) = slice_range args p some_subsort ordered filled s x b hb in
            Apart-sums (in_voxel args p) w x a b ne wfew xfew (
              omega
                (arith, e, copies next partition s w a hs ha, copies next partition s x b hs hb)))
          few
      ∙ ap (λ l. get_elem? l m) (with_key-slice args p some_subsort ordered filled s v hs lo hi)

  pub p_after_out :
      (next partition : ℕ → ℕ) (q : ℕ → Option (Particle F)) (s v m : ℕ)
      → s < args.n_subsort
      → (v < first s) ⊎ (first (s + 1) ≤ v)
      → m < in_voxel args p v
      → p_after next partition q s (place args p v + m) ≡ q (place args p v + m)
  p_after_out next partition q s v m hs out lt =
      scatter_skips voxel_of (own s) (table next partition s).next q (place args p v + m)
        (λ w b hb e.
          let (lo, hi, few) = slice_range args p some_subsort ordered filled s w b hb in
          Apart-sums (in_voxel args p) v w m b (grind (arith, out, lo, hi)) lt few
            (omega (arith, e, copies next partition s w b hs hb)))
