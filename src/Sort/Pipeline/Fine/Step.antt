-- ===== src/Sort/Pipeline/Fine/Step.antt =====
-- The stage `subsort`.
use native.Mathlib.Decide.{dec_lt}
use vpic.Prelude.{
  ℕ, suc, ◌+◌, ◌-◌, ◌≤◌, ◌<◌, ◌≡◌, refl, ◌∙◌, ap, true, false, Option, some, arith, inl, inr, ◌==◌,
  ltb, lt→ltb, List,
}
use vpic.Sort.Scatter.{count}
use vpic.Sort.Legacy.{Particle, live}
use vpic.Sort.Runs.{IsFilled}
use vpic.Sort.Pipeline.{Args, Arrays, subsort_of, sort_voxels, subsorts, subsort, exec}
use vpic.Sort.Pipeline.Stages.{Runs, IsOrder, exec_all}
use vpic.Sort.Pipeline.Fine.{all, place, total, first_voxel, slice}
use vpic.Sort.Pipeline.Fine.Partial.{Ready, Sorted, read_slice}
use vpic.Sort.Pipeline.Fine.Loops.{
  partition_after, p_after, partition_after_in, partition_after_out, p_after_in, p_after_out,
}

module _ {ℓ} {F : Type ℓ} (round : ℕ → ℕ → ℕ → ℕ) (stack : ℕ → ℕ) (args : Args)
    (p : ℕ → Option (Particle F)) (some_subsort : 0 < args.n_subsort) (ordered : args.vl ≤ args.vh)
    (filled : IsFilled p args.vl args.vh args.n 0) (aux : ℕ → Option (Particle F)) (cp : ℕ → ℕ)
    (bounds : (s : ℕ) → s ≤ args.n_subsort → cp s ≡ total args p s)
    (gathered : (s : ℕ)
      → s < args.n_subsort
      → live (count (subsort_of args) s (all args p)) (total args p s) aux
        ≡ slice args p some_subsort ordered filled s) where
  abbrev first : ℕ → ℕ
  first s = first_voxel args p s

  abbrev IsReady : Arrays F → Type ℓ
  IsReady a = Ready args p some_subsort ordered filled aux cp bounds gathered a

  abbrev IsSorted : ℕ → Arrays F → Type ℓ
  IsSorted s a = Sorted args p some_subsort ordered filled aux cp bounds gathered s a

  -- The loops of a subsort, on arrays in which the coarse sort has gathered its particles.
  sort_voxels_partition :
      (s : ℕ) (a : Arrays F)
      → s < args.n_subsort
      → IsReady a
      → (sort_voxels round stack args s a).partition
        ≡ partition_after args p some_subsort ordered filled aux cp bounds gathered a.next
            a.partition s
  unfolding sort_voxels
  sort_voxels_partition s a hs ready =
      rw
        (
          ready.0,
          ready.1,
          read_slice args p some_subsort ordered filled aux cp bounds gathered s hs,
        )
        refl

  sort_voxels_p :
      (s : ℕ) (a : Arrays F)
      → s < args.n_subsort
      → IsReady a
      → (sort_voxels round stack args s a).p
        ≡ p_after args p some_subsort ordered filled aux cp bounds gathered a.next a.partition a.p s
  unfolding sort_voxels
  sort_voxels_p s a hs ready =
      rw
        (
          ready.0,
          ready.1,
          read_slice args p some_subsort ordered filled aux cp bounds gathered s hs,
        )
        refl

  sort_voxels-IsSorted :
      (s : ℕ) (a : Arrays F)
      → s < args.n_subsort
      → IsReady a
      → IsSorted s (sort_voxels round stack args s a)
  sort_voxels-IsSorted s a hs ready = record {
    parts = λ v lo hi.
        ap (λ f. f v) (sort_voxels_partition s a hs ready)
        ∙ partition_after_in args p some_subsort ordered filled aux cp bounds gathered a.next
            a.partition s v hs lo hi;
    places = λ v m lo hi lt.
        ap (λ f. f (place args p v + m)) (sort_voxels_p s a hs ready)
        ∙ p_after_in args p some_subsort ordered filled aux cp bounds gathered a.next a.partition
            a.p s v m hs lo hi lt;
  }

  -- It keeps what the other subsorts leave.
  sort_voxels-keeps :
      (s k : ℕ) (a : Arrays F)
      → s < args.n_subsort
      → IsReady a
      → IsSorted k a
      → IsSorted k (sort_voxels round stack args s a)
  sort_voxels-keeps s k a hs ready h = record {
    parts = λ v lo hi.
        ap (λ f. f v) (sort_voxels_partition s a hs ready) ∙ elim (dec_lt v (first s)) [
          | yes out ↦
              partition_after_out args p some_subsort ordered filled aux cp bounds gathered a.next
                a.partition s v hs (inl out)
              ∙ h.parts v lo hi
          | no ge ↦ elim (dec_lt (first (s + 1)) v) [
            | yes out ↦
                partition_after_out args p some_subsort ordered filled aux cp bounds gathered a.next
                  a.partition s v hs (inr out)
                ∙ h.parts v lo hi
            | no le ↦
                partition_after_in args p some_subsort ordered filled aux cp bounds gathered a.next
                  a.partition s v hs (omega arith) (omega arith)
          ]
        ];
    places = λ v m lo hi lt.
        ap (λ f. f (place args p v + m)) (sort_voxels_p s a hs ready) ∙ elim (dec_lt v (first s)) [
          | yes out ↦
              p_after_out args p some_subsort ordered filled aux cp bounds gathered a.next
                a.partition a.p s v m hs (inl out) lt
              ∙ h.places v m lo hi lt
          | no ge ↦ elim (dec_lt v (first (s + 1))) [
            | no out ↦
                p_after_out args p some_subsort ordered filled aux cp bounds gathered a.next
                  a.partition a.p s v m hs (inr (omega arith)) lt
                ∙ h.places v m lo hi lt
            | yes le ↦
                p_after_in args p some_subsort ordered filled aux cp bounds gathered a.next
                  a.partition a.p s v m hs (omega arith) le lt
          ]
        ];
  }

  -- The loop over the subsorts of a pipeline.
  subsorts_stop :
      (fuel s P : ℕ) (a : Arrays F)
      → args.n_subsort ≤ s
      → subsorts round stack args (suc fuel) s P a ≡ some a
  unfolding subsorts
  subsorts_stop fuel s P a le =
      let no : ltb s args.n_subsort ≡ false = ground arith in rw (subsorts, no) refl

  subsorts_go :
      (fuel s P : ℕ) (a : Arrays F)
      → s < args.n_subsort
      → subsorts round stack args (suc fuel) s P a
        ≡ subsorts round stack args fuel (s + P) P (sort_voxels round stack args s a)
  unfolding subsorts
  subsorts_go fuel s P a lt = rw (subsorts, lt→ltb s args.n_subsort lt) refl

  -- With as many pipelines as subsorts, each pipeline has one.
  subsort_own :
      (P r : ℕ) (a : Arrays F)
      → args.n_subsort ≡ P
      → r < P
      → subsort round stack args P r a ≡ some (sort_voxels round stack args r a)
  unfolding subsort
  subsort_own P r a e lt =
      let other : (r == P) ≡ false = ground arith in
      let fuel : args.n_subsort + 1 ≡ suc (suc (args.n_subsort - 1)) = omega arith in
      rw (other, fuel)
        (subsorts_go (suc (args.n_subsort - 1)) r P a (omega arith)
          ∙ subsorts_stop (args.n_subsort - 1) (r + P) P (sort_voxels round stack args r a)
              (omega arith))

  subsort_straggler : (P : ℕ) (a : Arrays F) → subsort round stack args P P a ≡ some a
  unfolding subsort
  subsort_straggler P a = let same : (P == P) ≡ true = ground arith in rw same refl

  sort_voxels-IsReady :
      (s : ℕ) (a : Arrays F) → IsReady a → IsReady (sort_voxels round stack args s a)
  unfolding sort_voxels
  sort_voxels-IsReady s a ready = ready

  module _ (P : ℕ) (one_each : args.n_subsort ≡ P) where
    subsort_step :
        (r : ℕ) (a : Arrays F)
        → r ≤ P
        → IsReady a
        → Runs (subsort round stack args P) P IsReady IsSorted r a
    subsort_step r a le ready = elim (dec_lt r P) [
      | no ge ↦
          let e : r ≡ P = omega (arith, ge) in
          record {
            after = a;
            runs = ap (λ k. subsort round stack args P k a) e ∙ subsort_straggler P a;
            inv = ready;
            own = λ lt. absurd (ge lt);
            others = λ k lt h. h;
          }
      | yes lt ↦ record {
        after = sort_voxels round stack args r a;
        runs = subsort_own P r a one_each lt;
        inv = sort_voxels-IsReady r a ready;
        own = λ hr. sort_voxels-IsSorted r a (omega arith) ready;
        others = λ k hk h. sort_voxels-keeps r k a (omega arith) ready h;
      }
    ]

    -- After the stage all subsorts are sorted, in whatever order the pipelines run.
    pub subsort-exec :
        (order : List ℕ) (a : Arrays F)
        → IsOrder P order
        → IsReady a
        → (b : Arrays F) × (exec (subsort round stack args P) order a ≡ some b)
          × IsReady b
          × ((s : ℕ) → s < P → IsSorted s b)
    subsort-exec order a o ready =
        exec_all (subsort round stack args P) P IsReady IsSorted (λ r t le h. subsort_step r t le h)
          order a o ready

    -- One pipeline alone.
    pub subsort_alone :
        (a : Arrays F)
        → P ≡ 1
        → IsReady a
        → (b : Arrays F) × (subsort round stack args 1 0 a ≡ some b) × IsReady b × IsSorted 0 b
    subsort_alone a e ready = (
      sort_voxels round stack args 0 a,
      subsort_own 1 0 a (omega arith) (omega arith),
      sort_voxels-IsReady 0 a ready,
      sort_voxels-IsSorted 0 a (omega arith) ready,
    )
