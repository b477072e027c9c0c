-- ===== src/Sort/Pipeline/Places.antt =====
-- The two branches of `sort_p_pipeline`, from the arrays on.
use native.Mathlib.Decide.{dec_lt}
use vpic.Prelude.{
  ℕ, ◌+◌, ◌*◌, ◌≤◌, ◌<◌, ◌≡◌, refl, sym, ◌∙◌, ap, Option, some, arith, Bool-cases, inl, inr, ◌==◌,
  get_elem?, length, update, update_self, update_ne, sum_below,
}
use vpic.Sort.Scatter.{count, with_key, length-with_key}
use vpic.Sort.Legacy.{Particle, live, voxel_of}
use vpic.Sort.Runs.{IsFilled, with_key_all, length-live}
use vpic.Sort.Subsorts.{v2p_lt}
use vpic.Sort.Pipeline.{
  Args, Arrays, Orders, copy, stride, ghosts, subsort_of, sum_coarse, sort_many, sort_one,
}
use vpic.Sort.Pipeline.Stages.{IsOrder}
use vpic.Sort.Pipeline.Coarse.{IsDivision, copy_in, start_zero}
use vpic.Sort.Pipeline.Coarse.Count.{coarse_count-exec}
use vpic.Sort.Pipeline.Coarse.Total.{sum_coarse-start}
use vpic.Sort.Pipeline.Coarse.Fill.{coarse_sort-exec}
use vpic.Sort.Pipeline.Fine.{all, in_voxel, place, total, first_voxel, its_subsort}
use vpic.Sort.Pipeline.Fine.Step.{subsort-exec, subsort_alone}
use vpic.Sort.Pipeline.Ghosts.{ghosts-place, subsort_at, occupied, place_lt, total_end, none_past}

-- Each stage's pipelines run, in some order.
pub record AreOrders (P : ℕ) (orders : Orders) : Type 0 where
  pub counting : IsOrder P orders.counting
  pub sorting : IsOrder P orders.sorting
  pub subsorting : IsOrder P orders.subsorting

module _ {ℓ} {F : Type ℓ} (round : ℕ → ℕ → ℕ → ℕ) (stack : ℕ → ℕ) (args : Args)
    (p : ℕ → Option (Particle F)) (some_subsort : 0 < args.n_subsort) (ordered : args.vl ≤ args.vh)
    (filled : IsFilled p args.vl args.vh args.n 0) where
  -- Both parts of the result.
  pub record AllSorted (b : Arrays F) : Type ℓ where
    pub parts : (v : ℕ) → v < args.n_voxel → b.partition v ≡ place args p v
    pub places :
        (v m : ℕ)
        → m < in_voxel args p v
        → b.p (place args p v + m) ≡ get_elem? (with_key voxel_of v (all args p)) m

  pub sort_many-AllSorted :
      (P : ℕ) (orders : Orders) (a : Arrays F)
      → IsDivision round args.n P
      → AreOrders P orders
      → args.n_subsort ≡ P
      → P ≤ 256
      → a.p ≡ p
      → (b : Arrays F) × (sort_many round stack args P orders a ≡ some b) × AllSorted b
  unfolding sort_many
  sort_many-AllSorted P orders a division o e few reads =
      let (a1, runs1, reads1, counts) =
        coarse_count-exec round stack args P p division (omega arith) orders.counting a o.counting
          reads in
      let cp = (sum_coarse args.n_subsort P a1.coarse_partition).0 in
      let starts =
        sum_coarse-start round args P p division a1.coarse_partition
          (λ s r hs hr. counts r hr s hs) in
      let inside = none_past args p some_subsort ordered filled in
      let (a2, runs2, ready2, gathered) =
        coarse_sort-exec round stack args P p division (omega arith) inside cp starts orders.sorting
          (record a1 { coarse_partition = cp }) o.sorting (reads1, refl) in
      let cp2 = update cp args.n_subsort args.n in
      let bounds : (s : ℕ) → s ≤ args.n_subsort → cp2 s ≡ total args p s = λ s hs.
        elim (dec_lt s args.n_subsort) [
          | yes lt ↦
              update_ne cp args.n_subsort s args.n (omega arith)
              ∙ ap cp {y = s + stride args.n_subsort * 0} (omega arith)
              ∙ starts s 0 lt (omega arith)
              ∙ start_zero round args P p division s
          | no ge ↦
              ap cp2 {x = s} {y = args.n_subsort} (omega (arith, hs, ge))
              ∙ update_self cp args.n_subsort args.n
              ∙ sym (total_end args p some_subsort ordered filled s (omega (arith, ge)))
        ] in
      let (a3, runs3, ready3, sorted) =
        subsort-exec round stack args p some_subsort ordered filled a2.aux_p cp2 bounds
          (λ s hs. gathered s) P e orders.subsorting
          (record a2 { coarse_partition = update a2.coarse_partition args.n_subsort args.n })
          o.subsorting (refl, ap (λ c. update c args.n_subsort args.n) ready2.1) in
      (
        record a3 { partition = ghosts args a3.partition },
        rw (runs1, runs2, runs3) refl,
        record {
          parts = ghosts-place args p some_subsort ordered filled a3.partition (λ v lo hi.
              let (hs, first, past) = subsort_at args p some_subsort ordered filled v lo hi in
              (sorted (its_subsort args p v) (omega (arith, hs))).parts v first
                (omega (arith, past)));
          places = λ v m lt.
              let range = occupied args p some_subsort ordered filled v m lt in
              let (hs, first, past) =
                subsort_at args p some_subsort ordered filled v range.0 range.1 in
              (sorted (its_subsort args p v) (omega (arith, hs))).places v m first past lt;
        },
      )

  pub sort_one-AllSorted :
      (a : Arrays F)
      → args.n_subsort ≡ 1
      → a.p ≡ p
      → (b : Arrays F) × (sort_one round stack args a ≡ some b) × AllSorted b
  unfolding sort_one sum_below
  sort_one-AllSorted a one reads =
      let cp = update (update a.coarse_partition 0 0) 1 args.n in
      let bounds : (s : ℕ) → s ≤ args.n_subsort → cp s ≡ total args p s = λ s hs.
        elim (Bool-cases (s == 0)) [
          | inl t ↦
              ap cp {x = s} {y = 0} (ground (arith, t))
              ∙ update_ne (update a.coarse_partition 0 0) 1 0 args.n (omega arith)
              ∙ update_self a.coarse_partition 0 0
              ∙ ap (total args p) {x = 0} {y = s} (ground (arith, t))
          | inr f ↦
              ap cp {x = s} {y = 1} (ground (arith, f, hs))
              ∙ update_self (update a.coarse_partition 0 0) 1 args.n
              ∙ sym (total_end args p some_subsort ordered filled s (ground (arith, f)))
        ] in
      let whole : (s : ℕ)
          → s < args.n_subsort
          → with_key (subsort_of args) s (all args p) ≡ all args p =
        λ s hs. with_key_all p args.vl args.vh (subsort_of args) s args.n 0 filled (λ q lo hi.
          omega (arith, v2p_lt q.i args.n_subsort args.vl args.vh some_subsort lo hi, hs, one)) in
      let gathered : (s : ℕ)
          → s < args.n_subsort
          → live (count (subsort_of args) s (all args p)) (total args p s) a.p
            ≡ with_key (subsort_of args) s (all args p) =
        λ s hs.
          ap (λ k. live k (total args p s) a.p)
            (sym (length-with_key (subsort_of args) s (all args p))
              ∙ ap length (whole s hs ∙ ap (live args.n 0) (sym reads))
              ∙ length-live a.p args.vl args.vh args.n 0 (rw reads filled))
          ∙ ap (λ k. live args.n k a.p) {y = 0} (ap (total args p) {x = s} {y = 0} (omega arith))
          ∙ ap (live args.n 0) reads
          ∙ sym (whole s hs) in
      let only : (v : ℕ)
          → args.vl ≤ v
          → v ≤ args.vh
          → (first_voxel args p 0 ≤ v) × (v < first_voxel args p 1) =
        λ v lo hi.
          let (hs, first, past) = subsort_at args p some_subsort ordered filled v lo hi in
          let e : its_subsort args p v ≡ 0 = omega (arith, hs, one) in
          (
            omega (arith, first, ap (first_voxel args p) e),
            omega (arith, past, ap (λ k. first_voxel args p (k + 1)) e),
          ) in
      let (b, runs, ready, sorted) =
        subsort_alone round stack args p some_subsort ordered filled a.p cp bounds gathered 1 one
          (record a { coarse_partition = cp; p = a.aux_p; aux_p = a.p }) refl (refl, refl) in
      (
        record b {
          partition = ghosts args b.partition;
          p = copy b.aux_p 0 b.p args.n;
          aux_p = b.p;
        },
        rw runs refl,
        record {
          parts = ghosts-place args p some_subsort ordered filled b.partition (λ v lo hi.
              let (first, past) = only v lo hi in sorted.parts v first (omega (arith, past)));
          places = λ v m lt.
              let range = occupied args p some_subsort ordered filled v m lt in
              let (first, past) = only v range.0 range.1 in
              copy_in b.aux_p 0 b.p args.n (place args p v + m) (omega arith)
                (omega (arith, place_lt args p some_subsort ordered filled v m lt))
              ∙ ap b.p {y = place args p v + m} (omega arith)
              ∙ sorted.places v m first past lt;
        },
      )
