-- ===== src/Sort/Pipeline/Fine/Partial.antt =====
-- The loop over the voxels of a subsort.
use vpic.Prelude.{
  ℕ, ◌+◌, ◌-◌, ◌≤◌, ◌<◌, ◌≡◌, refl, ◌∙◌, ap, Option, arith, ◌⊎◌, get_elem?, sum_below,
  sum_below-add-one, update, for_range, for_range_inv,
}
use vpic.Sort.Scatter.{count, count_keys, count_keys-count, with_key}
use vpic.Sort.Legacy.{Particle, live, voxel_of, Partition, partition_step}
use vpic.Sort.Runs.{IsFilled}
use vpic.Sort.Pipeline.{Args, Arrays, clear, subsort_of}
use vpic.Sort.Pipeline.Coarse.{copy_in}
use vpic.Sort.Pipeline.Fine.{
  all, in_voxel, place, total, first_voxel, total-place, slice, count-slice,
}

-- The loop over the voxels of a subsort, before voxel `i`: the entries from `lo` to `i` are
-- converted, those of `partition` elsewhere are as they were.
pub record IsPartial (c : ℕ → ℕ) (lo hi : ℕ) (partition : ℕ → ℕ) (i : ℕ) (s : Partition)
    : Type 0 where
  pub total : s.j ≡ sum_below c i
  pub starts : (v : ℕ) → lo ≤ v → v < i → s.partition v ≡ sum_below c v
  pub copies : (v : ℕ) → lo ≤ v → v < i → s.next v ≡ sum_below c v
  pub counts : (v : ℕ) → i ≤ v → v < hi → s.next v ≡ c v
  pub others : (v : ℕ) → (v < lo) ⊎ (i ≤ v) → s.partition v ≡ partition v

partition_step-IsPartial :
    (c : ℕ → ℕ) (lo hi : ℕ) (partition : ℕ → ℕ) (i : ℕ) (s : Partition)
    → lo ≤ i
    → i < hi
    → IsPartial c lo hi partition i s
    → IsPartial c lo hi partition (i + 1) (partition_step i s)
unfolding partition_step update
partition_step-IsPartial c lo hi partition i s le lt h = record {
  total = omega (arith, h.total, h.counts i (omega arith) lt, sum_below-add-one c i);
  starts = λ v l lt. ground (arith, lt, h.total, h.starts v);
  copies = λ v l lt. ground (arith, lt, h.total, h.copies v);
  counts = λ v le u. ground (arith, le, h.counts v);
  others = λ v out. ground (arith, out, h.others v);
}

module _ {ℓ} {F : Type ℓ} (args : Args) (p : ℕ → Option (Particle F))
    (some_subsort : 0 < args.n_subsort) (ordered : args.vl ≤ args.vh)
    (filled : IsFilled p args.vl args.vh args.n 0) (aux : ℕ → Option (Particle F)) (cp : ℕ → ℕ)
    (bounds : (s : ℕ) → s ≤ args.n_subsort → cp s ≡ total args p s)
    (gathered : (s : ℕ)
      → s < args.n_subsort
      → live (count (subsort_of args) s (all args p)) (total args p s) aux
        ≡ slice args p some_subsort ordered filled s) where
  abbrev pub Ready : Arrays F → Type ℓ
  Ready a = (a.aux_p ≡ aux) × (a.coarse_partition ≡ cp)

  -- The part of the result that is one subsort's.
  pub record Sorted (s : ℕ) (a : Arrays F) : Type ℓ where
    pub parts :
        (v : ℕ)
        → first_voxel args p s ≤ v
        → v ≤ first_voxel args p (s + 1)
        → a.partition v ≡ place args p v
    pub places :
        (v m : ℕ)
        → first_voxel args p s ≤ v
        → v < first_voxel args p (s + 1)
        → m < in_voxel args p v
        → a.p (place args p v + m) ≡ get_elem? (with_key voxel_of v (all args p)) m

  pub read_slice :
      (s : ℕ)
      → s < args.n_subsort
      → live (cp (s + 1) - cp s) (cp s) aux ≡ slice args p some_subsort ordered filled s
  read_slice s hs =
      ap (λ k. live (cp (s + 1) - cp s) k aux) (bounds s (omega arith))
      ∙ ap (λ k. live k (total args p s) aux) {y = count (subsort_of args) s (all args p)}
          (omega (
            arith,
            bounds s (omega arith),
            bounds (s + 1) (omega arith),
            sum_below-add-one (λ k. count (subsort_of args) k (all args p)) s,
          ))
      ∙ gathered s hs

  abbrev pub cleared : (next : ℕ → ℕ) (s : ℕ) → ℕ → ℕ
  cleared next s =
      clear next (first_voxel args p s) (first_voxel args p (s + 1) - first_voxel args p s)

  abbrev pub converted : (next partition : ℕ → ℕ) (s : ℕ) → Partition
  converted next partition s =
      for_range (first_voxel args p (s + 1) - first_voxel args p s) (first_voxel args p s)
        partition_step
        (record {
          partition = partition;
          next = count_keys voxel_of (slice args p some_subsort ordered filled s) (cleared next s);
          j = cp s;
        })

  pub converted-IsPartial :
      (next partition : ℕ → ℕ) (s : ℕ)
      → s < args.n_subsort
      → first_voxel args p s ≤ first_voxel args p (s + 1)
      → IsPartial
          (in_voxel args p)
          (first_voxel args p s)
          (first_voxel args p (s + 1))
          partition
          (first_voxel args p (s + 1))
          (converted next partition s)
  unfolding clear
  converted-IsPartial next partition s hs le =
      for_range_inv
        (IsPartial (in_voxel args p) (first_voxel args p s) (first_voxel args p (s + 1)) partition)
        partition_step (first_voxel args p (s + 1) - first_voxel args p s) (first_voxel args p s)
        (first_voxel args p (s + 1))
        (record {
          partition = partition;
          next = count_keys voxel_of (slice args p some_subsort ordered filled s) (cleared next s);
          j = cp s;
        })
        (omega arith)
        (λ k t lo hi h.
          partition_step-IsPartial (in_voxel args p) (first_voxel args p s)
            (first_voxel args p (s + 1)) partition k t lo hi h)
        (record {
          total = bounds s (omega arith) ∙ total-place args p some_subsort ordered filled s;
          starts = λ v lo hi. absurd (omega arith);
          copies = λ v lo hi. absurd (omega arith);
          counts = λ v lo hi. omega (
            arith,
            count_keys-count voxel_of (slice args p some_subsort ordered filled s) (cleared next s)
                v,
            copy_in next (first_voxel args p s) (λ k. 0)
                (first_voxel args p (s + 1) - first_voxel args p s) v lo (omega arith),
            count-slice args p some_subsort ordered filled s v hs lo hi,
          );
          others = λ v out. refl;
        })
