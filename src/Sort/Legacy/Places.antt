-- ===== src/Sort/Legacy/Places.antt =====
-- Where `sort_p`, out of place, puts the particles.
use vpic.Prelude.{
  ℕ, ◌+◌, ◌≤◌, ◌<◌, ◌≡◌, ◌≢◌, refl, ◌∙◌, false, none, arith, update, ◌==◌, get_elem?, for_range_inv,
  sum_below, sum_below-add-one, sum_below_mono, sum_below-congr,
}
use native.Mathlib.Decide.{dec_lt}
use vpic.Sort.Scatter.{count_keys, count, with_key, count_keys-count, Apart, scatter_lem}
use vpic.Sort.Legacy.{
  Species, voxel_of, particles, Partition, partition_step, convert, sort_out_of_place,
}

-- After `i` rounds the entries below `i` hold the totals before them, the others the counts `c`.
record IsPartial (c : ℕ → ℕ) (i : ℕ) (s : Partition) : Type 0 where
  total : s.j ≡ sum_below c i
  starts : (v : ℕ) → v < i → s.partition v ≡ sum_below c v
  copies : (v : ℕ) → v < i → s.next v ≡ sum_below c v
  counts : (v : ℕ) → i ≤ v → s.next v ≡ c v

partition_step-IsPartial :
    (c : ℕ → ℕ) (i : ℕ) (s : Partition) → IsPartial c i s → IsPartial c (i + 1) (partition_step i s)
unfolding partition_step update
partition_step-IsPartial c i s h = record {
  total = omega (arith, h.total, h.counts i (omega arith), sum_below-add-one c i);
  starts = λ v lt. ground (arith, lt, h.total, h.starts v);
  copies = λ v lt. ground (arith, lt, h.total, h.copies v);
  counts = λ v le. ground (arith, le, h.counts v);
}

convert-IsPartial : (n : ℕ) (partition next : ℕ → ℕ) → IsPartial next n (convert n partition next)
unfolding convert sum_below
convert-IsPartial n partition next =
    for_range_inv (IsPartial next) partition_step n 0 n
      (record { partition = partition; next = next; j = 0 }) (omega arith)
      (λ k t lo hi h. partition_step-IsPartial next k t h)
      (record {
        total = refl;
        starts = λ v lt. absurd (omega arith);
        copies = λ v lt. absurd (omega arith);
        counts = λ v le. refl;
      })

-- Runs that follow each other do not meet.
pub Apart-sums :
    (c : ℕ → ℕ) (v w a b : ℕ) → v ≢ w → a < c v → b < c w → sum_below c v + a ≢ sum_below c w + b
Apart-sums c v w a b ne ha hb e = elim (dec_lt v w) [
  | yes p ↦ omega (arith, sum_below_mono c (v + 1) w (omega arith), sum_below-add-one c v)
  | no p ↦ omega (arith, sum_below_mono c (w + 1) v (omega arith), sum_below-add-one c w, ne)
]

-- The voxels of a grid, of which `sort_p` counts `nv + 1`, hold all particles of the species.
abbrev pub InVoxels {ℓ} : {F : Type ℓ} → Species F → Type 0
InVoxels sp = (v : ℕ) → sp.nv < v → count voxel_of v (particles sp) ≡ 0

module _ {ℓ} {F : Type ℓ} (sp : Species F) where
  -- The number of particles in a voxel.
  abbrev pub in_voxel : ℕ → ℕ
  in_voxel v = count voxel_of v (particles sp)

  abbrev cleared : ℕ → ℕ
  cleared v = 0

  counted : (v : ℕ) → count_keys voxel_of (particles sp) cleared v ≡ in_voxel v
  counted v = omega (arith, count_keys-count voxel_of (particles sp) cleared v)

  abbrev converted : Partition
  converted = convert (sp.nv + 1) (sp.partition) (count_keys voxel_of (particles sp) cleared)

  sums-counted :
      (v : ℕ) → sum_below (count_keys voxel_of (particles sp) cleared) v ≡ sum_below in_voxel v
  sums-counted v =
      sum_below-congr (count_keys voxel_of (particles sp) cleared) in_voxel v (λ k lt. counted k)

  partial : IsPartial (count_keys voxel_of (particles sp) cleared) (sp.nv + 1) converted
  partial =
      convert-IsPartial (sp.nv + 1) (sp.partition) (count_keys voxel_of (particles sp) cleared)

  converted-partition : (v : ℕ) → v ≤ sp.nv → converted.partition v ≡ sum_below in_voxel v
  converted-partition v le = partial.starts v (omega arith) ∙ sums-counted v

  converted-next : (v : ℕ) → v ≤ sp.nv → converted.next v ≡ sum_below in_voxel v
  converted-next v le = partial.copies v (omega arith) ∙ sums-counted v

  occupied : InVoxels sp → (v a : ℕ) → a < in_voxel v → v ≤ sp.nv
  occupied h v a lt = elim (dec_lt (sp.nv) v) [
    | yes p ↦ absurd (omega (arith, h v p, lt))
    | no p ↦ omega arith
  ]

  converted-Apart : InVoxels sp → Apart voxel_of (converted.next) (particles sp)
  converted-Apart h v w a b ne ha hb e =
      Apart-sums in_voxel v w a b ne ha hb (
        omega
          (arith, e, converted-next v (occupied h v a ha), converted-next w (occupied h w b hb)))

  -- When there are particles, the sort makes `partition[v]`, for each voxel `v` up to `nv`, the
  -- number of particles in the voxels before `v`.
  pub sort_out_of_place-partition :
      (v : ℕ) → sp.np ≢ 0 → v ≤ sp.nv → (sort_out_of_place sp).partition v ≡ sum_below in_voxel v
  unfolding sort_out_of_place
  sort_out_of_place-partition v h le = ground (arith, h, converted-partition v le)

  -- When there are particles, and all of them in voxels up to `nv`, the sort puts the particles of a voxel one
  -- after the other behind those of the voxels before it, and in the order in which they were.
  pub sort_out_of_place-places :
      (v m : ℕ)
      → sp.np ≢ 0
      → InVoxels sp
      → m < in_voxel v
      → (sort_out_of_place sp).p (sum_below in_voxel v + m)
        ≡ get_elem? (with_key voxel_of v (particles sp)) m
  unfolding sort_out_of_place
  sort_out_of_place-places v m h hv lt =
      let some_left : (sp.np == 0) ≡ false = ground arith in
      rw (some_left, ← converted-next v (occupied hv v m lt))
        (scatter_lem voxel_of (particles sp) (converted.next) (λ j. none) v m (converted-Apart hv)
          lt)
