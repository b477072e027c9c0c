-- ===== src/Sort/Tests.antt =====
-- The theorems on the sorts at a few particles.
mod Pipeline
use vpic.Prelude.{
  ℕ, ◌+◌, ◌≤◌, ◌<◌, ◌≡◌, Option, none, some, arith, sum_below, get_elem?, ◌==◌, if◌then◌else◌, ◌↔◌,
}
use vpic.Sort.Scatter.{with_key, count}
use vpic.Sort.Legacy.{Particle, Species, live, particles, voxel_of, sort_out_of_place}
use vpic.Sort.Legacy.Places.{
  in_voxel, InVoxels, sort_out_of_place-partition, sort_out_of_place-places,
}
use vpic.Sort.Subsorts.{v2p, p2v, v2p_lt, v2p-p2v}

-- A particle in a voxel, told apart by `w`.
abbrev particle : ℕ → ℕ → Particle ℕ
particle i w = record { dx = 0; dy = 0; dz = 0; i = i; ux = 0; uy = 0; uz = 0; w = w }

-- Particles in the voxels 2, 0, 2 of a grid of three voxels.
abbrev unsorted : ℕ → Option (Particle ℕ)
unsorted j =
    if j == 0
    then some (particle 2 7)
    else if j == 1
    then some (particle 0 8)
    else if j == 2
    then some (particle 2 9)
    else none

abbrev species : Species ℕ
species = record {
  p = unsorted;
  np = 3;
  max_np = 8;
  last_sorted = 0;
  step = 20;
  nx = 1;
  ny = 1;
  nz = 1;
  nv = 3;
  partition = λ v. 0;
}

species-InVoxels : InVoxels species
unfolding particles live count
species-InVoxels v h = ground arith

sort_out_of_place-partition_example :
    (sort_out_of_place species).partition 2 ≡ sum_below (in_voxel species) 2
sort_out_of_place-partition_example =
    sort_out_of_place-partition species 2 (omega arith) (omega arith)

-- The second particle of voxel 2 comes third.
sort_out_of_place-places_example :
    (sort_out_of_place species).p (sum_below (in_voxel species) 2 + 1)
    ≡ get_elem? (with_key voxel_of 2 (particles species)) 1
unfolding particles live count
sort_out_of_place-places_example =
    sort_out_of_place-places species 2 1 (omega arith) species-InVoxels (omega arith)

v2p_lt_example : v2p 9 3 2 11 < 3
v2p_lt_example = v2p_lt 9 3 2 11 (omega arith) (omega arith) (omega arith)

v2p-p2v_example : (v2p 9 3 2 11 ≡ 2) ↔ ((p2v 2 3 2 11 ≤ 9) × (9 < p2v (2 + 1) 3 2 11))
v2p-p2v_example = v2p-p2v 9 2 3 2 11 (omega arith) (omega arith) (omega arith)
