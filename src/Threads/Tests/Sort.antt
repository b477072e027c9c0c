-- ===== src/Threads/Tests/Sort.antt =====
-- The parallel sort by threads at three particles and two pipelines.
use vpic.Prelude.{ℕ, ◌+◌, ◌*◌, ◌/◌, Option, none, ◌==◌, if◌then◌else◌, some}
use vpic.Sort.Legacy.{Particle, Species}
use vpic.Sort.Pipeline.{Arrays}

-- Three particles in the voxels 18, 17 and 18 of a grid with two voxels, 17 and 18.
abbrev particle : ℕ → Particle ℕ
particle i = record { dx = 0; dy = 0; dz = 0; i = i; ux = 0; uy = 0; uz = 0; w = 0 }

abbrev unsorted : ℕ → Option (Particle ℕ)
unsorted j = if j == 1 then some (particle 17) else some (particle 18)

abbrev species : Species ℕ
species = record {
  p = unsorted;
  np = 3;
  max_np = 8;
  last_sorted = 0;
  step = 20;
  nx = 2;
  ny = 1;
  nz = 1;
  nv = 36;
  partition = λ k. 7;
}

abbrev scratch : Arrays ℕ
scratch = record {
  p = λ j. none;
  aux_p = λ j. none;
  coarse_partition = (λ k. 7);
  next = (λ k. 7);
  partition = (λ k. 7);
}

abbrev half : (N P p : ℕ) → ℕ
half N P p = (2 * N * p + P) / (2 * P)
