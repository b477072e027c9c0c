-- ===== src/Sort/Tests/Pipeline.antt =====
-- The theorems on the parallel sort at three particles and two pipelines.
use vpic.Prelude.{
  ◌⊎◌, ℕ, zero, suc, ◌+◌, ◌*◌, ◌/◌, ◌≤◌, ◌<◌, ◌≡◌, refl, true, Option, none, some, List, [], ◌∷◌,
  arith, sum_below, get_elem?, ◌==◌, if◌then◌else◌,
}
use vpic.Grid.Voxel.{voxel}
use vpic.Sort.Scatter.{with_key, count}
use vpic.Sort.Legacy.{Particle, Species, live, particles, voxel_of, sort_out_of_place}
use vpic.Sort.Legacy.Places.{in_voxel}
use vpic.Sort.Runs.{IsFilled}
use vpic.Sort.Pipeline.{Arrays, Orders, sort_p_pipeline}
use vpic.Sort.Pipeline.Stages.{IsOrder, has}
use vpic.Sort.Pipeline.Coarse.{IsDivision}
use vpic.Sort.Pipeline.Places.{AreOrders}
use vpic.Sort.Pipeline.Result.{
  IsSortable, p_at, partition_at, sort_p_pipeline-places, sort_p_pipeline-sort_out_of_place,
}
use vpic.Sort.Pipeline.Limits.{sort_p_pipeline-no_particles, sort_p_pipeline_too_many}

-- `(int)(t*p+0.5)` where it is exact.
abbrev nearest : (N P p : ℕ) → ℕ
nearest N P p = (2 * N * p + P) / (2 * P)

abbrev garbage : ℕ → ℕ
garbage k = k + 7

abbrev particle : ℕ → ℕ → Particle ℕ
particle i w = record { dx = 0; dy = 0; dz = 0; i = i; ux = 0; uy = 0; uz = 0; w = w }

-- A grid of two voxels, 17 and 18 with the ghosts, and particles in 18, 17, 18.
abbrev unsorted : ℕ → Option (Particle ℕ)
unsorted j =
    if j == 0
    then some (particle 18 7)
    else if j == 1
    then some (particle 17 8)
    else if j == 2
    then some (particle 18 9)
    else none

abbrev species : Species ℕ
species = record {
  p = unsorted;
  np = 3;
  max_np = 8;
  last_sorted = 0;
  step = 20;
  nx = 2;
  ny = 1;
  nz = 1;
  nv = 36;
  partition = garbage;
}

abbrev scratch : Arrays ℕ
scratch = record {
  p = λ j. none;
  aux_p = λ j. none;
  coarse_partition = garbage;
  next = garbage;
  partition = garbage;
}

abbrev orders : Orders
orders = record { counting = 1 ∷ 0 ∷ 2 ∷ []; sorting = 0 ∷ 2 ∷ 1 ∷ []; subsorting = 1 ∷ 0 ∷ [] }

unsorted-IsFilled : IsFilled unsorted (voxel 1 1 1 2 1) (voxel 2 1 1 2 1) 3 0
unfolding voxel
unsorted-IsFilled zero lo hi = (particle 18 7, refl, omega arith, omega arith)
unsorted-IsFilled (suc zero) lo hi = (particle 17 8, refl, omega arith, omega arith)
unsorted-IsFilled (suc (suc zero)) lo hi = (particle 18 9, refl, omega arith, omega arith)
unsorted-IsFilled (suc (suc (suc k))) lo hi = absurd (omega arith)

species-IsSortable : IsSortable species
species-IsSortable = record {
  nx_pos = omega arith;
  ny_pos = omega arith;
  nz_pos = omega arith;
  voxels = refl;
  filled = unsorted-IsFilled;
}

nearest-IsDivision : IsDivision nearest 3 2
nearest-IsDivision = record { first = refl; last = refl; grows = λ p lt. omega arith }

orders-AreOrders : AreOrders 2 orders
orders-AreOrders = record {
  counting = record { all = λ r lt. ground arith; only = λ r h. ground (arith, h) };
  sorting = record { all = λ r lt. ground arith; only = λ r h. ground (arith, h) };
  subsorting = record { all = λ r lt. ground arith; only = λ r h. ground (arith, h) };
}

sort_p_pipeline-places_example :
    p_at
      (sum_below (in_voxel species) 18 + 1)
      (sort_p_pipeline nearest garbage 2 orders scratch (some species))
    ≡ some (get_elem? (with_key voxel_of 18 (particles species)) 1)
unfolding particles live count
sort_p_pipeline-places_example =
    sort_p_pipeline-places species species-IsSortable nearest garbage 2 orders scratch (omega arith)
      (omega arith) nearest-IsDivision orders-AreOrders 18 1 (omega arith)

sort_p_pipeline-sort_out_of_place_example :
    (p_at 2 (sort_p_pipeline nearest garbage 2 orders scratch (some species))
      ≡ some ((sort_out_of_place species).p 2))
    × (partition_at 18 (sort_p_pipeline nearest garbage 2 orders scratch (some species))
        ≡ some ((sort_out_of_place species).partition 18))
sort_p_pipeline-sort_out_of_place_example =
    sort_p_pipeline-sort_out_of_place species species-IsSortable nearest garbage 2 orders scratch
      (omega arith) (omega arith) nearest-IsDivision orders-AreOrders 2 18 (omega arith)
      (omega arith)

abbrev no_particles : Species ℕ
no_particles = record species { np = 0; partition = λ v. 7 }

no_particles-IsSortable : IsSortable no_particles
no_particles-IsSortable = record {
  nx_pos = omega arith;
  ny_pos = omega arith;
  nz_pos = omega arith;
  voxels = refl;
  filled = λ k lo hi. absurd (omega (arith, lo, hi));
}

none-IsDivision : IsDivision nearest 0 2
none-IsDivision = record { first = refl; last = refl; grows = λ p lt. omega arith }

sort_p_pipeline-no_particles_example :
    (partition_at 18 (sort_p_pipeline nearest garbage 2 orders scratch (some no_particles))
      ≡ some 0)
    × ((sort_out_of_place no_particles).partition 18 ≡ 7)
sort_p_pipeline-no_particles_example =
    sort_p_pipeline-no_particles no_particles no_particles-IsSortable nearest garbage 2 orders
      scratch (omega arith) (omega arith) none-IsDivision orders-AreOrders 18 (omega arith) refl

-- Pipelines in the order of their ranks, from the last.
abbrev down : ℕ → List ℕ
down zero = []
down (suc n) = n ∷ down n

has-down : (n r : ℕ) → r < n → has r (down n) ≡ true
has-down zero r lt = absurd (omega arith)
has-down (suc n) r lt = ground (arith, has-down n r)

down-only : (n r : ℕ) → has r (down n) ≡ true → r ≤ n
down-only zero r h = absurd (grind (arith, h))
down-only (suc n) r h = ground (arith, h, down-only n r)

down-IsOrder : (n : ℕ) → IsOrder n (down n)
down-IsOrder n = record { all = has-down n; only = down-only n }

abbrev many_orders : Orders
many_orders = record { counting = down 257; sorting = down 257; subsorting = down 257 }

down-AreOrders : AreOrders 257 many_orders
down-AreOrders = record {
  counting = down-IsOrder 257;
  sorting = down-IsOrder 257;
  subsorting = down-IsOrder 257;
}

-- One pipeline more than the sort has room for.
many-IsDivision : IsDivision nearest 3 257
many-IsDivision = record { first = refl; last = refl; grows = λ p lt. omega arith }

sort_p_pipeline_too_many_example :
    ((◌<◌ 256 257)
      × (sort_p_pipeline nearest garbage 257 many_orders scratch (some species) ≡ none))
    ⊎ ((◌≤◌ 257 256)
        × (b : Species ℕ) × (sort_p_pipeline nearest garbage 257 many_orders scratch (some species)
            ≡ some b))
sort_p_pipeline_too_many_example =
    sort_p_pipeline_too_many species species-IsSortable nearest garbage 257 many_orders scratch
      (omega arith) many-IsDivision down-AreOrders
