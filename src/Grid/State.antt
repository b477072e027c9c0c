-- ===== src/Grid/State.antt =====
-- `grid_t` of src/grid/grid.h, its enumerations and faces, without the floating-point members.
use vpic.Prelude.{ℕ, ◌+◌, ◌*◌, Option, none, some, ◌==◌, if◌then◌else◌}
use vpic.Prelude.Int.{ℤ, negsuc}

-- `pec_fields` is the same number as `anti_symmetric_fields`.
abbrev pub anti_symmetric_fields : ℤ
anti_symmetric_fields = negsuc 0

abbrev pub symmetric_fields : ℤ
symmetric_fields = negsuc 1

abbrev pub pmc_fields : ℤ
pmc_fields = negsuc 2

abbrev pub absorb_fields : ℤ
absorb_fields = negsuc 3

abbrev pub reflect_particles : ℤ
reflect_particles = negsuc 0

-- The world of processes: `world_size`, `world_rank`, and what `mp_allgather_i64` gathers when each
-- process contributes its number of voxels.
pub record World : Type 0 where
  pub size : ℕ
  pub rank : ℕ
  pub all_nv : ℕ → ℕ

-- `range` is allocated for the indices up to `world_size`, and `neighbor` for six entries a voxel.
pub record Grid : Type 0 where
  pub nx : ℕ
  pub ny : ℕ
  pub nz : ℕ
  pub sx : ℕ
  pub sy : ℕ
  pub sz : ℕ
  pub nv : ℕ
  pub bc : ℕ → ℤ
  pub range : ℕ → ℕ
  pub rangel : ℕ
  pub rangeh : ℕ
  pub neighbor : ℕ → ℤ

-- The six faces of the domain, in the order of the tags 0 to 5.
pub data Face : Type 0 where
  x_low y_low z_low x_high y_high z_high : Face

abbrev pub tag : Face → ℕ
tag x_low = 0
tag y_low = 1
tag z_low = 2
tag x_high = 3
tag y_high = 4
tag z_high = 5

-- `BOUNDARY(i,j,k)`, `13+(i)+3*(j)+9*(k)`, with `a`, `b`, `c` for `i+1`, `j+1`, `k+1`.
abbrev pub boundary : (a b c : ℕ) → ℕ
boundary a b c = a + 3 * b + 9 * c

abbrev pub center : ℕ
center = boundary 1 1 1

abbrev pub boundary_of : Face → ℕ
boundary_of x_low = boundary 0 1 1
boundary_of y_low = boundary 1 0 1
boundary_of z_low = boundary 1 1 0
boundary_of x_high = boundary 2 1 1
boundary_of y_high = boundary 1 2 1
boundary_of z_high = boundary 1 1 2

-- The tests `boundary==BOUNDARY(i,j,k)` for the six faces. An edge or a corner passes none.
unfoldable pub face_of : ℕ → Option Face
face_of b =
    if b == boundary_of x_low
    then some x_low
    else if b == boundary_of y_low
    then some y_low
    else if b == boundary_of z_low
    then some z_low
    else if b == boundary_of x_high
    then some x_high
    else if b == boundary_of y_high
    then some y_high
    else if b == boundary_of z_high
    then some z_high
    else none

abbrev pub opposite : Face → Face
opposite x_low = x_high
opposite y_low = y_high
opposite z_low = z_high
opposite x_high = x_low
opposite y_high = y_low
opposite z_high = z_low
