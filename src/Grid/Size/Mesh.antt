-- ===== src/Grid/Size/Mesh.antt =====
-- `size_grid` as a whole: the sized grid, and its inner voxels as each other's neighbors.
use vpic.Prelude.{ℕ, ◌+◌, ◌-◌, ◌≤◌}
use vpic.Prelude.Int.{ℤ}
use vpic.Grid.Voxel.{voxel}
use vpic.Grid.State.{Grid, Face, x_low, y_low, z_low, x_high, y_high, z_high}
use vpic.Grid.Size.Neighbors.{entry}

pub record Cell : Type 0 where
  pub x : ℕ
  pub y : ℕ
  pub z : ℕ

abbrev pub step : Face → Cell → Cell
step x_low c = record c { x = c.x - 1 }
step y_low c = record c { y = c.y - 1 }
step z_low c = record c { z = c.z - 1 }
step x_high c = record c { x = c.x + 1 }
step y_high c = record c { y = c.y + 1 }
step z_high c = record c { z = c.z + 1 }

abbrev pub IsInner : (nx ny nz : ℕ) → Cell → Type 0
IsInner nx ny nz c = (1 ≤ c.x) × (c.x ≤ nx) × (1 ≤ c.y) × (c.y ≤ ny) × (1 ≤ c.z) × (c.z ≤ nz)

module _ (rangel nx ny nz : ℕ) where
  -- The entry of a cell for a face.
  abbrev pub entry_of : Cell → Face → ℤ
  entry_of c f = entry rangel nx ny nz c.x c.y c.z f

  abbrev pub index_of : Cell → ℕ
  index_of c = rangel + voxel c.x c.y c.z nx ny
