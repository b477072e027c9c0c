-- ===== src/Grid/Tests.antt =====
-- The theorems on the grid at small meshes.
use vpic.Prelude.{ℕ, ◌+◌, ◌/◌, ◌%◌, ◌≤◌, ◌<◌, ◌≡◌, refl, some, arith, sum_below, update}
use vpic.Prelude.Int.{pos, negsuc}
use vpic.Grid.Voxel.{
  voxel, Cursor, Region, IsRegion, IsAt, next_voxel, place, voxel_index, next_voxel-IsAt,
  place-next_voxel,
}
use vpic.Grid.State.{World, Grid, x_low, y_low, x_high, y_high}
use vpic.Grid.Size.{make_range}
use vpic.Grid.Size.Ranges.{make_range_lem, make_range_disjoint}
use vpic.Grid.Size.Mesh.{Cell}
use vpic.Grid.Join.{glue_face}
use vpic.Grid.Join.Faces.{across, face_cell, glue_face_both}
use vpic.Grid.Partition.{Place, rank_to_index, index_to_rank, next_rank}
use vpic.Grid.Partition.Ranks.{IsPlace, IsBeyond, next_rank-opposite}

-- The last voxel of a mesh of 2 by 3 by 4 voxels.
voxel_index_example :
    (voxel 3 4 5 2 3 < 120)
    × (voxel 3 4 5 2 3 % 4 ≡ 3)
    × ((voxel 3 4 5 2 3 / 4) % 5 ≡ 4)
    × (voxel 3 4 5 2 3 / 4 / 5 ≡ 5)
voxel_index_example = voxel_index 3 4 5 2 3 4 (omega arith) (omega arith) (omega arith)

-- The end of a plane: the next voxel begins the next one.
abbrev inner : Region
inner = record { xl = 1; xh = 2; yl = 1; yh = 3; zl = 1; zh = 4 }

inner-IsRegion : IsRegion inner 2 3
inner-IsRegion = record {
  x_ordered = omega arith;
  y_ordered = omega arith;
  x_inside = omega arith;
  y_inside = omega arith;
}

abbrev plane_end : Cursor
plane_end = record { v = 34; x = 2; y = 3; z = 1 }

plane_end-IsAt : IsAt inner 2 3 plane_end
unfolding voxel
plane_end-IsAt = record {
  x_low = omega arith;
  x_high = omega arith;
  y_low = omega arith;
  y_high = omega arith;
  z_low = omega arith;
  index = refl;
}

next_voxel-IsAt_example : IsAt inner 2 3 (next_voxel inner 2 3 plane_end)
next_voxel-IsAt_example = next_voxel-IsAt inner-IsRegion plane_end-IsAt

place-next_voxel_example : place inner (next_voxel inner 2 3 plane_end) ≡ place inner plane_end + 1
place-next_voxel_example = place-next_voxel inner-IsRegion plane_end-IsAt

-- Three processes with 27, 36 and 45 voxels.
abbrev world : World
world = record { size = 3; rank = 1; all_nv = update (update (λ r. 27) 1 36) 2 45 }

abbrev empty : Grid
empty = record {
  nx = 0;
  ny = 0;
  nz = 0;
  sx = 0;
  sy = 0;
  sz = 0;
  nv = 0;
  bc = λ b. negsuc 0;
  range = λ r. 0;
  rangel = 0;
  rangeh = 0;
  neighbor = λ i. pos 0;
}

make_range_lem_example : make_range world 2 ≡ sum_below world.all_nv 2
make_range_lem_example = make_range_lem world 2 (omega arith)

-- The last of three processes.
make_range_disjoint_example :
    (make_range world 0 ≡ 0)
    × (make_range world (2 + 1) ≡ make_range world 2 + 45)
    × (make_range world (2 + 1) ≤ make_range world 3)
unfolding update
make_range_disjoint_example = make_range_disjoint world 2 3 (omega arith) (omega arith)

abbrev low_cell : Cell
low_cell = record { x = 1; y = 1; z = 1 }

-- Two processes: of 2 and of 3 voxels along x, side by side.
abbrev side : ℕ → Grid
side n = record empty { nx = n; ny = 1; nz = 1; range = update (update (λ r. 81) 0 0) 1 36 }

glue_face_both_example :
    (g' h' : Grid) × (glue_face (side 2) x_high 1 ≡ some g')
    × (glue_face (side 3) x_low 0 ≡ some h')
    × (across g' x_high 1 1 ≡ pos (36 + face_cell (side 3) x_low 1 1))
    × (across h' x_low 1 1 ≡ pos (0 + face_cell (side 2) x_high 1 1))
unfolding update
glue_face_both_example =
    glue_face_both x_high (side 2) (side 3) 0 1 1 1 (refl, refl) refl refl
      (omega arith, omega arith) (omega arith, omega arith) (omega arith, omega arith)

-- The corner of a mesh of 2 by 3 by 4 processes.
abbrev corner : Place
corner = record { x = 1; y = 0; z = 3 }

corner-IsPlace : IsPlace corner 2 3 4
corner-IsPlace = record { x_in = omega arith; y_in = omega arith; z_in = omega arith }

next_rank-opposite_example :
    (next_rank y_low corner 2 3 4 < 24)
    × IsBeyond y_low 2 3 4 corner (rank_to_index (next_rank y_low corner 2 3 4) 2 3)
    × (next_rank y_high (rank_to_index (next_rank y_low corner 2 3 4) 2 3) 2 3 4
        ≡ index_to_rank (pos 1) (pos 0) (pos 3) 2 3 4)
next_rank-opposite_example = next_rank-opposite y_low corner 2 3 4 corner-IsPlace
