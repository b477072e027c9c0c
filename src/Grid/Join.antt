-- ===== src/Grid/Join.antt =====
-- `join_grid`, `set_fbc` and `set_pbc` of src/grid/ops.cc, which give the faces of the local domain
-- their neighbors and boundary conditions.
pub mod Faces
use vpic.Prelude.{
  ℕ, ◌+◌, ◌-◌, ◌*◌, ◌/◌, ◌%◌, Bool, true, false, not, ◌&&◌, ◌||◌, Option, none, some, update,
  for_range, ltb, leb, ◌==◌, if◌then◌else◌,
}
use vpic.Prelude.Int.{ℤ, pos, negsuc, sub_ℕ}
use vpic.Grid.Voxel.{voxel}
use vpic.Grid.State.{
  World, Grid, Face, x_low, y_low, z_low, x_high, y_high, z_high, tag, center, face_of,
  anti_symmetric_fields, symmetric_fields, pmc_fields, absorb_fields,
}

-- The macros `GLUE_FACE` and `SET_PBC` name the axes of a face X, Y and Z: X is across the face, Y
-- and Z are along it, in cyclic order.
pub data Axis : Type 0 where
  x_axis y_axis z_axis : Axis

abbrev pub axis : Face → Axis
axis x_low = x_axis
axis y_low = y_axis
axis z_low = z_axis
axis x_high = x_axis
axis y_high = y_axis
axis z_high = z_axis

-- `(i+j+k)<0`
abbrev pub is_low : Face → Bool
is_low x_low = true
is_low y_low = true
is_low z_low = true
is_low x_high = false
is_low y_high = false
is_low z_high = false

-- A triple of numbers by the axes X, Y, Z.
pub record Triple : Type 0 where
  pub X : ℕ
  pub Y : ℕ
  pub Z : ℕ

-- `lnX`, `lnY`, `lnZ`
abbrev pub resolution : Axis → (nx ny nz : ℕ) → Triple
resolution x_axis nx ny nz = record { X = nx; Y = ny; Z = nz }
resolution y_axis nx ny nz = record { X = ny; Y = nz; Z = nx }
resolution z_axis nx ny nz = record { X = nz; Y = nx; Z = ny }

-- `VOXEL(x,y,z, nx,ny,nz)` where the coordinates `c` and the resolution `n` are given by X, Y, Z.
abbrev pub cell : Axis → (c n : Triple) → ℕ
cell x_axis c n = voxel c.X c.Y c.Z n.X n.Y
cell y_axis c n = voxel c.Z c.X c.Y n.Z n.X
cell z_axis c n = voxel c.Y c.Z c.X n.Y n.Z

-- `6*LOCAL_CELL_ID(lx,ly,lz) + tag`, with `lX` at the face.
abbrev pub face_index : Face → Triple → (Y Z : ℕ) → ℕ
face_index f n Y Z =
    6 * cell (axis f) (record { X = if is_low f then 1 else n.X; Y = Y; Z = Z }) n + tag f

-- The two loops over the face.
unfoldable pub set_face : Face → Triple → (ℕ → ℕ → ℤ) → (ℕ → ℤ) → ℕ → ℤ
set_face f n entry =
    for_range n.Z 1 λ Z. for_range n.Y 1 λ Y a. update a (face_index f n Y Z) (entry Y Z)

-- The index of the voxel at `c` in a mesh that has `size` voxels with its ghosts.
abbrev pub strided : Axis → (c size : Triple) → ℕ
strided x_axis c size = c.X + size.X * (c.Y + size.Y * c.Z)
strided y_axis c size = c.Z + size.Z * (c.X + size.X * c.Y)
strided z_axis c size = c.Y + size.Y * (c.Z + size.Z * c.X)

-- `range[rank] + REMOTE_CELL_ID(rx,ry,rz)`, for a remote mesh of `layers` layers of voxels across,
-- of which 2 are ghosts. At a low face, `rX` is `layers-2`, which may be negative.
unfoldable pub remote_cell : Face → Triple → (base layers Y Z : ℕ) → ℤ
remote_cell f n base layers Y Z =
    let size : Triple = record { X = layers; Y = n.Y + 2; Z = n.Z + 2 } in
    if is_low f
    then sub_ℕ (base + strided (axis f) (record { X = layers; Y = Y; Z = Z }) size)
        (strided (axis f) (record { X = 2; Y = 0; Z = 0 }) size)
    else pos (base + strided (axis f) (record { X = 1; Y = Y; Z = Z }) size)

-- `GLUE_FACE`: `none` where the remote face is incompatible. The ranges ascend, so that `rnc` is not
-- negative.
unfoldable pub glue_face : Grid → Face → ℕ → Option Grid
glue_face g f rank =
    let n = resolution (axis f) g.nx g.ny g.nz in
    let rnc = g.range (rank + 1) - g.range rank in
    let layer = (n.Y + 2) * (n.Z + 2) in
    if not (rnc % layer == 0)
    then none
    else some (record g {
      neighbor = set_face f n (remote_cell f n (g.range rank) (rnc / layer)) g.neighbor;
    })

unfoldable pub join_grid : World → Grid → (boundary rank : ℕ) → Option Grid
join_grid w g boundary rank =
    if not (ltb boundary 27) || (boundary == center || not (ltb rank w.size))
    then none
    else let g' = record g { bc = update g.bc boundary (pos rank) } in
      elim (face_of boundary) [ none ↦ some g' | some f ↦ glue_face g' f rank ]

abbrev pub is_field_bc : ℤ → Bool
is_field_bc (pos n) = false
is_field_bc (negsuc n) = ltb n 4

-- Field boundary conditions are -1 to -4.
unfoldable pub set_fbc : Grid → ℕ → ℤ → Option Grid
set_fbc g boundary fbc =
    if not (ltb boundary 27) || (boundary == center || not (is_field_bc fbc))
    then none
    else some (record g { bc = update g.bc boundary fbc })

abbrev pub is_negative : ℤ → Bool
is_negative (pos n) = false
is_negative (negsuc n) = true

unfoldable pub set_pbc : Grid → ℕ → ℤ → Option Grid
set_pbc g boundary pbc =
    if not (ltb boundary 27) || (boundary == center || not (is_negative pbc))
    then none
    else elim (face_of boundary) [
      | none ↦ some g
      | some f ↦ some (record g {
        neighbor = set_face f (resolution (axis f) g.nx g.ny g.nz) (λ Y Z. pbc) g.neighbor;
      })
    ]
