-- ===== src/Grid/Voxel.antt =====
-- The macros `VOXEL` and `NEXT_VOXEL` of src/grid/grid.h: the index of a voxel in a mesh with ghost
-- layers, and the walk through a region in the order of the indices.
use native.Mathlib.Decide.{dec_lt}
use vpic.Prelude.{
  ℕ, ◌+◌, ◌-◌, ◌*◌, ◌/◌, ◌%◌, ◌≤◌, ◌<◌, ◌≡◌, arith, ltb, if◌then◌else◌, ap, ◌∙◌, add_mul-mod,
  add_mul-div, add_mul-lt, carry,
}

-- `VOXEL( x,y,z, nx,ny,nz )`, which does not depend on `nz`.
unfoldable pub voxel : (x y z nx ny : ℕ) → ℕ
voxel x y z nx ny = x + (nx + 2) * (y + (ny + 2) * z)

pub voxel_x : (x y z nx ny : ℕ) → x < nx + 2 → voxel x y z nx ny % (nx + 2) ≡ x
unfolding voxel
voxel_x x y z nx ny h = add_mul-mod x (nx + 2) (y + (ny + 2) * z) h

pub voxel_row : (x y z nx ny : ℕ) → x < nx + 2 → voxel x y z nx ny / (nx + 2) ≡ y + (ny + 2) * z
unfolding voxel
voxel_row x y z nx ny h = add_mul-div x (nx + 2) (y + (ny + 2) * z) h

-- The index of a voxel of the mesh, ghosts included, is below the number of voxels, and the voxel's
-- coordinates are read off it: no two voxels share an index.
pub voxel_index :
    (x y z nx ny nz : ℕ)
    → x < nx + 2
    → y < ny + 2
    → z < nz + 2
    → (voxel x y z nx ny < (nx + 2) * ((ny + 2) * (nz + 2)))
      × (voxel x y z nx ny % (nx + 2) ≡ x)
      × ((voxel x y z nx ny / (nx + 2)) % (ny + 2) ≡ y)
      × (voxel x y z nx ny / (nx + 2) / (ny + 2) ≡ z)
voxel_index x y z nx ny nz hx hy hz = (
  unfold voxel in
      add_mul-lt x (nx + 2) (y + (ny + 2) * z) ((ny + 2) * (nz + 2)) hx
        (add_mul-lt y (ny + 2) z (nz + 2) hy hz),
  voxel_x x y z nx ny hx,
  rw (voxel_row x y z nx ny hx) (add_mul-mod y (ny + 2) z hy),
  rw (voxel_row x y z nx ny hx) (add_mul-div y (ny + 2) z hy),
)

-- The coordinates alone.
pub voxel_coordinates :
    (x y z nx ny : ℕ)
    → x < nx + 2
    → y < ny + 2
    → (voxel x y z nx ny % (nx + 2) ≡ x)
      × ((voxel x y z nx ny / (nx + 2)) % (ny + 2) ≡ y)
      × (voxel x y z nx ny / (nx + 2) / (ny + 2) ≡ z)
voxel_coordinates x y z nx ny hx hy =
    let (below, at_x, at_y, at_z) = voxel_index x y z nx ny z hx hy (omega arith) in
    (at_x, at_y, at_z)

-- The loop variables `v`, `x`, `y`, `z` of a walk.
pub record Cursor : Type 0 where
  pub v : ℕ
  pub x : ℕ
  pub y : ℕ
  pub z : ℕ

-- The bounds of a region.
pub record Region : Type 0 where
  pub xl : ℕ
  pub xh : ℕ
  pub yl : ℕ
  pub yh : ℕ
  pub zl : ℕ
  pub zh : ℕ

-- `x` past its bound: on to the next row.
abbrev next_row : Region → ℕ → Cursor → Cursor
next_row r nx c =
    if ltb r.xh c.x
    then record { v = c.v + (nx + r.xl + 1 - r.xh); x = r.xl; y = c.y + 1; z = c.z }
    else c

abbrev next_plane : Region → ℕ → ℕ → Cursor → Cursor
next_plane r nx ny c =
    if ltb r.yh c.y
    then record { v = c.v + (ny + r.yl + 1 - r.yh) * (nx + 2); x = c.x; y = r.yl; z = c.z + 1 }
    else c

unfoldable pub next_voxel : Region → ℕ → ℕ → Cursor → Cursor
next_voxel r nx ny c =
    next_plane r nx ny (next_row r nx (record { v = c.v + 1; x = c.x + 1; y = c.y; z = c.z }))

pub record IsRegion (r : Region) (nx ny : ℕ) : Type 0 where
  pub x_ordered : r.xl ≤ r.xh
  pub y_ordered : r.yl ≤ r.yh
  pub x_inside : r.xh ≤ nx + 1
  pub y_inside : r.yh ≤ ny + 1

pub record IsAt (r : Region) (nx ny : ℕ) (c : Cursor) : Type 0 where
  pub x_low : r.xl ≤ c.x
  pub x_high : c.x ≤ r.xh
  pub y_low : r.yl ≤ c.y
  pub y_high : c.y ≤ r.yh
  pub z_low : r.zl ≤ c.z
  pub index : c.v ≡ voxel c.x c.y c.z nx ny

-- How many voxels of the region, in its own order, come before the cursor.
unfoldable pub place : Region → Cursor → ℕ
place r c = (c.x - r.xl) + (r.xh + 1 - r.xl) * ((c.y - r.yl) + (r.yh + 1 - r.yl) * (c.z - r.zl))

module _ (r : Region) (nx ny : ℕ) (c : Cursor) where
  next_inside :
      c.x < r.xh
      → c.y ≤ r.yh
      → next_voxel r nx ny c ≡ record { v = c.v + 1; x = c.x + 1; y = c.y; z = c.z }
  unfolding next_voxel
  next_inside h k = ground arith

  next_new_row :
      c.x ≡ r.xh
      → c.y < r.yh
      → next_voxel r nx ny c
        ≡ record { v = c.v + 1 + (nx + r.xl + 1 - r.xh); x = r.xl; y = c.y + 1; z = c.z }
  unfolding next_voxel
  next_new_row h k = ground arith

  next_new_plane :
      c.x ≡ r.xh
      → c.y ≡ r.yh
      → next_voxel r nx ny c ≡ record {
        v = c.v + 1 + (nx + r.xl + 1 - r.xh) + (ny + r.yl + 1 - r.yh) * (nx + 2);
        x = r.xl;
        y = r.yl;
        z = c.z + 1;
      }
  unfolding next_voxel
  next_new_plane h k = ground arith

-- `NEXT_VOXEL` keeps the index in step with the coordinates and stays in the rows and columns of
-- the region.
pub next_voxel-IsAt :
    {r : Region} {nx ny : ℕ} {c : Cursor}
    → IsRegion r nx ny
    → IsAt r nx ny c
    → IsAt r nx ny (next_voxel r nx ny c)
unfolding voxel
next_voxel-IsAt {r} {nx} {ny} {c} w h = elim (dec_lt c.x r.xh) [
  | yes p ↦ rw (next_inside r nx ny c p h.y_high) (omega arith)
  | no p ↦ elim (dec_lt c.y r.yh) [
    | yes q ↦ rw (next_new_row r nx ny c (omega arith) q) (omega arith)
    | no q ↦
        let e : ny + r.yl + 1 - r.yh + r.yh ≡ ny + r.yl + 1 = omega arith in
        let y_end : c.y ≡ r.yh = omega arith in
        rw (next_new_plane r nx ny c (omega arith) (omega arith))
          (omega (arith, ap (λ (t : ℕ). t * (nx + 2)) e, ap (λ (t : ℕ). t * (nx + 2)) y_end))
  ]
]

-- The places before and behind a step, with the offsets `a`, `b` in the row and the column, the
-- width `w` and the height `h` of the region.
place_row : (w a b : ℕ) → a + 1 ≡ w → 0 + w * (b + 1) ≡ a + w * b + 1
place_row w a b e = omega (arith, carry a w b e)

place_column : (w a b k : ℕ) → a + 1 ≡ w → 0 + w * (b + 1 + k) ≡ a + w * (b + k) + 1
place_column w a b k e = ap (λ t. 0 + w * t) (omega arith) ∙ place_row w a (b + k) e

place_plane :
    (w h a b k : ℕ) → a + 1 ≡ w → b + 1 ≡ h → 0 + w * (0 + h * (k + 1)) ≡ a + w * (b + h * k) + 1
place_plane w h a b k e f = ap (λ t. 0 + w * t) (place_row h b k f) ∙ place_row w a (b + h * k) e

-- In a region inside the mesh, from a voxel of it, NEXT_VOXEL goes on by exactly one place in the
-- order of the region.
pub place-next_voxel :
    {r : Region} {nx ny : ℕ} {c : Cursor}
    → IsRegion r nx ny
    → IsAt r nx ny c
    → place r (next_voxel r nx ny c) ≡ place r c + 1
unfolding place
place-next_voxel {r} {nx} {ny} {c} w h =
    let x_zero : r.xl - r.xl ≡ 0 = omega arith in
    let y_zero : r.yl - r.yl ≡ 0 = omega arith in
    let y_next : c.y + 1 - r.yl ≡ (c.y - r.yl) + 1 = omega arith in
    let z_next : c.z + 1 - r.zl ≡ (c.z - r.zl) + 1 = omega arith in
    elim (dec_lt c.x r.xh) [
      | yes p ↦ rw (next_inside r nx ny c p h.y_high) (omega arith)
      | no p ↦ elim (dec_lt c.y r.yh) [
        | yes q ↦
            rw (next_new_row r nx ny c (omega arith) q, x_zero, y_next)
              (place_column (r.xh + 1 - r.xl) (c.x - r.xl) (c.y - r.yl)
                ((r.yh + 1 - r.yl) * (c.z - r.zl)) (omega arith))
        | no q ↦
            rw (next_new_plane r nx ny c (omega arith) (omega arith), x_zero, y_zero, z_next)
              (place_plane (r.xh + 1 - r.xl) (r.yh + 1 - r.yl) (c.x - r.xl) (c.y - r.yl)
                (c.z - r.zl) (omega arith) (omega arith))
      ]
    ]
