-- ===== src/Grid/Size.antt =====
-- `size_grid` of src/grid/ops.cc.
pub mod Ranges
pub mod Neighbors
pub mod Mesh
use vpic.Prelude.{
  ℕ, suc, ◌+◌, ◌-◌, ◌*◌, Bool, true, false, ◌||◌, Option, none, some, update, for_range, ltb, ◌==◌,
  if◌then◌else◌,
}
use vpic.Prelude.Int.{ℤ, pos, sub_ℕ}
use vpic.Grid.Voxel.{voxel}
use vpic.Grid.State.{
  World, Grid, Face, x_low, y_low, z_low, x_high, y_high, z_high, tag, center,
  anti_symmetric_fields, reflect_particles,
}

-- `jj = 0; range[world_size] = 0; for( i=0; i<=world_size; i++ ) { kk = range[i]; range[i] = jj;
-- jj += kk; }`, the array and `jj`.
abbrev pub sum_range : ℕ → (ℕ → ℕ) × ℕ → (ℕ → ℕ) × ℕ
sum_range i s = (update s.0 i s.1, s.1 + s.0 i)

unfoldable pub make_range : World → ℕ → ℕ
make_range w = (for_range (w.size + 1) 0 sum_range (update w.all_nv w.size 0, 0)).0

-- The first assignment to the entry for a face: the voxel next to it there. A coordinate of -1
-- gives the index that is a stride less.
abbrev pub next_over : (rangel nx ny x y z : ℕ) → Face → ℤ
next_over rangel nx ny x y z x_low = sub_ℕ (rangel + voxel x y z nx ny) 1
next_over rangel nx ny x y z y_low = sub_ℕ (rangel + voxel x y z nx ny) (nx + 2)
next_over rangel nx ny x y z z_low = sub_ℕ (rangel + voxel x y z nx ny) ((nx + 2) * (ny + 2))
next_over rangel nx ny x y z x_high = pos (rangel + voxel (x + 1) y z nx ny)
next_over rangel nx ny x y z y_high = pos (rangel + voxel x (y + 1) z nx ny)
next_over rangel nx ny x y z z_high = pos (rangel + voxel x y (z + 1) nx ny)

-- `if( x==1 ) … if( z==lnz ) …`: the voxel's face is one of the domain.
abbrev pub is_wall : (nx ny nz x y z : ℕ) → Face → Bool
is_wall nx ny nz x y z x_low = x == 1
is_wall nx ny nz x y z y_low = y == 1
is_wall nx ny nz x y z z_low = z == 1
is_wall nx ny nz x y z x_high = x == nx
is_wall nx ny nz x y z y_high = y == ny
is_wall nx ny nz x y z z_high = z == nz

abbrev pub is_ghost : (nx ny nz x y z : ℕ) → Bool
is_ghost nx ny nz x y z =
    x == 0 || (x == nx + 1 || (y == 0 || (y == ny + 1 || (z == 0 || z == nz + 1))))

-- The assignments to an entry, one after the other; those to the other five entries of the voxel are
-- made between them.
unfoldable pub set_entry : (rangel nx ny nz x y z : ℕ) → Face → (ℕ → ℤ) → ℕ → ℤ
set_entry rangel nx ny nz x y z f a =
    let i = 6 * voxel x y z nx ny + tag f in
    let joined = update a i (next_over rangel nx ny x y z f) in
    let walled = if is_wall nx ny nz x y z f then update joined i reflect_particles else joined in
    if is_ghost nx ny nz x y z then update walled i reflect_particles else walled

-- The body of the loop over the voxels.
unfoldable pub set_voxel : (rangel nx ny nz z y x : ℕ) → (ℕ → ℤ) → ℕ → ℤ
set_voxel rangel nx ny nz z y x a =
    let set = set_entry rangel nx ny nz x y z in
    set z_high (set y_high (set x_high (set z_low (set y_low (set x_low a)))))

unfoldable pub make_neighbors : (rangel nx ny nz : ℕ) → (ℕ → ℤ) → ℕ → ℤ
make_neighbors rangel nx ny nz =
    for_range (nz + 2) 0
      λ z. for_range (ny + 2) 0 λ y. for_range (nx + 2) 0 (set_voxel rangel nx ny nz z y)

-- Memory that was allocated anew holds what the old one did, which is overwritten: all of `range`
-- and of `neighbor`.
unfoldable pub sized : World → Grid → (lnx lny lnz : ℕ) → Grid
sized w g lnx lny lnz = record {
  nx = lnx;
  ny = lny;
  nz = lnz;
  sx = 1;
  sy = lnx + 2;
  sz = (lny + 2) * (lnx + 2);
  nv = (lnz + 2) * ((lny + 2) * (lnx + 2));
  bc = update (for_range 27 0 (λ b bc. update bc b anti_symmetric_fields) g.bc) center (pos w.rank);
  range = make_range w;
  rangel = make_range w w.rank;
  rangeh = make_range w (w.rank + 1) - 1;
  neighbor = make_neighbors (make_range w w.rank) lnx lny lnz g.neighbor;
}

-- `none` is `ERROR(( "Bad args" ))`.
unfoldable pub size_grid : World → Grid → (lnx lny lnz : ℕ) → Option Grid
size_grid w g lnx lny lnz =
    if ltb lnx 1 || (ltb lny 1 || ltb lnz 1) then none else some (sized w g lnx lny lnz)
