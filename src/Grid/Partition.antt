-- ===== src/Grid/Partition.antt =====
-- The partition of a box among the processes, src/grid/partition.cc: the macros `RANK_TO_INDEX` and
-- `INDEX_TO_RANK`, and the three functions, without what they compute in floating point.
pub mod Ranks
use vpic.Prelude.{
  ℕ, zero, suc, ◌+◌, ◌-◌, ◌*◌, ◌/◌, ◌%◌, Bool, true, false, not, ◌&&◌, ◌||◌, Option, none, some,
  ltb, leb, ◌==◌, if◌then◌else◌,
}
use vpic.Prelude.Int.{ℤ, pos, negsuc, sub_ℕ}
use vpic.Grid.State.{
  World, Grid, Face, x_low, y_low, z_low, x_high, y_high, z_high, boundary_of,
  anti_symmetric_fields, absorb_fields, reflect_particles,
}
use vpic.Grid.Size.{size_grid}
use vpic.Grid.Join.{join_grid, set_fbc, set_pbc}

-- The coordinates of a process in the mesh of processes.
pub record Place : Type 0 where
  pub x : ℕ
  pub y : ℕ
  pub z : ℕ

unfoldable pub rank_to_index : (rank gpx gpy : ℕ) → Place
rank_to_index rank gpx gpy =
    let ix = rank in
    let iy = ix / gpx in
    let ix' = ix - iy * gpx in
    let iz = iy / gpy in let iy' = iy - iz * gpy in record { x = ix'; y = iy'; z = iz }

-- `while(_ix>=gpx) _ix-=gpx;` and `while(_ix<0) _ix+=gpx;`, the latter at -(n+1). The fuel is
-- enough where it exceeds the number, as `gpx` is not 0.
unfoldable pub wrap_down : (fuel i g : ℕ) → ℕ
wrap_down zero i g = i
wrap_down (suc fuel) i g = elim (leb g i) [ true ↦ wrap_down fuel (i - g) g | false ↦ i ]

unfoldable pub wrap_up : (fuel n g : ℕ) → ℕ
wrap_up zero n g = 0
wrap_up (suc fuel) n g = elim (leb g n) [ true ↦ wrap_up fuel (n - g) g | false ↦ g - (n + 1) ]

unfoldable pub wrap : ℤ → ℕ → ℕ
unfolding wrap_down wrap_up
wrap (pos i) g = wrap_down (i + 1) i g
wrap (negsuc n) g = wrap_up (n + 1) n g

unfoldable pub index_to_rank : (ix iy iz : ℤ) (gpx gpy gpz : ℕ) → ℕ
index_to_rank ix iy iz gpx gpy gpz = wrap ix gpx + gpx * (wrap iy gpy + gpy * wrap iz gpz)

-- The rank of the process next to `p` beyond a face.
abbrev pub next_rank : Face → Place → (gpx gpy gpz : ℕ) → ℕ
next_rank x_low p = index_to_rank (sub_ℕ p.x 1) (pos p.y) (pos p.z)
next_rank y_low p = index_to_rank (pos p.x) (sub_ℕ p.y 1) (pos p.z)
next_rank z_low p = index_to_rank (pos p.x) (pos p.y) (sub_ℕ p.z 1)
next_rank x_high p = index_to_rank (pos (p.x + 1)) (pos p.y) (pos p.z)
next_rank y_high p = index_to_rank (pos p.x) (pos (p.y + 1)) (pos p.z)
next_rank z_high p = index_to_rank (pos p.x) (pos p.y) (pos (p.z + 1))

infixl 5 ◌>>=◌
abbrev ◌>>=◌ : Option Grid → (Grid → Option Grid) → Option Grid
none >>= k = none
some g >>= k = k g

-- The number of voxels and of processes along each axis.
pub record Shape : Type 0 where
  pub gnx : ℕ
  pub gny : ℕ
  pub gnz : ℕ
  pub gpx : ℕ
  pub gpy : ℕ
  pub gpz : ℕ

-- The two checks of the arguments.
abbrev pub bad_decomposition : World → Shape → Bool
bad_decomposition w s =
    ltb s.gpx 1 || (ltb s.gpy 1 || (ltb s.gpz 1 || not (s.gpx * s.gpy * s.gpz == w.size)))

abbrev pub bad_resolution : Shape → Bool
bad_resolution s =
    ltb s.gnx 1
    || (ltb s.gny 1
        || (ltb s.gnz 1
            || (not (s.gnx % s.gpx == 0)
                || (not (s.gny % s.gpy == 0) || not (s.gnz % s.gpz == 0)))))

-- `none` is an `ERROR`.
unfoldable pub partition_periodic_box : World → Grid → Shape → Option Grid
partition_periodic_box w g s = if bad_decomposition w s || bad_resolution s then none else (do
  let p = rank_to_index w.rank s.gpx s.gpy
  let join =
      λ (f : Face) (h : Grid). join_grid w h (boundary_of f) (next_rank f p s.gpx s.gpy s.gpz)
  g ← size_grid w g (s.gnx / s.gpx) (s.gny / s.gpy) (s.gnz / s.gpz)
  g ← join x_low g
  g ← join y_low g
  g ← join z_low g
  g ← join x_high g
  g ← join y_high g
  join z_high g)

-- `if( at_edge ) { set_fbc(g,boundary,fbc); set_pbc(g,boundary,pbc); }`
abbrev pub override : Bool → Face → (fbc pbc : ℤ) → Grid → Option Grid
override false f fbc pbc g = some g
override true f fbc pbc g = do g ← set_fbc g (boundary_of f) fbc; set_pbc g (boundary_of f) pbc

-- The overrides at the edges of the box, in axes with more than one voxel.
unfoldable pub override_edges : Shape → Place → (fbc pbc : ℤ) → Grid → Option Grid
override_edges s p fbc pbc g = do
  g ← override (p.x == 0 && ltb 1 s.gnx) x_low fbc pbc g
  g ← override (p.x == s.gpx - 1 && ltb 1 s.gnx) x_high fbc pbc g
  g ← override (p.y == 0 && ltb 1 s.gny) y_low fbc pbc g
  g ← override (p.y == s.gpy - 1 && ltb 1 s.gny) y_high fbc pbc g
  g ← override (p.z == 0 && ltb 1 s.gnz) z_low fbc pbc g
  override (p.z == s.gpz - 1 && ltb 1 s.gnz) z_high fbc pbc g

unfoldable pub partition_absorbing_box : World → Grid → Shape → (pbc : ℤ) → Option Grid
partition_absorbing_box w g s pbc = do
  g ← partition_periodic_box w g s
  override_edges s (rank_to_index w.rank s.gpx s.gpy) absorb_fields pbc g

unfoldable pub partition_metal_box : World → Grid → Shape → Option Grid
partition_metal_box w g s = do
  g ← partition_periodic_box w g s
  override_edges s (rank_to_index w.rank s.gpx s.gpy) anti_symmetric_fields reflect_particles g
