-- ===== src/Grid/Join/Faces.antt =====
-- What `GLUE_FACE` and `SET_PBC` leave in the array of neighbors, and that a face which two
-- processes share is crossed in both directions.
use vpic.Prelude.{
  ℕ, ◌+◌, ◌-◌, ◌*◌, ◌/◌, ◌%◌, ◌≤◌, ◌<◌, ◌≡◌, refl, sym, ap, ◌∙◌, some, arith, update_self,
  for_range-Keeps, for_range_sets, update-Keeps, if◌then◌else◌, add_mul-mod, add_mul-div,
}
use vpic.Prelude.Int.{ℤ, pos, sub_ℕ}
use vpic.Grid.Voxel.{voxel, voxel_coordinates}
use vpic.Grid.State.{Grid, Face, x_low, y_low, z_low, x_high, y_high, z_high, tag, opposite}
use vpic.Grid.Join.{
  Axis, x_axis, y_axis, z_axis, axis, is_low, Triple, resolution, cell, face_index, set_face,
  remote_cell, glue_face,
}

tag-lt : (f : Face) → tag f < 6
tag-lt f = ground arith

-- The coordinates Y and Z of a voxel, by its index.
Y_at : Axis → Triple → ℕ → ℕ
Y_at x_axis n v = v / (n.X + 2) % (n.Y + 2)
Y_at y_axis n v = v / (n.Z + 2) / (n.X + 2)
Y_at z_axis n v = v % (n.Y + 2)

Z_at : Axis → Triple → ℕ → ℕ
Z_at x_axis n v = v / (n.X + 2) / (n.Y + 2)
Z_at y_axis n v = v % (n.Z + 2)
Z_at z_axis n v = v / (n.Y + 2) % (n.Z + 2)

cell_coordinates :
    (a : Axis) (c n : Triple)
    → c.X < n.X + 2
    → c.Y < n.Y + 2
    → c.Z < n.Z + 2
    → (Y_at a n (cell a c n) ≡ c.Y) × (Z_at a n (cell a c n) ≡ c.Z)
unfolding Y_at Z_at
cell_coordinates x_axis c n hx hy hz =
    let e = voxel_coordinates c.X c.Y c.Z n.X n.Y hx hy in (e.1, e.2)
cell_coordinates y_axis c n hx hy hz =
    let e = voxel_coordinates c.Z c.X c.Y n.Z n.X hz hx in (e.2, e.0)
cell_coordinates z_axis c n hx hy hz =
    let e = voxel_coordinates c.Y c.Z c.X n.Y n.Z hy hz in (e.0, e.1)

module _ (f : Face) (n : Triple) (entry : ℕ → ℕ → ℤ) where
  value : ℕ → ℤ
  value j = entry (Y_at (axis f) n (j / 6)) (Z_at (axis f) n (j / 6))

  value_lem :
      (Y Z : ℕ) → 1 ≤ n.X → Y < n.Y + 2 → Z < n.Z + 2 → entry Y Z ≡ value (face_index f n Y Z)
  unfolding value
  value_lem Y Z one hy hz =
      let c : Triple = record { X = if is_low f then 1 else n.X; Y = Y; Z = Z } in
      let t = tag-lt f in
      let dv : face_index f n Y Z / 6 ≡ cell (axis f) c n = omega arith in
      let (ey, ez) = cell_coordinates (axis f) c n (ground arith) hy hz in rw (dv, ey, ez) refl

  -- The loops over a face give every voxel at it, but the ghosts, its entry.
  set_face_lem :
      (Y Z : ℕ) (a : ℕ → ℤ)
      → 1 ≤ n.X
      → (1 ≤ Y) × (Y ≤ n.Y)
      → (1 ≤ Z) × (Z ≤ n.Z)
      → set_face f n entry a (face_index f n Y Z) ≡ entry Y Z
  unfolding set_face
  set_face_lem Y Z a one hy hz =
      for_range_sets value n.Z 1 _ Z (face_index f n Y Z)
        (λ z _ hz'. for_range-Keeps value n.Y 1 _ λ y _ hy'.
          update-Keeps value (face_index f n y z) (entry y z)
            (value_lem y z one (omega arith) (omega arith)))
        hz.0 (omega arith)
        (for_range_sets value n.Y 1 _ Y (face_index f n Y Z)
          (λ y _ hy'.
            update-Keeps value (face_index f n y Z) (entry y Z)
              (value_lem y Z one (omega arith) (omega arith)))
          hy.0 (omega arith)
          (λ b.
            update_self b (face_index f n Y Z) (entry Y Z)
            ∙ value_lem Y Z one (omega arith) (omega arith)))
        a
      ∙ sym (value_lem Y Z one (omega arith) (omega arith))

glued :
    (g : Grid) (f : Face) (rank rX : ℕ)
    → let n = resolution (axis f) g.nx g.ny g.nz in
      g.range (rank + 1) ≡ g.range rank + (rX + 2) * ((n.Y + 2) * (n.Z + 2))
      → glue_face g f rank
        ≡ some (record g {
          neighbor = set_face f n (remote_cell f n (g.range rank) (rX + 2)) g.neighbor;
        })
unfolding glue_face
glued g f rank rX e =
    let n = resolution (axis f) g.nx g.ny g.nz in
    let layer : ℕ = (n.Y + 2) * (n.Z + 2) in
    let some_cells : 0 < layer = grind arith in
    let cells : g.range (rank + 1) - g.range rank ≡ 0 + layer * (rX + 2) = omega arith in
    rw (cells, add_mul-mod 0 layer (rX + 2) some_cells, add_mul-div 0 layer (rX + 2) some_cells)
      refl

-- The resolution of a grid by the axes X, Y, Z of a face.
abbrev pub along : Grid → Face → Triple
along g f = resolution (axis f) g.nx g.ny g.nz

-- The layer of voxels at a face, across it.
abbrev pub layer_at : Face → (nX : ℕ) → ℕ
layer_at x_low nX = 1
layer_at y_low nX = 1
layer_at z_low nX = 1
layer_at x_high nX = nX
layer_at y_high nX = nX
layer_at z_high nX = nX

-- The index of the voxel at (Y, Z) of face `f`, and its entry for this face.
abbrev pub face_cell : Grid → Face → (Y Z : ℕ) → ℕ
face_cell g f Y Z =
    cell (axis f) (record { X = layer_at f (along g f).X; Y = Y; Z = Z }) (along g f)

abbrev pub across : Grid → Face → (Y Z : ℕ) → ℤ
across g f Y Z = g.neighbor (6 * face_cell g f Y Z + tag f)

face_index-face_cell :
    (g : Grid) (f : Face) (Y Z : ℕ) → face_index f (along g f) Y Z ≡ 6 * face_cell g f Y Z + tag f
face_index-face_cell g x_low Y Z = refl
face_index-face_cell g y_low Y Z = refl
face_index-face_cell g z_low Y Z = refl
face_index-face_cell g x_high Y Z = refl
face_index-face_cell g y_high Y Z = refl
face_index-face_cell g z_high Y Z = refl

sub_ℕ-sum : (base a b c : ℕ) → a ≡ b + c → sub_ℕ (base + a) c ≡ pos (base + b)
sub_ℕ-sum base a b c e = ground (arith, e)

two_more : (a s b r : ℕ) → a + s * (b + 2 + r) ≡ a + s * (b + r) + s * 2
two_more a s b r = grind arith

two_layers : (a s t b c : ℕ) → a + s * (c + t * (b + 2)) ≡ a + s * (c + t * b) + s * (t * 2)
two_layers a s t b c = grind arith

-- The faces that meet have the same resolution.
abbrev pub Fits : Face → Grid → Grid → Type 0
Fits f g h = ((along g f).Y ≡ (along h f).Y) × ((along g f).Z ≡ (along h f).Z)

remote_cell-face_cell :
    (f : Face) (g h : Grid) (base Y Z : ℕ)
    → Fits f g h
    → remote_cell f (along g f) base ((along h f).X + 2) Y Z
      ≡ pos (base + face_cell h (opposite f) Y Z)
unfolding remote_cell voxel
remote_cell-face_cell x_low g h base Y Z fit = rw fit.0 (sub_ℕ-sum base _ _ _ (omega arith))
remote_cell-face_cell y_low g h base Y Z fit =
    rw fit.1 (sub_ℕ-sum base _ _ _ (omega (arith, two_more Z (h.nz + 2) h.ny ((h.ny + 2) * Y))))
remote_cell-face_cell z_low g h base Y Z fit =
    rw (fit.0, fit.1)
      (sub_ℕ-sum base _ _ _ (omega (arith, two_layers Y (h.nx + 2) (h.ny + 2) h.nz Z)))
remote_cell-face_cell x_high g h base Y Z fit = rw fit.0 refl
remote_cell-face_cell y_high g h base Y Z fit = rw fit.1 refl
remote_cell-face_cell z_high g h base Y Z fit = rw (fit.0, fit.1) refl

-- The range of process `rank` has the size of the grid `h` with its ghosts.
abbrev pub HoldsRange : Face → Grid → (ℕ → ℕ) → ℕ → Type 0
HoldsRange f h range rank =
    range (rank + 1)
    ≡ range rank + ((along h f).X + 2) * (((along h f).Y + 2) * ((along h f).Z + 2))

pub glue_face_lem :
    (f : Face) (g h : Grid) (rank Y Z : ℕ)
    → Fits f g h
    → HoldsRange f h g.range rank
    → 1 ≤ (along g f).X
    → (1 ≤ Y) × (Y ≤ (along g f).Y)
    → (1 ≤ Z) × (Z ≤ (along g f).Z)
    → (g' : Grid) × (glue_face g f rank ≡ some g')
      × (across g' f Y Z ≡ pos (g.range rank + face_cell h (opposite f) Y Z))
glue_face_lem f g h rank Y Z fit holds one hy hz =
    let n = along g f in
    let rX = (along h f).X in
    let g' : Grid = record g {
      neighbor = set_face f n (remote_cell f n (g.range rank) (rX + 2)) g.neighbor;
    } in
    (
      g',
      glued g f rank rX (rw (fit.0, fit.1) holds),
      ap g'.neighbor (sym (face_index-face_cell g f Y Z))
          ∙ set_face_lem f n (remote_cell f n (g.range rank) (rX + 2)) Y Z g.neighbor one hy hz
          ∙ remote_cell-face_cell f g h (g.range rank) Y Z fit,
    )

opposite-opposite : (f : Face) → opposite (opposite f) ≡ f
opposite-opposite f = ground arith

along-opposite : (g : Grid) (f : Face) → along g (opposite f) ≡ along g f
along-opposite g f = ground arith

-- Two processes with faces of the same resolution, each joined to the other's range there: a
-- particle that leaves a voxel across the face enters the voxel of the other process from which the
-- way back leads to the voxel that it left. The voxels are those of the layer 1 at a low face and of
-- the last layer within the mesh at a high one.
pub glue_face_both :
    (f : Face) (g h : Grid) (p q Y Z : ℕ)
    → Fits f g h
    → HoldsRange f h g.range q
    → HoldsRange f g h.range p
    → (1 ≤ (along g f).X) × (1 ≤ (along h f).X)
    → (1 ≤ Y) × (Y ≤ (along g f).Y)
    → (1 ≤ Z) × (Z ≤ (along g f).Z)
    → (g' h' : Grid) × (glue_face g f q ≡ some g')
      × (glue_face h (opposite f) p ≡ some h')
      × (across g' f Y Z ≡ pos (g.range q + face_cell h (opposite f) Y Z))
      × (across h' (opposite f) Y Z ≡ pos (h.range p + face_cell g f Y Z))
glue_face_both f g h p q Y Z fit hq hp one hy hz =
    let (g', to, there) = glue_face_lem f g h q Y Z fit hq one.0 hy hz in
    let (h', fro, back) = way_back in
    (
      g',
      h',
      to,
      fro,
      there,
      back ∙ ap (λ e. pos (h.range p + face_cell g e Y Z)) (opposite-opposite f),
    )
  where
    way_back :
        (h' : Grid) × (glue_face h (opposite f) p ≡ some h')
        × (across h' (opposite f) Y Z ≡ pos (h.range p + face_cell g (opposite (opposite f)) Y Z))
    way_back =
        glue_face_lem (opposite f) h g p Y Z
          (rw (along-opposite h f, along-opposite g f) (sym fit.0, sym fit.1))
          (rw (along-opposite g f) hp) (rw (along-opposite h f) one.1)
          (rw (along-opposite h f) (omega arith)) (rw (along-opposite h f) (omega arith))
