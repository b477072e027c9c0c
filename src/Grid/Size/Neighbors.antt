-- ===== src/Grid/Size/Neighbors.antt =====
-- What `size_grid` leaves in the array of neighbors.
use vpic.Prelude.{
  ap, ◌||◌, inl, inr, Bool-cases, update, ℕ, ◌+◌, ◌*◌, ◌/◌, ◌%◌, ◌<◌, ◌≡◌, refl, sym, ◌∙◌, arith,
  update_self, for_range-Keeps, for_range_sets, Keeps, update-Keeps, ◌==◌, if◌then◌else◌,
}
use vpic.Prelude.Int.{ℤ}
use vpic.Grid.Voxel.{voxel, voxel_coordinates}
use vpic.Grid.State.{reflect_particles, Face, x_low, y_low, z_low, x_high, y_high, z_high, tag}
use vpic.Grid.Size.{next_over, is_wall, is_ghost, set_entry, set_voxel, make_neighbors}

-- What an entry holds after the assignments to it.
unfoldable pub entry : (rangel nx ny nz x y z : ℕ) → Face → ℤ
entry rangel nx ny nz x y z f =
    if is_ghost nx ny nz x y z || is_wall nx ny nz x y z f
    then reflect_particles
    else next_over rangel nx ny x y z f

set_entry-entry :
    (rangel nx ny nz x y z : ℕ) (f : Face) (a : ℕ → ℤ)
    → set_entry rangel nx ny nz x y z f a
      ≡ update a (6 * voxel x y z nx ny + tag f) (entry rangel nx ny nz x y z f)
unfolding set_entry entry update
set_entry-entry rangel nx ny nz x y z f a = λ k j. at_index j k
  where
    at_index :
        (j : ℕ)
        → set_entry rangel nx ny nz x y z f a j
          ≡ update a (6 * voxel x y z nx ny + tag f) (entry rangel nx ny nz x y z f) j
    at_index j = elim (Bool-cases (is_ghost nx ny nz x y z)) [
      | inl g ↦ elim (Bool-cases (is_wall nx ny nz x y z f)) [
        | inl w ↦ elim (Bool-cases (j == 6 * voxel x y z nx ny + tag f)) [
          | inl t ↦ rw (g, w, t) refl
          | inr n ↦ rw (g, w, n) refl
        ]
        | inr w ↦ elim (Bool-cases (j == 6 * voxel x y z nx ny + tag f)) [
          | inl t ↦ rw (g, w, t) refl
          | inr n ↦ rw (g, w, n) refl
        ]
      ]
      | inr g ↦ elim (Bool-cases (is_wall nx ny nz x y z f)) [
        | inl w ↦ elim (Bool-cases (j == 6 * voxel x y z nx ny + tag f)) [
          | inl t ↦ rw (g, w, t) refl
          | inr n ↦ rw (g, w, n) refl
        ]
        | inr w ↦ rw (g, w) refl
      ]
    ]

face_at : ℕ → Face
face_at t =
    if t == 0
    then x_low
    else if t == 1
    then y_low
    else if t == 2
    then z_low
    else if t == 3
    then x_high
    else if t == 4
    then y_high
    else z_high

tag-lt : (f : Face) → tag f < 6
tag-lt f = ground arith

face_at-tag : (f : Face) → face_at (tag f) ≡ f
unfolding face_at
face_at-tag f = ground arith

module _ (rangel nx ny nz : ℕ) where
  -- The value by the index of the entry.
  value : ℕ → ℤ
  value j =
      let v = j / 6 in
      entry rangel nx ny nz (v % (nx + 2)) (v / (nx + 2) % (ny + 2)) (v / (nx + 2) / (ny + 2))
        (face_at (j % 6))

  value_lem :
      (x y z : ℕ) (f : Face)
      → x < nx + 2
      → y < ny + 2
      → entry rangel nx ny nz x y z f ≡ value (6 * voxel x y z nx ny + tag f)
  unfolding value
  value_lem x y z f hx hy =
      let v = voxel x y z nx ny in
      let t = tag-lt f in
      let (ex, ey, ez) = voxel_coordinates x y z nx ny hx hy in
      let dv : (6 * v + tag f) / 6 ≡ v = omega arith in
      let dt : (6 * v + tag f) % 6 ≡ tag f = omega arith in
      rw (dv, dt, ex, ey, ez, face_at-tag f) refl

  set_entry-Keeps :
      (x y z : ℕ) (f : Face)
      → x < nx + 2
      → y < ny + 2
      → Keeps value (set_entry rangel nx ny nz x y z f)
  set_entry-Keeps x y z f hx hy = λ a j h.
      ap (λ g. g j) (set_entry-entry rangel nx ny nz x y z f a)
      ∙ update-Keeps value (6 * voxel x y z nx ny + tag f) (entry rangel nx ny nz x y z f)
          (value_lem x y z f hx hy) a j h

  set_entry_sets :
      (x y z : ℕ) (f : Face)
      → x < nx + 2
      → y < ny + 2
      → (a : ℕ → ℤ)
      → set_entry rangel nx ny nz x y z f a (6 * voxel x y z nx ny + tag f)
        ≡ value (6 * voxel x y z nx ny + tag f)
  set_entry_sets x y z f hx hy a =
      ap (λ g. g (6 * voxel x y z nx ny + tag f)) (set_entry-entry rangel nx ny nz x y z f a)
      ∙ update_self a (6 * voxel x y z nx ny + tag f) (entry rangel nx ny nz x y z f)
      ∙ value_lem x y z f hx hy

  set_voxel-Keeps :
      (x y z : ℕ) → x < nx + 2 → y < ny + 2 → Keeps value (set_voxel rangel nx ny nz z y x)
  unfolding set_voxel
  set_voxel-Keeps x y z hx hy a j h =
      let keep = λ (f : Face). set_entry-Keeps x y z f hx hy in
      keep z_high _ j
        (keep y_high _ j (keep x_high _ j (keep z_low _ j (keep y_low _ j (keep x_low a j h)))))

  set_voxel_sets :
      (x y z : ℕ) (f : Face)
      → x < nx + 2
      → y < ny + 2
      → (a : ℕ → ℤ)
      → set_voxel rangel nx ny nz z y x a (6 * voxel x y z nx ny + tag f)
        ≡ value (6 * voxel x y z nx ny + tag f)
  unfolding set_voxel
  set_voxel_sets x y z x_low hx hy a = set_entry-Keeps x y z z_high hx hy _ _ (
      set_entry-Keeps x y z y_high hx hy _ _ (
        set_entry-Keeps x y z x_high hx hy _ _ (
          set_entry-Keeps x y z z_low hx hy _ _
            (set_entry-Keeps x y z y_low hx hy _ _ (set_entry_sets x y z x_low hx hy _)))))
  set_voxel_sets x y z y_low hx hy a = set_entry-Keeps x y z z_high hx hy _ _ (
      set_entry-Keeps x y z y_high hx hy _ _ (
        set_entry-Keeps x y z x_high hx hy _ _
          (set_entry-Keeps x y z z_low hx hy _ _ (set_entry_sets x y z y_low hx hy _))))
  set_voxel_sets x y z z_low hx hy a = set_entry-Keeps x y z z_high hx hy _ _ (
      set_entry-Keeps x y z y_high hx hy _ _
        (set_entry-Keeps x y z x_high hx hy _ _ (set_entry_sets x y z z_low hx hy _)))
  set_voxel_sets x y z x_high hx hy a =
      set_entry-Keeps x y z z_high hx hy _ _
        (set_entry-Keeps x y z y_high hx hy _ _ (set_entry_sets x y z x_high hx hy _))
  set_voxel_sets x y z y_high hx hy a =
      set_entry-Keeps x y z z_high hx hy _ _ (set_entry_sets x y z y_high hx hy _)
  set_voxel_sets x y z z_high hx hy a = set_entry_sets x y z z_high hx hy _

  -- Whatever stood in the array, afterwards the entry of each voxel and face holds the boundary
  -- condition at ghosts and walls, else the voxel next to it.
  pub make_neighbors_lem :
      (x y z : ℕ) (f : Face) (a : ℕ → ℤ)
      → x < nx + 2
      → y < ny + 2
      → z < nz + 2
      → make_neighbors rangel nx ny nz a (6 * voxel x y z nx ny + tag f)
        ≡ entry rangel nx ny nz x y z f
  unfolding make_neighbors
  make_neighbors_lem x y z f a hx hy hz =
      for_range_sets value (nz + 2) 0 _ z (6 * voxel x y z nx ny + tag f)
        (λ z' _ _. for_range-Keeps value (ny + 2) 0 _ λ y' _ hy'.
          for_range-Keeps value (nx + 2) 0 _
            λ x' _ hx'. set_voxel-Keeps x' y' z' (omega arith) (omega arith))
        (omega arith) (omega arith)
        (for_range_sets value (ny + 2) 0 _ y (6 * voxel x y z nx ny + tag f)
          (λ y' _ hy'.
            for_range-Keeps value (nx + 2) 0 _
              λ x' _ hx'. set_voxel-Keeps x' y' z (omega arith) (omega arith))
          (omega arith) (omega arith)
          (for_range_sets value (nx + 2) 0 _ x (6 * voxel x y z nx ny + tag f)
            (λ x' _ hx'. set_voxel-Keeps x' y z (omega arith) hy) (omega arith) (omega arith)
            (set_voxel_sets x y z f hx hy)))
        a
      ∙ sym (value_lem x y z f hx hy)
