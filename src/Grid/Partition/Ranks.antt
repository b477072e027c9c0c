-- ===== src/Grid/Partition/Ranks.antt =====
-- Ranks and places determine each other, and the neighbors of a process are neighbors in turn.
use vpic.Prelude.{
  refl, ◌⊎◌, inl, inr, Bool-cases, ℕ, zero, suc, ◌+◌, ◌-◌, ◌*◌, ◌<◌, ◌≡◌, sym, ap, ◌∙◌, arith, ◌==◌,
  if◌then◌else◌, add_mul-div, add_mul-lt,
}
use vpic.Prelude.Int.{pos, negsuc, sub_ℕ}
use vpic.Grid.State.{Face, x_low, y_low, z_low, x_high, y_high, z_high, opposite}
use vpic.Grid.Partition.{Place, rank_to_index, wrap, index_to_rank, next_rank}

-- The place is within the mesh.
pub record IsPlace (p : Place) (gpx gpy gpz : ℕ) : Type 0 where
  pub x_in : p.x < gpx
  pub y_in : p.y < gpy
  pub z_in : p.z < gpz

wrap-in : (i g : ℕ) → i < g → wrap (pos i) g ≡ i
unfolding wrap
wrap-in i g h = ground arith

wrap-end : (i g : ℕ) → i ≡ g → 0 < g → wrap (pos i) g ≡ 0
unfolding wrap
wrap-end zero g e h = absurd (omega arith)
wrap-end (suc i) g e h = ground arith

wrap-below : (g : ℕ) → 0 < g → wrap (negsuc 0) g ≡ g - 1
unfolding wrap
wrap-below g h = ground arith

-- The coordinates before and behind one, round the mesh.
prev : ℕ → ℕ → ℕ
prev i g = if i == 0 then g - 1 else i - 1

next : ℕ → ℕ → ℕ
next i g = if i + 1 == g then 0 else i + 1

wrap-prev : (i g : ℕ) → i < g → wrap (sub_ℕ i 1) g ≡ prev i g
unfolding prev
wrap-prev zero g h = wrap-below g h
wrap-prev (suc i) g h = ground (arith, wrap-in i g)

wrap-next : (i g : ℕ) → i < g → wrap (pos (i + 1)) g ≡ next i g
unfolding next
wrap-next i g h = ground (arith, wrap-in (i + 1) g, wrap-end (i + 1) g)

-- The place next to one beyond a face of its domain.
next_place : Face → Place → (gpx gpy gpz : ℕ) → Place
next_place x_low p gpx gpy gpz = record p { x = prev p.x gpx }
next_place y_low p gpx gpy gpz = record p { y = prev p.y gpy }
next_place z_low p gpx gpy gpz = record p { z = prev p.z gpz }
next_place x_high p gpx gpy gpz = record p { x = next p.x gpx }
next_place y_high p gpx gpy gpz = record p { y = next p.y gpy }
next_place z_high p gpx gpy gpz = record p { z = next p.z gpz }

rank_of : Place → (gpx gpy : ℕ) → ℕ
rank_of p gpx gpy = p.x + gpx * (p.y + gpy * p.z)

module _ (p : Place) (gpx gpy gpz : ℕ) (v : IsPlace p gpx gpy gpz) where
  index_to_rank-pos : index_to_rank (pos p.x) (pos p.y) (pos p.z) gpx gpy gpz ≡ rank_of p gpx gpy
  unfolding index_to_rank rank_of
  index_to_rank-pos = rw (wrap-in p.x gpx v.x_in, wrap-in p.y gpy v.y_in, wrap-in p.z gpz v.z_in)

  rank_to_index-rank_of : rank_to_index (rank_of p gpx gpy) gpx gpy ≡ p
  unfolding rank_to_index rank_of
  rank_to_index-rank_of =
      let row : ℕ = p.y + gpy * p.z in
      let iy = add_mul-div p.x gpx row v.x_in in
      let iz = add_mul-div p.y gpy p.z v.y_in in
      let ex : p.x + gpx * row - row * gpx ≡ p.x = omega arith in
      let ey : p.y + gpy * p.z - p.z * gpy ≡ p.y = omega arith in
      rw (iy, iz) (λ i. record { x = ex i; y = ey i; z = p.z })

  rank_of-lt : rank_of p gpx gpy < gpx * (gpy * gpz)
  unfolding rank_of
  rank_of-lt =
      add_mul-lt p.x gpx (p.y + gpy * p.z) (gpy * gpz) v.x_in
        (add_mul-lt p.y gpy p.z gpz v.y_in v.z_in)

  next_rank_lem :
      (f : Face) → next_rank f p gpx gpy gpz ≡ rank_of (next_place f p gpx gpy gpz) gpx gpy
  unfolding index_to_rank rank_of next_place
  next_rank_lem x_low =
      rw (wrap-prev p.x gpx v.x_in, wrap-in p.y gpy v.y_in, wrap-in p.z gpz v.z_in)
  next_rank_lem y_low =
      rw (wrap-in p.x gpx v.x_in, wrap-prev p.y gpy v.y_in, wrap-in p.z gpz v.z_in)
  next_rank_lem z_low =
      rw (wrap-in p.x gpx v.x_in, wrap-in p.y gpy v.y_in, wrap-prev p.z gpz v.z_in)
  next_rank_lem x_high =
      rw (wrap-next p.x gpx v.x_in, wrap-in p.y gpy v.y_in, wrap-in p.z gpz v.z_in)
  next_rank_lem y_high =
      rw (wrap-in p.x gpx v.x_in, wrap-next p.y gpy v.y_in, wrap-in p.z gpz v.z_in)
  next_rank_lem z_high =
      rw (wrap-in p.x gpx v.x_in, wrap-in p.y gpy v.y_in, wrap-next p.z gpz v.z_in)

  next_place-IsPlace : (f : Face) → IsPlace (next_place f p gpx gpy gpz) gpx gpy gpz
  unfolding next_place prev next
  next_place-IsPlace x_low = ground arith
  next_place-IsPlace y_low = ground arith
  next_place-IsPlace z_low = ground arith
  next_place-IsPlace x_high = ground arith
  next_place-IsPlace y_high = ground arith
  next_place-IsPlace z_high = ground arith

  next_place-opposite :
      (f : Face) → next_place (opposite f) (next_place f p gpx gpy gpz) gpx gpy gpz ≡ p
  unfolding next_place prev next
  next_place-opposite x_low = ground arith
  next_place-opposite y_low = ground arith
  next_place-opposite z_low = ground arith
  next_place-opposite x_high = ground arith
  next_place-opposite y_high = ground arith
  next_place-opposite z_high = ground arith

-- Place `q` follows `p` along an axis of `n` places, the first one following the last.
abbrev Follows : (n p q : ℕ) → Type 0
Follows n p q = (p + 1 ≡ q) ⊎ ((p + 1 ≡ n) × (q ≡ 0))

-- Place `q` lies beyond a face of `p`.
abbrev pub IsBeyond : Face → (gpx gpy gpz : ℕ) → (p q : Place) → Type 0
IsBeyond x_low gpx gpy gpz p q = Follows gpx q.x p.x × (q.y ≡ p.y) × (q.z ≡ p.z)
IsBeyond y_low gpx gpy gpz p q = Follows gpy q.y p.y × (q.x ≡ p.x) × (q.z ≡ p.z)
IsBeyond z_low gpx gpy gpz p q = Follows gpz q.z p.z × (q.x ≡ p.x) × (q.y ≡ p.y)
IsBeyond x_high gpx gpy gpz p q = Follows gpx p.x q.x × (q.y ≡ p.y) × (q.z ≡ p.z)
IsBeyond y_high gpx gpy gpz p q = Follows gpy p.y q.y × (q.x ≡ p.x) × (q.z ≡ p.z)
IsBeyond z_high gpx gpy gpz p q = Follows gpz p.z q.z × (q.x ≡ p.x) × (q.y ≡ p.y)

prev-Follows : (i g : ℕ) → i < g → Follows g (prev i g) i
unfolding prev
prev-Follows zero g h = inr (omega arith, refl)
prev-Follows (suc i) g h = inl (ground arith)

next-Follows : (i g : ℕ) → i < g → Follows g i (next i g)
unfolding next
next-Follows i g h = elim (Bool-cases (i + 1 == g)) [
  | inl t ↦ inr (ground (arith, t), rw t refl)
  | inr f ↦ inl (rw f refl)
]

next_place-IsBeyond :
    (f : Face) (p : Place) (gpx gpy gpz : ℕ)
    → IsPlace p gpx gpy gpz
    → IsBeyond f gpx gpy gpz p (next_place f p gpx gpy gpz)
unfolding next_place
next_place-IsBeyond x_low p gpx gpy gpz v = (prev-Follows p.x gpx v.x_in, refl, refl)
next_place-IsBeyond y_low p gpx gpy gpz v = (prev-Follows p.y gpy v.y_in, refl, refl)
next_place-IsBeyond z_low p gpx gpy gpz v = (prev-Follows p.z gpz v.z_in, refl, refl)
next_place-IsBeyond x_high p gpx gpy gpz v = (next-Follows p.x gpx v.x_in, refl, refl)
next_place-IsBeyond y_high p gpx gpy gpz v = (next-Follows p.y gpy v.y_in, refl, refl)
next_place-IsBeyond z_high p gpx gpy gpz v = (next-Follows p.z gpz v.z_in, refl, refl)

-- For a process at a place of the mesh, the rank that the partition takes for the neighbor at a face
-- is one of the mesh. Its place is the next one along the face's axis, the first and the last place
-- of the axis being next to each other, and the rank that the neighbor takes for its own neighbor at
-- the opposite face is that of the process.
pub next_rank-opposite :
    (f : Face) (p : Place) (gpx gpy gpz : ℕ)
    → IsPlace p gpx gpy gpz
    → (next_rank f p gpx gpy gpz < gpx * (gpy * gpz))
      × IsBeyond f gpx gpy gpz p (rank_to_index (next_rank f p gpx gpy gpz) gpx gpy)
      × (next_rank (opposite f) (rank_to_index (next_rank f p gpx gpy gpz) gpx gpy) gpx gpy gpz
          ≡ index_to_rank (pos p.x) (pos p.y) (pos p.z) gpx gpy gpz)
next_rank-opposite f p gpx gpy gpz v =
    let q = next_place f p gpx gpy gpz in
    let w = next_place-IsPlace p gpx gpy gpz v f in
    rw (next_rank_lem p gpx gpy gpz v f, rank_to_index-rank_of q gpx gpy gpz w)
      (
        rank_of-lt q gpx gpy gpz w,
        next_place-IsBeyond f p gpx gpy gpz v,
        next_rank_lem q gpx gpy gpz w (opposite f)
            ∙ (ap (λ r. rank_of r gpx gpy) (next_place-opposite p gpx gpy gpz v f)
                ∙ sym (index_to_rank-pos p gpx gpy gpz v)),
      )
