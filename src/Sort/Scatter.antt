-- ===== src/Sort/Scatter.antt =====
-- The two loops that every particle sort is made of: counting the particles by a key, and putting
-- each particle at the next free place for its key. The particles are a list in the order of the
-- array that is read, and what is written is an array with `none` where nothing was.
use vpic.Prelude.{
  ℕ, zero, suc, ◌+◌, ◌<◌, ◌≡◌, ◌≢◌, refl, ◌∙◌, Option, some, List, [], ◌∷◌, arith, update, ◌==◌,
  if◌then◌else◌, Bool-cases, inl, inr, length, get_elem?,
}

module _ {ℓ} {A : Type ℓ} (key : A → ℕ) where
  -- `for( i=0; i<np; i++ ) next[ key ]++;`
  unfoldable pub count_keys : List A → (ℕ → ℕ) → ℕ → ℕ
  count_keys [] next = next
  count_keys (p ∷ ps) next = count_keys ps (update next (key p) (next (key p) + 1))

  -- `for( i=0; i<np; i++ ) out_p[ next[ key ]++ ] = in_p[i];`
  unfoldable pub scatter : List A → (ℕ → ℕ) → (ℕ → Option A) → ℕ → Option A
  scatter [] next out = out
  scatter (p ∷ ps) next out =
      scatter ps (update next (key p) (next (key p) + 1)) (update out (next (key p)) (some p))

  -- The particles of a key, in their order, and their number.
  unfoldable pub with_key : ℕ → List A → List A
  with_key v [] = []
  with_key v (p ∷ ps) = if key p == v then p ∷ with_key v ps else with_key v ps

  unfoldable pub count : ℕ → List A → ℕ
  count v [] = 0
  count v (p ∷ ps) = if key p == v then count v ps + 1 else count v ps

  pub length-with_key : (v : ℕ) (ps : List A) → length (with_key v ps) ≡ count v ps
  unfolding with_key count
  length-with_key v [] = refl
  length-with_key v (p ∷ ps) = ground (arith, length-with_key v ps)

  -- Counting adds to each entry the number of particles of its key.
  pub count_keys-count :
      (ps : List A) (next : ℕ → ℕ) (v : ℕ) → count_keys ps next v ≡ next v + count v ps
  unfolding count_keys count update
  count_keys-count [] next v = omega arith
  count_keys-count (p ∷ ps) next v =
      ground (arith, count_keys-count ps (update next (key p) (next (key p) + 1)) v)

  -- The places from `start v` on, as many as there are particles of key `v`, are nobody else's.
  abbrev pub Apart : (ℕ → ℕ) → List A → Type 0
  Apart start ps =
      (v w a b : ℕ) → v ≢ w → a < count v ps → b < count w ps → start v + a ≢ start w + b

  Apart-step :
      (p : A) (ps : List A) (start : ℕ → ℕ)
      → Apart start (p ∷ ps)
      → Apart (update start (key p) (start (key p) + 1)) ps
  unfolding count update
  Apart-step p ps start h v w a b ne ha hb =
      ground (arith, h v w a b ne, h v w (a + 1) b ne, h v w a (b + 1) ne)

  -- A place outside of all is left alone.
  pub scatter_skips :
      (ps : List A) (start : ℕ → ℕ) (out : ℕ → Option A) (j : ℕ)
      → ((v a : ℕ) → a < count v ps → j ≢ start v + a)
      → scatter ps start out j ≡ out j
  unfolding scatter count update
  scatter_skips [] start out j h = refl
  scatter_skips (p ∷ ps) start out j h =
      scatter_skips ps (update start (key p) (start (key p) + 1))
        (update out (start (key p)) (some p)) j (λ v a lt. ground (arith, lt, h v a, h v (a + 1)))
      ∙ ground (arith, h (key p) 0)

  scatter_at :
      (ps : List A) (start : ℕ → ℕ) (out : ℕ → Option A) (v m j : ℕ)
      → Apart start ps
      → m < count v ps
      → start v + m ≡ j
      → scatter ps start out j ≡ get_elem? (with_key v ps) m
  unfolding scatter with_key count update
  scatter_at [] start out v m j h lt e = absurd (omega arith)
  scatter_at (p ∷ ps) start out v zero j h lt e = elim (Bool-cases (key p == v)) [
    | inl t ↦ rw t (
        scatter_skips ps (update start (key p) (start (key p) + 1))
          (update out (start (key p)) (some p)) j (λ w a la. ground (arith, la, h v w 0 a, t))
        ∙ ground (arith, t))
    | inr f ↦ rw f (
        scatter_at ps (update start (key p) (start (key p) + 1))
          (update out (start (key p)) (some p)) v zero j (Apart-step p ps start h) (ground arith)
          (ground arith))
  ]
  scatter_at (p ∷ ps) start out v (suc m) j h lt e = elim (Bool-cases (key p == v)) [
    | inl t ↦ rw t (
        scatter_at ps (update start (key p) (start (key p) + 1))
          (update out (start (key p)) (some p)) v m j (Apart-step p ps start h) (ground arith)
          (ground arith))
    | inr f ↦ rw f (
        scatter_at ps (update start (key p) (start (key p) + 1))
          (update out (start (key p)) (some p)) v (suc m) j (Apart-step p ps start h) (ground arith)
          (ground arith))
  ]

  -- The particles of each key stand at the places of that key, in the order in which they came.
  pub scatter_lem :
      (ps : List A) (start : ℕ → ℕ) (out : ℕ → Option A) (v m : ℕ)
      → Apart start ps
      → m < count v ps
      → scatter ps start out (start v + m) ≡ get_elem? (with_key v ps) m
  scatter_lem ps start out v m h lt = scatter_at ps start out v m (start v + m) h lt refl
