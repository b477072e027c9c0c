-- ===== src/Sort/Runs.antt =====
-- The particles of a stretch of an array, `live` of Sort/Legacy.antt, for the proofs of the sorts.
use vpic.Prelude.{
  ℕ, zero, suc, ◌+◌, ◌≤◌, ◌<◌, ◌≡◌, ◌⊎◌, refl, sym, ◌∙◌, ap, true, Option, none, some, List, [],
  ◌∷◌, ◌++◌, arith, Option-cases, inl, inr, length, get_elem?, ltb, ◌==◌,
}
use vpic.Sort.Scatter.{with_key, count}
use vpic.Sort.Legacy.{Particle, live, voxel_of}
use vpic.Sort.Counting.{below, below-add-one}

module _ {ℓ} {F : Type ℓ} (p : ℕ → Option (Particle F)) where
  -- A stretch that begins with a particle.
  live-some : (n j : ℕ) (q : Particle F) → p j ≡ some q → live (suc n) j p ≡ q ∷ live n (j + 1) p
  unfolding live
  live-some n j q e = rw (live, e) refl

  live-none : (n j : ℕ) → p j ≡ none → live (suc n) j p ≡ live n (j + 1) p
  unfolding live
  live-none n j e = rw (live, e) refl

  pub live-append : (a b j : ℕ) → live (a + b) j p ≡ live a j p ++ live b (j + a) p
  unfolding live
  live-append zero b j =
      ap (λ k. live k j p) {x = 0 + b} {y = b} (omega arith)
      ∙ ap (λ k. live b k p) {x = j} {y = j + 0} (omega arith)
  live-append (suc a) b j =
      let rest : live (a + b) (j + 1) p ≡ live a (j + 1) p ++ live b (j + suc a) p =
        live-append a b (j + 1)
        ∙ ap (λ k. live a (j + 1) p ++ live b k p) {x = j + 1 + a} {y = j + suc a} (omega arith) in
      ap (λ k. live k j p) {x = suc a + b} {y = suc (a + b)} (omega arith)
      ∙ elim (Option-cases (p j)) [
        | inl e ↦
            live-none (a + b) j e
            ∙ rest
            ∙ ap (λ l. l ++ live b (j + suc a) p) (sym (live-none a j e))
        | inr (q, e) ↦
            live-some (a + b) j q e
            ∙ ap (λ l. q ∷ l) rest
            ∙ ap (λ l. l ++ live b (j + suc a) p) (sym (live-some a j q e))
      ]

  -- What stands in a stretch, place by place, are its particles.
  pub live_reads :
      (l : List (Particle F)) (i : ℕ)
      → ((m : ℕ) → m < length l → p (i + m) ≡ get_elem? l m)
      → live (length l) i p ≡ l
  unfolding live
  live_reads [] i h = refl
  live_reads (q ∷ l) i h =
      let first : p i ≡ some q = ap p (omega arith) ∙ h 0 (omega arith) in
      rw first (
        ap (λ r. q ∷ r)
          (live_reads l (i + 1) (λ m lt. ap p (omega arith) ∙ h (suc m) (omega arith))))

  -- The `n` places from `j` on hold particles of voxels from `vl` to `vh`.
  abbrev pub IsFilled : (vl vh n j : ℕ) → Type ℓ
  IsFilled vl vh n j =
      (k : ℕ) → j ≤ k → k < j + n → (q : Particle F) × (p k ≡ some q) × (vl ≤ q.i) × (q.i ≤ vh)

  module _ (vl vh : ℕ) where
    pub length-live : (n j : ℕ) → IsFilled vl vh n j → length (live n j p) ≡ n
    unfolding live
    length-live zero j h = refl
    length-live (suc n) j h =
        let (q, e, lo, hi) = h j (omega arith) (omega arith) in
        rw (live-some n j q e)
          (ap suc (length-live n (j + 1) (λ k lo hi. h k (omega arith) (omega arith))))

    pub below-congr :
        (f g : Particle F → ℕ) (b c n j : ℕ)
        → IsFilled vl vh n j
        → ((q : Particle F) → vl ≤ q.i → q.i ≤ vh → ltb (f q) b ≡ ltb (g q) c)
        → below f b (live n j p) ≡ below g c (live n j p)
    unfolding live below
    below-congr f g b c zero j h same = refl
    below-congr f g b c (suc n) j h same =
        let (q, e, lo, hi) = h j (omega arith) (omega arith) in
        let rest =
          below-congr f g b c n (j + 1) (λ k lo hi. h k (omega arith) (omega arith)) same in
        rw (live-some n j q e) (rw (same q lo hi, rest) refl)

    pub below_all :
        (f : Particle F → ℕ) (b n j : ℕ)
        → IsFilled vl vh n j
        → ((q : Particle F) → vl ≤ q.i → q.i ≤ vh → f q < b)
        → below f b (live n j p) ≡ n
    unfolding live below
    below_all f b zero j h all = refl
    below_all f b (suc n) j h all =
        let (q, e, lo, hi) = h j (omega arith) (omega arith) in
        let rest = below_all f b n (j + 1) (λ k lo hi. h k (omega arith) (omega arith)) all in
        rw (live-some n j q e) (ground (arith, rest, all q lo hi))

    pub below_none :
        (f : Particle F → ℕ) (b n j : ℕ)
        → IsFilled vl vh n j
        → ((q : Particle F) → vl ≤ q.i → q.i ≤ vh → b ≤ f q)
        → below f b (live n j p) ≡ 0
    unfolding live below
    below_none f b zero j h all = refl
    below_none f b (suc n) j h all =
        let (q, e, lo, hi) = h j (omega arith) (omega arith) in
        let rest = below_none f b n (j + 1) (λ k lo hi. h k (omega arith) (omega arith)) all in
        rw (live-some n j q e) (ground (arith, rest, all q lo hi))

    pub count_outside :
        (n j v : ℕ) → IsFilled vl vh n j → (v < vl) ⊎ (vh < v) → count voxel_of v (live n j p) ≡ 0
    count_outside n j v h out = elim out [
      | inl lt ↦ omega (
        arith,
        below-add-one voxel_of v (live n j p),
        below_none voxel_of (v + 1) n j h (λ q lo hi. omega arith),
      )
      | inr lt ↦ omega (
        arith,
        below-add-one voxel_of v (live n j p),
        below_all voxel_of v n j h (λ q lo hi. omega arith),
        below_all voxel_of (v + 1) n j h (λ q lo hi. omega arith),
      )
    ]

    pub with_key_all :
        (f : Particle F → ℕ) (s n j : ℕ)
        → IsFilled vl vh n j
        → ((q : Particle F) → vl ≤ q.i → q.i ≤ vh → f q ≡ s)
        → with_key f s (live n j p) ≡ live n j p
    unfolding live with_key
    with_key_all f s zero j h all = refl
    with_key_all f s (suc n) j h all =
        let (q, e, lo, hi) = h j (omega arith) (omega arith) in
        let rest = with_key_all f s n (j + 1) (λ k lo hi. h k (omega arith) (omega arith)) all in
        let this : (f q == s) ≡ true = ground (arith, all q lo hi) in
        rw (live-some n j q e, with_key, this) (ap (λ l. q ∷ l) rest)
