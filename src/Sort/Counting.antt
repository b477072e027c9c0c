-- ===== src/Sort/Counting.antt =====
-- The numbers and the runs of the particles of a key, for the proofs of the sorts.
use native.Mathlib.Decide.{dec_lt}
use vpic.Prelude.{
  ℕ, zero, suc, ◌+◌, ◌-◌, ◌<◌, ◌≡◌, ◌≢◌, refl, sym, ◌∙◌, ap, true, false, List, [], ◌∷◌, ◌++◌,
  arith, ◌==◌, if◌then◌else◌, Bool-cases, inl, inr, length, get_elem?, ltb, sum_below,
}
use vpic.Sort.Scatter.{with_key, count, length-with_key}

-- An index below a sum lies in one of the runs that it adds.
pub sum_below_locate :
    (c : ℕ → ℕ) (n j : ℕ)
    → j < sum_below c n
    → (v : ℕ) × (v < n) × ((m : ℕ) × (m < c v) × (j ≡ sum_below c v + m))
unfolding sum_below
sum_below_locate c zero j h = absurd (omega arith)
sum_below_locate c (suc n) j h = elim (dec_lt j (sum_below c n)) [
  | yes p ↦ let (v, lt, rest) = sum_below_locate c n j p in (v, omega arith, rest)
  | no p ↦ (n, omega arith, (j - sum_below c n, omega arith, omega arith))
]

module _ {ℓ} {A : Type ℓ} where
  pub get_elem?-append_fst :
      (xs ys : List A) (m : ℕ) → m < length xs → get_elem? (xs ++ ys) m ≡ get_elem? xs m
  get_elem?-append_fst [] ys m h = absurd (omega arith)
  get_elem?-append_fst (x ∷ xs) ys zero h = refl
  get_elem?-append_fst (x ∷ xs) ys (suc m) h = get_elem?-append_fst xs ys m (omega arith)

  pub get_elem?-append_snd :
      (xs ys : List A) (m : ℕ) → get_elem? (xs ++ ys) (length xs + m) ≡ get_elem? ys m
  get_elem?-append_snd [] ys m = ap (get_elem? ys) (omega arith)
  get_elem?-append_snd (x ∷ xs) ys m =
      ap (get_elem? (x ∷ (xs ++ ys))) {y = suc (length xs + m)} (omega arith)
      ∙ get_elem?-append_snd xs ys m

module _ {ℓ} {A : Type ℓ} (key : A → ℕ) where
  pub with_key-append :
      (v : ℕ) (xs ys : List A) → with_key key v (xs ++ ys) ≡ with_key key v xs ++ with_key key v ys
  unfolding with_key
  with_key-append v [] ys = refl
  with_key-append v (x ∷ xs) ys = elim (Bool-cases (key x == v)) [
    | inl t ↦ rw t (ap (λ r. x ∷ r) (with_key-append v xs ys))
    | inr f ↦ rw f (with_key-append v xs ys)
  ]

  pub count-append :
      (v : ℕ) (xs ys : List A) → count key v (xs ++ ys) ≡ count key v xs + count key v ys
  unfolding count
  count-append v [] ys = omega arith
  count-append v (x ∷ xs) ys = ground (arith, count-append v xs ys)

  -- The number of particles whose key is below `b`.
  unfoldable pub below : ℕ → List A → ℕ
  below b [] = 0
  below b (p ∷ ps) = if ltb (key p) b then below b ps + 1 else below b ps

  below_zero : (ps : List A) → below 0 ps ≡ 0
  unfolding below
  below_zero [] = refl
  below_zero (p ∷ ps) = ground (arith, below_zero ps)

  pub below-add-one : (b : ℕ) (ps : List A) → below (b + 1) ps ≡ below b ps + count key b ps
  unfolding below count
  below-add-one b [] = refl
  below-add-one b (p ∷ ps) = ground (arith, below-add-one b ps)

  pub sum_below-count : (b : ℕ) (ps : List A) → sum_below (λ k. count key k ps) b ≡ below b ps
  unfolding sum_below
  sum_below-count zero ps = omega (arith, below_zero ps)
  sum_below-count (suc b) ps = omega (
    arith,
    sum_below-count b ps,
    below-add-one b ps,
    ap (λ k. below k ps) {x = b + 1} {y = suc b} (omega arith),
  )

-- A key `sub` that depends on a finer key `key` by `f`.
module _ {ℓ} {A : Type ℓ} (key sub : A → ℕ) (f : ℕ → ℕ) (fine : (q : A) → sub q ≡ f (key q)) where
  pub with_key-with_key :
      (v : ℕ) (ps : List A) → with_key key v (with_key sub (f v) ps) ≡ with_key key v ps
  unfolding with_key
  with_key-with_key v [] = refl
  with_key-with_key v (q ∷ ps) = elim (Bool-cases (key q == v)) [
    | inl t ↦
        let e : key q ≡ v = ground arith in
        let s : (sub q == f v) ≡ true = ground (arith, fine q, ap f e) in
        rw (s, t) (ap (λ r. q ∷ r) (with_key-with_key v ps))
    | inr n ↦ elim (Bool-cases (sub q == f v)) [
      | inl s ↦ rw (s, n) (with_key-with_key v ps)
      | inr s ↦ rw (s, n) (with_key-with_key v ps)
    ]
  ]

  pub count-with_key : (v : ℕ) (ps : List A) → count key v (with_key sub (f v) ps) ≡ count key v ps
  count-with_key v ps =
      sym (length-with_key key v (with_key sub (f v) ps))
      ∙ ap length (with_key-with_key v ps)
      ∙ length-with_key key v ps

  pub count-with_key_ne : (v s : ℕ) (ps : List A) → f v ≢ s → count key v (with_key sub s ps) ≡ 0
  unfolding with_key count
  count-with_key_ne v s [] ne = refl
  count-with_key_ne v s (q ∷ ps) ne = elim (Bool-cases (sub q == s)) [
    | inl t ↦
        let sub_of_key : key q ≡ v → f v ≡ s = λ e. ap f (sym e) ∙ sym (fine q) ∙ ground arith in
        let no : (key q == v) ≡ false = ground (arith, sub_of_key, ne) in
        rw (t, no) (count-with_key_ne v s ps ne)
    | inr n ↦ rw n (count-with_key_ne v s ps ne)
  ]
