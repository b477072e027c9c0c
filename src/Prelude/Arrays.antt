-- ===== src/Prelude/Arrays.antt =====
-- A C array that is written in place, as a function of the index, and counted loops.
use Prim.Native.Nat.{ℕ, zero, suc, ◌+◌, ◌≤◌, ◌<◌}
use mathlib.Core.Path.{◌≡◌, refl, ◌∙◌}
use mathlib.Core.Logic.{◌≢◌, inl, inr}
use native.Mathlib.Decide.{dec_lt}
use native.Mathlib.Omega.{arith}
use vpic.Prelude.Tests.{◌==◌, if◌then◌else◌, Bool-cases}

-- `a[i] = v`
unfoldable pub update {ℓ} : {A : Type ℓ} → (ℕ → A) → ℕ → A → ℕ → A
update a i v j = if j == i then v else a j

module _ {ℓ} {A : Type ℓ} (a : ℕ → A) where
  pub update_self : (i : ℕ) (v : A) → update a i v i ≡ v
  unfolding update
  update_self i v = ground arith

  pub update_ne : (i j : ℕ) (v : A) → j ≢ i → update a i v j ≡ a j
  unfolding update
  update_ne i j v h = ground arith

-- `for( k=first; k<first+left; k++ ) state = round( k, state );`
unfoldable pub for_range {ℓ} : {S : Type ℓ} (left first : ℕ) (round : ℕ → S → S) → S → S
for_range zero first round state = state
for_range (suc left) first round state = for_range left (first + 1) round (round first state)

-- An invariant that each round of the loop's range keeps holds after the loop.
pub for_range_inv {ℓ κ} :
    {S : Type ℓ} (Inv : ℕ → S → Type κ) (round : ℕ → S → S) (left first past : ℕ) (state : S)
    → first + left ≡ past
    → ((k : ℕ) (t : S) → first ≤ k → k < past → Inv k t → Inv (k + 1) (round k t))
    → Inv first state
    → Inv past (for_range left first round state)
unfolding for_range
for_range_inv Inv round zero first past state ends keep start =
    let none_left : first ≡ past = omega arith in rw (← none_left) start
for_range_inv Inv round (suc left) first past state ends keep start =
    for_range_inv Inv round left (first + 1) past (round first state) (omega arith)
      (λ k t lo hi. keep k t (omega arith) hi) (keep first state (omega arith) (omega arith) start)

-- Loops that write into an array: `V` says what each entry is to hold in the end.
module _ {ℓ} {A : Type ℓ} (V : ℕ → A) where
  abbrev pub Keeps : ((ℕ → A) → ℕ → A) → Type ℓ
  Keeps body = (a : ℕ → A) (j : ℕ) → a j ≡ V j → body a j ≡ V j

  pub update-Keeps : (i : ℕ) (v : A) → v ≡ V i → Keeps (λ a. update a i v)
  unfolding update
  update-Keeps i v e a j h = elim (Bool-cases (j == i)) [
    | inl t ↦ let same : j ≡ i = ground arith in rw (t, same) e
    | inr f ↦ rw f h
  ]

  pub for_range-Keeps :
      (n i : ℕ) (body : ℕ → (ℕ → A) → ℕ → A)
      → ((k : ℕ) → i ≤ k → k < i + n → Keeps (body k))
      → Keeps (for_range n i body)
  unfolding for_range
  for_range-Keeps zero i body keep a j h = h
  for_range-Keeps (suc n) i body keep a j h =
      for_range-Keeps n (i + 1) body (λ k lo hi. keep k (omega arith) (omega arith)) (body i a) j
        (keep i (omega arith) (omega arith) a j h)

  -- What round `k` sets is set after the loop, as the later rounds keep it.
  pub for_range_sets :
      (n i : ℕ) (body : ℕ → (ℕ → A) → ℕ → A) (k j : ℕ)
      → ((m : ℕ) → i ≤ m → m < i + n → Keeps (body m))
      → i ≤ k
      → k < i + n
      → ((a : ℕ → A) → body k a j ≡ V j)
      → (a : ℕ → A) → for_range n i body a j ≡ V j
  unfolding for_range
  for_range_sets zero i body k j keep lo hi set a = absurd (omega arith)
  for_range_sets (suc n) i body k j keep lo hi set a = elim (dec_lt i k) [
    | yes p ↦
        for_range_sets n (i + 1) body k j (λ m l h. keep m (omega arith) (omega arith))
          (omega arith) (omega arith) set (body i a)
    | no p ↦
        let e : k ≡ i = omega arith in
        for_range-Keeps n (i + 1) body (λ m l h. keep m (omega arith) (omega arith)) (body i a) j
          (rw e at (set a))
  ]

-- An entry that no round writes is as it was.
pub for_range_skips {ℓ} :
    {A : Type ℓ} (n i : ℕ) (body : ℕ → (ℕ → A) → ℕ → A) (j : ℕ)
    → ((k : ℕ) → i ≤ k → k < i + n → (a : ℕ → A) → body k a j ≡ a j)
    → (a : ℕ → A) → for_range n i body a j ≡ a j
unfolding for_range
for_range_skips zero i body j skip a = refl
for_range_skips (suc n) i body j skip a =
    for_range_skips n (i + 1) body j (λ k lo hi. skip k (omega arith) (omega arith)) (body i a)
    ∙ skip i (omega arith) (omega arith) a
