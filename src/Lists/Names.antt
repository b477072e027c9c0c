-- ===== src/Lists/Names.antt =====
-- The names of nodes: `strcmp( s, t )==0` on C strings, which are the bytes before the '\0'.
use vpic.Prelude.{
  ◌∙◌, ℕ, zero, suc, ◌≡◌, ◌≢◌, refl, ap, Bool, true, false, ◌&&◌, some, List, [], ◌∷◌, arith, ◌==◌,
  get_elem?, Bool-cases, inl, inr,
}
use vpic.Lists.Chain.{first_in, first_in-congr, Absent}

unfoldable pub same_name : List ℕ → List ℕ → Bool
same_name [] [] = true
same_name [] (d ∷ t) = false
same_name (c ∷ s) [] = false
same_name (c ∷ s) (d ∷ t) = c == d && same_name s t

pub same_name_refl : (s : List ℕ) → same_name s s ≡ true
unfolding same_name
same_name_refl [] = refl
same_name_refl (c ∷ s) = ground (arith, same_name_refl s)

pub same_name_sym : (s t : List ℕ) → same_name s t ≡ same_name t s
unfolding same_name
same_name_sym [] [] = refl
same_name_sym [] (d ∷ t) = refl
same_name_sym (c ∷ s) [] = refl
same_name_sym (c ∷ s) (d ∷ t) = ground (arith, same_name_sym s t)

module _ (name : ℕ → List ℕ) where
  abbrev pub named : List ℕ → ℕ → Bool
  named s a = same_name (name a) s

  -- No two nodes share a name, and none is at NULL.
  abbrev pub DistinctNames : List ℕ → Type 0
  DistinctNames [] = Unit
  DistinctNames (a ∷ rest) = (a ≢ 0) × (first_in (named (name a)) rest ≡ 0) × DistinctNames rest

  -- A node whose name no node of the list has is none of them.
  pub named-Absent :
      (m : ℕ) (nodes : List ℕ)
      → DistinctNames nodes
      → first_in (named (name m)) nodes ≡ 0
      → Absent m nodes
  unfolding first_in
  named-Absent m [] h none_has = tt
  named-Absent m (a ∷ rest) h none_has = elim (Bool-cases (named (name m) a)) [
    | inl t ↦ absurd (ground (arith, none_has, t, h.0))
    | inr f ↦ (
      λ e. ground (arith, f, same_name_refl (name m), ap (λ x. same_name (name x) (name m)) e),
      named-Absent m rest h.2 (ground (arith, none_has, f)),
    )
  ]

  not_named :
      (s : List ℕ) (nodes : List ℕ) (k a : ℕ)
      → DistinctNames nodes
      → first_in (named s) nodes ≡ 0
      → get_elem? nodes k ≡ some a
      → (named s a ≡ false) × (a ≢ 0)
  unfolding first_in
  not_named s [] k a h e g = cc
  not_named s (b ∷ rest) zero a h e g = ground (arith, h)
  not_named s (b ∷ rest) (suc k) a h e g = ground (arith, h, not_named s rest k a h.2)

  pub first_in-named :
      (nodes : List ℕ) (k a : ℕ)
      → DistinctNames nodes
      → get_elem? nodes k ≡ some a
      → first_in (named (name a)) nodes ≡ a
  unfolding first_in
  first_in-named [] k a h e = cc
  first_in-named (b ∷ rest) zero a h e = ground (arith, e, same_name_refl (name a))
  first_in-named (b ∷ rest) (suc k) a h e =
      let other = not_named (name b) rest k a h.2 h.1 e in
      let front : named (name a) b ≡ false = same_name_sym (name b) (name a) ∙ other.0 in
      rw front (first_in-named rest k a h.2 e)

-- Names alone count.
pub DistinctNames-congr :
    (name name' : ℕ → List ℕ) (nodes : List ℕ)
    → ((a : ℕ) → name' a ≡ name a)
    → DistinctNames name nodes
    → DistinctNames name' nodes
DistinctNames-congr name name' [] same h = h
DistinctNames-congr name name' (a ∷ rest) same h = (
  h.0,
  first_in-congr (named name' (name' a)) (named name (name a)) rest (λ b. rw (same b, same a) refl)
      ∙ h.1,
  DistinctNames-congr name name' rest same h.2,
)
