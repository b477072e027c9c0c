-- ===== src/Sort/Pipeline/Stages.antt =====
-- A stage of the parallel sort: what its pipelines establish holds after it in whatever order they
-- run.
use vpic.Prelude.{
  ℕ, ◌≤◌, ◌<◌, ◌≡◌, refl, sym, Bool, true, false, ◌||◌, Option, some, List, [], ◌∷◌, arith, ◌==◌,
  Bool-cases, inl, inr,
}
use vpic.Sort.Pipeline.{exec}

abbrev pub has : ℕ → List ℕ → Bool
has rank [] = false
has rank (r ∷ order) = rank == r || has rank order

-- An order in which each of `n` pipelines runs, and at most the straggler, of rank `n`, besides them.
pub record IsOrder (n : ℕ) (order : List ℕ) : Type 0 where
  pub all : (rank : ℕ) → rank < n → has rank order ≡ true
  pub only : (rank : ℕ) → has rank order ≡ true → rank ≤ n

-- Pipelines that keep `Inv` and, each, establish its own `Post` and keep that of the others.
module _ {ℓ κ μ} {S : Type ℓ} (pipeline : ℕ → S → Option S) (n : ℕ) (Inv : S → Type κ)
    (Post : ℕ → S → Type μ) where
  pub record Runs (rank : ℕ) (a : S) : Type (ℓ ⊔ κ ⊔ μ) where
    pub after : S
    pub runs : pipeline rank a ≡ some after
    pub inv : Inv after
    pub own : rank < n → Post rank after
    pub others : (k : ℕ) → k < n → Post k a → Post k after

  pub record Done (order : List ℕ) (a : S) : Type (ℓ ⊔ κ ⊔ μ) where
    pub end : S
    pub ends : exec pipeline order a ≡ some end
    pub inv : Inv end
    pub post : (k : ℕ) → k < n → has k order ≡ true → Post k end
    pub kept : (k : ℕ) → k < n → Post k a → Post k end

  module _ (step : (rank : ℕ) (a : S) → rank ≤ n → Inv a → Runs rank a) where
    exec-Done :
        (order : List ℕ) (a : S)
        → ((rank : ℕ) → has rank order ≡ true → rank ≤ n)
        → Inv a
        → Done order a
    unfolding exec
    exec-Done [] a only i = record {
      end = a;
      ends = refl;
      inv = i;
      post = λ k lt h. absurd (grind (arith, h));
      kept = λ k lt h. h;
    }
    exec-Done (r ∷ order) a only i =
        let first : Runs r a = step r a (only r (ground arith)) i in
        let rest : Done order first.after =
          exec-Done order first.after (λ k h. only k (ground (arith, h))) first.inv in
        record {
          end = rest.end;
          ends = rw (exec, first.runs) rest.ends;
          inv = rest.inv;
          post = λ k lt h. elim (Bool-cases (k == r)) [
            | inl t ↦
                let same : k ≡ r = ground arith in
                rest.kept k lt (rw same (first.own (rw (sym same) lt)))
            | inr f ↦ rest.post k lt (ground (arith, h, f))
          ];
          kept = λ k lt h. rest.kept k lt (first.others k lt h);
        }

    pub exec_all :
        (order : List ℕ) (a : S)
        → IsOrder n order
        → Inv a
        → (b : S) × (exec pipeline order a ≡ some b) × Inv b × ((k : ℕ) → k < n → Post k b)
    exec_all order a o i =
        let d = exec-Done order a o.only i in
        (d.end, d.ends, d.inv, λ k lt. d.post k lt (o.all k lt))
