-- ===== src/Lists/Chain.antt =====
-- Linked lists of nodes at addresses, of which 0 is NULL, by their `next` members: the loops
-- LIST_FIND_FIRST and LIST_FOR_EACH of src/util/util_base.h.
use vpic.Prelude.{
  ℕ, zero, suc, ◌+◌, ◌<◌, ◌≡◌, ◌≢◌, refl, ◌∙◌, Bool, true, false, Option, none, some, List, [], ◌∷◌,
  arith, ◌==◌, if◌then◌else◌, length, get_elem?,
}

module _ (next : ℕ → ℕ) where
  -- `for( node=list; node; node=node->next ) if( cond ) break;`: the node that the loop ends at.
  unfoldable pub find_first : (ℕ → Bool) → (fuel list : ℕ) → Option ℕ
  find_first cond zero list = none
  find_first cond (suc fuel) list = elim (list == 0) [
    | true ↦ some 0
    | false ↦ elim (cond list) [ true ↦ some list | false ↦ find_first cond fuel (next list) ]
  ]

  -- `n = 0; LIST_FOR_EACH( e, list ) n++;`
  unfoldable pub count_each : (fuel n list : ℕ) → Option ℕ
  count_each zero n list = none
  count_each (suc fuel) n list = elim (list == 0) [
    | true ↦ some n
    | false ↦ count_each fuel (n + 1) (next list)
  ]

  -- The list has its nodes at these addresses, and ends.
  abbrev pub IsChain : ℕ → List ℕ → Type 0
  IsChain list [] = list ≡ 0
  IsChain list (a ∷ rest) = (list ≡ a) × (a ≢ 0) × IsChain (next a) rest

-- The first address that passes a test, or NULL.
unfoldable pub first_in : (ℕ → Bool) → List ℕ → ℕ
first_in cond [] = 0
first_in cond (a ∷ rest) = if cond a then a else first_in cond rest

pub first_in-congr :
    (c d : ℕ → Bool) (nodes : List ℕ) → ((a : ℕ) → c a ≡ d a) → first_in c nodes ≡ first_in d nodes
unfolding first_in
first_in-congr c d [] h = refl
first_in-congr c d (a ∷ rest) h = ground (arith, h a, first_in-congr c d rest h)

pub find_first-first_in :
    (next : ℕ → ℕ) (cond : ℕ → Bool) (fuel list : ℕ) (nodes : List ℕ)
    → IsChain next list nodes
    → length nodes < fuel
    → find_first next cond fuel list ≡ some (first_in cond nodes)
unfolding find_first first_in
find_first-first_in next cond zero list nodes h enough = absurd (omega arith)
find_first-first_in next cond (suc fuel) list [] h enough = rw h refl
find_first-first_in next cond (suc fuel) list (a ∷ rest) h enough =
    ground (arith, h, find_first-first_in next cond fuel (next a) rest h.2 (omega arith))

pub count_each-node :
    (next : ℕ → ℕ) (fuel n list : ℕ)
    → list ≢ 0
    → count_each next (suc fuel) n list ≡ count_each next fuel (n + 1) (next list)
unfolding count_each
count_each-node next fuel n list h = ground arith

pub count_each-length :
    (next : ℕ → ℕ) (fuel n list : ℕ) (nodes : List ℕ)
    → IsChain next list nodes
    → length nodes < fuel
    → count_each next fuel n list ≡ some (n + length nodes)
unfolding count_each
count_each-length next zero n list nodes h enough = absurd (omega arith)
count_each-length next (suc fuel) n list [] h enough = rw h (ground arith)
count_each-length next (suc fuel) n list (a ∷ rest) h enough =
    ground (arith, h, count_each-length next fuel (n + 1) (next a) rest h.2 (omega arith))

abbrev pub Absent : ℕ → List ℕ → Type 0
Absent m [] = Unit
Absent m (a ∷ rest) = (a ≢ m) × Absent m rest

-- A chain depends on the links of its nodes only.
pub IsChain-congr :
    (next next' : ℕ → ℕ) (m list : ℕ) (nodes : List ℕ)
    → ((a : ℕ) → a ≢ m → next' a ≡ next a)
    → Absent m nodes
    → IsChain next list nodes
    → IsChain next' list nodes
IsChain-congr next next' m list [] same away h = h
IsChain-congr next next' m list (a ∷ rest) same away h =
    (h.0, h.1, rw (same a away.0) (IsChain-congr next next' m (next a) rest same away.1 h.2))

-- Each node's identifier is the number of nodes behind it.
abbrev pub Numbered : (ℕ → ℕ) → List ℕ → Type 0
Numbered id [] = Unit
Numbered id (a ∷ rest) = (id a ≡ length rest) × Numbered id rest

pub Numbered-congr :
    (id id' : ℕ → ℕ) (m : ℕ) (nodes : List ℕ)
    → ((a : ℕ) → a ≢ m → id' a ≡ id a)
    → Absent m nodes
    → Numbered id nodes
    → Numbered id' nodes
Numbered-congr id id' m [] same away h = h
Numbered-congr id id' m (a ∷ rest) same away h =
    (same a away.0 ∙ h.0, Numbered-congr id id' m rest same away.1 h.1)

-- A node at place `k` has as many nodes before it as `k` says, and is found by its identifier.
pub Numbered-first_in :
    (id : ℕ → ℕ) (nodes : List ℕ) (k a : ℕ)
    → Numbered id nodes
    → get_elem? nodes k ≡ some a
    → (id a + k + 1 ≡ length nodes) × (first_in (λ b. id b == id a) nodes ≡ a)
unfolding first_in
Numbered-first_in id [] k a h e = cc
Numbered-first_in id (b ∷ rest) zero a h e = ground (arith, h)
Numbered-first_in id (b ∷ rest) (suc k) a h e =
    ground (arith, h, Numbered-first_in id rest k a h.1 e)
