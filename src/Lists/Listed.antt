-- ===== src/Lists/Listed.antt =====
-- Lists whose nodes are numbered from the end and have different names, and a node put in front.
use vpic.Prelude.{ℕ, ◌+◌, ◌≡◌, ◌≢◌, refl, List, [], ◌∷◌, arith, length, ◌==◌, if◌then◌else◌}
use vpic.Lists.Chain.{IsChain, IsChain-congr, first_in, Numbered, Numbered-congr}
use vpic.Lists.Names.{named, DistinctNames, DistinctNames-congr, named-Absent}

-- The list has these nodes, numbered from its end, with different names.
pub record IsListed (next id : ℕ → ℕ) (name : ℕ → List ℕ) (list : ℕ) (nodes : List ℕ) : Type 0 where
  pub chain : IsChain next list nodes
  pub numbered : Numbered id nodes
  pub names : DistinctNames name nodes

-- The memory where the node at `m` got the number `n` and the link to `list`.
pub record IsLinked (next id next' id' : ℕ → ℕ) (name name' : ℕ → List ℕ) (m n list : ℕ)
    : Type 0 where
  pub link : next' m ≡ list
  pub number : id' m ≡ n
  pub links_kept : (a : ℕ) → a ≢ m → next' a ≡ next a
  pub numbers_kept : (a : ℕ) → a ≢ m → id' a ≡ id a
  pub names_kept : (a : ℕ) → name' a ≡ name a

pub IsListed-IsLinked :
    {next id next' id' : ℕ → ℕ} {name name' : ℕ → List ℕ} {list : ℕ} (m : ℕ) (nodes : List ℕ)
    → IsListed next id name list nodes
    → IsLinked next id next' id' name name' m (length nodes) list
    → m ≢ 0
    → first_in (named name (name m)) nodes ≡ 0
    → IsListed next' id' name' m (m ∷ nodes)
IsListed-IsLinked {next} {id} {next'} {id'} {name} {name'} {list} m nodes v w nz fresh =
    let away = named-Absent name m nodes v.names fresh in
    record {
      chain =
          (refl, nz, rw w.link (IsChain-congr next next' m list nodes w.links_kept away v.chain));
      numbered = (w.number, Numbered-congr id id' m nodes w.numbers_kept away v.numbered);
      names = DistinctNames-congr name name' (m ∷ nodes) w.names_kept (nz, fresh, v.names);
    }

-- `list ? list->id+1 : 0`
unfoldable pub number_of : (ℕ → ℕ) → ℕ → ℕ
number_of id list = if list == 0 then 0 else id list + 1

pub number_of-length :
    (next id : ℕ → ℕ) (list : ℕ) (nodes : List ℕ)
    → IsChain next list nodes
    → Numbered id nodes
    → number_of id list ≡ length nodes
unfolding number_of
number_of-length next id list [] c n = ground (arith, c)
number_of-length next id list (a ∷ rest) c n = ground (arith, c, n)
