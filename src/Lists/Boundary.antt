-- ===== src/Lists/Boundary.antt =====
-- The list of particle boundary conditions, src/boundary/boundary.cc. Its identifiers go down from
-- -3, as -1 and -2 stand for reflection and absorption.
use vpic.Prelude.{
  ℕ, ◌+◌, ◌-◌, ◌^◌, ◌≡◌, ◌≢◌, refl, ap, ◌∙◌, not, ◌||◌, Option, none, some, List, [], ◌∷◌, arith,
  length, update, ◌==◌, if◌then◌else◌, update_self, update_ne,
}
use vpic.Prelude.Int.{ℤ, pos, negsuc, sub_ℕ}
use vpic.Lists.Chain.{IsChain, IsChain-congr, Absent}

-- `particle_bc_t`, its addresses as numbers.
pub record ParticleBc : Type 0 where
  pub params : ℕ
  pub interact : ℕ
  pub delete_pbc : ℕ
  pub id : ℤ
  pub next : ℕ

-- `-id-2`
abbrev pub nodes_to : ℤ → ℤ
nodes_to (pos n) = negsuc (n + 1)
nodes_to (negsuc n) = sub_ℕ n 1

-- `-3-num`
abbrev pub id_after : ℤ → ℤ
id_after (pos n) = negsuc (n + 2)
id_after (negsuc n) = sub_ℕ n 2

module _ (s : ℕ → ParticleBc) where
  abbrev pub next_pbc : ℕ → ℕ
  next_pbc a = (s a).next

  unfoldable pub num_particle_bc : ℕ → ℤ
  num_particle_bc list = if list == 0 then pos 0 else nodes_to (s list).id

  -- The memory and the list after the call; `none` is an `ERROR`.
  unfoldable pub append_particle_bc : (pbc : ℕ) → Option ℕ → Option ((ℕ → ParticleBc) × ℕ)
  append_particle_bc pbc none = none
  append_particle_bc pbc (some list) =
      if pbc == 0 || not (next_pbc pbc == 0)
      then none
      else some
          (update s pbc (record (s pbc) { id = id_after (num_particle_bc list); next = list }), pbc)

  -- `absorb_particles` and `reflect_particles`, -2 and -1, stand for themselves where they are cast
  -- to addresses.
  unfoldable pub get_particle_bc_id : (pbc : ℕ) → ℤ
  get_particle_bc_id pbc =
      if pbc == 0
      then pos 0
      else if pbc == 2 ^ 64 - 2
      then negsuc 1
      else if pbc == 2 ^ 64 - 1
      then negsuc 0
      else (s pbc).id

-- Each node's identifier is the one below those of the nodes behind it.
abbrev pub CountedDown : (ℕ → ParticleBc) → List ℕ → Type 0
CountedDown s [] = Unit
CountedDown s (a ∷ rest) = ((s a).id ≡ negsuc (length rest + 2)) × CountedDown s rest

CountedDown-congr :
    (s s' : ℕ → ParticleBc) (m : ℕ) (nodes : List ℕ)
    → ((a : ℕ) → a ≢ m → s' a ≡ s a)
    → Absent m nodes
    → CountedDown s nodes
    → CountedDown s' nodes
CountedDown-congr s s' m [] same away h = h
CountedDown-congr s s' m (a ∷ rest) same away h =
    (ap (λ r. r.id) (same a away.0) ∙ h.0, CountedDown-congr s s' m rest same away.1 h.1)

num_particle_bc-length :
    (s : ℕ → ParticleBc) (list : ℕ) (nodes : List ℕ)
    → IsChain (next_pbc s) list nodes
    → CountedDown s nodes
    → num_particle_bc s list ≡ pos (length nodes)
unfolding num_particle_bc
num_particle_bc-length s list [] c d = ground (arith, c)
num_particle_bc-length s list (a ∷ rest) c d = ground (arith, c, d, ap nodes_to d.0)

-- A boundary condition that is not in a well-formed list, is not NULL and is linked to no other
-- becomes the head of a well-formed list with the next identifier down from -3, and every other
-- keeps its own.
pub append_particle_bc-CountedDown :
    (s : ℕ → ParticleBc) (pbc list : ℕ) (nodes : List ℕ)
    → IsChain (next_pbc s) list nodes
    → CountedDown s nodes
    → Absent pbc nodes
    → pbc ≢ 0
    → next_pbc s pbc ≡ 0
    → (s' : ℕ → ParticleBc) × (append_particle_bc s pbc (some list) ≡ some (s', pbc))
      × IsChain (next_pbc s') pbc (pbc ∷ nodes)
      × CountedDown s' (pbc ∷ nodes)
      × (num_particle_bc s' pbc ≡ pos (length nodes + 1))
unfolding append_particle_bc
append_particle_bc-CountedDown s pbc list nodes c d away nz single =
    let r = record (s pbc) { id = id_after (num_particle_bc s list); next = list } in
    let s' = update s pbc r in
    let at = update_self s pbc r in
    let chain : IsChain (next_pbc s') pbc (pbc ∷ nodes) = (
      refl,
      nz,
      rw (ap (λ q. q.next) at) (
          IsChain-congr (next_pbc s) (next_pbc s') pbc list nodes
            (λ a ne. ap (λ q. q.next) (update_ne s pbc a r ne)) away c),
    ) in
    let counted : CountedDown s' (pbc ∷ nodes) = (
      ap (λ q. q.id) at ∙ ap id_after (num_particle_bc-length s list nodes c d),
      CountedDown-congr s s' pbc nodes (λ a ne. update_ne s pbc a r ne) away d,
    ) in
    (
      s',
      ground arith,
      chain,
      counted,
      num_particle_bc-length s' pbc (pbc ∷ nodes) chain counted ∙ ap pos (omega arith),
    )
