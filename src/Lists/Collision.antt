-- ===== src/Lists/Collision.antt =====
-- The list of collision operators, src/collision/collision.cc: its growth and its length.
use vpic.Prelude.{
  ℕ, zero, suc, ◌+◌, ◌<◌, ◌≡◌, ◌≢◌, refl, ap, ◌∙◌, not, ◌||◌, Option, none, some, List, [], ◌∷◌,
  ◌++◌, arith, length, update, ◌==◌, if◌then◌else◌, update_self, update_ne,
}
use vpic.Lists.Chain.{
  IsChain, IsChain-congr, count_each, count_each-node, count_each-length, Absent,
}

-- `collision_op_t`, its addresses as numbers.
pub record CollisionOp : Type 0 where
  pub params : ℕ
  pub apply : ℕ
  pub delete_cop : ℕ
  pub next : ℕ

module _ (s : ℕ → CollisionOp) where
  abbrev pub next_op : ℕ → ℕ
  next_op a = (s a).next

  -- `none` is a count that does not end.
  unfoldable pub num_collision_op : (fuel list : ℕ) → Option ℕ
  num_collision_op fuel list = count_each next_op fuel 0 list

  -- The memory and the list after the call; `none` is `ERROR(( "Bad args" ))`.
  unfoldable pub append_collision_op : (cop : ℕ) → Option ℕ → Option ((ℕ → CollisionOp) × ℕ)
  append_collision_op cop none = none
  append_collision_op cop (some list) =
      if cop == 0 || not (next_op cop == 0)
      then none
      else some (update s cop (record (s cop) { next = list }), cop)

-- The memory after an append.
abbrev pub appended : (ℕ → CollisionOp) → (cop list : ℕ) → ℕ → CollisionOp
appended s cop list = update s cop (record (s cop) { next = list })

appended-other :
    (s : ℕ → CollisionOp) (cop list a : ℕ) → a ≢ cop → next_op (appended s cop list) a ≡ next_op s a
appended-other s cop list a ne =
    ap (λ r. r.next) (update_ne s cop a (record (s cop) { next = list }) ne)

appended_self : (s : ℕ → CollisionOp) (cop list : ℕ) → next_op (appended s cop list) cop ≡ list
appended_self s cop list = ap (λ r. r.next) (update_self s cop (record (s cop) { next = list }))

-- An operator that is not in the list, is not NULL and is linked to no other becomes the head of
-- the list, and with fuel for every node the length is then one more than the number of nodes
-- before.
pub num_collision_op-append_collision_op :
    (s : ℕ → CollisionOp) (fuel cop list : ℕ) (nodes : List ℕ)
    → IsChain (next_op s) list nodes
    → Absent cop nodes
    → cop ≢ 0
    → next_op s cop ≡ 0
    → length nodes + 1 < fuel
    → (s' : ℕ → CollisionOp) × (append_collision_op s cop (some list) ≡ some (s', cop))
      × IsChain (next_op s') cop (cop ∷ nodes)
      × (num_collision_op s' fuel cop ≡ some (length nodes + 1))
unfolding append_collision_op num_collision_op
num_collision_op-append_collision_op s fuel cop list nodes c away nz single enough =
    let rest =
      IsChain-congr (next_op s) (next_op (appended s cop list)) cop list nodes
        (appended-other s cop list) away c in
    let chain : IsChain (next_op (appended s cop list)) cop (cop ∷ nodes) =
      (refl, nz, rw (appended_self s cop list) rest) in
    (
      appended s cop list,
      ground arith,
      chain,
      count_each-length (next_op (appended s cop list)) fuel 0 cop (cop ∷ nodes) chain (omega arith)
          ∙ ap some (omega arith),
    )

not_null :
    (next : ℕ → ℕ) (x last : ℕ) (nodes : List ℕ) → IsChain next x (nodes ++ (last ∷ [])) → x ≢ 0
not_null next x last [] c = ground (arith, c)
not_null next x last (y ∷ rest) c = ground (arith, c)

last_links :
    (next : ℕ → ℕ) (x last : ℕ) (nodes : List ℕ)
    → IsChain next x (nodes ++ (last ∷ []))
    → (last ≢ 0) × (next last ≡ 0)
last_links next x last [] c = (c.1, c.2)
last_links next x last (y ∷ rest) c = last_links next (next y) last rest c.2

-- From any node of the list, the walk comes to the last one, and from there to the head again.
circle :
    (s : ℕ → CollisionOp) (last list : ℕ) (nodes : List ℕ)
    → IsChain (next_op s) list (nodes ++ (last ∷ []))
    → (fuel n x : ℕ) (left : List ℕ) → IsChain (next_op s) x (left ++ (last ∷ []))
    → count_each (next_op (appended s last list)) fuel n x ≡ none
unfolding count_each
circle s last list nodes c zero n x left d = refl
circle s last list nodes c (suc fuel) n x [] d =
    let next' = next_op (appended s last list) in
    let step : next_op (appended s last list) x ≡ list =
      ap (next_op (appended s last list)) d.0 ∙ appended_self s last list in
    count_each-node next' fuel n x (ground (arith, d))
    ∙ ap (count_each next' fuel (n + 1)) step
    ∙ circle s last list nodes c fuel (n + 1) list nodes c
circle s last list nodes c (suc fuel) n x (y ∷ left) d =
    let next' = next_op (appended s last list) in
    let linked = not_null (next_op s) (next_op s y) last left d.2 in
    let ends = last_links (next_op s) list last nodes c in
    let before : y ≢ last = λ e. linked (ap (next_op s) e ∙ ends.1) in
    let step : next_op (appended s last list) x ≡ next_op s y =
      ap (next_op (appended s last list)) d.0 ∙ appended-other s last list y before in
    count_each-node next' fuel n x (ground (arith, d))
    ∙ ap (count_each next' fuel (n + 1)) step
    ∙ circle s last list nodes c fuel (n + 1) (next_op s y) left d.2

-- Appending the last operator of a list once more is not refused: the list then runs in a circle,
-- and counting it does not end.
pub append_collision_op-last :
    (s : ℕ → CollisionOp) (last list : ℕ) (nodes : List ℕ)
    → IsChain (next_op s) list (nodes ++ (last ∷ []))
    → (s' : ℕ → CollisionOp) × (append_collision_op s last (some list) ≡ some (s', last))
      × ((fuel : ℕ) → num_collision_op s' fuel last ≡ none)
unfolding append_collision_op num_collision_op
append_collision_op-last s last list nodes c =
    let ends = last_links (next_op s) list last nodes c in
    (
      appended s last list,
      ground (arith, ends),
      λ fuel. circle s last list nodes c fuel 0 last [] (refl, ends.0, ends.1),
    )
