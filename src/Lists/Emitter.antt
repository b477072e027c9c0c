-- ===== src/Lists/Emitter.antt =====
-- The list of emitters, src/emitter/emitter.cc: its growth, its length and the size of an emitter.
use vpic.Prelude.{
  ℕ, ◌<◌, ◌≡◌, ◌≢◌, refl, ◌∙◌, ap, ◌⊎◌, inl, inr, not, ◌||◌, Option, none, some, List, [], ◌∷◌,
  arith, length, update, ◌==◌, if◌then◌else◌, update_self, update_ne, Bool-cases,
}
use vpic.Prelude.Int.{ℤ, pos, negsuc}
use vpic.Lists.Result.{Result, done, failed, bad_args, already_in_list, out_of_fuel}
use vpic.Lists.Chain.{
  IsChain, IsChain-congr, find_first, find_first-first_in, first_in, count_each, Absent,
}

-- `emitter_t`, its addresses as numbers.
pub record Emitter : Type 0 where
  pub params : ℕ
  pub emit : ℕ
  pub delete_e : ℕ
  pub component : ℕ
  pub n_component : ℕ
  pub next : ℕ

module _ (s : ℕ → Emitter) where
  abbrev pub next_emitter : ℕ → ℕ
  next_emitter a = (s a).next

  -- `none` is a count that does not end.
  unfoldable pub num_emitter : (fuel list : ℕ) → Option ℕ
  num_emitter fuel list = count_each next_emitter fuel 0 list

  -- The memory and the list after the call. The loop over the list ends at the emitter itself,
  -- which is then left where it is.
  unfoldable pub append_emitter : (fuel e : ℕ) → Option ℕ → Result ((ℕ → Emitter) × ℕ)
  append_emitter fuel e none = failed bad_args
  append_emitter fuel e (some list) =
      if e == 0 then failed bad_args else elim (find_first next_emitter (λ ee. ee == e) fuel list) [
        | none ↦ failed out_of_fuel
        | some ee ↦
            if not (ee == 0)
            then done (s, list)
            else if not (next_emitter e == 0)
            then failed already_in_list
            else done (update s e (record (s e) { next = list }), e)
      ]

-- The memory after the call, which returns `component`; `malloc` places the array there.
unfoldable pub size_emitter :
    (ℕ → Emitter) → (e : ℕ) → (n_component : ℤ) → (component : ℕ) → Result (ℕ → Emitter)
size_emitter s e (negsuc n) component = failed bad_args
size_emitter s e (pos n_component) component =
    if e == 0 || not ((s e).n_component == 0)
    then failed bad_args
    else done (update s e (record (s e) { component = component; n_component = n_component }))

first_in-Absent :
    (e : ℕ) (nodes : List ℕ) → e ≢ 0 → first_in (λ ee. ee == e) nodes ≡ 0 → Absent e nodes
unfolding first_in
first_in-Absent e [] nz h = tt
first_in-Absent e (a ∷ rest) nz h = elim (Bool-cases (a == e)) [
  | inl t ↦ absurd (ground (arith, nz, h, t))
  | inr f ↦ (ground (arith, f), first_in-Absent e rest nz (ground (arith, h, f)))
]

first_in_found :
    (e : ℕ) (nodes : List ℕ)
    → first_in (λ ee. ee == e) nodes ≢ 0
    → first_in (λ ee. ee == e) nodes ≡ e
unfolding first_in
first_in_found e [] h = absurd (h refl)
first_in_found e (a ∷ rest) h = elim (Bool-cases (a == e)) [
  | inl t ↦ ground (arith, t)
  | inr f ↦
      let later : first_in (λ ee. ee == e) (a ∷ rest) ≡ first_in (λ ee. ee == e) rest =
        ground (arith, f) in
      later ∙ first_in_found e rest (λ z. h (later ∙ z))
]

-- With fuel for every node, appending an emitter to a list ends. The first of these that holds says
-- how: the emitter is NULL, an error; or it is in the list, and all is left as it was; or it is
-- linked to another, an error of its own; else it is in front of a list that still ends.
pub append_emitter-IsChain :
    (s : ℕ → Emitter) (fuel e list : ℕ) (nodes : List ℕ)
    → IsChain (next_emitter s) list nodes
    → length nodes < fuel
    → ((append_emitter s fuel e (some list) ≡ failed bad_args) × (e ≡ 0))
      ⊎ ((append_emitter s fuel e (some list) ≡ done (s, list))
          × (e ≢ 0)
          × (first_in (λ ee. ee == e) nodes ≡ e))
      ⊎ ((append_emitter s fuel e (some list) ≡ failed already_in_list)
          × (e ≢ 0)
          × Absent e nodes
          × (next_emitter s e ≢ 0))
      ⊎ ((s' : ℕ → Emitter) × (append_emitter s fuel e (some list) ≡ done (s', e))
          × IsChain (next_emitter s') e (e ∷ nodes)
          × (e ≢ 0)
          × Absent e nodes
          × (next_emitter s e ≡ 0))
unfolding append_emitter
append_emitter-IsChain s fuel e list nodes c enough =
    let search = find_first-first_in (next_emitter s) (λ ee. ee == e) fuel list nodes c enough in
    let s' = update s e (record (s e) { next = list }) in
    let at_e = ap (λ r. r.next) (update_self s e (record (s e) { next = list })) in
    elim (Bool-cases (e == 0)) [
      | inl null ↦ inl (rw null refl, ground arith)
      | inr valid ↦ elim (Bool-cases (first_in (λ ee. ee == e) nodes == 0)) [
        | inr there ↦ inr (
            inl (
              rw (valid, search, there) refl,
              ground arith,
              first_in_found e nodes (ground (arith, there)),
            ))
        | inl new ↦
            let away = first_in-Absent e nodes (ground arith) (ground arith) in
            elim (Bool-cases (next_emitter s e == 0)) [
              | inr linked ↦ inr (
                  inr
                    (inl (rw (valid, search, new, linked) refl, ground arith, away, ground arith)))
              | inl single ↦ inr (
                  inr (
                    inr (
                      s',
                      rw (valid, search, new, single) refl,
                      (
                        refl,
                        ground arith,
                        rw at_e (
                            IsChain-congr (next_emitter s) (next_emitter s') e list nodes
                              (λ a ne.
                                ap (λ r. r.next)
                                  (update_ne s e a (record (s e) { next = list }) ne))
                              away c),
                      ),
                      ground arith,
                      away,
                      ground arith,
                    )))
            ]
      ]
    ]
