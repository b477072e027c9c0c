-- ===== src/Checkpt/Items/Data/Elements.antt =====
-- The elements of an array, written one after the other and read back.
use mathlib.Core.List.{append_assoc, append-nil}
use vpic.Prelude.{
  ℕ, zero, suc, ◌+◌, ◌-◌, ◌*◌, ◌^◌, ◌≤◌, ◌<◌, ◌≡◌, ◌≢◌, refl, sym, Bool, true, false, ◌||◌, Option,
  some, List, [], ◌∷◌, ◌++◌, arith, length, ltb, drop, take, get_elem?, ap, ◌∙◌, inl, inr,
  Bool-cases, length-take, length-drop,
}
use native.Mathlib.Decide.{dec_lt}
use vpic.Checkpt.Service.{Service, ok}
use vpic.Checkpt.Stream.{restore_raw}
use vpic.Checkpt.Stream.Laws.{writing, reading, checkpt_raw_lem, restore_raw_lem}
use vpic.Checkpt.Items.Data.{mul_size, checkpt_elements, Block, store, restore_elements}

pub mul_size-exact : (n m s : ℕ) → n ≤ m → m * s < 2 ^ 64 → mul_size n s ≡ n * s
mul_size-exact n m s h k = let below : n * s ≤ m * s = grind arith in omega arith

restore_raw-zero :
    (has : Bool) (t : Service) (rest : List ℕ)
    → restore_raw has 0 (reading t rest) ≡ ok [] (reading t rest)
unfolding restore_raw reading
restore_raw-zero true t rest = refl
restore_raw-zero false t rest = refl

restore_raw_any :
    (has : Bool) (t : Service) (bytes rest : List ℕ) (n : ℕ)
    → length bytes ≡ n
    → (n ≢ 0 → has ≡ true)
    → restore_raw has n (reading t (bytes ++ rest)) ≡ ok bytes (reading t rest)
restore_raw_any true t bytes rest n e h = restore_raw_lem t bytes rest n e
restore_raw_any false t [] rest zero e h = restore_raw-zero false t rest
restore_raw_any false t (b ∷ bytes) rest zero e h = absurd (omega arith)
restore_raw_any false t bytes rest (suc n) e h =
    absurd (elim (Bool-cases false) [ inl f ↦ cc | inr f ↦ cc (h (omega arith)) ])

-- Memory to store into: the block is not empty, or the element is.
has_data :
    (size offset sz_ele : ℕ) → sz_ele ≤ size → sz_ele ≢ 0 → (ltb 0 size || ltb 0 offset) ≡ true
has_data size offset sz_ele h nz = ground arith

get_elem?-take : (n m : ℕ) (xs : List ℕ) → m < n → get_elem? (take n xs) m ≡ get_elem? xs m
get_elem?-take zero m xs h = absurd (omega arith)
get_elem?-take (suc n) m [] h = refl
get_elem?-take (suc n) zero (x ∷ xs) h = refl
get_elem?-take (suc n) (suc m) (x ∷ xs) h = get_elem?-take n m xs (omega arith)

get_elem?-drop : (n m : ℕ) (xs : List ℕ) → get_elem? (drop n xs) m ≡ get_elem? xs (n + m)
get_elem?-drop zero m xs = ap (get_elem? xs) (omega arith)
get_elem?-drop (suc n) m [] = refl
get_elem?-drop (suc n) m (x ∷ xs) =
    get_elem?-drop n m xs ∙ ap (get_elem? (x ∷ xs)) {x = suc (n + m)} (omega arith)

module _ (bytes : List ℕ) (sz_ele str_ele : ℕ) where
  pub element : ℕ → List ℕ
  element n = take sz_ele (drop (n * str_ele) bytes)

  pub elements : ℕ → ℕ → List ℕ
  elements zero n = []
  elements (suc k) n = element n ++ elements k (n + 1)

  -- The block's bytes after elements `n` to `n + k` are stored.
  pub stored : ℕ → ℕ → (ℕ → Option ℕ) → ℕ → Option ℕ
  stored zero n byte = byte
  stored (suc k) n byte = stored k (n + 1) (store byte (n * str_ele) (element n))

  -- One element from the head of the array on.
  pub stored_one : (byte : ℕ → Option ℕ) → stored 1 0 byte ≡ store byte 0 (take sz_ele bytes)
  unfolding stored element
  stored_one byte = let at : 0 * str_ele ≡ 0 = omega arith in rw at refl

  length-element : (n : ℕ) → n * str_ele + sz_ele ≤ length bytes → length (element n) ≡ sz_ele
  unfolding element
  length-element n h =
      omega (arith, length-take sz_ele (drop (n * str_ele) bytes), length-drop (n * str_ele) bytes)

  pub checkpt_elements_lem :
      (s : Service) (max_ele k n : ℕ) (out : List ℕ)
      → n + k ≤ max_ele
      → max_ele * str_ele < 2 ^ 64
      → checkpt_elements k n (some bytes) sz_ele str_ele (writing s out)
        ≡ ok tt (writing s (out ++ elements k n))
  unfolding checkpt_elements elements element
  checkpt_elements_lem s max_ele zero n out h small =
      ap (λ l. ok tt (writing s l)) (sym (append-nil out))
  checkpt_elements_lem s max_ele (suc k) n out h small =
      rw
        (
          mul_size-exact n max_ele str_ele (omega arith) small,
          checkpt_raw_lem s out (drop (n * str_ele) bytes) sz_ele,
          checkpt_elements_lem s max_ele k (n + 1) (out ++ take sz_ele (drop (n * str_ele) bytes))
              (omega arith) small,
        )
        (ap (λ l. ok tt (writing s l)) (append_assoc out (element n) (elements k (n + 1))))

  pub restore_elements_lem :
      (t : Service) (max_ele k n : ℕ) (b : Block) (rest : List ℕ)
      → n + k ≤ max_ele
      → sz_ele ≤ str_ele
      → (n + k) * str_ele ≤ length bytes
      → max_ele * str_ele < 2 ^ 64
      → b.size ≡ max_ele * str_ele
      → restore_elements k n b sz_ele str_ele (reading t (elements k n ++ rest))
        ≡ ok (record b { byte = stored k n b.byte }) (reading t rest)
  unfolding restore_elements elements stored
  restore_elements_lem t max_ele zero n b rest h le fit small sz = refl
  restore_elements_lem t max_ele (suc k) n b rest h le fit small sz =
      let more = elements k (n + 1) ++ rest in
      let one : n * str_ele + sz_ele ≤ length bytes = grind arith in
      let room : sz_ele ≤ b.size = grind arith in
      rw
        (
          append_assoc,
          restore_raw_any (ltb 0 b.size || ltb 0 (mul_size n str_ele)) t (element n) more sz_ele
              (length-element n one) (has_data b.size (mul_size n str_ele) sz_ele room),
          mul_size-exact n max_ele str_ele (omega arith) small,
        )
        (restore_elements_lem t max_ele k (n + 1)
          (record b { byte = store b.byte (n * str_ele) (element n) }) rest (omega arith) le
          (grind arith) small sz)

  stored-below :
      (k n : ℕ) (byte : ℕ → Option ℕ) (j : ℕ) → j < n * str_ele → stored k n byte j ≡ byte j
  unfolding stored store
  stored-below zero n byte j h = refl
  stored-below (suc k) n byte j h =
      stored-below k (n + 1) (store byte (n * str_ele) (element n)) j (grind arith) ∙ ground arith

  store-element :
      (n : ℕ) (byte : ℕ → Option ℕ) (m : ℕ)
      → m < sz_ele
      → n * str_ele + sz_ele ≤ length bytes
      → store byte (n * str_ele) (element n) (n * str_ele + m) ≡ get_elem? bytes (n * str_ele + m)
  unfolding store element
  store-element n byte m h fit =
      let e : n * str_ele + m - n * str_ele ≡ m = omega arith in
      ground (
        arith,
        e,
        length-element n fit,
        get_elem?-take sz_ele m (drop (n * str_ele) bytes) h,
        get_elem?-drop (n * str_ele) m bytes,
      )

  pub stored_lem :
      (k n : ℕ) (byte : ℕ → Option ℕ) (i m : ℕ)
      → n ≤ i
      → i < n + k
      → m < sz_ele
      → sz_ele ≤ str_ele
      → (n + k) * str_ele ≤ length bytes
      → stored k n byte (i * str_ele + m) ≡ get_elem? bytes (i * str_ele + m)
  unfolding stored
  stored_lem zero n byte i m lo hi h le fit = absurd (omega arith)
  stored_lem (suc k) n byte i m lo hi h le fit = elim (dec_lt n i) [
    | yes p ↦
        stored_lem k (n + 1) (store byte (n * str_ele) (element n)) i m (omega arith) (omega arith)
          h le (grind arith)
    | no p ↦
        let e : i ≡ n = omega arith in
        rw e (
          stored-below k (n + 1) (store byte (n * str_ele) (element n)) (n * str_ele + m)
            (grind arith)
          ∙ store-element n byte m h (grind arith))
  ]
