-- ===== src/Checkpt/Items/Data/RoundTrip.antt =====
-- An array comes back from a checkpoint with the same elements at the same places.
use mathlib.Core.List.{append_assoc}
use vpic.Prelude.{
  zero, suc, Option, [], ◌∷◌, ◌&&◌, if◌then◌else◌, Bool-cases, inl, inr, ap, ◌∙◌, take, ℕ, ◌+◌, ◌*◌,
  ◌^◌, ◌≤◌, ◌<◌, ◌≡◌, refl, true, false, ◌||◌, none, some, List, ◌++◌, arith, length, ltb,
  get_elem?,
}
use vpic.Checkpt.Service.{Service, ok}
use vpic.Checkpt.Stream.{to_bytes}
use vpic.Checkpt.Stream.Laws.{writing, reading, checkpt_val_lem, restore_val_lem}
use vpic.Checkpt.Items.Data.{data_header, checkpt_data, Block, store, is_alignment, restore_data}
use vpic.Checkpt.Items.Data.Elements.{
  mul_size-exact, elements, stored_one, stored, checkpt_elements_lem, restore_elements_lem,
  stored_lem,
}

-- What precedes the elements, by their number and sizes.
header_bytes : (sz_ele str_ele n_ele max_ele align : ℕ) → List ℕ
header_bytes sz_ele str_ele n_ele max_ele align =
    to_bytes 8 data_header
    ++ (to_bytes 8 sz_ele
        ++ (to_bytes 8 str_ele ++ (to_bytes 8 n_ele ++ (to_bytes 8 max_ele ++ to_bytes 8 align))))

-- A layout that both functions accept, within the array's bytes and the range of `size_t`.
pub record IsLayout (bytes : List ℕ) (sz_ele str_ele n_ele max_ele align : ℕ) : Type 0 where
  pub count : n_ele ≤ max_ele
  pub apart : sz_ele ≤ str_ele
  pub fits : n_ele * str_ele ≤ length bytes
  pub room : max_ele * str_ele < 2 ^ 64
  pub max_small : max_ele < 2 ^ 64
  pub str_small : str_ele < 2 ^ 64
  pub align_small : align < 2 ^ 64
  pub aligned : is_alignment align ≡ true

-- Byte `m` of element `i` of `n_ele`, of which each has `sz_ele` bytes `str_ele` after the other's.
abbrev pub element_byte : (ℕ → Option ℕ) → (sz_ele str_ele n_ele i m : ℕ) → Option ℕ
element_byte byte sz_ele str_ele n_ele i m =
    if ltb i n_ele && ltb m sz_ele then byte (i * str_ele + m) else none

module _ {bytes : List ℕ} {sz_ele str_ele n_ele max_ele align : ℕ}
    (v : IsLayout bytes sz_ele str_ele n_ele max_ele align) where
  checkpt_data_lem :
      (s : Service) (out : List ℕ)
      → checkpt_data (some bytes) sz_ele str_ele n_ele max_ele align (writing s out)
        ≡ ok tt (
            writing s (
              out
              ++ (header_bytes sz_ele str_ele n_ele max_ele align
                  ++ elements bytes sz_ele str_ele n_ele 0)))
  unfolding checkpt_data header_bytes
  checkpt_data_lem s out =
      let layout : (ltb max_ele n_ele || ltb str_ele sz_ele) ≡ false = ground arith in
      rw layout (
        simp (
          checkpt_val_lem,
          append_assoc,
          λ (o : List ℕ).
              checkpt_elements_lem bytes sz_ele str_ele s max_ele n_ele 0 o (omega (arith, v.count))
                v.room,
        ))

  restore_data_lem :
      (t : Service) (rest : List ℕ)
      → restore_data (
          reading t (
            (header_bytes sz_ele str_ele n_ele max_ele align
              ++ elements bytes sz_ele str_ele n_ele 0)
            ++ rest))
        ≡ ok
            (record {
              size = max_ele * str_ele;
              align = align;
              byte = stored bytes sz_ele str_ele n_ele 0 (λ j. none);
            })
            (reading t rest)
  unfolding restore_data header_bytes
  restore_data_lem t rest =
      let layout : (ltb max_ele n_ele || ltb str_ele sz_ele) ≡ false = ground arith in
      simp append_assoc (
        rw
          (
            restore_val_lem t _ data_header (omega arith),
            restore_val_lem t _ sz_ele (omega arith),
            restore_val_lem t _ str_ele v.str_small,
            restore_val_lem t _ n_ele (omega arith),
            restore_val_lem t _ max_ele v.max_small,
            restore_val_lem t _ align v.align_small,
            layout,
            v.aligned,
            mul_size-exact max_ele max_ele str_ele (omega arith) v.room,
          )
          (restore_elements_lem bytes sz_ele str_ele t max_ele n_ele 0 _ rest
            (omega (arith, v.count)) v.apart (omega (arith, v.fits)) v.room refl))

  same_elements :
      (i m : ℕ)
      → element_byte (stored bytes sz_ele str_ele n_ele 0 (λ j. none)) sz_ele str_ele n_ele i m
        ≡ element_byte (get_elem? bytes) sz_ele str_ele n_ele i m
  same_elements i m = elim (Bool-cases (ltb i n_ele && ltb m sz_ele)) [
    | inl t ↦ rw t (
        stored_lem bytes sz_ele str_ele n_ele 0 (λ j. none) i m (omega arith) (ground (arith, t))
          (ground (arith, t)) v.apart (omega (arith, v.fits)))
    | inr f ↦ rw f refl
  ]

  -- The bytes of an array depend neither on what is written before nor on what is read behind
  -- them, and give a block with the array's elements.
  checkpt_restore_data_lem :
      (w : List ℕ) × (b : Block) × ((s : Service) (out : List ℕ)
        → checkpt_data (some bytes) sz_ele str_ele n_ele max_ele align (writing s out)
          ≡ ok tt (writing s (out ++ w)))
      × ((t : Service) (rest : List ℕ)
          → restore_data (reading t (w ++ rest)) ≡ ok b (reading t rest))
      × (b.size ≡ max_ele * str_ele)
      × (b.align ≡ align)
      × (b.byte ≡ stored bytes sz_ele str_ele n_ele 0 (λ j. none))
  checkpt_restore_data_lem = (
    header_bytes sz_ele str_ele n_ele max_ele align ++ elements bytes sz_ele str_ele n_ele 0,
    record {
      size = max_ele * str_ele;
      align = align;
      byte = stored bytes sz_ele str_ele n_ele 0 (λ j. none);
    },
    checkpt_data_lem,
    restore_data_lem,
    refl,
    refl,
    refl,
  )

  -- An array within its bounds, which may be empty or have elements of no bytes, comes back from a
  -- checkpoint as a block of the announced size and alignment: byte `m` of each element `i` is that
  -- of the array, and nothing but the array's own bytes is taken from the stream.
  pub restore_data-checkpt_data :
      (s t : Service) (out rest : List ℕ)
      → (w : List ℕ) × (b : Block) × (checkpt_data
            (some bytes)
            sz_ele
            str_ele
            n_ele
            max_ele
            align
            (writing s out)
          ≡ ok tt (writing s (out ++ w)))
        × (restore_data (reading t (w ++ rest)) ≡ ok b (reading t rest))
        × (b.size ≡ max_ele * str_ele)
        × (b.align ≡ align)
        × ((i m : ℕ)
            → element_byte b.byte sz_ele str_ele n_ele i m
              ≡ element_byte (get_elem? bytes) sz_ele str_ele n_ele i m)
  restore_data-checkpt_data s t out rest =
      let (w, b, written, read, size, aligned, same) = checkpt_restore_data_lem in
      (
        w,
        b,
        written s out,
        read t rest,
        size,
        aligned,
        λ i m. ap (λ f. element_byte f sz_ele str_ele n_ele i m) same ∙ same_elements i m,
      )

get_elem?-beyond : (xs : List ℕ) (j : ℕ) → length xs ≤ j → get_elem? xs j ≡ none
get_elem?-beyond [] j h = refl
get_elem?-beyond (x ∷ xs) zero h = absurd (omega (arith, h))
get_elem?-beyond (x ∷ xs) (suc j) h = get_elem?-beyond xs j (omega (arith, h))

store_all : (xs : List ℕ) (j : ℕ) → store (λ k. none) 0 xs j ≡ get_elem? xs j
unfolding store
store_all xs j = elim (Bool-cases (ltb j (length xs))) [
  | inl t ↦ ground (arith, t)
  | inr f ↦ ground (arith, f, get_elem?-beyond xs j (ground (arith, f)))
]

-- One element, of which `n` bytes of `max` are saved.
pub block_lem :
    (bytes : List ℕ) (n max align : ℕ)
    → n ≤ max
    → length bytes ≡ max
    → max < 2 ^ 64
    → align < 2 ^ 64
    → is_alignment align ≡ true
    → (w : List ℕ) × (b : Block) × ((s : Service) (out : List ℕ)
        → checkpt_data (some bytes) n max 1 1 align (writing s out) ≡ ok tt (writing s (out ++ w)))
      × ((t : Service) (rest : List ℕ)
          → restore_data (reading t (w ++ rest)) ≡ ok b (reading t rest))
      × (b.size ≡ max)
      × (b.align ≡ align)
      × (b.byte ≡ get_elem? (take n bytes))
block_lem bytes n max align le size small small' power =
    let layout : IsLayout bytes n max 1 1 align = record {
      count = omega arith;
      apart = le;
      fits = omega (arith, size);
      room = omega (arith, small);
      max_small = omega arith;
      str_small = small;
      align_small = small';
      aligned = power;
    } in
    let (w, b, written, read, size_b, align_b, same) = checkpt_restore_data_lem layout in
    (
      w,
      b,
      written,
      read,
      size_b ∙ omega arith,
      align_b,
      same ∙ stored_one bytes n max (λ j. none) ∙ (λ i j. store_all (take n bytes) j i),
    )
