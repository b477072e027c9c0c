-- ===== src/Lists/Saving/Structure.antt =====
-- A structure that is saved as its bytes of memory, and the pointers that are set in it when it is
-- restored.
use vpic.Checkpt.Stream.{to_bytes}
use vpic.Prelude.{
  Option, [], ◌∷◌, ap, ◌∙◌, ℕ, ◌^◌, ◌<◌, ◌≡◌, true, some, List, ◌++◌, arith, length, get_elem?,
}
use vpic.Checkpt.Service.{Service, ok}
use vpic.Checkpt.Stream.Laws.{writing, reading, take-length}
use vpic.Checkpt.Items.Data.{store, Block, checkpt_data, restore_data, is_alignment}
use vpic.Checkpt.Items.Data.RoundTrip.{block_lem}

-- A structure's bytes with pointers of 8 bytes at some offsets.
abbrev pub with_pointers : List ((ℕ × ℕ)) → (ℕ → Option ℕ) → ℕ → Option ℕ
with_pointers [] byte = byte
with_pointers (member ∷ rest) byte = with_pointers rest (store byte member.0 (to_bytes 8 member.1))

-- All of `bytes`, as one element, come back.
pub whole_lem :
    (bytes : List ℕ) (n align : ℕ)
    → length bytes ≡ n
    → n < 2 ^ 64
    → align < 2 ^ 64
    → is_alignment align ≡ true
    → (w : List ℕ) × (b : Block) × ((s : Service) (out : List ℕ)
        → checkpt_data (some bytes) n n 1 1 align (writing s out) ≡ ok tt (writing s (out ++ w)))
      × ((t : Service) (rest : List ℕ)
          → restore_data (reading t (w ++ rest)) ≡ ok b (reading t rest))
      × (b.size ≡ n)
      × (b.byte ≡ get_elem? bytes)
whole_lem bytes n align size small small' power =
    let (w, b, write, read, size_b, aligned, same) =
      block_lem bytes n n align (omega arith) size small small' power in
    (w, b, write, read, size_b, same ∙ ap get_elem? (take-length n bytes size))
