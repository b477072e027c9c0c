-- ===== src/Checkpt/Items/Data.antt =====
-- `checkpt_data` and `restore_data` of src/util/checkpt/checkpt.cc: an array with elements of
-- `sz_ele` bytes that lie `str_ele` bytes apart. The products of sizes are those of `size_t`.
pub mod Elements
pub mod RoundTrip
use Prim.Native.Nat.{bit_and}
use vpic.Prelude.{
  ℕ, zero, suc, ◌+◌, ◌-◌, ◌*◌, ◌%◌, ◌^◌, Bool, true, false, not, ◌&&◌, ◌||◌, Option, none, some,
  List, length, ltb, leb, ◌==◌, if◌then◌else◌, is_some, drop, get_elem?,
}
use vpic.Checkpt.Service.{
  ok, err, M, ◌>>=◌, ◌>>◌, and_then, pure, error_if, malformed, null_data, bad_layout,
  bad_alignment,
}
use vpic.Checkpt.Stream.{checkpt_raw, restore_raw, checkpt_val, restore_val, to_bytes}

abbrev pub data_header : ℕ
data_header = 0xDA7A

-- A product of two `size_t`.
abbrev pub mul_size : ℕ → ℕ → ℕ
mul_size a b = (a * b) % 2 ^ 64

-- `data + k`
abbrev pub from_offset : ℕ → Option (List ℕ) → Option (List ℕ)
from_offset k none = none
from_offset k (some bytes) = some (drop k bytes)

-- `for( ; n<n_ele; n++ ) checkpt_raw( data+n*str_ele, sz_ele );` with `k` rounds left.
unfoldable pub checkpt_elements : ℕ → ℕ → Option (List ℕ) → ℕ → ℕ → M (Unit {0})
checkpt_elements zero n p sz_ele str_ele s = ok tt s
checkpt_elements (suc k) n p sz_ele str_ele s =
    and_then (checkpt_raw (from_offset (mul_size n str_ele) p) sz_ele s)
      λ _. checkpt_elements k (n + 1) p sz_ele str_ele

-- `p` is NULL or the bytes from the address on.
unfoldable pub checkpt_data :
    Option (List ℕ) → (sz_ele str_ele n_ele max_ele align : ℕ) → M (Unit {0})
checkpt_data p sz_ele str_ele n_ele max_ele align = do
  error_if (not (is_some p) && ltb 0 (mul_size n_ele sz_ele)) null_data
  error_if (ltb max_ele n_ele || ltb str_ele sz_ele) bad_layout
  checkpt_val data_header
  checkpt_val sz_ele
  checkpt_val str_ele
  checkpt_val n_ele
  checkpt_val max_ele
  checkpt_val align
  checkpt_elements n_ele 0 p sz_ele str_ele

-- What `MALLOC` or `MALLOC_ALIGNED` gives (the latter at an `align` other than 0): `size` bytes,
-- the address being NULL at size 0. A byte that was not written is `none`.
pub record Block : Type 0 where
  pub size : ℕ
  pub align : ℕ
  pub byte : ℕ → Option ℕ

-- The bytes stored from `offset` on.
unfoldable pub store : (ℕ → Option ℕ) → ℕ → List ℕ → ℕ → Option ℕ
store byte offset bytes j =
    if leb offset j && ltb j (offset + length bytes) then get_elem? bytes (j - offset) else byte j

-- A pointer member of a structure, of 8 bytes at `offset`, that is set to `value`.
unfoldable pub set_pointer : Block → (offset value : ℕ) → Block
set_pointer b offset value = record b { byte = store b.byte offset (to_bytes 8 value) }

unfoldable pub restore_elements : ℕ → ℕ → Block → ℕ → ℕ → M Block
restore_elements zero n b sz_ele str_ele s = ok b s
restore_elements (suc k) n b sz_ele str_ele s =
    and_then (restore_raw (ltb 0 b.size || ltb 0 (mul_size n str_ele)) sz_ele s) λ bytes.
      restore_elements k (n + 1) (record b { byte = store b.byte (mul_size n str_ele) bytes })
        sz_ele str_ele

-- The test of `util_malloc_aligned`: `( a & ( a - 1 ) ) != 0`, made at an `align` other than 0.
unfoldable pub is_alignment : ℕ → Bool
is_alignment align = align == 0 || bit_and align (align - 1) == 0

unfoldable pub restore_data : M Block
restore_data = do
  header ← restore_val
  error_if (not (header == data_header)) malformed
  sz_ele ← restore_val
  str_ele ← restore_val
  n_ele ← restore_val
  max_ele ← restore_val
  align ← restore_val
  error_if (ltb max_ele n_ele || ltb str_ele sz_ele) malformed
  error_if (not (is_alignment align)) bad_alignment
  restore_elements n_ele 0
      (record { size = mul_size max_ele str_ele; align = align; byte = λ j. none }) sz_ele str_ele
