-- ===== src/Checkpt/Stream.antt =====
-- Bytes in and out of the open stream: `checkpt_raw`, `restore_raw` and the macros `CHECKPT_VAL`
-- and `RESTORE_VAL` of src/util/checkpt/checkpt.h at `size_t`, which is 8 bytes, lowest first.
pub mod Laws
use vpic.Prelude.{
  ℕ, zero, suc, ◌+◌, ◌*◌, ◌/◌, ◌%◌, Bool, true, false, not, ◌&&◌, Option, none, some, List, [], ◌∷◌,
  ◌++◌, ltb, ◌==◌, if◌then◌else◌, is_some, length, take, drop,
}
use vpic.Checkpt.Service.{
  Service, ok, err, M, ◌>>=◌, ◌>>◌, and_then, pure, error_if, not_writing, not_reading, null_data,
  short_read,
}

-- The `n` bytes of `v` in memory, and the value of such bytes.
unfoldable pub to_bytes : ℕ → ℕ → List ℕ
to_bytes zero v = []
to_bytes (suc n) v = (v % 256) ∷ to_bytes n (v / 256)

unfoldable pub of_bytes : List ℕ → ℕ
of_bytes [] = 0
of_bytes (b ∷ bs) = b + 256 * of_bytes bs

-- `checkpt_write` at the open stream; nothing is open where the option is `none`.
abbrev pub write : List ℕ → Option (List ℕ) → Option (List ℕ)
write bytes none = none
write bytes (some out) = some (out ++ bytes)

-- `checkpt_raw( data, n_byte )`: `data` is NULL or the bytes from its address on.
unfoldable pub checkpt_raw : Option (List ℕ) → ℕ → M (Unit {0})
checkpt_raw p n_byte s =
    (do
      error_if (not (is_some s.checkpt)) not_writing
      error_if (not (is_some p) && not (n_byte == 0)) null_data
      λ t. ok tt (record t { checkpt = write (bytes_at p) t.checkpt }))
      s
  where
    bytes_at : Option (List ℕ) → List ℕ
    bytes_at none = []
    bytes_at (some bytes) = take n_byte bytes

-- `checkpt_read`: the bytes that the C library delivers into `data`.
unfoldable pub read_bytes : ℕ → Option (List ℕ) → M (List ℕ)
read_bytes n none s = err not_reading
read_bytes n (some input) s =
    if ltb (length input) n
    then err short_read
    else ok (take n input) (record s { restore = some (drop n input) })

-- `restore_raw( data, n_byte )`: `has_data` says that `data` is not NULL. It returns the bytes
-- that the source stores at `data`.
unfoldable pub restore_raw : Bool → ℕ → M (List ℕ)
unfolding read_bytes
restore_raw has_data n_byte s =
    (do
      error_if (not (is_some s.restore)) not_reading
      error_if (not has_data && not (n_byte == 0)) null_data
      λ t. if n_byte == 0 then ok [] t else read_bytes n_byte t.restore t)
      s

-- `CHECKPT_VAL( size_t, v )` and `RESTORE_VAL( size_t, v )`
unfoldable pub checkpt_val : ℕ → M (Unit {0})
checkpt_val v = checkpt_raw (some (to_bytes 8 v)) 8

unfoldable pub restore_val : M ℕ
restore_val = do bytes ← restore_raw true 8; pure (of_bytes bytes)
