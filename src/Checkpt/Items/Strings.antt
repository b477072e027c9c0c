-- ===== src/Checkpt/Items/Strings.antt =====
-- `checkpt_str` and `restore_str` of src/util/checkpt/checkpt.cc, and their round trip. A string is
-- NULL, or the bytes before its terminating '\0'.
use mathlib.Core.List.{append_assoc}
use vpic.Prelude.{
  ℕ, suc, ◌^◌, ◌<◌, ◌≡◌, refl, true, not, Option, none, some, List, [], ◌∷◌, ◌++◌, arith, ◌==◌,
  if◌then◌else◌, length,
}
use vpic.Checkpt.Service.{Service, ok, M, ◌>>=◌, ◌>>◌, pure, error_if, malformed}
use vpic.Checkpt.Stream.{checkpt_raw, restore_raw, checkpt_val, restore_val, to_bytes}
use vpic.Checkpt.Stream.Laws.{
  writing, reading, checkpt_raw_lem, restore_raw_lem, checkpt_val_lem, restore_val_lem, take-length,
}

abbrev null_str : ℕ
null_str = 0x2c11577

abbrev str_header : ℕ
str_header = 0x577

unfoldable pub checkpt_str : Option (List ℕ) → M (Unit {0})
checkpt_str none = checkpt_val null_str
checkpt_str (some str) = do
  checkpt_val str_header
  checkpt_val (length str)
  checkpt_raw (some str) (length str)

-- What `strlen` gives for the bytes with a '\0' behind them.
unfoldable pub strlen : List ℕ → ℕ
strlen [] = 0
strlen (b ∷ bs) = if b == 0 then 0 else suc (strlen bs)

-- The string that was announced as not NULL.
restore_chars : M (Option (List ℕ))
unfolding strlen
restore_chars = do
  len ← restore_val
  str ← restore_raw true len
  error_if (not (strlen str == len)) malformed
  pure (some str)

unfoldable pub restore_str : M (Option (List ℕ))
unfolding restore_chars
restore_str = do
  header ← restore_val
  if header == null_str
      then pure none
      else (do error_if (not (header == str_header)) malformed; restore_chars)

-- A C string: no '\0' among its bytes, and a length that a `size_t` holds.
abbrev pub IsString : Option (List ℕ) → Type 0
IsString none = Unit
IsString (some str) = (strlen str ≡ length str) × (length str < 2 ^ 64)

unfoldable pub str_bytes : Option (List ℕ) → List ℕ
str_bytes none = to_bytes 8 null_str
str_bytes (some str) = to_bytes 8 str_header ++ (to_bytes 8 (length str) ++ str)

pub checkpt_str_lem :
    (s : Service) (out : List ℕ) (str : Option (List ℕ))
    → checkpt_str str (writing s out) ≡ ok tt (writing s (out ++ str_bytes str))
unfolding checkpt_str str_bytes
checkpt_str_lem s out none = checkpt_val_lem s out null_str
checkpt_str_lem s out (some str) =
    simp (checkpt_val_lem, checkpt_raw_lem, take-length (length str) str refl, append_assoc)

restore_chars_lem :
    (s : Service) (rest str : List ℕ)
    → strlen str ≡ length str
    → length str < 2 ^ 64
    → restore_chars (reading s (to_bytes 8 (length str) ++ (str ++ rest)))
      ≡ ok (some str) (reading s rest)
unfolding restore_chars
restore_chars_lem s rest str e h =
    rw
      (restore_val_lem s (str ++ rest) (length str) h, restore_raw_lem s str rest (length str) refl)
      (ground arith)

pub restore_str_lem :
    (s : Service) (rest : List ℕ) (str : Option (List ℕ))
    → IsString str
    → restore_str (reading s (str_bytes str ++ rest)) ≡ ok str (reading s rest)
unfolding restore_str str_bytes
restore_str_lem s rest none h = rw (restore_val_lem s rest null_str (omega arith)) refl
restore_str_lem s rest (some str) h =
    rw (append_assoc, append_assoc, restore_val_lem s _ str_header (omega arith))
      (restore_chars_lem s rest str h.0 h.1)

-- A string that is written to a checkpoint is read back, NULL as NULL, and nothing but its own
-- bytes is taken from the stream.
pub restore_str-checkpt_str :
    (s t : Service) (out rest : List ℕ) (str : Option (List ℕ))
    → IsString str
    → (bytes : List ℕ) × (checkpt_str str (writing s out) ≡ ok tt (writing s (out ++ bytes)))
      × (restore_str (reading t (bytes ++ rest)) ≡ ok str (reading t rest))
restore_str-checkpt_str s t out rest str h =
    (str_bytes str, checkpt_str_lem s out str, restore_str_lem t rest str h)
