-- ===== src/Checkpt/Stream/Laws.antt =====
-- The stream's commands at a service that is writing or reading: what is appended to the stream,
-- and what is taken from it.
use vpic.Prelude.{
  ℕ, zero, suc, ◌/◌, ◌^◌, ◌<◌, ◌≡◌, refl, ap, ◌∙◌, true, some, List, [], ◌∷◌, ◌++◌, arith, length,
  take, drop, length-append,
}
use vpic.Checkpt.Service.{Service, ok}
use vpic.Checkpt.Stream.{to_bytes, of_bytes, checkpt_raw, restore_raw, checkpt_val, restore_val}

-- `s` in the middle of a checkpoint, `out` written so far; or of a restore, `input` left to read.
unfoldable pub writing : Service → List ℕ → Service
writing s out = record s { booted = true; checkpt = some out }

unfoldable pub reading : Service → List ℕ → Service
reading s input = record s { booted = true; restore = some input }

pub length-to_bytes : (n v : ℕ) → length (to_bytes n v) ≡ n
unfolding to_bytes
length-to_bytes zero v = refl
length-to_bytes (suc n) v = ap suc (length-to_bytes n (v / 256))

module _ {ℓ} {A : Type ℓ} where
  pub take-length-append : (n : ℕ) (xs ys : List A) → length xs ≡ n → take n (xs ++ ys) ≡ xs
  take-length-append zero [] ys h = refl
  take-length-append (suc n) [] ys h = absurd (omega arith)
  take-length-append zero (x ∷ xs) ys h = absurd (omega arith)
  take-length-append (suc n) (x ∷ xs) ys h =
      ap (λ l. x ∷ l) (take-length-append n xs ys (omega arith))

  pub drop-length-append : (n : ℕ) (xs ys : List A) → length xs ≡ n → drop n (xs ++ ys) ≡ ys
  drop-length-append zero [] ys h = refl
  drop-length-append (suc n) [] ys h = absurd (omega arith)
  drop-length-append zero (x ∷ xs) ys h = absurd (omega arith)
  drop-length-append (suc n) (x ∷ xs) ys h = drop-length-append n xs ys (omega arith)

  pub take-length : (n : ℕ) (xs : List A) → length xs ≡ n → take n xs ≡ xs
  take-length zero [] h = refl
  take-length (suc n) [] h = refl
  take-length zero (x ∷ xs) h = absurd (omega arith)
  take-length (suc n) (x ∷ xs) h = ap (λ l. x ∷ l) (take-length n xs (omega arith))

-- The bytes of a `size_t` determine it.
pub of_bytes-to_bytes : (v : ℕ) → v < 2 ^ 64 → of_bytes (to_bytes 8 v) ≡ v
unfolding to_bytes of_bytes
of_bytes-to_bytes v h = omega arith

pub checkpt_raw_lem :
    (s : Service) (out bytes : List ℕ) (n : ℕ)
    → checkpt_raw (some bytes) n (writing s out) ≡ ok tt (writing s (out ++ take n bytes))
unfolding checkpt_raw writing
checkpt_raw_lem s out bytes n = refl

pub restore_raw_lem :
    (s : Service) (bytes rest : List ℕ) (n : ℕ)
    → length bytes ≡ n
    → restore_raw true n (reading s (bytes ++ rest)) ≡ ok bytes (reading s rest)
unfolding restore_raw reading
restore_raw_lem s [] rest zero h = refl
restore_raw_lem s [] rest (suc n) h = absurd (omega arith)
restore_raw_lem s (b ∷ bytes) rest zero h = absurd (omega arith)
restore_raw_lem s (b ∷ bytes) rest (suc n) h = ground (
  arith,
  length-append (b ∷ bytes) rest,
  take-length-append (suc n) (b ∷ bytes) rest h,
  drop-length-append (suc n) (b ∷ bytes) rest h,
)

-- `CHECKPT_VAL` appends the eight bytes of the value.
pub checkpt_val_lem :
    (s : Service) (out : List ℕ) (v : ℕ)
    → checkpt_val v (writing s out) ≡ ok tt (writing s (out ++ to_bytes 8 v))
unfolding checkpt_val
checkpt_val_lem s out v =
    checkpt_raw_lem s out (to_bytes 8 v) 8
    ∙ ap (λ l. ok tt (writing s (out ++ l))) (take-length 8 (to_bytes 8 v) (length-to_bytes 8 v))

-- `RESTORE_VAL` takes them off again.
pub restore_val_lem :
    (s : Service) (rest : List ℕ) (v : ℕ)
    → v < 2 ^ 64
    → restore_val (reading s (to_bytes 8 v ++ rest)) ≡ ok v (reading s rest)
unfolding restore_val
restore_val_lem s rest v h =
    rw (restore_raw_lem s (to_bytes 8 v) rest 8 (length-to_bytes 8 v))
      (ap (λ x. ok x (reading s rest)) (of_bytes-to_bytes v h))
