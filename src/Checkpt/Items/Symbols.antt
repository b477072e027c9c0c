-- ===== src/Checkpt/Items/Symbols.antt =====
-- Symbols, such as the addresses of functions: `find_saddr`, `checkpt_sym` and `restore_sym` of
-- src/util/checkpt/checkpt.cc, compiled with the reverse lookup. The dynamic linker is a parameter.
use mathlib.Core.List.{append_assoc}
use vpic.Prelude.{
  ℕ, ◌^◌, ◌<◌, ◌≡◌, ◌≢◌, refl, sym, Bool, true, false, Option, none, some, List, ◌++◌, arith, ◌==◌,
  if◌then◌else◌, ap, ◌∙◌, ◌⊎◌, inl, inr, Bool-cases,
}
use vpic.Checkpt.Service.{
  Service, ok, err, M, ◌>>=◌, ◌>>◌, pure, error_if, malformed, no_symbol_info, unresolved_symbol,
}
use vpic.Checkpt.Stream.{checkpt_val, restore_val, to_bytes}
use vpic.Checkpt.Stream.Laws.{writing, reading, checkpt_val_lem, restore_val_lem}
use vpic.Checkpt.Items.Strings.{
  checkpt_str, restore_str, IsString, str_bytes, checkpt_str_lem, restore_str_lem,
}

-- `Dl_info`: the name of the symbol at or before an address, and that of its file.
pub record SymbolInfo : Type 0 where
  pub sname : Option (List ℕ)
  pub fname : Option (List ℕ)

-- libdl: `dladdr`, with `none` where `dlerror` reports an error after it, and likewise
-- `dlsym( RTLD_DEFAULT, name )`.
pub record Linker : Type 0 where
  pub dladdr : ℕ → Option SymbolInfo
  pub dlsym : List ℕ → Option ℕ

abbrev null_sym : ℕ
null_sym = 0x2C11513B

abbrev pub string_sym : ℕ
string_sym = 0x577513B

abbrev address_sym : ℕ
address_sym = 0xADD7513B

-- The lookup in the named file stands under `0 && fname` and is never made.
unfoldable pub find_saddr : Linker → Option (List ℕ) → ℕ
find_saddr l none = 0
find_saddr l (some sname) = elim (l.dlsym sname) [ none ↦ 0 | some saddr ↦ saddr ]

-- The warnings that go with a raw address are not modelled.
unfoldable pub checkpt_info : Linker → ℕ → Option SymbolInfo → M (Unit {0})
checkpt_info l saddr none s = err no_symbol_info
checkpt_info l saddr (some info) s =
    (if saddr == find_saddr l info.sname
        then (do checkpt_val string_sym; checkpt_str info.sname; checkpt_str info.fname)
        else (do checkpt_val address_sym; checkpt_val saddr))
      s

unfoldable pub checkpt_sym : Linker → ℕ → M (Unit {0})
checkpt_sym l saddr =
    if saddr == 0 then checkpt_val null_sym else checkpt_info l saddr (l.dladdr saddr)

-- `case 0x577513B`
unfoldable pub restore_string : Linker → M ℕ
restore_string l = do
  sname ← restore_str
  fname ← restore_str
  let saddr = find_saddr l sname
  error_if (saddr == 0) unresolved_symbol
  pure saddr

abbrev is_none {ℓ} : {A : Type ℓ} → Option A → Bool
is_none none = true
is_none (some a) = false

-- `case 0xADD7513B`; the lookup is for the warnings, but an error in it ends the program.
unfoldable pub restore_address : Linker → M ℕ
restore_address l = do
  saddr ← restore_val
  error_if (is_none (l.dladdr saddr)) no_symbol_info
  pure saddr

unfoldable pub restore_sym : Linker → M ℕ
restore_sym l = do
  type ← restore_val
  if type == null_sym
      then pure 0
      else if type == string_sym
      then restore_string l
      else if type == address_sym
      then restore_address l
      else (λ s. err malformed)

-- The linker has information on the symbol, with names that are C strings, and the address is one.
pub record IsSymbol (l : Linker) (saddr : ℕ) (info : SymbolInfo) : Type 0 where
  pub ne_null : saddr ≢ 0
  pub known : l.dladdr saddr ≡ some info
  pub sname_ok : IsString info.sname
  pub fname_ok : IsString info.fname
  pub small : saddr < 2 ^ 64

-- What is written for a symbol: its two names if the first leads back to the address, else the
-- address.
unfoldable pub sym_bytes : Linker → ℕ → SymbolInfo → List ℕ
sym_bytes l saddr info =
    if saddr == find_saddr l info.sname
    then to_bytes 8 string_sym ++ (str_bytes info.sname ++ str_bytes info.fname)
    else to_bytes 8 address_sym ++ to_bytes 8 saddr

checkpt_info_lem :
    (l : Linker) (s : Service) (out : List ℕ) (saddr : ℕ) (info : SymbolInfo)
    → checkpt_info l saddr (some info) (writing s out)
      ≡ ok tt (writing s (out ++ sym_bytes l saddr info))
unfolding checkpt_info sym_bytes
checkpt_info_lem l s out saddr info = elim (Bool-cases (saddr == find_saddr l info.sname)) [
  | inl e ↦ rw e (simp (checkpt_val_lem, checkpt_str_lem, append_assoc))
  | inr e ↦ rw e (simp (checkpt_val_lem, append_assoc))
]

pub checkpt_sym_lem :
    (l : Linker) (s : Service) (out : List ℕ) (saddr : ℕ) (info : SymbolInfo)
    → IsSymbol l saddr info
    → checkpt_sym l saddr (writing s out) ≡ ok tt (writing s (out ++ sym_bytes l saddr info))
unfolding checkpt_sym
checkpt_sym_lem l s out saddr info v =
    let e : (saddr == 0) ≡ false = ground (arith, v.ne_null) in
    rw (e, v.known) (checkpt_info_lem l s out saddr info)

pub checkpt_sym-null :
    (l : Linker) (s : Service) (out : List ℕ)
    → checkpt_sym l 0 (writing s out) ≡ ok tt (writing s (out ++ to_bytes 8 null_sym))
unfolding checkpt_sym
checkpt_sym-null l s out = checkpt_val_lem s out null_sym

restore_string_lem :
    (l : Linker) (t : Service) (rest : List ℕ) (info : SymbolInfo)
    → IsString info.sname
    → IsString info.fname
    → find_saddr l info.sname ≢ 0
    → restore_string l (reading t (str_bytes info.sname ++ (str_bytes info.fname ++ rest)))
      ≡ ok (find_saddr l info.sname) (reading t rest)
unfolding restore_string
restore_string_lem l t rest info hs hf nz =
    rw
      (
        restore_str_lem t (str_bytes info.fname ++ rest) info.sname hs,
        restore_str_lem t rest info.fname hf,
      )
      (ground arith)

-- A symbol that was written by its names is restored as the address that the restoring program's
-- linker finds for the first name.
restore_sym-string :
    (l : Linker) (t : Service) (rest : List ℕ) (info : SymbolInfo)
    → IsString info.sname
    → IsString info.fname
    → find_saddr l info.sname ≢ 0
    → restore_sym l (
        reading t
          ((to_bytes 8 string_sym ++ (str_bytes info.sname ++ str_bytes info.fname)) ++ rest))
      ≡ ok (find_saddr l info.sname) (reading t rest)
unfolding restore_sym
restore_sym-string l t rest info hs hf nz =
    rw (append_assoc, append_assoc, restore_val_lem t _ string_sym (omega arith))
      (restore_string_lem l t rest info hs hf nz)

restore_address_lem :
    (l : Linker) (t : Service) (rest : List ℕ) (saddr : ℕ) (info : SymbolInfo)
    → l.dladdr saddr ≡ some info
    → saddr < 2 ^ 64
    → restore_sym l (reading t ((to_bytes 8 address_sym ++ to_bytes 8 saddr) ++ rest))
      ≡ ok saddr (reading t rest)
unfolding restore_sym restore_address
restore_address_lem l t rest saddr info e h =
    rw
      (
        append_assoc,
        restore_val_lem t _ address_sym (omega arith),
        restore_val_lem t rest saddr h,
        e,
      )
      refl

pub restore_sym_lem :
    (l : Linker) (t : Service) (rest : List ℕ) (saddr : ℕ) (info : SymbolInfo)
    → IsSymbol l saddr info
    → restore_sym l (reading t (sym_bytes l saddr info ++ rest)) ≡ ok saddr (reading t rest)
unfolding sym_bytes
restore_sym_lem l t rest saddr info v = elim (Bool-cases (saddr == find_saddr l info.sname)) [
  | inl e ↦
      let same : find_saddr l info.sname ≡ saddr = ground arith in
      rw e (
        restore_sym-string l t rest info v.sname_ok v.fname_ok (rw same v.ne_null)
        ∙ ap (λ p. ok p (reading t rest)) same)
  | inr e ↦ rw e (restore_address_lem l t rest saddr info v.known v.small)
]

pub restore_sym-null :
    (l : Linker) (t : Service) (rest : List ℕ)
    → restore_sym l (reading t (to_bytes 8 null_sym ++ rest)) ≡ ok 0 (reading t rest)
unfolding restore_sym
restore_sym-null l t rest = rw (restore_val_lem t rest null_sym (omega arith)) refl

-- The linker can say what stands at the address, or the address is NULL.
abbrev pub Known : Linker → ℕ → Type 0
Known l saddr = (saddr ≡ 0) ⊎ ((info : SymbolInfo) × IsSymbol l saddr info)

-- What `checkpt_sym` writes for a known address.
unfoldable pub symbol_bytes : Linker → ℕ → List ℕ
symbol_bytes l saddr =
    if saddr == 0
    then to_bytes 8 null_sym
    else elim (l.dladdr saddr) [ none ↦ to_bytes 8 null_sym | some info ↦ sym_bytes l saddr info ]

symbol_bytes_lem :
    (l : Linker) (saddr : ℕ) (info : SymbolInfo)
    → IsSymbol l saddr info
    → symbol_bytes l saddr ≡ sym_bytes l saddr info
unfolding symbol_bytes
symbol_bytes_lem l saddr info v =
    let e : (saddr == 0) ≡ false = ground (arith, v.ne_null) in rw (e, v.known) refl

pub checkpt_sym-Known :
    (l : Linker) (s : Service) (out : List ℕ) (saddr : ℕ)
    → Known l saddr
    → checkpt_sym l saddr (writing s out) ≡ ok tt (writing s (out ++ symbol_bytes l saddr))
unfolding symbol_bytes
checkpt_sym-Known l s out saddr (inl z) = rw z (checkpt_sym-null l s out)
checkpt_sym-Known l s out saddr (inr (info, v)) =
    checkpt_sym_lem l s out saddr info v
    ∙ ap (λ b. ok tt (writing s (out ++ b))) (sym (symbol_bytes_lem l saddr info v))

pub restore_sym-Known :
    (l : Linker) (t : Service) (rest : List ℕ) (saddr : ℕ)
    → Known l saddr
    → restore_sym l (reading t (symbol_bytes l saddr ++ rest)) ≡ ok saddr (reading t rest)
unfolding symbol_bytes
restore_sym-Known l t rest saddr (inl z) = rw z (restore_sym-null l t rest)
restore_sym-Known l t rest saddr (inr (info, v)) =
    rw (symbol_bytes_lem l saddr info v) (restore_sym_lem l t rest saddr info v)

-- Under one linker, a known symbol is restored as it was saved, by its names or by its address,
-- and so is NULL.
pub restore_sym-checkpt_sym :
    (l : Linker) (s t : Service) (out rest : List ℕ) (saddr : ℕ)
    → Known l saddr
    → (bytes : List ℕ) × (checkpt_sym l saddr (writing s out) ≡ ok tt (writing s (out ++ bytes)))
      × (restore_sym l (reading t (bytes ++ rest)) ≡ ok saddr (reading t rest))
restore_sym-checkpt_sym l s t out rest saddr k =
    (symbol_bytes l saddr, checkpt_sym-Known l s out saddr k, restore_sym-Known l t rest saddr k)
