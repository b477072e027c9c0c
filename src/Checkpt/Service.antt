-- ===== src/Checkpt/Service.antt =====
-- The static variables of src/util/checkpt/checkpt.cc as one record, and the operations on it as
-- commands: a command gets the service, and returns a value with the new service or the error of
-- an `ERROR((…))`, which ends the program. Addresses are numbers, and 0 is NULL.
use vpic.Prelude.{ℕ, Bool, true, false, not, Option, List, is_some}

-- Where the program stops. `short_read` and `out_of_bounds` are no messages of the source: the
-- stream's read is not checked there, and what it leaves in memory is undefined.
pub data Error : Type 0 where
  already_booted not_booted still_registered writing reading : Error
  null_object already_registered not_registered : Error
  not_writing not_reading null_data bad_layout malformed bad_alignment : Error
  unregistered_pointer dangling_pointer unresolved_symbol no_symbol_info cannot_open : Error
  short_read out_of_fuel : Error

-- `registry_t`. The list's links are the order of the list.
pub record Node : Type 0 where
  pub obj : ℕ
  pub checkpt_func : ℕ
  pub restore_func : ℕ
  pub reanimate_func : ℕ
  pub id : ℕ

-- `checkpt` holds the bytes written to the open stream, `restore` those not yet read from it.
pub record Service : Type 0 where
  pub booted : Bool
  pub checkpt : Option (List ℕ)
  pub restore : Option (List ℕ)
  pub registry : List Node
  pub next_id : ℕ

pub data Run {ℓ} (A : Type ℓ) : Type ℓ where
  ok : A → Service → Run A
  err : Error → Run A

abbrev pub M {ℓ} : Type ℓ → Type ℓ
M A = Service → Run A

module _ {ℓ κ} {A : Type ℓ} {B : Type κ} where
  abbrev pub and_then : Run A → (A → M B) → Run B
  and_then (ok a s) k = k a s
  and_then (err e) k = err e

  infixl 5 ◌>>=◌
  abbrev pub ◌>>=◌ : M A → (A → M B) → M B
  ◌>>=◌ m k s = and_then (m s) k

infixl 5 ◌>>◌
abbrev pub ◌>>◌ {ℓ} : {B : Type ℓ} → M (Unit {0}) → M B → M B
◌>>◌ m k s = and_then (m s) (λ _. k)

abbrev pub pure {ℓ} : {A : Type ℓ} → A → M A
pure a s = ok a s

abbrev pub get : M Service
get s = ok s s

abbrev pub put : Service → M (Unit {0})
put s' s = ok tt s'

-- `if( b ) ERROR((…));`
abbrev pub error_if : Bool → Error → M (Unit {0})
error_if true e s = err e
error_if false e s = ok tt s

-- `if( !booted ) … if( checkpt ) … if( restore ) …`, the first lines of most operations
unfoldable pub check_idle : M (Unit {0})
check_idle s =
    (do
      error_if (not s.booted) not_booted
      error_if (is_some s.checkpt) writing
      error_if (is_some s.restore) reading)
      s
