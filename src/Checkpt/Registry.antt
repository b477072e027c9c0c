-- ===== src/Checkpt/Registry.antt =====
-- Booting, and the registry of objects: a list in the order of registration.
pub mod Valid
use vpic.Prelude.{
  ℕ, ◌+◌, ◌%◌, ◌^◌, Bool, true, false, not, Option, none, some, List, [], ◌∷◌, ◌++◌, ◌==◌,
  if◌then◌else◌, is_some,
}
use vpic.Checkpt.Service.{
  Node, ok, M, ◌>>=◌, ◌>>◌, error_if, get, put, check_idle, already_booted, not_booted,
  still_registered, writing, reading, null_object, already_registered, not_registered,
}

unfoldable pub boot_checkpt : M (Unit {0})
boot_checkpt s =
    (do
      error_if s.booted already_booted
      put (record { booted = true; checkpt = none; restore = none; registry = []; next_id = 1 }))
      s

abbrev is_nil {ℓ} : {A : Type ℓ} → List A → Bool
is_nil [] = true
is_nil (x ∷ xs) = false

unfoldable pub halt_checkpt : M (Unit {0})
halt_checkpt s =
    (do
      error_if (not s.booted) not_booted
      error_if (not (is_nil s.registry)) still_registered
      error_if (is_some s.checkpt) writing
      error_if (is_some s.restore) reading
      put (record s { booted = false }))
      s

-- `for( node=registry; node; node=node->next ) if( node->obj==obj ) break;`
unfoldable pub find_obj : List Node → ℕ → Option Node
find_obj [] obj = none
find_obj (n ∷ r) obj = if n.obj == obj then some n else find_obj r obj

unfoldable pub find_id : List Node → ℕ → Option Node
find_id [] id = none
find_id (n ∷ r) id = if n.id == id then some n else find_id r id

-- `node ? node->id : 0` and `node ? node->obj : NULL`
abbrev pub id_of : Option Node → ℕ
id_of none = 0
id_of (some n) = n.id

abbrev pub obj_of : Option Node → ℕ
obj_of none = 0
obj_of (some n) = n.obj

unfoldable pub object_id : ℕ → M ℕ
object_id obj s =
    (do error_if (not s.booted) not_booted; λ t. ok (id_of (find_obj t.registry obj)) t) s

unfoldable pub object_ptr : ℕ → M ℕ
object_ptr id s =
    (do error_if (not s.booted) not_booted; λ t. ok (obj_of (find_id t.registry id)) t) s

-- The three addresses are those of the functions of the object, or NULL. `next_id` is a `size_t`.
unfoldable pub register_object : ℕ → ℕ → ℕ → ℕ → M (Unit {0})
register_object obj checkpt_func restore_func reanimate_func = do
  check_idle
  error_if (obj == 0) null_object
  s ← get
  error_if (is_some (find_obj s.registry obj)) already_registered
  put (record s {
    registry =
        s.registry
        ++ (record {
          obj = obj;
          checkpt_func = checkpt_func;
          restore_func = restore_func;
          reanimate_func = reanimate_func;
          id = s.next_id;
        }
            ∷ []);
    next_id = (s.next_id + 1) % 2 ^ 64;
  })

-- The list without its first entry for `obj`.
unfoldable pub remove_obj : List Node → ℕ → List Node
remove_obj [] obj = []
remove_obj (n ∷ r) obj = if n.obj == obj then r else n ∷ remove_obj r obj

unfoldable pub unregister_object : ℕ → M (Unit {0})
unregister_object obj = do
  check_idle
  s ← get
  error_if (not (is_some (find_obj s.registry obj))) not_registered
  put (record s { registry = remove_obj s.registry obj })
