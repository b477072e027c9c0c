-- ===== src/Checkpt/Objects.antt =====
-- `checkpt_objects`, `restore_objects` and `reanimate_objects` of src/util/checkpt/checkpt.cc.
pub mod Nodes
pub mod RoundTrip
pub mod Relocation
use vpic.Prelude.{
  ℕ, zero, suc, ◌+◌, Bool, true, false, not, Option, none, some, List, [], ◌∷◌, ◌++◌, ◌==◌,
  if◌then◌else◌, length, take, drop,
}
use vpic.Checkpt.Service.{
  Node, Service, ok, err, M, ◌>>=◌, ◌>>◌, and_then, pure, error_if, get, put, check_idle,
  cannot_open, malformed, out_of_fuel, not_writing,
}
use vpic.Checkpt.Stream.{checkpt_raw, restore_raw, checkpt_val, restore_val, to_bytes, of_bytes}
use vpic.Checkpt.Items.Symbols.{Linker, checkpt_sym, restore_sym}

-- The program around the service: its linker, its functions by their addresses, and the address of
-- the first node of a list of nodes, as `malloc` placed it.
pub record Process : Type 0 where
  pub linker : Linker
  pub checkpt_func : ℕ → ℕ → M (Unit {0})
  pub restore_func : ℕ → M ℕ
  pub reanimate_func : ℕ → ℕ → M (Unit {0})
  pub address : List Node → ℕ

abbrev pub object_header : ℕ
object_header = 0x600DF00D

abbrev pub end_header : ℕ
end_header = 0xBADF00D

-- The 48 bytes of a `registry_t`: `obj`, the three functions, `id`, `next`.
unfoldable pub node_bytes : Node → ℕ → List ℕ
node_bytes n next =
    to_bytes 8 n.obj
    ++ (to_bytes 8 n.checkpt_func
        ++ (to_bytes 8 n.restore_func
            ++ (to_bytes 8 n.reanimate_func ++ (to_bytes 8 n.id ++ to_bytes 8 next))))

-- A member of a `registry_t` in memory.
abbrev pub member : ℕ → List ℕ → ℕ
member offset bytes = of_bytes (take 8 (drop offset bytes))

-- The node at the end of the list gets its object.
unfoldable pub set_last_obj : List Node → ℕ → List Node
set_last_obj [] obj = []
set_last_obj (n ∷ []) obj = record n { obj = obj } ∷ []
set_last_obj (n ∷ m ∷ r) obj = n ∷ set_last_obj (m ∷ r) obj

module _ (p : Process) where
  -- `if( node->checkpt_func ) node->checkpt_func( node->obj );`
  unfoldable pub call_checkpt : Node → M (Unit {0})
  call_checkpt n = if n.checkpt_func == 0 then pure tt else p.checkpt_func n.checkpt_func n.obj

  unfoldable pub checkpt_node : Node → List Node → M (Unit {0})
  checkpt_node n r = do
    checkpt_val object_header
    checkpt_raw (some (node_bytes n (p.address r))) 48
    checkpt_sym p.linker n.checkpt_func
    checkpt_sym p.linker n.restore_func
    checkpt_sym p.linker n.reanimate_func
    call_checkpt n

  unfoldable pub checkpt_nodes : List Node → M (Unit {0})
  checkpt_nodes [] s = ok tt s
  checkpt_nodes (n ∷ r) s = and_then (checkpt_node n r s) (λ _. checkpt_nodes r)

  -- `checkpt_close( checkpt ); checkpt = NULL;`: what the file holds then.
  unfoldable pub close_written : Option (List ℕ) → M (List ℕ)
  close_written none s = err not_writing
  close_written (some out) s = ok out (record s { checkpt = none })

  -- From the header of the file to its end, the stream being open.
  unfoldable pub write_all : Service → M (List ℕ)
  write_all s = do
    checkpt_val s.next_id
    checkpt_nodes s.registry
    checkpt_val end_header
    λ t. close_written t.checkpt t

  -- `can_open` says whether `checkpt_open_wronly( name )` succeeds; the result is what the file
  -- of that name holds in the end.
  unfoldable pub checkpt_objects : Bool → M (List ℕ)
  checkpt_objects can_open = do
    check_idle
    error_if (not can_open) cannot_open
    s ← get
    put (record s { checkpt = some [] })
    write_all s

  -- The node of an object header, without the call of its `restore_func`: `obj` is the address
  -- that the object had in the saved program.
  unfoldable pub restore_node : M Node
  restore_node = do
    raw ← restore_raw true 48
    checkpt_func ← restore_sym p.linker
    restore_func ← restore_sym p.linker
    reanimate_func ← restore_sym p.linker
    pure (record {
      obj = member 0 raw;
      checkpt_func = checkpt_func;
      restore_func = restore_func;
      reanimate_func = reanimate_func;
      id = member 32 raw;
    })

  -- `if( node->restore_func ) node->obj = node->restore_func();`: the call sees the node already
  -- in the registry, with its old address.
  unfoldable pub call_restore : Node → M ℕ
  call_restore n = if n.restore_func == 0 then pure n.obj else p.restore_func n.restore_func

  unfoldable pub restore_object : M (Unit {0})
  restore_object = do
    n ← restore_node
    s ← get
    put (record s { registry = s.registry ++ (n ∷ []) })
    obj ← call_restore n
    t ← get
    put (record t { registry = set_last_obj t.registry obj })

  -- `for(;;)`: each round takes an object's header off the stream, so that as many rounds as there
  -- are bytes are enough.
  unfoldable pub restore_loop : ℕ → M (Unit {0})
  restore_loop zero s = err out_of_fuel
  restore_loop (suc fuel) s = and_then (restore_val s) λ prefix t. elim (prefix == end_header) [
    | true ↦ ok tt t
    | false ↦
        and_then (error_if (not (prefix == object_header)) malformed t)
          λ _ u. and_then (restore_object u) (λ _. restore_loop fuel)
  ]

  -- From the header of the file to its end, with the rounds that the loop is given.
  unfoldable pub read_all : ℕ → M (Unit {0})
  read_all fuel = do
    next_id ← restore_val
    t ← get
    put (record t { next_id = next_id })
    restore_loop fuel
    u ← get
    put (record u { restore = none })

  -- `none` where `checkpt_open_rdonly( name )` fails, else what the file holds. All nodes of
  -- before are dropped.
  unfoldable pub restore_objects : Option (List ℕ) → M (Unit {0})
  restore_objects none = do check_idle; λ s. err cannot_open
  restore_objects (some content) = do
    check_idle
    s ← get
    put (record s { registry = []; next_id = 0; restore = some content })
    read_all (length content)

  unfoldable pub reanimate_nodes : List Node → M (Unit {0})
  reanimate_nodes [] s = ok tt s
  reanimate_nodes (n ∷ r) s =
      and_then
        ((if n.reanimate_func == 0 then pure tt else p.reanimate_func n.reanimate_func n.obj) s)
        (λ _. reanimate_nodes r)

  unfoldable pub reanimate_objects : M (Unit {0})
  reanimate_objects = do check_idle; s ← get; reanimate_nodes s.registry
