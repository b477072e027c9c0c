-- ===== src/Checkpt/Objects/Nodes.antt =====
-- One object of a checkpoint: what is written for it, and what a restore makes of that.
use mathlib.Core.List.{append_assoc}
use vpic.Prelude.{
  ℕ, ◌^◌, ◌≤◌, ◌<◌, ◌≡◌, refl, ap, ◌∙◌, true, none, some, List, [], ◌∷◌, ◌++◌, arith, length,
  length-append,
}
use vpic.Checkpt.Service.{Node, Service, ok, and_then}
use vpic.Checkpt.Stream.{to_bytes, checkpt_raw}
use vpic.Checkpt.Stream.Laws.{
  writing, reading, checkpt_raw_lem, restore_raw_lem, checkpt_val_lem, of_bytes-to_bytes,
  length-to_bytes,
}
use vpic.Checkpt.Items.Symbols.{Known, symbol_bytes, checkpt_sym-Known, restore_sym-Known}
use vpic.Checkpt.Objects.{
  Process, object_header, node_bytes, member, call_checkpt, checkpt_node, restore_node,
  call_restore, set_last_obj, restore_object,
}

-- A node of the saved registry, the bytes that its own functions write and read, and its object in
-- the restored program.
pub record Saved : Type 0 where
  pub node : Node
  pub bytes : List ℕ
  pub obj : ℕ

abbrev pub saved_node : Saved → Node
saved_node x = x.node

abbrev pub restored_node : Saved → Node
restored_node x = record x.node { obj = x.obj }

-- `t` in the middle of a restore with the registry `r`.
abbrev pub with_registry : Service → List Node → Service
with_registry t r = record t { registry = r }

set_last_obj-append :
    (r : List Node) (n : Node) (obj : ℕ)
    → set_last_obj (r ++ (n ∷ [])) obj ≡ r ++ (record n { obj = obj } ∷ [])
unfolding set_last_obj
set_last_obj-append [] n obj = refl
set_last_obj-append (m ∷ []) n obj = refl
set_last_obj-append (m ∷ k ∷ r) n obj = ap (λ l. m ∷ l) (set_last_obj-append (k ∷ r) n obj)

-- A booted service that neither writes nor reads.
abbrev pub idle : List Node → ℕ → Service
idle r next_id = record {
  booted = true;
  checkpt = none;
  restore = none;
  registry = r;
  next_id = next_id;
}

module _ (p : Process) where
  -- The object's functions are known symbols. Its checkpoint function writes `bytes`, and its
  -- restore function takes them off again, once the objects before it are restored.
  pub record Restores (s t : Service) (done : List Node) (x : Saved) : Type 0 where
    pub written :
        (out : List ℕ) → call_checkpt p x.node (writing s out) ≡ ok tt (writing s (out ++ x.bytes))
    pub read :
        (rest : List ℕ)
        → call_restore p x.node
            (reading (with_registry t (done ++ (x.node ∷ []))) (x.bytes ++ rest))
          ≡ ok x.obj (reading (with_registry t (done ++ (x.node ∷ []))) rest)
    pub checkpt_known : Known p.linker x.node.checkpt_func
    pub restore_known : Known p.linker x.node.restore_func
    pub reanimate_known : Known p.linker x.node.reanimate_func
    pub obj_small : x.node.obj < 2 ^ 64
    pub id_small : x.node.id < 2 ^ 64

  abbrev pub AllRestore : Service → Service → List Node → List Saved → Type 0
  AllRestore s t done [] = Unit
  AllRestore s t done (x ∷ xs) =
      Restores s t done x × AllRestore s t (done ++ (restored_node x ∷ [])) xs

  pub saved_bytes : Saved → List Node → List ℕ
  saved_bytes x r =
      to_bytes 8 object_header
      ++ (node_bytes x.node (p.address r)
          ++ (symbol_bytes p.linker x.node.checkpt_func
              ++ (symbol_bytes p.linker x.node.restore_func
                  ++ (symbol_bytes p.linker x.node.reanimate_func ++ x.bytes))))

  take-node_bytes : (n : Node) (next : ℕ) → length (node_bytes n next) ≡ 48
  unfolding node_bytes to_bytes
  take-node_bytes n next = refl

  checkpt_raw-node :
      (s : Service) (out : List ℕ) (n : Node) (next : ℕ)
      → checkpt_raw (some (node_bytes n next)) 48 (writing s out)
        ≡ ok tt (writing s (out ++ node_bytes n next))
  unfolding node_bytes to_bytes
  checkpt_raw-node s out n next = checkpt_raw_lem s out (node_bytes n next) 48

  pub checkpt_node_lem :
      (s t : Service) (done : List Node) (out : List ℕ) (x : Saved) (r : List Node)
      → Restores s t done x
      → checkpt_node p x.node r (writing s out) ≡ ok tt (writing s (out ++ saved_bytes x r))
  unfolding checkpt_node saved_bytes
  checkpt_node_lem s t done out x r v =
      rw
        (
          checkpt_val_lem s out object_header,
          checkpt_raw-node s _ x.node (p.address r),
          checkpt_sym-Known p.linker s _ x.node.checkpt_func v.checkpt_known,
          checkpt_sym-Known p.linker s _ x.node.restore_func v.restore_known,
          checkpt_sym-Known p.linker s _ x.node.reanimate_func v.reanimate_known,
          v.written _,
        )
        (simp append_assoc)

  member-obj : (n : Node) (next : ℕ) → n.obj < 2 ^ 64 → member 0 (node_bytes n next) ≡ n.obj
  unfolding node_bytes to_bytes
  member-obj n next h = of_bytes-to_bytes n.obj h

  member-id : (n : Node) (next : ℕ) → n.id < 2 ^ 64 → member 32 (node_bytes n next) ≡ n.id
  unfolding node_bytes to_bytes
  member-id n next h = of_bytes-to_bytes n.id h

  -- The part of `saved_bytes` behind the header.
  pub node_part : Saved → List Node → List ℕ
  node_part x r =
      node_bytes x.node (p.address r)
      ++ (symbol_bytes p.linker x.node.checkpt_func
          ++ (symbol_bytes p.linker x.node.restore_func
              ++ symbol_bytes p.linker x.node.reanimate_func))

  restore_node_lem :
      (s t u : Service) (done : List Node) (rest : List ℕ) (x : Saved) (r : List Node)
      → Restores s t done x
      → restore_node p (reading u (node_part x r ++ rest)) ≡ ok x.node (reading u rest)
  unfolding restore_node node_part
  restore_node_lem s t u done rest x r v = simp append_assoc (
      rw
        (
          restore_raw_lem u (node_bytes x.node (p.address r)) _ 48
              (take-node_bytes x.node (p.address r)),
          restore_sym-Known p.linker u _ x.node.checkpt_func v.checkpt_known,
          restore_sym-Known p.linker u _ x.node.restore_func v.restore_known,
          restore_sym-Known p.linker u _ x.node.reanimate_func v.reanimate_known,
          member-obj x.node (p.address r) v.obj_small,
          member-id x.node (p.address r) v.id_small,
        )
        refl)

  pub restore_object_lem :
      (s t : Service) (done : List Node) (rest : List ℕ) (x : Saved) (r : List Node)
      → Restores s t done x
      → restore_object p (reading (with_registry t done) (node_part x r ++ (x.bytes ++ rest)))
        ≡ ok tt (reading (with_registry t (done ++ (restored_node x ∷ []))) rest)
  unfolding restore_object reading
  restore_object_lem s t done rest x r v =
      rw (restore_node_lem s t (with_registry t done) done (x.bytes ++ rest) x r v) (
        ap (λ m. and_then m (λ obj u. ok tt (record u { registry = set_last_obj u.registry obj })))
          (v.read rest)
        ∙ ap (λ q. ok tt (reading (with_registry t q) rest))
            (set_last_obj-append done x.node x.obj))

  pub saved_bytes-node_part :
      (x : Saved) (r : List Node) (rest : List ℕ)
      → saved_bytes x r ++ rest ≡ to_bytes 8 object_header ++ (node_part x r ++ (x.bytes ++ rest))
  unfolding saved_bytes node_part
  saved_bytes-node_part x r rest = simp append_assoc

  pub length-saved_bytes : (x : Saved) (r : List Node) → 8 ≤ length (saved_bytes x r)
  unfolding saved_bytes
  length-saved_bytes x r =
      let tail =
        node_bytes x.node (p.address r)
        ++ (symbol_bytes p.linker x.node.checkpt_func
            ++ (symbol_bytes p.linker x.node.restore_func
                ++ (symbol_bytes p.linker x.node.reanimate_func ++ x.bytes))) in
      omega (arith, length-append (to_bytes 8 object_header) tail, length-to_bytes 8 object_header)
