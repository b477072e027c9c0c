-- ===== src/Checkpt/Objects/RoundTrip.antt =====
-- A checkpoint of all objects, read back by a restore: the registry comes back in its order, each
-- node with its identifier and functions, and with the object that its restore function made.
use mathlib.Core.List.{append_assoc, append-nil}
use vpic.Prelude.{
  ℕ, zero, suc, ◌^◌, ◌≤◌, ◌<◌, ◌≡◌, refl, sym, ap, ◌∙◌, true, none, some, List, [], ◌∷◌, ◌++◌, map,
  arith, length, length-append,
}
use vpic.Checkpt.Service.{Node, Service, Run, ok, and_then, check_idle}
use vpic.Checkpt.Stream.{to_bytes}
use vpic.Checkpt.Stream.Laws.{writing, reading, checkpt_val_lem, restore_val_lem, length-to_bytes}
use vpic.Checkpt.Objects.{
  Process, object_header, end_header, checkpt_nodes, close_written, checkpt_objects, restore_loop,
  restore_objects, write_all, read_all,
}
use vpic.Checkpt.Objects.Nodes.{
  Saved, saved_node, restored_node, with_registry, idle, AllRestore, saved_bytes, node_part,
  checkpt_node_lem, restore_object_lem, saved_bytes-node_part, length-saved_bytes,
}

module _ (p : Process) where
  all_bytes : List Saved → List ℕ
  all_bytes [] = []
  all_bytes (x ∷ xs) = saved_bytes p x (map saved_node xs) ++ all_bytes xs

  checkpt_nodes_lem :
      (s t : Service) (done : List Node) (out : List ℕ) (xs : List Saved)
      → AllRestore p s t done xs
      → checkpt_nodes p (map saved_node xs) (writing s out)
        ≡ ok tt (writing s (out ++ all_bytes xs))
  unfolding checkpt_nodes all_bytes
  checkpt_nodes_lem s t done out [] v = ap (λ l. ok tt (writing s l)) (sym (append-nil out))
  checkpt_nodes_lem s t done out (x ∷ xs) v =
      rw
        (
          checkpt_node_lem p s t done out x (map saved_node xs) v.0,
          checkpt_nodes_lem s t (done ++ (restored_node x ∷ []))
              (out ++ saved_bytes p x (map saved_node xs)) xs v.1,
        )
        (simp append_assoc)

  -- The loop restores the objects one after the other and ends at the mark behind them.
  restore_loop_lem :
      (s t : Service) (done : List Node) (rest : List ℕ) (xs : List Saved) (fuel : ℕ)
      → AllRestore p s t done xs
      → length xs < fuel
      → restore_loop p fuel
          (reading (with_registry t done) (all_bytes xs ++ (to_bytes 8 end_header ++ rest)))
        ≡ ok tt (reading (with_registry t (done ++ map restored_node xs)) rest)
  unfolding restore_loop all_bytes
  restore_loop_lem s t done rest xs zero v h = absurd (omega arith)
  restore_loop_lem s t done rest [] (suc fuel) v h =
      rw (restore_val_lem (with_registry t done) rest end_header (omega arith))
        (ap (λ q. ok tt (reading (with_registry t q) rest)) (sym (append-nil done)))
  restore_loop_lem s t done rest (x ∷ xs) (suc fuel) v h =
      let after = all_bytes xs ++ (to_bytes 8 end_header ++ rest) in
      let r = map saved_node xs in
      rw
        (
          append_assoc (saved_bytes p x r) (all_bytes xs) (to_bytes 8 end_header ++ rest),
          saved_bytes-node_part p x r after,
          restore_val_lem (with_registry t done) (node_part p x r ++ (x.bytes ++ after))
              object_header (omega arith),
          restore_object_lem p s t done after x r v.0,
        )
        (restore_loop_lem s t (done ++ (restored_node x ∷ [])) rest xs fuel v.1 (omega arith)
          ∙ ap (λ q. ok tt (reading (with_registry t q) rest))
              (append_assoc done (restored_node x ∷ []) (map restored_node xs)))

  length-all_bytes : (xs : List Saved) → length xs ≤ length (all_bytes xs)
  unfolding all_bytes
  length-all_bytes [] = omega arith
  length-all_bytes (x ∷ xs) = omega (
    arith,
    length-append (saved_bytes p x (map saved_node xs)) (all_bytes xs),
    length-saved_bytes p x (map saved_node xs),
    length-all_bytes xs,
  )

  -- What the file holds.
  content : ℕ → List Saved → List ℕ
  content next_id xs = to_bytes 8 next_id ++ (all_bytes xs ++ to_bytes 8 end_header)

  length-content : (next_id : ℕ) (xs : List Saved) → length xs < length (content next_id xs)
  unfolding content
  length-content next_id xs = omega (
    arith,
    length-append (to_bytes 8 next_id) (all_bytes xs ++ to_bytes 8 end_header),
    length-append (all_bytes xs) (to_bytes 8 end_header),
    length-to_bytes 8 next_id,
    length-all_bytes xs,
  )

  write_all_lem :
      (s t : Service) (out : List ℕ) (xs : List Saved)
      → s.registry ≡ map saved_node xs
      → AllRestore p s t [] xs
      → write_all p s (writing s out)
        ≡ ok (out ++ content s.next_id xs) (record s { booted = true; checkpt = none })
  unfolding write_all content close_written writing
  write_all_lem s t out xs e v =
      rw
        (
          checkpt_val_lem s out s.next_id,
          nodes (out ++ to_bytes 8 s.next_id),
          checkpt_val_lem s ((out ++ to_bytes 8 s.next_id) ++ all_bytes xs) end_header,
        )
        (simp append_assoc)
    where
      nodes :
          (o : List ℕ)
          → checkpt_nodes p s.registry (writing s o) ≡ ok tt (writing s (o ++ all_bytes xs))
      nodes o = ap (λ r. checkpt_nodes p r (writing s o)) e ∙ checkpt_nodes_lem s t [] o xs v

  read_all_lem :
      (s t : Service) (fuel next_id : ℕ) (xs : List Saved)
      → next_id < 2 ^ 64
      → length xs < fuel
      → AllRestore p s (record t { next_id = next_id }) [] xs
      → read_all p fuel (reading (with_registry t []) (content next_id xs))
        ≡ ok tt (record t {
          booted = true;
          registry = map restored_node xs;
          next_id = next_id;
          restore = none;
        })
  unfolding read_all reading content
  read_all_lem s t fuel next_id xs h enough v =
      rw (restore_val_lem (with_registry t []) (all_bytes xs ++ to_bytes 8 end_header) next_id h) (
        ap
          (λ l.
            restore_all
              (record t { next_id = next_id; registry = []; restore = some (all_bytes xs ++ l) }))
          (sym (append-nil (to_bytes 8 end_header)))
        ∙ ap (λ m. and_then m (λ _ u. ok tt (record u { restore = none })))
            (restore_loop_lem s (record t { next_id = next_id }) [] [] xs fuel v enough))
    where
      restore_all : Service → Run (Unit {0})
      restore_all u =
          and_then (restore_loop p fuel (record u { booted = true }))
            (λ _ w. ok tt (record w { restore = none }))

  -- All objects of a service that is idle are written to a file, and a restore of that file, by a
  -- service that is idle, gives back the registry: each node in its place with its identifier and
  -- functions, and with the object that its restore function made; the next identifier is the saved
  -- one, what was registered before is gone, and the writing service is left as it was. Each
  -- object's functions must restore what they save.
  pub restore_objects-checkpt_objects :
      (old : List Node) (next_id old_id : ℕ) (xs : List Saved)
      → next_id < 2 ^ 64
      → AllRestore p (idle (map saved_node xs) next_id) (idle [] next_id) [] xs
      → (file : List ℕ) × (checkpt_objects p true (idle (map saved_node xs) next_id)
          ≡ ok file (idle (map saved_node xs) next_id))
        × (restore_objects p (some file) (idle old old_id)
            ≡ ok tt (idle (map restored_node xs) next_id))
  unfolding checkpt_objects restore_objects writing reading check_idle
  restore_objects-checkpt_objects old next_id old_id xs h v =
      let s = idle (map saved_node xs) next_id in
      (
        content next_id xs,
        write_all_lem s (idle [] next_id) [] xs refl v,
        read_all_lem s (idle [] 0) (length (content next_id xs)) next_id xs h
            (omega (arith, length-content next_id xs)) v,
      )
