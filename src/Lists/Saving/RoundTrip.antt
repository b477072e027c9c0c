-- ===== src/Lists/Saving/RoundTrip.antt =====
-- What is saved of a collision operator, a particle boundary condition or an emitter is restored.
use mathlib.Core.List.{append_assoc}
use vpic.Prelude.{[], ◌∷◌, ap, ℕ, ◌^◌, ◌<◌, ◌≡◌, refl, true, List, ◌++◌, arith, length, get_elem?}
use vpic.Checkpt.Service.{Service, ok}
use vpic.Checkpt.Stream.Laws.{writing, reading}
use vpic.Checkpt.Registry.Valid.{IsValid}
use vpic.Checkpt.Items.Data.{set_pointer, Block, is_alignment}
use vpic.Checkpt.Items.Symbols.{Linker, Known, symbol_bytes, checkpt_sym-Known, restore_sym-Known}
use vpic.Checkpt.Items.Pointers.{Relocates, checkpt_restore_ptr_lem}
use vpic.Lists.Saving.{
  checkpt_collision_op_internal, restore_collision_op_internal, checkpt_particle_bc_internal,
  restore_particle_bc_internal,
}
use vpic.Lists.Saving.Structure.{with_pointers, whole_lem}

module _ (l : Linker) (s t : Service) (func delete_func next next' : ℕ) (valid : IsValid s)
    (booted : s.booted ≡ true) (small : s.next_id < 2 ^ 64) (known : Known l func)
    (known' : Known l delete_func) (reloc : Relocates s t next next') where
  -- A collision operator that is saved by one service and restored by another, with parameters
  -- restored before, has its functions, these parameters, and for the next operator the one that has its identifier in the registry of the restoring service.
  restore_collision_op_internal-checkpt_collision_op_internal :
      (out rest cop : List ℕ) (params : ℕ)
      → length cop ≡ 32
      → (bytes : List ℕ) × (b : Block) × (checkpt_collision_op_internal l cop func delete_func next
            (writing s out)
          ≡ ok tt (writing s (out ++ bytes)))
        × (restore_collision_op_internal l params (reading t (bytes ++ rest))
            ≡ ok
                (record {
                  block = b;
                  params = params;
                  func = func;
                  delete_func = delete_func;
                  next = next';
                })
                (reading t rest))
        × (b.byte
            ≡ with_pointers
                ((0, params) ∷ (8, func) ∷ (16, delete_func) ∷ (24, next') ∷ [])
                (get_elem? cop))
  unfolding set_pointer checkpt_collision_op_internal restore_collision_op_internal is_alignment
  restore_collision_op_internal-checkpt_collision_op_internal out rest cop params size =
      let (w, b, write, read, size_b, same) =
        whole_lem cop 32 0 size (omega arith) (omega arith) refl in
      let (p, write_p, read_p) = checkpt_restore_ptr_lem s t next next' valid booted small reloc in
      (
        w ++ (symbol_bytes l func ++ (symbol_bytes l delete_func ++ p)),
        set_pointer (set_pointer (set_pointer (set_pointer b 0 params) 8 func) 16 delete_func) 24
            next',
        rw
            (
              write s out,
              checkpt_sym-Known l s _ func known,
              checkpt_sym-Known l s _ delete_func known',
              write_p _,
            )
            (simp append_assoc),
        simp append_assoc (
            rw
              (
                read t _,
                restore_sym-Known l t _ func known,
                restore_sym-Known l t _ delete_func known',
                read_p _,
              )
              refl),
        ap (with_pointers ((0, params) ∷ (8, func) ∷ (16, delete_func) ∷ (24, next') ∷ [])) same,
      )

  -- A particle boundary condition that is saved by one service and restored by another, with
  -- parameters restored before, has its functions, these parameters, and for the next
  -- condition the one that has its identifier in the registry of the restoring service.
  restore_particle_bc_internal-checkpt_particle_bc_internal :
      (out rest pbc : List ℕ) (params : ℕ)
      → length pbc ≡ 40
      → (bytes : List ℕ) × (b : Block) × (checkpt_particle_bc_internal l pbc func delete_func next
            (writing s out)
          ≡ ok tt (writing s (out ++ bytes)))
        × (restore_particle_bc_internal l params (reading t (bytes ++ rest))
            ≡ ok
                (record {
                  block = b;
                  params = params;
                  func = func;
                  delete_func = delete_func;
                  next = next';
                })
                (reading t rest))
        × (b.byte
            ≡ with_pointers
                ((0, params) ∷ (8, func) ∷ (16, delete_func) ∷ (32, next') ∷ [])
                (get_elem? pbc))
  unfolding set_pointer checkpt_particle_bc_internal restore_particle_bc_internal is_alignment
  restore_particle_bc_internal-checkpt_particle_bc_internal out rest pbc params size =
      let (w, b, write, read, size_b, same) =
        whole_lem pbc 40 0 size (omega arith) (omega arith) refl in
      let (p, write_p, read_p) = checkpt_restore_ptr_lem s t next next' valid booted small reloc in
      (
        w ++ (symbol_bytes l func ++ (symbol_bytes l delete_func ++ p)),
        set_pointer (set_pointer (set_pointer (set_pointer b 0 params) 8 func) 16 delete_func) 32
            next',
        rw
            (
              write s out,
              checkpt_sym-Known l s _ func known,
              checkpt_sym-Known l s _ delete_func known',
              write_p _,
            )
            (simp append_assoc),
        simp append_assoc (
            rw
              (
                read t _,
                restore_sym-Known l t _ func known,
                restore_sym-Known l t _ delete_func known',
                read_p _,
              )
              refl),
        ap (with_pointers ((0, params) ∷ (8, func) ∷ (16, delete_func) ∷ (32, next') ∷ [])) same,
      )
