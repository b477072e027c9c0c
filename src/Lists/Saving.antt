-- ===== src/Lists/Saving.antt =====
-- The checkpoint and the restore of what has functions of its own: a collision operator, a particle
-- boundary condition and an emitter, in src/collision/collision.cc, src/boundary/boundary.cc and
-- src/emitter/emitter.cc. A structure is saved as its bytes of memory.
pub mod Structure
pub mod RoundTrip
use mathlib.Core.List.{append_assoc}
use vpic.Prelude.{
  ℕ, ◌+◌, ◌*◌, ◌^◌, ◌<◌, ◌≡◌, refl, true, some, List, ◌++◌, arith, length, get_elem?,
}
use vpic.Checkpt.Service.{Service, ok, M, ◌>>=◌, ◌>>◌, pure}
use vpic.Checkpt.Stream.Laws.{writing, reading}
use vpic.Checkpt.Registry.Valid.{IsValid}
use vpic.Checkpt.Items.Data.{set_pointer, Block, checkpt_data, restore_data, is_alignment}
use vpic.Checkpt.Items.Symbols.{
  Linker, Known, symbol_bytes, checkpt_sym, restore_sym, checkpt_sym-Known, restore_sym-Known,
}
use vpic.Checkpt.Items.Pointers.{checkpt_ptr, restore_ptr, Relocates, checkpt_restore_ptr_lem}

-- `collision_op_t` has 32 bytes, `particle_bc_t` 40 and `emitter_t` 48, where a pointer has 8.
abbrev pub sizeof_collision_op : ℕ
sizeof_collision_op = 32

abbrev pub sizeof_particle_bc : ℕ
sizeof_particle_bc = 40

abbrev pub sizeof_emitter : ℕ
sizeof_emitter = 48

-- A structure that was restored: its memory, and what its members are set to.
pub record Restored : Type 0 where
  pub block : Block
  pub params : ℕ
  pub func : ℕ
  pub delete_func : ℕ
  pub next : ℕ

module _ (l : Linker) where
  unfoldable pub checkpt_collision_op_internal :
      (cop : List ℕ) (apply delete_cop next : ℕ) → M (Unit {0})
  checkpt_collision_op_internal cop apply delete_cop next = do
    checkpt_data (some cop) sizeof_collision_op sizeof_collision_op 1 1 0
    checkpt_sym l apply
    checkpt_sym l delete_cop
    checkpt_ptr next

  unfoldable pub restore_collision_op_internal : (params : ℕ) → M Restored
  restore_collision_op_internal params = do
    cop ← restore_data
    apply ← restore_sym l
    delete_cop ← restore_sym l
    next ← restore_ptr
    pure (record {
      block =
          set_pointer (set_pointer (set_pointer (set_pointer cop 0 params) 8 apply) 16 delete_cop)
            24 next;
      params = params;
      func = apply;
      delete_func = delete_cop;
      next = next;
    })

  unfoldable pub checkpt_particle_bc_internal :
      (pbc : List ℕ) (interact delete_pbc next : ℕ) → M (Unit {0})
  checkpt_particle_bc_internal pbc interact delete_pbc next = do
    checkpt_data (some pbc) sizeof_particle_bc sizeof_particle_bc 1 1 0
    checkpt_sym l interact
    checkpt_sym l delete_pbc
    checkpt_ptr next

  unfoldable pub restore_particle_bc_internal : (params : ℕ) → M Restored
  restore_particle_bc_internal params = do
    pbc ← restore_data
    interact ← restore_sym l
    delete_pbc ← restore_sym l
    next ← restore_ptr
    pure (record {
      block =
          set_pointer
            (set_pointer (set_pointer (set_pointer pbc 0 params) 8 interact) 16 delete_pbc) 32 next;
      params = params;
      func = interact;
      delete_func = delete_pbc;
      next = next;
    })

  unfoldable pub checkpt_emitter_internal :
      (e : List ℕ) (emit delete_e : ℕ) (component : List ℕ) (n_component next : ℕ) → M (Unit {0})
  checkpt_emitter_internal e emit delete_e component n_component next = do
    checkpt_data (some e) sizeof_emitter sizeof_emitter 1 1 0
    checkpt_sym l emit
    checkpt_sym l delete_e
    checkpt_data (some component) (n_component * 4) (n_component * 4) 1 1 128
    checkpt_ptr next

  -- The second block is the one of `component`, which MALLOC_ALIGNED places at `component_at`.
  unfoldable pub restore_emitter_internal : (component_at params : ℕ) → M (Restored × Block)
  restore_emitter_internal component_at params = do
    e ← restore_data
    emit ← restore_sym l
    delete_e ← restore_sym l
    component ← restore_data
    next ← restore_ptr
    pure (
      record {
        block =
            set_pointer
              (set_pointer (set_pointer (set_pointer (set_pointer e 0 params) 8 emit) 16 delete_e)
                24 component_at)
              40 next;
        params = params;
        func = emit;
        delete_func = delete_e;
        next = next;
      },
      component,
    )
