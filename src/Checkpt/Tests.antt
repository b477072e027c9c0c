-- ===== src/Checkpt/Tests.antt =====
-- The theorems on the checkpoint service at a small program: two objects, whose checkpoint function
-- writes the address of the object, and whose restore function reads it and moves the object by
-- 1000. The linker knows the name `w` of the checkpoint function at 5, and of the restore function
-- at 7 only the address.
use vpic.Prelude.{
  get_elem?, ℕ, ◌+◌, ◌^◌, ◌<◌, ◌≡◌, refl, true, none, some, List, [], ◌∷◌, ◌++◌, arith, ◌==◌,
  if◌then◌else◌, inl, inr, map,
}
use vpic.Checkpt.Service.{Node, Service, ok, ◌>>=◌, pure, check_idle}
use vpic.Checkpt.Stream.{checkpt_val, restore_val, to_bytes}
use vpic.Checkpt.Stream.Laws.{reading, checkpt_val_lem, restore_val_lem}
use vpic.Checkpt.Stream.Laws
use vpic.Checkpt.Registry.{
  register_object, unregister_object, remove_obj, find_obj, find_id, object_id, object_ptr, id_of,
}
use vpic.Checkpt.Registry.Valid.{
  IsValid, register_object-IsValid, unregister_object-IsValid, object_ptr-object_id,
}
use vpic.Checkpt.Items.Strings.{strlen, checkpt_str, restore_str, restore_str-checkpt_str}
use vpic.Checkpt.Items.Symbols.{
  Linker, SymbolInfo, Known, checkpt_sym, restore_sym, restore_sym-checkpt_sym,
}
use vpic.Checkpt.Items.Pointers.{checkpt_ptr, restore_ptr, restore_ptr-checkpt_ptr}
use vpic.Checkpt.Items.Data.{checkpt_data, restore_data, Block, is_alignment}
use vpic.Checkpt.Items.Data.RoundTrip.{IsLayout, element_byte, restore_data-checkpt_data}
use vpic.Checkpt.Objects.{Process, call_checkpt, call_restore, checkpt_objects, restore_objects}
use vpic.Checkpt.Objects.Nodes.{
  Saved, saved_node, restored_node, idle, Restores, AllRestore, with_registry,
}
use vpic.Checkpt.Objects.RoundTrip.{restore_objects-checkpt_objects}
use vpic.Checkpt.Objects.Relocation.{half_restored}

abbrev w_name : List ℕ
w_name = 119 ∷ []

abbrev info_at : ℕ → SymbolInfo
info_at a = record { sname = if a == 5 then some w_name else none; fname = none }

abbrev linker : Linker
linker = record {
  dladdr = λ a. some (info_at a);
  dlsym = λ name. if strlen name == 1 then some 5 else none;
}

abbrev program : Process
program = record {
  linker = linker;
  checkpt_func = λ f obj. checkpt_val obj;
  restore_func = λ f. (do v ← restore_val; pure (v + 1000));
  reanimate_func = λ f obj. pure tt;
  address = λ r. 77;
}

abbrev node : ℕ → ℕ → Node
node obj id = record { obj = obj; checkpt_func = 5; restore_func = 7; reanimate_func = 0; id = id }

abbrev saved : ℕ → ℕ → Saved
saved obj id = record { node = node obj id; bytes = to_bytes 8 obj; obj = obj + 1000 }

abbrev two : List Saved
two = saved 16 1 ∷ saved 32 3 ∷ []

five-Known : Known linker 5
unfolding strlen
five-Known = inr (
  info_at 5,
  record {
    ne_null = omega arith;
    known = refl;
    sname_ok = (refl, omega arith);
    fname_ok = tt;
    small = omega arith;
  },
)

seven-Known : Known linker 7
seven-Known = inr (
  info_at 7,
  record { ne_null = omega arith; known = refl; sname_ok = tt; fname_ok = tt; small = omega arith },
)

saved-Restores :
    (s t : Service) (done : List Node) (obj id : ℕ)
    → obj < 2 ^ 64
    → id < 2 ^ 64
    → Restores program s t done (saved obj id)
unfolding call_checkpt call_restore
saved-Restores s t done obj id h k = record {
  written = λ out. checkpt_val_lem s out obj;
  read =
      λ rest. rw (restore_val_lem (with_registry t (done ++ (node obj id ∷ []))) rest obj h) refl;
  checkpt_known = five-Known;
  restore_known = seven-Known;
  reanimate_known = inl refl;
  obj_small = h;
  id_small = k;
}

two-AllRestore : (s t : Service) → AllRestore program s t [] two
two-AllRestore s t = (
  saved-Restores s t [] 16 1 (omega arith) (omega arith),
  (saved-Restores s t (restored_node (saved 16 1) ∷ []) 32 3 (omega arith) (omega arith), tt),
)

abbrev before : Service
before = idle (map saved_node two) 4

abbrev after : Service
after = idle (map restored_node two) 4

restore_objects-checkpt_objects_example :
    (file : List ℕ) × (checkpt_objects program true before ≡ ok file before)
    × (restore_objects program (some file) (idle (node 99 1 ∷ []) 2) ≡ ok tt after)
restore_objects-checkpt_objects_example =
    restore_objects-checkpt_objects program (node 99 1 ∷ []) 4 2 two (omega arith)
      (two-AllRestore before (idle [] 4))

before-IsValid : IsValid before
unfolding find_obj
before-IsValid = record {
  ids = (omega arith, (omega arith, omega arith));
  objs = (omega arith, refl, (omega arith, refl, tt));
}

abbrev restoring : Service
restoring = idle (half_restored (saved 16 1 ∷ []) (saved 32 3)) 4

abbrev registered : Service
registered = idle (map saved_node two ++ (record (node 48 4) { reanimate_func = 9 } ∷ [])) 5

register_object-IsValid_example :
    IsValid registered
    × (object_id 48 registered ≡ ok 4 registered)
    × ((other : ℕ)
        → id_of (find_obj registered.registry other)
          ≡ (if other == 48 then 4 else id_of (find_obj before.registry other)))
unfolding register_object find_obj check_idle
register_object-IsValid_example = register_object-IsValid 48 5 7 9 before-IsValid (omega arith) refl

abbrev unregistered : Service
unregistered = idle (map saved_node (saved 32 3 ∷ [])) 4

unregister_object-IsValid_example :
    IsValid unregistered
    × (object_id 16 unregistered ≡ ok 0 unregistered)
    × ((other : ℕ)
        → id_of (find_obj unregistered.registry other)
          ≡ (if other == 16 then 0 else id_of (find_obj before.registry other)))
unfolding unregister_object find_obj check_idle remove_obj
unregister_object-IsValid_example = unregister_object-IsValid 16 before-IsValid refl

object_ptr-object_id_example :
    (id : ℕ) × (object_id 32 before ≡ ok id before)
    × (object_ptr id before ≡ ok 32 before)
    × (0 < id)
    × (id < 4)
unfolding find_obj
object_ptr-object_id_example = object_ptr-object_id 32 before-IsValid refl refl

restore_str-checkpt_str_example :
    (bytes : List ℕ) × (checkpt_str (some w_name) (Laws.writing before [])
      ≡ ok tt (Laws.writing before bytes))
    × (restore_str (reading before (bytes ++ (7 ∷ [])))
        ≡ ok (some w_name) (reading before (7 ∷ [])))
unfolding strlen
restore_str-checkpt_str_example =
    restore_str-checkpt_str before before [] (7 ∷ []) (some w_name) (refl, omega arith)

restore_sym-checkpt_sym_example :
    (bytes : List ℕ) × (checkpt_sym linker 5 (Laws.writing before [])
      ≡ ok tt (Laws.writing before bytes))
    × (restore_sym linker (reading before (bytes ++ [])) ≡ ok 5 (reading before []))
restore_sym-checkpt_sym_example = restore_sym-checkpt_sym linker before before [] [] 5 five-Known

restore_ptr-checkpt_ptr_example :
    (bytes : List ℕ) × (checkpt_ptr 16 (Laws.writing before []) ≡ ok tt (Laws.writing before bytes))
    × (restore_ptr (reading after (bytes ++ [])) ≡ ok 1016 (reading after []))
unfolding find_obj
restore_ptr-checkpt_ptr_example =
    restore_ptr-checkpt_ptr before after [] [] 16 1016 before-IsValid refl (omega arith)
      (unfold find_id in refl, inr (omega arith, omega arith, refl))

-- Two elements of two bytes at a stride of three, in a block for three.
abbrev array : List ℕ
array = 1 ∷ 2 ∷ 0 ∷ 3 ∷ 4 ∷ 0 ∷ []

array-IsLayout : IsLayout array 2 3 2 3 16
unfolding is_alignment
array-IsLayout = record {
  count = omega arith;
  apart = omega arith;
  fits = omega arith;
  room = omega arith;
  max_small = omega arith;
  str_small = omega arith;
  align_small = omega arith;
  aligned = refl;
}

restore_data-checkpt_data_example :
    (w : List ℕ) × (b : Block) × (checkpt_data (some array) 2 3 2 3 16 (Laws.writing before [])
      ≡ ok tt (Laws.writing before w))
    × (restore_data (reading before (w ++ (7 ∷ []))) ≡ ok b (reading before (7 ∷ [])))
    × (b.size ≡ 9)
    × (b.align ≡ 16)
    × ((i m : ℕ) → element_byte b.byte 2 3 2 i m ≡ element_byte (get_elem? array) 2 3 2 i m)
restore_data-checkpt_data_example =
    restore_data-checkpt_data array-IsLayout before before [] (7 ∷ [])
