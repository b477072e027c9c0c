-- ===== src/Checkpt/Objects/Relocation.antt =====
-- Pointers between objects across a checkpoint and its restore, by the order of the objects.
use vpic.Prelude.{List, [], ◌∷◌, ◌++◌, map}
use vpic.Checkpt.Service.{Node}
use vpic.Checkpt.Objects.Nodes.{Saved, restored_node}

-- The registry while the restore function of `z` runs: the objects before it are restored, and the
-- node of `z` still has the address of the saved program.
abbrev pub half_restored : List Saved → Saved → List Node
half_restored ys z = map restored_node ys ++ (z.node ∷ [])
