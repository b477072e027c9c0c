-- ===== src/Lib.antt =====
-- VPIC is a particle-in-cell plasma simulation. This library models the parts of it whose logic does
-- not depend on floating-point arithmetic, by the files of the repository:
--
-- Checkpt   the checkpoint service, src/util/checkpt/checkpt.cc: a registry of objects with identifiers,
--           and the functions that write all objects to a stream and read them back.
--   Service    the static variables as a record, errors, and commands that return a value with the
--              new service, or the error of an `ERROR((…))`.
--   Stream     `checkpt_raw`, `restore_raw`, CHECKPT_VAL, RESTORE_VAL: bytes to and from the stream.
--   Registry   `boot_checkpt`, `halt_checkpt`, `object_id`, `object_ptr`, `register_object`,
--              `unregister_object`; Registry/Valid holds the registry's invariant.
--   Items      what objects are written by: strings, pointers, symbols and arrays (`checkpt_str`,
--              `checkpt_fptr`, `checkpt_ptr`, `checkpt_sym`, `checkpt_data`, their `restore_` functions
--              and `reanimate_fptr`).
--   Objects    `checkpt_objects`, `restore_objects`, `reanimate_objects`. An object's own functions
--              are parameters of the model, commands on the service like the rest.
-- Grid      the mesh of one process and its place among the others, src/grid.
--   Voxel      VOXEL and NEXT_VOXEL of src/grid/grid.h.
--   State      `grid_t`, its enumerations and faces.
--   Size       `size_grid` of src/grid/ops.cc.
--   Join       `join_grid`, `set_fbc`, `set_pbc` of src/grid/ops.cc.
--   Partition  RANK_TO_INDEX, INDEX_TO_RANK and the three partition functions of
--              src/grid/partition.cc.
-- Lists     the linked lists of the parts of a simulation, at addresses in a memory.
--   Chain      LIST_FIND_FIRST and LIST_FOR_EACH of src/util/util_base.h.
--   Names      names compared by `strcmp`.
--   Listed     lists numbered from the end, with different names, and a node put in front.
--   Result     what an append gives.
--   Material   the list of src/material/material.cc.
--   Species    the list of src/species_advance/species_advance.cc.
--              Both have a module Saving on their checkpoint, with the sizes of the structures as
--              on a machine with 64 bit pointers.
--   Collision  the list of src/collision/collision.cc.
--   Emitter    the list of src/emitter/emitter.cc.
--   Boundary   the list of src/boundary/boundary.cc.
--   Saving     the checkpoint of collision operators, boundary conditions and emitters, and in its
--              module Structure that of any structure with pointers.
-- Sort      the sort of a species' particles by voxel, src/species_advance/standard.
--   Scatter    the counting and the scattering loop.
--   Legacy     `sort_p` of sort_p.cc under VPIC_USE_LEGACY_SORT, out of place.
--   Subsorts   V2P and P2V of pipeline/spa_private.h, by which the parallel sort divides the voxels.
--   Counting, Runs   the numbers and the runs of the particles of a key, for the proofs.
--   Pipeline   `sort_p_pipeline` of pipeline/sort_p_pipeline.cc: the coarse count, the coarse sort
--              and the subsort, with what the host does between them. The pipelines of a stage run one
--              after the other, in an order that is a parameter; the host's loops beside the subsort
--              are put behind it. The rounding of DISTRIBUTE is a parameter, and what the scratch
--              memory holds, which is taken to be large enough.
-- Threads   the thread dispatcher, src/util/pipelines/pipelines_thread.cc: `thread_dispatch`,
--           `parallel_execute`, `thread_wait` and the threads' `pipeline_mgr`, as steps that interleave
--           in any order. A thread may wake up without a signal, but in the schedules of `run` none
--           does. `thread_boot` is the state that it leaves.
--   Invariant  what holds after every step; its modules prove it kept.
--   Rank       a number that some step lowers as long as a dispatch is under way.
--   Order      the order of the calls of a dispatch, and the parallel sort whose stages run by it.
--   Serial     `serial_dispatch` and `serial_wait` of src/util/pipelines/pipelines_serial.cc.
--   Wait       what the caller of `thread_dispatch` and `thread_wait` relies on.
--   Stuck      the wait with a `Dispatch_To_Host` of 2 or more.
-- Prelude   lists, arrays, counted loops, sums and signed integers.
--
-- The grid is the one that the particles of the sort lie in: a particle's voxel is an index by VOXEL.
-- The species whose particles are sorted are in the list of species. Objects of every part are
-- registered with the checkpoint service, and the Saving modules use its functions. The dispatcher runs
-- the pipelines of the parallel sort: that it makes each call once before the wait returns is what the
-- model of a stage of the sort, all pipelines in some order, stands on.
--
-- Each file begins with the code that it is about. A definition bears the name of the function or
-- macro that it models; an `unfoldable` helper models a part of one. Addresses are numbers, and 0 is
-- NULL. An integer of 64 bits wraps where the source's may; the voxel indices and resolutions are
-- natural numbers, as the source limits them to well below 2^31.
--
-- Loops by structural recursion go over a list or count down the rounds. On fuel are: `restore_loop`,
-- which takes eight bytes at least off the stream in each round, so that the length of the stream is
-- enough; the loop over the subsorts of a pipeline, which needs one round more than there are
-- subsorts; the loops over a linked list, which need one round more than a list that ends has nodes;
-- and the loops of INDEX_TO_RANK, which come closer to the range by at least one in each round, so
-- that the number itself is enough.
--
-- Not modelled: floating-point arithmetic, and with it the field solver, the particle push, the
-- collisions and the emission of particles; the message-passing layer, which the grid sees as the numbers
-- of voxels that `mp_allgather_i64` gathers; files, as the stream is a list of bytes, and a read
-- behind its end, of which the source does not check the result, is the error `short_read`; warnings
-- and `dump_node`; the dynamic linker, a parameter; the sort in place; the boot and the halt of the
-- dispatchers, and the one for OpenMP; the construction and deletion of the nodes of lists. The C library's
-- `malloc` always succeeds; the addresses that it gives to restored strings and arrays are parameters.
pub mod Prelude
pub mod Checkpt
pub mod Grid
pub mod Lists
pub mod Sort
pub mod Threads
