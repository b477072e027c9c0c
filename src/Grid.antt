-- ===== src/Grid.antt =====
-- The voxel grid of one process and its place among the others, src/grid.
pub mod Voxel
pub mod State
pub mod Size
pub mod Join
pub mod Partition
mod Tests
