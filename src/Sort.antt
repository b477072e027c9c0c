-- ===== src/Sort.antt =====
-- Sorting the particles of a species by voxel, src/species_advance/standard.
pub mod Scatter
pub mod Legacy
pub mod Subsorts
pub mod Counting
pub mod Runs
pub mod Pipeline
mod Tests
