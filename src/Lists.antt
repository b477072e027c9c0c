-- ===== src/Lists.antt =====
-- The linked lists that a simulation keeps of its parts: materials, species, emitters,
-- collision operators and particle boundary conditions.
pub mod Result
pub mod Saving
pub mod Chain
pub mod Names
pub mod Listed
pub mod Material
pub mod Species
pub mod Collision
pub mod Emitter
pub mod Boundary
mod Tests
