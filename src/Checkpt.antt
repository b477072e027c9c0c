-- ===== src/Checkpt.antt =====
-- The checkpoint service, src/util/checkpt/checkpt.cc, by parts.
pub mod Service
pub mod Stream
pub mod Registry
pub mod Items
pub mod Objects
mod Tests
