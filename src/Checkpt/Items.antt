-- ===== src/Checkpt/Items.antt =====
-- The composite items of a checkpoint: data, strings, pointers to registered objects, and symbols.
-- Each starts with a header that names its kind.
pub mod Strings
pub mod Pointers
pub mod Symbols
pub mod Data
