-- ===== src/Collections.antt =====
-- The standard library's hash collections, as the program uses them.
pub mod HashSet
pub mod HashMap
