-- ===== src/Tests.antt =====
-- Concrete inputs: runs of the model and the theorems applied to them.
pub mod Graphs
pub mod DependencySets
pub mod Models
pub mod Storage
pub mod Tables
