-- ===== src/Tableau.antt =====
-- src/tableau: the parts of the tableau besides the dependency sets.
pub mod GroundDisjunctionHeader
pub mod TupleTable
pub mod Object
pub mod ExtensionTable
pub mod TupleIndex
