-- ===== src/Model.antt =====
-- src/model: the DL data model.
pub mod Types
pub mod Sameness
pub mod Individual
pub mod Constant
pub mod Term
pub mod AtomicRole
pub mod InverseRole
pub mod Role
pub mod AtomicConcept
pub mod AtomicNegationConcept
pub mod LiteralConcept
pub mod AtLeastConcept
pub mod AtLeastDataRange
pub mod ExistsDescriptionGraph
pub mod ExistentialConcept
pub mod Concept
pub mod DatatypeRestriction
pub mod ConstantEnumeration
pub mod InternalDatatype
pub mod AtomicDataRange
pub mod AtomicNegationDataRange
pub mod LiteralDataRange
pub mod DlPredicate
pub mod Atom
pub mod DlClause
pub mod Negation
pub mod DlOntology
