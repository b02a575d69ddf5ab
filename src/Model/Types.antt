-- ===== src/Model/Types.antt =====
-- The data of src/model. A handle such as `AtomicConcept` points to the one canonical allocation of
-- its content, so here it is that content, and two handles are the same exactly if the contents
-- are. A description graph has the identity of its allocation, its `address`.
use hermit_rs.Base.{ℕ, String, List}
use hermit_rs.Base.Int.{ℤ}

-- term.rs
pub record Variable : Type 0 where
  pub name : String

pub record Individual : Type 0 where
  pub uri : String

pub record Constant : Type 0 where
  pub lexical_form : String
  pub datatype_uri : String

pub data Term : Type 0 where
  variable : Variable → Term
  individual : Individual → Term
  constant : Constant → Term

-- role.rs
pub record AtomicRole : Type 0 where
  pub iri : String

pub record InverseRole : Type 0 where
  pub inverse_of : AtomicRole

pub record NegatedAtomicRole : Type 0 where
  pub negated_atomic_role : AtomicRole

pub data Role : Type 0 where
  atomic_role : AtomicRole → Role
  inverse_role : InverseRole → Role

-- datarange.rs
pub record DatatypeRestriction : Type 0 where
  pub datatype_uri : String
  pub facet_uris : List String
  pub facet_values : List Constant

pub record ConstantEnumeration : Type 0 where
  pub constants : List Constant

pub record InternalDatatype : Type 0 where
  pub iri : String

pub data AtomicDataRange : Type 0 where
  datatype_restriction : DatatypeRestriction → AtomicDataRange
  constant_enumeration : ConstantEnumeration → AtomicDataRange
  internal_datatype : InternalDatatype → AtomicDataRange

pub record AtomicNegationDataRange : Type 0 where
  pub negated_data_range : AtomicDataRange

pub data LiteralDataRange : Type 0 where
  datatype_restriction : DatatypeRestriction → LiteralDataRange
  constant_enumeration : ConstantEnumeration → LiteralDataRange
  internal_datatype : InternalDatatype → LiteralDataRange
  atomic_negation_data_range : AtomicNegationDataRange → LiteralDataRange

-- concept.rs
pub record AtomicConcept : Type 0 where
  pub iri : String

pub record AtomicNegationConcept : Type 0 where
  pub negated_atomic_concept : AtomicConcept

pub data LiteralConcept : Type 0 where
  atomic_concept : AtomicConcept → LiteralConcept
  atomic_negation_concept : AtomicNegationConcept → LiteralConcept

pub record AtLeastConcept : Type 0 where
  pub number : ℤ
  pub on_role : Role
  pub to_concept : LiteralConcept

pub record AtLeastDataRange : Type 0 where
  pub number : ℤ
  pub on_role : Role
  pub to_data_range : LiteralDataRange

-- description_graph.rs
pub record Edge : Type 0 where
  pub atomic_role : AtomicRole
  pub from_vertex : ℤ
  pub to_vertex : ℤ

pub record DescriptionGraph : Type 0 where
  pub address : ℕ
  pub name : String
  pub atomic_concepts_by_vertices : List AtomicConcept
  pub edges : List Edge
  pub start_concepts : List AtomicConcept

pub record ExistsDescriptionGraph : Type 0 where
  pub description_graph : DescriptionGraph
  pub vertex : ℤ

pub data ExistentialConcept : Type 0 where
  at_least_concept : AtLeastConcept → ExistentialConcept
  at_least_data_range : AtLeastDataRange → ExistentialConcept
  exists_description_graph : ExistsDescriptionGraph → ExistentialConcept

pub data Concept : Type 0 where
  atomic_concept : AtomicConcept → Concept
  atomic_negation_concept : AtomicNegationConcept → Concept
  at_least_concept : AtLeastConcept → Concept
  at_least_data_range : AtLeastDataRange → Concept
  exists_description_graph : ExistsDescriptionGraph → Concept

-- predicate.rs
pub record AnnotatedEquality : Type 0 where
  pub cardinality : ℤ
  pub on_role : Role
  pub to_concept : LiteralConcept

pub record NodeIdsAscendingOrEqual : Type 0 where
  pub arity : ℕ

pub data DlPredicate : Type 0 where
  atomic_concept : AtomicConcept → DlPredicate
  atomic_role : AtomicRole → DlPredicate
  at_least_concept : AtLeastConcept → DlPredicate
  at_least_data_range : AtLeastDataRange → DlPredicate
  equality : DlPredicate
  inequality : DlPredicate
  annotated_equality : AnnotatedEquality → DlPredicate
  node_id_less_equal_than : DlPredicate
  node_ids_ascending_or_equal : NodeIdsAscendingOrEqual → DlPredicate
  datatype_restriction : DatatypeRestriction → DlPredicate
  constant_enumeration : ConstantEnumeration → DlPredicate
  internal_datatype : InternalDatatype → DlPredicate
  atomic_negation_data_range : AtomicNegationDataRange → DlPredicate
  description_graph : DescriptionGraph → DlPredicate
  exists_description_graph : ExistsDescriptionGraph → DlPredicate

-- atom.rs
pub record Atom : Type 0 where
  pub dl_predicate : DlPredicate
  pub arguments : List Term

-- clause.rs
pub record DlClause : Type 0 where
  pub head_atoms : List Atom
  pub body_atoms : List Atom
