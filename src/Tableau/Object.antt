-- ===== src/Tableau/Object.antt =====
-- src/tableau/object.rs: the elements of the tuples of the extension tables, and their keys. The
-- address of an interned value is that of its allocation, which the allocator chooses.
pub mod Sources
pub mod Keys
use hermit_rs.Base.{
  ◌^◌, ◌%◌, ℕ, zero, suc, ◌+◌, ◌-◌, ◌*◌, ◌≤◌, ◌<◌, Ordering, ◌≡◌, refl, sym, ap, ◌∙◌, subst, ◌⊎◌,
  inl, inr, ◌↔◌, Bool, true, false, not, ◌&&◌, ◌||◌, Option, none, some, List, [], ◌∷◌, ◌++◌, map,
  arith, if◌then◌else◌, length, get_elem?, Bool-cases, Option-cases, List-cases, ltb, All, ==_refl,
  nat_eq, Eq, ◌==◌, leb,
}
use hermit_rs.Base.Panic.{◌>>=◌}
use hermit_rs.Model.Types.{
  Concept, DlPredicate, AnnotatedEquality, AtLeastConcept, AtLeastDataRange, AtomicConcept,
  AtomicNegationConcept, AtomicNegationDataRange, AtomicRole, ConstantEnumeration,
  DatatypeRestriction, DescriptionGraph, ExistsDescriptionGraph, InternalDatatype,
  NegatedAtomicRole, NodeIdsAscendingOrEqual,
}

abbrev pub NodeId : Type 0
NodeId = ℕ

pub data TableauObject : Type 0 where
  concept : Concept → TableauObject
  dl_predicate : DlPredicate → TableauObject
  negated_atomic_role : NegatedAtomicRole → TableauObject
  description_graph : DescriptionGraph → TableauObject
  node : NodeId → TableauObject

-- What is allocated for a handle.
pub data Interned : Type 0 where
  atomic_concept : AtomicConcept → Interned
  atomic_role : AtomicRole → Interned
  at_least_concept : AtLeastConcept → Interned
  at_least_data_range : AtLeastDataRange → Interned
  annotated_equality : AnnotatedEquality → Interned
  node_ids_ascending_or_equal : NodeIdsAscendingOrEqual → Interned
  datatype_restriction : DatatypeRestriction → Interned
  constant_enumeration : ConstantEnumeration → Interned
  internal_datatype : InternalDatatype → Interned
  atomic_negation_data_range : AtomicNegationDataRange → Interned
  description_graph : DescriptionGraph → Interned
  exists_description_graph : ExistsDescriptionGraph → Interned
  atomic_negation_concept : AtomicNegationConcept → Interned
  negated_atomic_role : NegatedAtomicRole → Interned

-- The allocations, a parameter: the address of each value that is interned. Different allocations have different
-- addresses, which fit in 48 bits and are above the first words.
pub record Allocations : Type 0 where
  pub address : Interned → Option ℕ
  pub apart : (x y : Interned) (a : ℕ) → address x ≡ some a → address y ≡ some a → x ≡ y
  pub above : (x : Interned) (a : ℕ) → address x ≡ some a → 3 < a
  pub below : (x : Interned) (a : ℕ) → address x ≡ some a → a < 2 ^ 48

module _ (m : Allocations) where
  -- `Concept::raw_key`; `none` if the handle does not exist.
  unfoldable pub concept_raw_key : Concept → Option ℕ
  concept_raw_key (Concept.atomic_concept c) = m.address (Interned.atomic_concept c)
  concept_raw_key (Concept.atomic_negation_concept c) =
      m.address (Interned.atomic_negation_concept c)
  concept_raw_key (Concept.at_least_concept c) = m.address (Interned.at_least_concept c)
  concept_raw_key (Concept.at_least_data_range c) = m.address (Interned.at_least_data_range c)
  concept_raw_key (Concept.exists_description_graph c) =
      m.address (Interned.exists_description_graph c)

  -- `DLPredicate::raw_key`.
  unfoldable pub dl_predicate_raw_key : DlPredicate → Option ℕ
  dl_predicate_raw_key (DlPredicate.atomic_concept p) = m.address (Interned.atomic_concept p)
  dl_predicate_raw_key (DlPredicate.atomic_role p) = m.address (Interned.atomic_role p)
  dl_predicate_raw_key (DlPredicate.at_least_concept p) = m.address (Interned.at_least_concept p)
  dl_predicate_raw_key (DlPredicate.at_least_data_range p) =
      m.address (Interned.at_least_data_range p)
  dl_predicate_raw_key DlPredicate.equality = some 1
  dl_predicate_raw_key DlPredicate.inequality = some 2
  dl_predicate_raw_key (DlPredicate.annotated_equality p) =
      m.address (Interned.annotated_equality p)
  dl_predicate_raw_key DlPredicate.node_id_less_equal_than = some 3
  dl_predicate_raw_key (DlPredicate.node_ids_ascending_or_equal p) =
      m.address (Interned.node_ids_ascending_or_equal p)
  dl_predicate_raw_key (DlPredicate.datatype_restriction p) =
      m.address (Interned.datatype_restriction p)
  dl_predicate_raw_key (DlPredicate.constant_enumeration p) =
      m.address (Interned.constant_enumeration p)
  dl_predicate_raw_key (DlPredicate.internal_datatype p) = m.address (Interned.internal_datatype p)
  dl_predicate_raw_key (DlPredicate.atomic_negation_data_range p) =
      m.address (Interned.atomic_negation_data_range p)
  dl_predicate_raw_key (DlPredicate.description_graph p) = m.address (Interned.description_graph p)
  dl_predicate_raw_key (DlPredicate.exists_description_graph p) =
      m.address (Interned.exists_description_graph p)

  -- `wrapping_mul` on 64 bits.
  unfoldable pub raw_key : TableauObject → Option ℕ
  raw_key (TableauObject.concept c) = concept_raw_key c >>= λ k. some (k * 5 % 2 ^ 64)
  raw_key (TableauObject.dl_predicate p) = dl_predicate_raw_key p >>= λ k. some (k * 7 % 2 ^ 64)
  raw_key (TableauObject.negated_atomic_role r) =
      m.address (Interned.negated_atomic_role r) >>= λ k. some (k * 11 % 2 ^ 64)
  raw_key (TableauObject.description_graph g) =
      m.address (Interned.description_graph g) >>= λ k. some (k * 13 % 2 ^ 64)
  raw_key (TableauObject.node id) = some (id * 17 % 2 ^ 64)

  -- The tag of the variant and the key of the value.
  unfoldable pub tag_and_inner : TableauObject → Option (ℕ × ℕ)
  tag_and_inner (TableauObject.concept c) = concept_raw_key c >>= λ k. some (0, k)
  tag_and_inner (TableauObject.dl_predicate p) = dl_predicate_raw_key p >>= λ k. some (1, k)
  tag_and_inner (TableauObject.negated_atomic_role r) =
      m.address (Interned.negated_atomic_role r) >>= λ k. some (2, k)
  tag_and_inner (TableauObject.description_graph g) =
      m.address (Interned.description_graph g) >>= λ k. some (3, k)
  tag_and_inner (TableauObject.node id) = some (4, id)

  -- `(tag << 61) | (inner & (2 ^ 61 - 1))`, after the assertion that the value fits.
  unfoldable pub unique_key : TableauObject → Option ℕ
  unique_key o =
      tag_and_inner o >>= λ t. if ltb t.1 (2 ^ 61) then some (t.0 * 2 ^ 61 + t.1 % 2 ^ 61) else none

unfoldable pub as_node : TableauObject → Option NodeId
as_node (TableauObject.node id) = some id
as_node _ = none

unfoldable pub is_node : TableauObject → Bool
is_node (TableauObject.node id) = true
is_node _ = false

unfoldable pub as_concept : TableauObject → Option Concept
as_concept (TableauObject.concept c) = some c
as_concept _ = none

unfoldable pub as_dl_predicate : TableauObject → Option DlPredicate
as_dl_predicate (TableauObject.dl_predicate p) = some p
as_dl_predicate _ = none

unfoldable pub as_description_graph : TableauObject → Option DescriptionGraph
as_description_graph (TableauObject.description_graph g) = some g
as_description_graph _ = none

unfoldable pub as_negated_atomic_role : TableauObject → Option NegatedAtomicRole
as_negated_atomic_role (TableauObject.negated_atomic_role r) = some r
as_negated_atomic_role _ = none
