-- ===== src/Model/DlPredicate.antt =====
-- predicate.rs, `impl DLPredicate` and the arities of its own predicate classes.
use hermit_rs.Base.{ℕ, Bool, true, false, Option, none, some, length}
use hermit_rs.Model.Types.{AtomicConcept, DlPredicate, AnnotatedEquality, DescriptionGraph}
use hermit_rs.Model.Types.DlPredicate.{
  atomic_concept, atomic_role, at_least_concept, at_least_data_range, equality, inequality,
  annotated_equality, node_id_less_equal_than, node_ids_ascending_or_equal, datatype_restriction,
  constant_enumeration, internal_datatype, atomic_negation_data_range, description_graph,
  exists_description_graph,
}
use hermit_rs.Model.AtomicConcept
use hermit_rs.Model.AtomicRole
use hermit_rs.Model.AtLeastConcept
use hermit_rs.Model.AtLeastDataRange
use hermit_rs.Model.ExistsDescriptionGraph
use hermit_rs.Model.DatatypeRestriction
use hermit_rs.Model.ConstantEnumeration
use hermit_rs.Model.InternalDatatype
use hermit_rs.Model.AtomicNegationDataRange

unfoldable pub annotated_equality_arity : AnnotatedEquality → ℕ
annotated_equality_arity p = 3

unfoldable pub description_graph_arity : DescriptionGraph → ℕ
description_graph_arity g = length g.atomic_concepts_by_vertices

unfoldable pub arity : DlPredicate → ℕ
unfolding AtomicConcept.arity AtomicRole.arity AtLeastConcept.arity AtLeastDataRange.arity
    DatatypeRestriction.arity ConstantEnumeration.arity InternalDatatype.arity
    AtomicNegationDataRange.arity ExistsDescriptionGraph.arity annotated_equality_arity
    description_graph_arity
arity (atomic_concept p) = AtomicConcept.arity p
arity (atomic_role p) = AtomicRole.arity p
arity (at_least_concept p) = AtLeastConcept.arity p
arity (at_least_data_range p) = AtLeastDataRange.arity p
arity equality = 2
arity inequality = 2
arity (annotated_equality p) = annotated_equality_arity p
arity node_id_less_equal_than = 2
arity (node_ids_ascending_or_equal p) = p.arity
arity (datatype_restriction p) = DatatypeRestriction.arity p
arity (constant_enumeration p) = ConstantEnumeration.arity p
arity (internal_datatype p) = InternalDatatype.arity p
arity (atomic_negation_data_range p) = AtomicNegationDataRange.arity p
arity (description_graph p) = description_graph_arity p
arity (exists_description_graph p) = ExistsDescriptionGraph.arity p

unfoldable pub is_at_least : DlPredicate → Bool
is_at_least (at_least_concept p) = true
is_at_least (at_least_data_range p) = true
is_at_least _ = false

unfoldable pub is_literal_concept : DlPredicate → Bool
is_literal_concept (atomic_concept p) = true
is_literal_concept _ = false

unfoldable pub is_atomic_concept : DlPredicate → Bool
is_atomic_concept (atomic_concept p) = true
is_atomic_concept _ = false

unfoldable pub is_equality : DlPredicate → Bool
is_equality equality = true
is_equality _ = false

unfoldable pub is_annotated_equality : DlPredicate → Bool
is_annotated_equality (annotated_equality p) = true
is_annotated_equality _ = false

unfoldable pub is_node_id_less_equal_than : DlPredicate → Bool
is_node_id_less_equal_than node_id_less_equal_than = true
is_node_id_less_equal_than _ = false

unfoldable pub is_node_ids_ascending_or_equal : DlPredicate → Bool
is_node_ids_ascending_or_equal (node_ids_ascending_or_equal p) = true
is_node_ids_ascending_or_equal _ = false

unfoldable pub is_data_range : DlPredicate → Bool
is_data_range (datatype_restriction p) = true
is_data_range (constant_enumeration p) = true
is_data_range (internal_datatype p) = true
is_data_range (atomic_negation_data_range p) = true
is_data_range _ = false

unfoldable pub is_role : DlPredicate → Bool
is_role (atomic_role p) = true
is_role _ = false

unfoldable pub as_atomic_concept : DlPredicate → Option AtomicConcept
as_atomic_concept (atomic_concept c) = some c
as_atomic_concept _ = none
