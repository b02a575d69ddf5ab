-- ===== src/Model/ExistentialConcept.antt =====
-- concept.rs, `impl ExistentialConcept`.
use hermit_rs.Base.{Bool, false}
use hermit_rs.Model.Types.{ExistentialConcept}
use hermit_rs.Model.Types.ExistentialConcept.{
  at_least_concept, at_least_data_range, exists_description_graph,
}
use hermit_rs.Model.AtLeastConcept
use hermit_rs.Model.AtLeastDataRange
use hermit_rs.Model.ExistsDescriptionGraph

unfoldable pub is_always_true : ExistentialConcept → Bool
is_always_true c = false

unfoldable pub is_always_false : ExistentialConcept → Bool
unfolding AtLeastConcept.is_always_false AtLeastDataRange.is_always_false
    ExistsDescriptionGraph.is_always_false
is_always_false (at_least_concept c) = AtLeastConcept.is_always_false c
is_always_false (at_least_data_range c) = AtLeastDataRange.is_always_false c
is_always_false (exists_description_graph c) = ExistsDescriptionGraph.is_always_false c
