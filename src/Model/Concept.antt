-- ===== src/Model/Concept.antt =====
-- concept.rs, `impl Concept` and the conversions into it.
use hermit_rs.Base.{Bool}
use hermit_rs.Model.Types.{Concept, LiteralConcept, ExistentialConcept}
use hermit_rs.Model.AtomicConcept
use hermit_rs.Model.AtomicNegationConcept
use hermit_rs.Model.AtLeastConcept
use hermit_rs.Model.AtLeastDataRange
use hermit_rs.Model.ExistsDescriptionGraph

unfoldable pub is_always_true : Concept → Bool
unfolding AtomicConcept.is_always_true AtomicNegationConcept.is_always_true
    AtLeastConcept.is_always_true AtLeastDataRange.is_always_true
    ExistsDescriptionGraph.is_always_true
is_always_true (Concept.atomic_concept c) = AtomicConcept.is_always_true c
is_always_true (Concept.atomic_negation_concept c) = AtomicNegationConcept.is_always_true c
is_always_true (Concept.at_least_concept c) = AtLeastConcept.is_always_true c
is_always_true (Concept.at_least_data_range c) = AtLeastDataRange.is_always_true c
is_always_true (Concept.exists_description_graph c) = ExistsDescriptionGraph.is_always_true c

unfoldable pub is_always_false : Concept → Bool
unfolding AtomicConcept.is_always_false AtomicNegationConcept.is_always_false
    AtLeastConcept.is_always_false AtLeastDataRange.is_always_false
    ExistsDescriptionGraph.is_always_false
is_always_false (Concept.atomic_concept c) = AtomicConcept.is_always_false c
is_always_false (Concept.atomic_negation_concept c) = AtomicNegationConcept.is_always_false c
is_always_false (Concept.at_least_concept c) = AtLeastConcept.is_always_false c
is_always_false (Concept.at_least_data_range c) = AtLeastDataRange.is_always_false c
is_always_false (Concept.exists_description_graph c) = ExistsDescriptionGraph.is_always_false c

-- `impl From<LiteralConcept> for Concept`.
unfoldable pub from_literal_concept : LiteralConcept → Concept
from_literal_concept (LiteralConcept.atomic_concept c) = Concept.atomic_concept c
from_literal_concept (LiteralConcept.atomic_negation_concept c) = Concept.atomic_negation_concept c

-- `impl From<ExistentialConcept> for Concept`.
unfoldable pub from_existential_concept : ExistentialConcept → Concept
from_existential_concept (ExistentialConcept.at_least_concept c) = Concept.at_least_concept c
from_existential_concept (ExistentialConcept.at_least_data_range c) = Concept.at_least_data_range c
from_existential_concept (ExistentialConcept.exists_description_graph c) =
    Concept.exists_description_graph c
