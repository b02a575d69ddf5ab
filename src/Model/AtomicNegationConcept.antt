-- ===== src/Model/AtomicNegationConcept.antt =====
-- concept.rs, `impl AtomicNegationConcept`.
use hermit_rs.Base.{Bool}
use hermit_rs.Model.Types.{AtomicNegationConcept, LiteralConcept}
use hermit_rs.Model.AtomicConcept

unfoldable pub get_negation : AtomicNegationConcept → LiteralConcept
get_negation c = LiteralConcept.atomic_concept c.negated_atomic_concept

unfoldable pub is_always_true : AtomicNegationConcept → Bool
unfolding AtomicConcept.is_always_false
is_always_true c = AtomicConcept.is_always_false c.negated_atomic_concept

unfoldable pub is_always_false : AtomicNegationConcept → Bool
unfolding AtomicConcept.is_always_true
is_always_false c = AtomicConcept.is_always_true c.negated_atomic_concept
