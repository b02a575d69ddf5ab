-- ===== src/Model/LiteralConcept.antt =====
-- concept.rs, `impl LiteralConcept`.
use hermit_rs.Base.{Bool}
use hermit_rs.Model.Types.{LiteralConcept}
use hermit_rs.Model.Types.LiteralConcept.{atomic_concept, atomic_negation_concept}
use hermit_rs.Model.AtomicConcept
use hermit_rs.Model.AtomicNegationConcept

unfoldable pub get_negation : LiteralConcept → LiteralConcept
unfolding AtomicConcept.get_negation AtomicNegationConcept.get_negation
get_negation (atomic_concept c) = AtomicConcept.get_negation c
get_negation (atomic_negation_concept c) = AtomicNegationConcept.get_negation c

unfoldable pub is_always_true : LiteralConcept → Bool
unfolding AtomicConcept.is_always_true AtomicNegationConcept.is_always_true
is_always_true (atomic_concept c) = AtomicConcept.is_always_true c
is_always_true (atomic_negation_concept c) = AtomicNegationConcept.is_always_true c

unfoldable pub is_always_false : LiteralConcept → Bool
unfolding AtomicConcept.is_always_false AtomicNegationConcept.is_always_false
is_always_false (atomic_concept c) = AtomicConcept.is_always_false c
is_always_false (atomic_negation_concept c) = AtomicNegationConcept.is_always_false c
