-- ===== src/Model/AtomicConcept.antt =====
-- concept.rs, `impl AtomicConcept`.
use hermit_rs.Base.{ℕ, Bool, ◌==◌, if◌then◌else◌}
use hermit_rs.Model.Types.{AtomicConcept, LiteralConcept}
use hermit_rs.Model.Sameness.{atomic_concept_eq}

abbrev pub thing : AtomicConcept
thing = record { iri = "http://www.w3.org/2002/07/owl#Thing" }

abbrev pub nothing : AtomicConcept
nothing = record { iri = "http://www.w3.org/2002/07/owl#Nothing" }

abbrev pub internal_named : AtomicConcept
internal_named = record { iri = "internal:nam#Named" }

unfoldable pub arity : AtomicConcept → ℕ
arity c = 1

unfoldable pub get_negation : AtomicConcept → LiteralConcept
get_negation c =
    if c == thing
    then LiteralConcept.atomic_concept nothing
    else if c == nothing
    then LiteralConcept.atomic_concept thing
    else LiteralConcept.atomic_negation_concept (record { negated_atomic_concept = c })

unfoldable pub is_always_true : AtomicConcept → Bool
is_always_true c = c == thing

unfoldable pub is_always_false : AtomicConcept → Bool
is_always_false c = c == nothing
