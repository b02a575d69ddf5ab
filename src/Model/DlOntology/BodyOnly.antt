-- ===== src/Model/DlOntology/BodyOnly.antt =====
-- The concepts of an ontology that stand in no head.
use hermit_rs.Base.{◌≡◌, Bool, false, not, ◌&&◌, List, [], ◌∷◌, ◌==◌, any, arith}
use hermit_rs.Collections.HashSet.{contains, contains-remove}
use hermit_rs.Model.Types.{AtomicConcept, DlPredicate, Atom, DlClause, LiteralConcept}
use hermit_rs.Model.Sameness.{atomic_concept_eq}
use hermit_rs.Model.DlOntology.{
  DlOntology, remove_literal_concept, remove_derived, remove_head_concepts, remove_clause_concepts,
  get_body_only_atomic_concepts,
}

-- Whether a literal concept is a given atomic concept.
abbrev is_concept : AtomicConcept → LiteralConcept → Bool
is_concept c (LiteralConcept.atomic_concept d) = d == c
is_concept c (LiteralConcept.atomic_negation_concept d) = false

-- Whether an atom with a predicate derives a concept, for its argument or for a successor.
abbrev pub derives : AtomicConcept → DlPredicate → Bool
derives c (DlPredicate.atomic_concept d) = d == c
derives c (DlPredicate.at_least_concept l) = is_concept c l.to_concept
derives c _ = false

abbrev pub head_derives : AtomicConcept → DlClause → Bool
head_derives c d = any (λ a. derives c a.dl_predicate) d.head_atoms

contains-remove_literal_concept :
    (l : LiteralConcept) (cs : List AtomicConcept) (c : AtomicConcept)
    → contains (remove_literal_concept l cs) c ≡ (contains cs c && not (is_concept c l))
unfolding remove_literal_concept
contains-remove_literal_concept (LiteralConcept.atomic_concept d) cs c = contains-remove cs d c
contains-remove_literal_concept (LiteralConcept.atomic_negation_concept d) cs c = ground arith

contains-remove_derived :
    (p : DlPredicate) (cs : List AtomicConcept) (c : AtomicConcept)
    → contains (remove_derived p cs) c ≡ (contains cs c && not (derives c p))
unfolding remove_derived
contains-remove_derived (DlPredicate.atomic_concept d) cs c = contains-remove cs d c
contains-remove_derived (DlPredicate.at_least_concept l) cs c =
    contains-remove_literal_concept l.to_concept cs c
contains-remove_derived _ cs c = ground arith

contains-remove_head_concepts :
    (cs : List AtomicConcept) (atoms : List Atom) (c : AtomicConcept)
    → contains (remove_head_concepts cs atoms) c
      ≡ (contains cs c && not (any (λ a. derives c a.dl_predicate) atoms))
unfolding remove_head_concepts remove_literal_concept
contains-remove_head_concepts cs [] c = ground arith
contains-remove_head_concepts cs (a ∷ atoms) c = ground (
  arith,
  contains-remove_head_concepts (remove_derived a.dl_predicate cs) atoms c,
  contains-remove_derived a.dl_predicate cs c,
)

contains-remove_clause_concepts :
    (cs : List AtomicConcept) (clauses : List DlClause) (c : AtomicConcept)
    → contains (remove_clause_concepts cs clauses) c
      ≡ (contains cs c && not (any (head_derives c) clauses))
unfolding remove_clause_concepts
contains-remove_clause_concepts cs [] c = ground arith
contains-remove_clause_concepts cs (d ∷ clauses) c = ground (
  arith,
  contains-remove_clause_concepts (remove_head_concepts cs d.head_atoms) clauses c,
  contains-remove_head_concepts cs d.head_atoms c,
)

-- The set `get_body_only_atomic_concepts` has exactly the concepts of the ontology that no head
-- atom derives, neither for its argument nor, by an at-least concept, for a successor.
pub contains-get_body_only_atomic_concepts :
    (o : DlOntology) (c : AtomicConcept)
    → contains (get_body_only_atomic_concepts o) c
      ≡ (contains o.all_atomic_concepts c && not (any (head_derives c) o.dl_clauses))
unfolding get_body_only_atomic_concepts
contains-get_body_only_atomic_concepts o c =
    contains-remove_clause_concepts o.all_atomic_concepts o.dl_clauses c
