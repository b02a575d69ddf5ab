-- ===== src/Model/Negation.antt =====
-- Negation of literals and inversion of roles: concept.rs, datarange.rs, role.rs.
use hermit_rs.Base.{◌≡◌, refl, ◌≢◌, arith, ==_iff, Bool-cases, ◌==◌, inl, subst, sym, inr}
use hermit_rs.Model.Types.{
  AtomicConcept, LiteralConcept, LiteralDataRange, Role, Term, atomic_role, inverse_role,
}
use hermit_rs.Model.Sameness.{atomic_concept_eq, atomic_role_eq}
use hermit_rs.Model.AtomicConcept.{thing, nothing}
use hermit_rs.Model.LiteralConcept
use hermit_rs.Model.LiteralDataRange
use hermit_rs.Model.AtomicRole.{top_object_role, bottom_object_role}
use hermit_rs.Model.Role
use hermit_rs.Model.Atom

-- A literal that is no negation of owl:Thing or owl:Nothing.
abbrev pub IsCanonical : LiteralConcept → Type 0
IsCanonical (LiteralConcept.atomic_concept c) = Unit
IsCanonical (LiteralConcept.atomic_negation_concept c) =
    (c.negated_atomic_concept ≢ thing) × (c.negated_atomic_concept ≢ nothing)

-- What negation promises of a literal.
abbrev pub NegationLaws : LiteralConcept → Type 0
NegationLaws c =
    IsCanonical (LiteralConcept.get_negation c)
    × (LiteralConcept.is_always_true (LiteralConcept.get_negation c)
        ≡ LiteralConcept.is_always_false c)
    × (LiteralConcept.is_always_false (LiteralConcept.get_negation c)
        ≡ LiteralConcept.is_always_true c)
    × (IsCanonical c → LiteralConcept.get_negation (LiteralConcept.get_negation c) ≡ c)

atomic-NegationLaws : (c : AtomicConcept) → NegationLaws (LiteralConcept.atomic_concept c)
unfolding LiteralConcept.get_negation LiteralConcept.is_always_true LiteralConcept.is_always_false
atomic-NegationLaws c = elim (Bool-cases (c == thing)) [
  | inl e ↦
      subst (λ d. NegationLaws (LiteralConcept.atomic_concept d)) (sym ((==_iff c thing).0 e))
        (tt, refl, refl, λ _. refl)
  | inr e ↦ elim (Bool-cases (c == nothing)) [
    | inl f ↦
        subst (λ d. NegationLaws (LiteralConcept.atomic_concept d)) (sym ((==_iff c nothing).0 f))
          (tt, refl, refl, λ _. refl)
    | inr f ↦
        rw (e, f)
          (ground (arith, ==_iff c thing, ==_iff c nothing), ground arith, ground arith, λ _. refl)
  ]
]

literal-NegationLaws : (c : LiteralConcept) → NegationLaws c
unfolding LiteralConcept.get_negation LiteralConcept.is_always_true LiteralConcept.is_always_false
literal-NegationLaws (LiteralConcept.atomic_concept c) = atomic-NegationLaws c
literal-NegationLaws (LiteralConcept.atomic_negation_concept c) =
    ground (arith, ==_iff c.negated_atomic_concept thing, ==_iff c.negated_atomic_concept nothing)

-- The negation of a literal concept is never the negation of owl:Thing or owl:Nothing as such,
-- and it is always true exactly where the literal is always false and the other way round.
pub get_negation_laws :
    (c : LiteralConcept)
    → IsCanonical (LiteralConcept.get_negation c)
      × (LiteralConcept.is_always_true (LiteralConcept.get_negation c)
          ≡ LiteralConcept.is_always_false c)
      × (LiteralConcept.is_always_false (LiteralConcept.get_negation c)
          ≡ LiteralConcept.is_always_true c)
get_negation_laws c =
    let (canonical, true_false, false_true, back) = literal-NegationLaws c in
    (canonical, true_false, false_true)

-- The negation of the negation of a literal concept is that literal, unless it is the negation of
-- owl:Thing or owl:Nothing.
pub get_negation-get_negation :
    (c : LiteralConcept)
    → IsCanonical c
    → LiteralConcept.get_negation (LiteralConcept.get_negation c) ≡ c
get_negation-get_negation c h =
    let (canonical, true_false, false_true, back) = literal-NegationLaws c in back h

-- The negation of a data range gives the range back when it is repeated, it is always true
-- exactly where the range is always false and the other way round, and it is a negated internal
-- datatype exactly where the range is an internal datatype.
pub get_negation_data_laws :
    (r : LiteralDataRange)
    → (LiteralDataRange.get_negation (LiteralDataRange.get_negation r) ≡ r)
      × (LiteralDataRange.is_always_true (LiteralDataRange.get_negation r)
          ≡ LiteralDataRange.is_always_false r)
      × (LiteralDataRange.is_always_false (LiteralDataRange.get_negation r)
          ≡ LiteralDataRange.is_always_true r)
      × (LiteralDataRange.is_negated_internal_datatype (LiteralDataRange.get_negation r)
          ≡ LiteralDataRange.is_internal_datatype r)
unfolding LiteralDataRange.get_negation LiteralDataRange.is_always_true
    LiteralDataRange.is_always_false LiteralDataRange.is_internal_datatype
    LiteralDataRange.is_negated_internal_datatype
get_negation_data_laws (LiteralDataRange.datatype_restriction r) = (refl, refl, refl, refl)
get_negation_data_laws (LiteralDataRange.constant_enumeration r) = (refl, refl, refl, refl)
get_negation_data_laws (LiteralDataRange.internal_datatype r) = (refl, refl, refl, refl)
get_negation_data_laws (LiteralDataRange.atomic_negation_data_range r) = ground arith

-- A role other than the top and bottom object roles and their formal inverses.
abbrev pub IsProper : Role → Type 0
IsProper (atomic_role r) = (r ≢ top_object_role) × (r ≢ bottom_object_role)
IsProper (inverse_role r) = (r.inverse_of ≢ top_object_role) × (r.inverse_of ≢ bottom_object_role)

-- The inverse of a role other than the top and bottom object roles, and other than an inverse of
-- one, is another such role, has the role as its inverse, and its assertion over two terms is the
-- role's over the swapped terms.
pub get_inverse_laws :
    (r : Role) (t0 t1 : Term)
    → IsProper r
    → IsProper (Role.get_inverse r)
      × (Role.get_inverse (Role.get_inverse r) ≡ r)
      × (Role.get_inverse r ≢ r)
      × (Atom.get_role_assertion (Role.get_inverse r) t0 t1 ≡ Atom.get_role_assertion r t1 t0)
unfolding Role.get_inverse Atom.get_role_assertion
get_inverse_laws (atomic_role r) t0 t1 h =
    ground (arith, ==_iff r top_object_role, ==_iff r bottom_object_role)
get_inverse_laws (inverse_role r) t0 t1 h =
    ground (arith, ==_iff r.inverse_of top_object_role, ==_iff r.inverse_of bottom_object_role)
