-- ===== src/Model/Sameness.antt =====
-- Sameness of handles as a Boolean test (`PartialEq` of the `interned!` types and of the enums over
-- them): structural equality of the canonical contents.
use native.Mathlib.Decide.{ℕ_discrete}
use hermit_rs.Base.{◌≡◌, refl, ◌↔◌, Bool, true, false, String, arith, Eq, string_eq, ◌&&◌, ◌==◌}
use hermit_rs.Model.Types.{
  Variable, Individual, Constant, Term, AtomicRole, AtomicConcept, InternalDatatype, DlPredicate,
}

abbrev discrete_beq {ℓ} : {A : Type ℓ} → Discrete A → A → A → Bool
discrete_beq d a b = elim (d a b) [ yes p ↦ true | no p ↦ false ]

pub discrete_beq_iff {ℓ} :
    {A : Type ℓ} (d : Discrete A) (a b : A) → (discrete_beq d a b ≡ true) ↔ (a ≡ b)
discrete_beq_iff d a b =
    elim (d a b) as (λ c. (elim c [ yes p ↦ true | no p ↦ false ] ≡ true) ↔ (a ≡ b)) [
      | yes p ↦ (λ _. p, λ _. refl)
      | no n ↦ (λ e. cc, λ p. absurd (n p))
    ]

-- A test that decides a proposition, as a decision.
dec_of_test : {P : Type 0} (b : Bool) → (b ≡ true) ↔ P → Dec P
dec_of_test true h = yes (h.0 refl)
dec_of_test false h = no (λ p. cc (h.1 p))

unfoldable pub String-discrete : Discrete String
unfolding dec_of_test
String-discrete s t = dec_of_test (s == t) (string_eq.beq_iff s t)

unfoldable pub DlPredicate-discrete : Discrete DlPredicate
DlPredicate-discrete = hlevel (String-discrete, ℕ_discrete)

instance abbrev pub dl_predicate_eq : Eq DlPredicate
dl_predicate_eq = record {
  beq = discrete_beq DlPredicate-discrete;
  beq_iff = discrete_beq_iff DlPredicate-discrete;
}

pub Variable-beq_iff : (a b : Variable) → ((a.name == b.name) ≡ true) ↔ (a ≡ b)
Variable-beq_iff a b = ground (arith, string_eq.beq_iff a.name b.name)

instance abbrev pub variable_eq : Eq Variable
variable_eq = record { beq = λ a b. a.name == b.name; beq_iff = Variable-beq_iff }

pub Individual-beq_iff : (a b : Individual) → ((a.uri == b.uri) ≡ true) ↔ (a ≡ b)
Individual-beq_iff a b = ground (arith, string_eq.beq_iff a.uri b.uri)

instance abbrev pub individual_eq : Eq Individual
individual_eq = record { beq = λ a b. a.uri == b.uri; beq_iff = Individual-beq_iff }

abbrev constant_beq : Constant → Constant → Bool
constant_beq a b = a.lexical_form == b.lexical_form && a.datatype_uri == b.datatype_uri

pub constant_beq_iff : (a b : Constant) → (constant_beq a b ≡ true) ↔ (a ≡ b)
constant_beq_iff a b = ground (
  arith,
  string_eq.beq_iff a.lexical_form b.lexical_form,
  string_eq.beq_iff a.datatype_uri b.datatype_uri,
)

instance abbrev pub constant_eq : Eq Constant
constant_eq = record { beq = constant_beq; beq_iff = constant_beq_iff }

abbrev term_beq : Term → Term → Bool
term_beq (Term.variable a) (Term.variable b) = a == b
term_beq (Term.individual a) (Term.individual b) = a == b
term_beq (Term.constant a) (Term.constant b) = a == b
term_beq _ _ = false

pub term_beq_iff : (a b : Term) → (term_beq a b ≡ true) ↔ (a ≡ b)
term_beq_iff (Term.variable a) (Term.variable b) = ground (arith, variable_eq.beq_iff a b)
term_beq_iff (Term.individual a) (Term.individual b) = ground (arith, individual_eq.beq_iff a b)
term_beq_iff (Term.constant a) (Term.constant b) = ground (arith, constant_eq.beq_iff a b)
term_beq_iff _ _ = ground arith

instance abbrev pub term_eq : Eq Term
term_eq = record { beq = term_beq; beq_iff = term_beq_iff }

pub AtomicRole-beq_iff : (a b : AtomicRole) → ((a.iri == b.iri) ≡ true) ↔ (a ≡ b)
AtomicRole-beq_iff a b = ground (arith, string_eq.beq_iff a.iri b.iri)

instance abbrev pub atomic_role_eq : Eq AtomicRole
atomic_role_eq = record { beq = λ a b. a.iri == b.iri; beq_iff = AtomicRole-beq_iff }

pub AtomicConcept-beq_iff : (a b : AtomicConcept) → ((a.iri == b.iri) ≡ true) ↔ (a ≡ b)
AtomicConcept-beq_iff a b = ground (arith, string_eq.beq_iff a.iri b.iri)

instance abbrev pub atomic_concept_eq : Eq AtomicConcept
atomic_concept_eq = record { beq = λ a b. a.iri == b.iri; beq_iff = AtomicConcept-beq_iff }

pub InternalDatatype-beq_iff : (a b : InternalDatatype) → ((a.iri == b.iri) ≡ true) ↔ (a ≡ b)
InternalDatatype-beq_iff a b = ground (arith, string_eq.beq_iff a.iri b.iri)

instance abbrev pub internal_datatype_eq : Eq InternalDatatype
internal_datatype_eq = record { beq = λ a b. a.iri == b.iri; beq_iff = InternalDatatype-beq_iff }
