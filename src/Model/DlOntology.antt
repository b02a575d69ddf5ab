-- ===== src/Model/DlOntology.antt =====
-- dl_ontology.rs, `DLOntology`: the sets that the constructor derives from the clauses and facts, and
-- the roles of the description graphs. `none` is `unreachable!` or, for a loop, fuel that ran out.
pub mod BodyOnly
pub mod GraphRoles
pub mod GraphClosure
pub mod GraphFixpoint
pub mod GraphPasses
pub mod GraphCorrect
use text.Mathlib.Text.{starts_with}
use hermit_rs.Base.{
  String, ℕ, zero, suc, ◌+◌, ◌≡◌, refl, Bool, true, false, not, ◌&&◌, ◌||◌, List, [], ◌∷◌, ◌++◌,
  Option, none, some, Eq, ◌==◌, if◌then◌else◌, nat_eq, length, any, ltb,
}
use hermit_rs.Base.Panic.{◌>>=◌}
use hermit_rs.Collections.HashSet
use hermit_rs.Collections.HashMap
use hermit_rs.Collections.HashMap.{HashMap}
use hermit_rs.Model.Types.{
  Individual, Constant, Term, individual, constant, AtomicRole, Role, DatatypeRestriction,
  AtomicConcept, DescriptionGraph, DlPredicate, Atom, DlClause, LiteralConcept, Edge,
}
use hermit_rs.Model.Sameness.{atomic_concept_eq, atomic_role_eq, individual_eq, constant_eq}

pub record DlOntology : Type 0 where
  pub ontology_iri : String
  pub dl_clauses : List DlClause
  pub positive_facts : List Atom
  pub negative_facts : List Atom
  pub has_inverse_roles : Bool
  pub has_at_most_restrictions : Bool
  pub has_nominals : Bool
  pub has_datatypes : Bool
  pub is_horn : Bool
  pub all_atomic_concepts : List AtomicConcept
  pub number_of_external_concepts : ℕ
  pub all_atomic_object_roles : List AtomicRole
  pub all_complex_object_roles : List Role
  pub all_atomic_data_roles : List AtomicRole
  pub all_unknown_datatype_restrictions : List DatatypeRestriction
  pub defined_datatype_iris : List String
  pub all_individuals : List Individual
  pub all_description_graphs : List DescriptionGraph
  pub data_property_assertions : HashMap AtomicRole (HashMap Individual (List Constant))

-- A description graph is compared by its allocation.
unfoldable pub insert_graph : List DescriptionGraph → DescriptionGraph → List DescriptionGraph
insert_graph gs g = if any (λ h. h.address == g.address) gs then gs else gs ++ g ∷ []

unfoldable pub add_literal_concept : LiteralConcept → List AtomicConcept → List AtomicConcept
add_literal_concept (LiteralConcept.atomic_concept c) cs = HashSet.insert cs c
add_literal_concept (LiteralConcept.atomic_negation_concept c) cs = cs

-- The sets of concepts and of description graphs that the constructor fills.
abbrev pub Signature : Type 0
Signature = List AtomicConcept × List DescriptionGraph

unfoldable pub add_dl_predicate : DlPredicate → Signature → Signature
unfolding add_literal_concept insert_graph
add_dl_predicate (DlPredicate.atomic_concept c) (cs, gs) = (HashSet.insert cs c, gs)
add_dl_predicate (DlPredicate.at_least_concept a) (cs, gs) =
    (add_literal_concept a.to_concept cs, gs)
add_dl_predicate (DlPredicate.description_graph g) (cs, gs) = (cs, insert_graph gs g)
add_dl_predicate (DlPredicate.exists_description_graph e) (cs, gs) =
    (cs, insert_graph gs e.description_graph)
add_dl_predicate _ s = s

-- The predicates of the atoms, the last atom first.
unfoldable pub add_atoms : List Atom → Signature → Signature
unfolding add_dl_predicate
add_atoms [] s = s
add_atoms (a ∷ atoms) s = add_dl_predicate a.dl_predicate (add_atoms atoms s)

-- The loop over the clauses, with `is_horn`.
unfoldable pub add_clauses : List DlClause → Bool → Signature → Bool × Signature
unfolding add_atoms
add_clauses [] is_horn s = (is_horn, s)
add_clauses (c ∷ cs) is_horn s =
    add_clauses cs (if ltb 1 (length c.head_atoms) then false else is_horn)
      (add_atoms c.head_atoms (add_atoms c.body_atoms s))

unfoldable pub add_individuals : List Term → List Individual → List Individual
add_individuals [] is = is
add_individuals (individual i ∷ ts) is = add_individuals ts (HashSet.insert is i)
add_individuals (_ ∷ ts) is = add_individuals ts is

-- `entry(..).or_default()`.
abbrev pub or_default {ℓ κ} : {K : Type ℓ} {V : Type κ} ⦃e : Eq K⦄ → HashMap K (List V) → K → List V
or_default m k = elim (HashMap.get m k) [ none ↦ [] | some v ↦ v ]

abbrev pub Assertions : Type 0
Assertions = HashMap AtomicRole (HashMap Individual (List Constant))

unfoldable pub insert_assertion : Assertions → AtomicRole → Individual → Constant → Assertions
insert_assertion m r i c =
    let by_individual = or_default m r in
    HashMap.insert m r
      (HashMap.insert by_individual i (HashSet.insert (or_default by_individual i) c))

-- The subject and the predicate of a data role assertion.
unfoldable pub add_data_assertion : DlPredicate → Term → Constant → Assertions → Option Assertions
unfolding insert_assertion
add_data_assertion (DlPredicate.atomic_role r) (individual i) c m = some (insert_assertion m r i c)
add_data_assertion _ _ c m = none

unfoldable pub add_assertion : Atom → Assertions → Option Assertions
unfolding add_data_assertion
add_assertion a m = elim a.arguments [
  | t ∷ constant c ∷ [] ↦ add_data_assertion a.dl_predicate t c m
  | _ ↦ some m
]

-- The loop over the positive facts.
unfoldable pub add_positive_facts :
    List Atom
    → Signature
    → List Individual
    → Assertions
    → Option (Signature × List Individual × Assertions)
unfolding add_dl_predicate add_individuals add_assertion
add_positive_facts [] s is m = some (s, is, m)
add_positive_facts (a ∷ atoms) s is m = do
  m' ← add_assertion a m
  add_positive_facts atoms (add_dl_predicate a.dl_predicate s) (add_individuals a.arguments is) m'

-- The loop over the negative facts.
unfoldable pub add_negative_facts :
    List Atom → Signature → List Individual → Signature × List Individual
unfolding add_dl_predicate add_individuals
add_negative_facts [] s is = (s, is)
add_negative_facts (a ∷ atoms) s is =
    add_negative_facts atoms (add_dl_predicate a.dl_predicate s) (add_individuals a.arguments is)

-- `Prefixes::is_internal_iri`.
unfoldable pub is_internal_iri : String → Bool
is_internal_iri iri = starts_with iri "internal:"

unfoldable pub count_external : List AtomicConcept → ℕ
unfolding is_internal_iri
count_external [] = 0
count_external (c ∷ cs) =
    if is_internal_iri c.iri then count_external cs else suc (count_external cs)

abbrev pub unwrap_or_default {ℓ} : {A : Type ℓ} → Option (List A) → List A
unwrap_or_default none = []
unwrap_or_default (some xs) = xs

unfoldable pub new :
    String
    → List DlClause
    → List Atom
    → List Atom
    → Option (List AtomicConcept)
    → Option (List AtomicRole)
    → Option (List Role)
    → Option (List AtomicRole)
    → Option (List DatatypeRestriction)
    → Option (List String)
    → Option (List Individual)
    → Bool
    → Bool
    → Bool
    → Bool
    → Option DlOntology
unfolding count_external add_clauses add_positive_facts add_negative_facts
new ontology_iri dl_clauses positive_facts negative_facts atomic_concepts object_roles complex_roles
      data_roles unknown_restrictions datatype_iris individuals has_inverse_roles
      has_at_most_restrictions has_nominals has_datatypes =
    let concepts = unwrap_or_default atomic_concepts in
    let (is_horn, s) = add_clauses dl_clauses true (concepts, []) in
    (do
      (s1, is1, assertions) ← add_positive_facts positive_facts s (unwrap_or_default individuals) []
      let (s2, is2) = add_negative_facts negative_facts s1 is1
      some (record {
        ontology_iri = ontology_iri;
        dl_clauses = dl_clauses;
        positive_facts = positive_facts;
        negative_facts = negative_facts;
        has_inverse_roles = has_inverse_roles;
        has_at_most_restrictions = has_at_most_restrictions;
        has_nominals = has_nominals;
        has_datatypes = has_datatypes;
        is_horn = is_horn;
        all_atomic_concepts = s2.0;
        number_of_external_concepts = count_external concepts;
        all_atomic_object_roles = unwrap_or_default object_roles;
        all_complex_object_roles = unwrap_or_default complex_roles;
        all_atomic_data_roles = unwrap_or_default data_roles;
        all_unknown_datatype_restrictions = unwrap_or_default unknown_restrictions;
        defined_datatype_iris = unwrap_or_default datatype_iris;
        all_individuals = is2;
        all_description_graphs = s2.1;
        data_property_assertions = assertions;
      }))

-- The concept that an atom of a head takes away.
unfoldable pub remove_literal_concept : LiteralConcept → List AtomicConcept → List AtomicConcept
remove_literal_concept (LiteralConcept.atomic_concept c) cs = HashSet.remove cs c
remove_literal_concept (LiteralConcept.atomic_negation_concept c) cs = cs

unfoldable pub remove_derived : DlPredicate → List AtomicConcept → List AtomicConcept
unfolding remove_literal_concept
remove_derived (DlPredicate.atomic_concept c) cs = HashSet.remove cs c
remove_derived (DlPredicate.at_least_concept l) cs = remove_literal_concept l.to_concept cs
remove_derived _ cs = cs

unfoldable pub remove_head_concepts : List AtomicConcept → List Atom → List AtomicConcept
unfolding remove_derived
remove_head_concepts cs [] = cs
remove_head_concepts cs (a ∷ atoms) = remove_head_concepts (remove_derived a.dl_predicate cs) atoms

unfoldable pub remove_clause_concepts : List AtomicConcept → List DlClause → List AtomicConcept
unfolding remove_head_concepts
remove_clause_concepts cs [] = cs
remove_clause_concepts cs (c ∷ clauses) =
    remove_clause_concepts (remove_head_concepts cs c.head_atoms) clauses

unfoldable pub get_body_only_atomic_concepts : DlOntology → List AtomicConcept
unfolding remove_clause_concepts
get_body_only_atomic_concepts o = remove_clause_concepts o.all_atomic_concepts o.dl_clauses
