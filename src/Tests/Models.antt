-- ===== src/Tests/Models.antt =====
-- Concepts, roles, data ranges and clauses: src/model.
use hermit_rs.Model.DlPredicate
use hermit_rs.Model.AtomicRole.{top_object_role, bottom_object_role}
use hermit_rs.Base.{
  pair_eq, ==_iff, ◌≢◌, ◌↔◌, ◌≡◌, refl, true, false, not, ◌&&◌, ◌||◌, [], ◌∷◌, some, ◌==◌, nat_eq,
  string_eq, any, List,
}
use hermit_rs.Collections.HashSet.{contains}
use hermit_rs.Model.Types.{
  Variable, Constant, AtomicRole, atomic_role, AtomicConcept, LiteralConcept, LiteralDataRange,
  DatatypeRestriction, ConstantEnumeration, DlPredicate, DlClause,
}
use hermit_rs.Model.Sameness.{atomic_role_eq, constant_eq, variable_eq, atomic_concept_eq}
use hermit_rs.Model.LiteralConcept
use hermit_rs.Model.AtomicConcept.{thing}
use hermit_rs.Model.Negation.{IsProper, get_negation-get_negation}
use hermit_rs.Model.ConstantEnumeration
use hermit_rs.Model.ConstantEnumeration.Equality.{same_data_iff, same_data_asymmetric}
use hermit_rs.Model.DlClause.{get_safe_version}
use hermit_rs.Model.DlClause.Safe.{occurs, is_empty_clause, get_safe_version_safe}
use hermit_rs.Model.DlClause.Classify.{
  is_atomic_concept_inclusion, is_atomic_role_inclusion, is_atomic_role_inverse_inclusion,
}
use hermit_rs.Model.DlClause.Shapes.{
  single, concept_atom, role_atom, is_atomic_concept_inclusion_iff,
}
use hermit_rs.Model.DlClause.RoleShapes.{
  is_atomic_role_inclusion_iff, is_atomic_role_inverse_inclusion_iff,
}
use hermit_rs.Model.DlOntology.{DlOntology, get_body_only_atomic_concepts}
use hermit_rs.Model.DlOntology.GraphRoles.{compute_graph_atomic_roles}
use hermit_rs.Model.DlOntology.GraphFixpoint.{IsGraphRole}
use hermit_rs.Model.DlOntology.GraphCorrect.{compute_graph_atomic_roles_correct}
use hermit_rs.Base.Int.{pos}
use hermit_rs.Base.{some}
use hermit_rs.Model.Types.{DescriptionGraph}
use hermit_rs.Model.DlOntology.BodyOnly.{head_derives, contains-get_body_only_atomic_concepts}

abbrev person : AtomicConcept
person = record { iri = "urn:Person" }

abbrev agent : AtomicConcept
agent = record { iri = "urn:Agent" }

abbrev knows : AtomicRole
knows = record { iri = "urn:knows" }

abbrev x : Variable
x = record { name = "X" }

abbrev y : Variable
y = record { name = "Y" }

-- agent(X) :- person(X).
abbrev concept_clause : DlClause
concept_clause = single (concept_atom person x) (concept_atom agent x)

-- knows(X, Y) :- knows(Y, X).
abbrev role_clause : DlClause
role_clause = single (role_atom knows y x) (role_atom knows x y)

-- agent(X) :- .
abbrev head_only : DlClause
head_only = record { head_atoms = concept_atom agent x ∷ []; body_atoms = [] }

abbrev top : DlPredicate
top = DlPredicate.atomic_concept thing

abbrev person_negated : LiteralConcept
person_negated = LiteralConcept.atomic_negation_concept (record { negated_atomic_concept = person })

get_negation-get_negation_example :
    LiteralConcept.get_negation (LiteralConcept.get_negation (LiteralConcept.atomic_concept person))
    ≡ LiteralConcept.atomic_concept person
get_negation-get_negation_example =
    get_negation-get_negation (LiteralConcept.atomic_concept person) tt

abbrev strings : LiteralDataRange
strings = LiteralDataRange.internal_datatype (record { iri = "urn:string" })

no_test : ¬ (false ≡ true)
no_test h = cc

knows-IsProper : IsProper (atomic_role knows)
knows-IsProper = (
  λ e. no_test ((==_iff knows top_object_role).1 e),
  λ e. no_test ((==_iff knows bottom_object_role).1 e),
)

abbrev zero_literal : Constant
zero_literal = record { lexical_form = "0"; datatype_uri = "urn:integer" }

abbrev one_literal : Constant
one_literal = record { lexical_form = "1"; datatype_uri = "urn:integer" }

distinct_literals : zero_literal ≢ one_literal
distinct_literals e = no_test ((==_iff zero_literal one_literal).1 e)

abbrev zero_one : ConstantEnumeration
zero_one = record { constants = zero_literal ∷ one_literal ∷ [] }

abbrev one_zero : ConstantEnumeration
one_zero = record { constants = one_literal ∷ zero_literal ∷ [] }

same_data_iff_example :
    (ConstantEnumeration.same_data zero_one one_zero ≡ true)
    ↔ ((c : Constant) → contains zero_one.constants c ≡ contains one_zero.constants c)
same_data_iff_example = same_data_iff zero_one one_zero (refl, (refl, tt)) (refl, (refl, tt))

same_data_asymmetric_example :
    (ConstantEnumeration.same_data
        (record { constants = zero_literal ∷ zero_literal ∷ [] })
        (record { constants = zero_literal ∷ one_literal ∷ [] })
      ≡ true)
    × (ConstantEnumeration.same_data
          (record { constants = zero_literal ∷ one_literal ∷ [] })
          (record { constants = zero_literal ∷ zero_literal ∷ [] })
        ≡ false)
same_data_asymmetric_example = same_data_asymmetric zero_literal one_literal distinct_literals

abbrev at_least_zero : DatatypeRestriction
at_least_zero = record {
  datatype_uri = "urn:integer";
  facet_uris = "urn:min" ∷ [];
  facet_values = zero_literal ∷ [];
}

top_arity : DlPredicate.arity top ≡ 1
unfolding DlPredicate.arity hermit_rs.Model.AtomicConcept.arity
top_arity = refl

get_safe_version_safe_example :
    (d : DlClause) × (get_safe_version head_only top ≡ some d)
    × (d.head_atoms ≡ head_only.head_atoms)
    × ((v : Variable)
        → occurs d.body_atoms v ≡ (
            occurs head_only.head_atoms v
            || occurs head_only.body_atoms v
            || (is_empty_clause head_only && x == v)))
    × ((v : Variable) → (occurs d.head_atoms v && not (occurs d.body_atoms v)) ≡ false)
get_safe_version_safe_example = get_safe_version_safe head_only top top_arity

is_atomic_concept_inclusion_iff_example :
    (is_atomic_concept_inclusion concept_clause ≡ some true) ↔ (
      (sub super : AtomicConcept) × (v : Variable) × (concept_clause
        ≡ single (concept_atom sub v) (concept_atom super v)))
is_atomic_concept_inclusion_iff_example = is_atomic_concept_inclusion_iff concept_clause

is_atomic_role_inclusion_iff_example : (is_atomic_role_inclusion role_clause ≡ some true) ↔ (
    (sub super : AtomicRole) × (v w : Variable) × (v ≢ w)
    × (role_clause ≡ single (role_atom sub v w) (role_atom super v w)))
is_atomic_role_inclusion_iff_example = is_atomic_role_inclusion_iff role_clause

is_atomic_role_inverse_inclusion_iff_example :
    (is_atomic_role_inverse_inclusion role_clause ≡ some true) ↔ (
      (sub super : AtomicRole) × (v w : Variable) × (v ≢ w)
      × (role_clause ≡ single (role_atom sub v w) (role_atom super w v)))
is_atomic_role_inverse_inclusion_iff_example = is_atomic_role_inverse_inclusion_iff role_clause

abbrev likes : AtomicRole
likes = record { iri = "urn:likes" }

abbrev couple : DescriptionGraph
couple = record {
  address = 0;
  name = "urn:Couple";
  atomic_concepts_by_vertices = person ∷ person ∷ [];
  edges = record { atomic_role = knows; from_vertex = pos 0; to_vertex = pos 1 } ∷ [];
  start_concepts = person ∷ [];
}

-- The ontology of the clauses agent(X) :- person(X) and likes(X, Y) :- knows(X, Y), with a graph.
abbrev small : DlOntology
small = record {
  ontology_iri = "urn:small";
  dl_clauses = concept_clause ∷ single (role_atom knows x y) (role_atom likes x y) ∷ [];
  positive_facts = [];
  negative_facts = [];
  has_inverse_roles = false;
  has_at_most_restrictions = false;
  has_nominals = false;
  has_datatypes = false;
  is_horn = true;
  all_atomic_concepts = person ∷ agent ∷ [];
  number_of_external_concepts = 2;
  all_atomic_object_roles = [];
  all_complex_object_roles = [];
  all_atomic_data_roles = [];
  all_unknown_datatype_restrictions = [];
  defined_datatype_iris = [];
  all_individuals = [];
  all_description_graphs = couple ∷ [];
  data_property_assertions = [];
}

contains-get_body_only_atomic_concepts_example :
    contains (get_body_only_atomic_concepts small) person ≡ (
      contains small.all_atomic_concepts person && not (any (head_derives person) small.dl_clauses))
contains-get_body_only_atomic_concepts_example = contains-get_body_only_atomic_concepts small person

compute_graph_atomic_roles_correct_example :
    (roles : List AtomicRole) × (compute_graph_atomic_roles small ≡ some roles)
    × ((r : AtomicRole)
        → (contains roles r ≡ true) ↔ IsGraphRole small.all_description_graphs small.dl_clauses r)
compute_graph_atomic_roles_correct_example = compute_graph_atomic_roles_correct small
