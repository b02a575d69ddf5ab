-- ===== src/Tests/Tables.antt =====
-- The elements of the tuples, src/tableau/object.rs, and the tables of src/tableau/extension_table.rs.
use hermit_rs.Base.{
  ℕ, zero, suc, ◌+◌, ◌<◌, ◌≡◌, refl, sym, ◌∙◌, subst, true, Option, none, some, List, [], ◌∷◌,
  arith, if◌then◌else◌, nat_eq, ◌==◌, ◌⊎◌, inl, ◌^◌, Bool-cases, inr, ap, ◌*◌, false, suc,
}
use hermit_rs.Base.Vectors.{repeat}
use hermit_rs.Base.{list_eq, string_eq}
use hermit_rs.Model.Types.{Concept, NegatedAtomicRole, DlPredicate}
use hermit_rs.Tableau.TupleTable
use hermit_rs.Tableau.TupleTable.{TupleTable}
use hermit_rs.Tableau.ExtensionTable
use hermit_rs.Tableau.ExtensionTable.{
  ExtensionTable, StoreOutcome, new_indexes, new_binary_extension_table, store_tuple,
}
use hermit_rs.Tableau.ExtensionTable.Start
use hermit_rs.Tableau.ExtensionTable.Storing.{HoldsTuples, Stored, store_tuple_correct}
use hermit_rs.DependencySet.{PermanentDependencySet}
use hermit_rs.DependencySet.Factory.{DependencySetFactory, fresh}
use hermit_rs.Tableau.Object.{
  TableauObject, Interned, Allocations, unique_key, tag_and_inner, concept_raw_key,
  dl_predicate_raw_key,
}
use hermit_rs.Tableau.Object.Keys.{unique_key_inj, object_key}
use hermit_rs.Model.Sameness.{AtomicConcept-beq_iff, AtomicRole-beq_iff}
use hermit_rs.Tableau.TupleIndex
use hermit_rs.Tableau.TupleIndex.{TupleIndex, EdgeKey, keys_of}
use hermit_rs.Tests.Storage.{some_eq, some_class, first_index}

-- Two allocations, of `A` and of the negation of `r`.
abbrev address_of : Interned → Option ℕ
address_of (Interned.atomic_concept c) = if c.iri == "A" then some 4096 else none
address_of (Interned.negated_atomic_role r) =
    if r.negated_atomic_role.iri == "r" then some 8192 else none
address_of _ = none

abbrev negated_edge : NegatedAtomicRole
negated_edge = record { negated_atomic_role = record { iri = "r" } }

no_value : (a : ℕ) → none ≡ some a → ⊥
no_value a h = ground arith

placed :
    (x : Interned) (a : ℕ)
    → address_of x ≡ some a
    → ((x ≡ Interned.atomic_concept some_class) × (a ≡ 4096))
      ⊎ ((x ≡ Interned.negated_atomic_role negated_edge) × (a ≡ 8192))
placed (Interned.atomic_concept c) a h = elim (Bool-cases (c.iri == "A")) [
  | inl e ↦
      let here : 4096 ≡ a = some_eq 4096 a (sym (rw e refl) ∙ h) in
      inl (ap Interned.atomic_concept ((AtomicConcept-beq_iff c some_class).0 e), sym here)
  | inr e ↦ absurd (no_value a (sym (rw e refl) ∙ h))
]
placed (Interned.atomic_role x) a h = absurd (no_value a h)
placed (Interned.at_least_concept x) a h = absurd (no_value a h)
placed (Interned.at_least_data_range x) a h = absurd (no_value a h)
placed (Interned.annotated_equality x) a h = absurd (no_value a h)
placed (Interned.node_ids_ascending_or_equal x) a h = absurd (no_value a h)
placed (Interned.datatype_restriction x) a h = absurd (no_value a h)
placed (Interned.constant_enumeration x) a h = absurd (no_value a h)
placed (Interned.internal_datatype x) a h = absurd (no_value a h)
placed (Interned.atomic_negation_data_range x) a h = absurd (no_value a h)
placed (Interned.description_graph x) a h = absurd (no_value a h)
placed (Interned.exists_description_graph x) a h = absurd (no_value a h)
placed (Interned.atomic_negation_concept x) a h = absurd (no_value a h)
placed (Interned.negated_atomic_role r) a h = elim (Bool-cases (r.negated_atomic_role.iri == "r")) [
  | inl e ↦
      let here : 8192 ≡ a = some_eq 8192 a (sym (rw e refl) ∙ h) in
      inr (
        ap (λ i. Interned.negated_atomic_role (record { negated_atomic_role = i }))
            ((AtomicRole-beq_iff r.negated_atomic_role (record { iri = "r" })).0 e),
        sym here,
      )
  | inr e ↦ absurd (no_value a (sym (rw e refl) ∙ h))
]

abbrev allocations : Allocations
allocations = record {
  address = address_of;
  apart = λ x y a p q. elim (placed x a p) [
    | inl (e, b) ↦ elim (placed y a q) [
      | inl (e', c) ↦ e ∙ sym e'
      | inr (e', c) ↦ absurd (omega (arith, b, c))
    ]
    | inr (e, b) ↦ elim (placed y a q) [
      | inl (e', c) ↦ absurd (omega (arith, b, c))
      | inr (e', c) ↦ e ∙ sym e'
    ]
  ];
  above = λ x a p. elim (placed x a p) [
    | inl (e, b) ↦ omega (arith, b)
    | inr (e, b) ↦ omega (arith, b)
  ];
  below = λ x a p. elim (placed x a p) [
    | inl (e, b) ↦ subst (λ n. n < 2 ^ 48) (sym b) (omega arith)
    | inr (e, b) ↦ subst (λ n. n < 2 ^ 48) (sym b) (omega arith)
  ];
}

-- The predicate `A` and the concept `A` have one address, and different keys.
unique_key_test :
    (unique_key allocations (TableauObject.dl_predicate (DlPredicate.atomic_concept some_class))
      ≡ some (2 ^ 61 + 4096))
    × ((unique_key allocations (TableauObject.concept (Concept.atomic_concept some_class))
          ≡ some 4096)
        × (unique_key allocations (TableauObject.node 7) ≡ some (2 ^ 63 + 7)))
unfolding unique_key tag_and_inner concept_raw_key dl_predicate_raw_key
unique_key_test = (refl, (refl, refl))

keys_of_test :
    keys_of ⦃e = object_key allocations⦄
      (1 ∷ 0 ∷ [])
      (TableauObject.concept (Concept.atomic_concept some_class) ∷ TableauObject.node 7 ∷ [])
    ≡ some ((2 ^ 63 + 7) ∷ 4096 ∷ [])
unfolding keys_of unique_key tag_and_inner concept_raw_key dl_predicate_raw_key
keys_of_test = refl

unique_key_inj_example :
    TableauObject.negated_atomic_role negated_edge ≡ TableauObject.negated_atomic_role negated_edge
unfolding unique_key tag_and_inner
unique_key_inj_example =
    unique_key_inj allocations (TableauObject.negated_atomic_role negated_edge)
      (TableauObject.negated_atomic_role negated_edge) (2 ^ 62 + 8192) refl refl

-- A new table of two columns, and a tuple for it.
abbrev empty_index : List ℕ → TupleIndex
empty_index sequence = record first_index { indexing_sequence = sequence }

abbrev binary_table : ExtensionTable
binary_table = record {
  arity = 2;
  tuple_table = record {
    arity = 2;
    objects = repeat (2 * TupleTable.page_size) none;
    first_free_tuple_index = 0;
  };
  needs_dependency_sets = false;
  tuple_indexes = empty_index (1 ∷ 0 ∷ []) ∷ empty_index (0 ∷ 1 ∷ []) ∷ [];
  dependency_sets = [];
  core_flags = [];
  is_real_core = true;
  after_extension_old = 0;
  after_extension_this = 0;
  after_delta_new = 0;
  indices_by_branching_point = repeat 6 0;
}

new_binary_test : new_binary_extension_table false ≡ some binary_table
unfolding new_binary_extension_table ExtensionTable.new new_indexes TupleIndex.new TupleIndex.clear
    TupleIndex.new_trie_node TupleTable.new TupleTable.clear
new_binary_test = refl

swapped-Covers : Start.Covers 2 (1 ∷ 0 ∷ [])
swapped-Covers zero low = (1, refl)
swapped-Covers (suc zero) low = (0, refl)
swapped-Covers (suc (suc c)) low = absurd (omega arith)

straight-Covers : Start.Covers 2 (0 ∷ 1 ∷ [])
straight-Covers zero low = (0, refl)
straight-Covers (suc zero) low = (1, refl)
straight-Covers (suc (suc c)) low = absurd (omega arith)

binary_table-HoldsTuples : HoldsTuples ⦃e = object_key allocations⦄ binary_table []
unfolding new_binary_extension_table
binary_table-HoldsTuples =
    let (x, (run, (holds, _))) =
      Start.new-HoldsTuples ⦃e = object_key allocations⦄ 2 false ((1 ∷ 0 ∷ []) ∷ (0 ∷ 1 ∷ []) ∷ [])
        true (omega arith) (swapped-Covers, (straight-Covers, tt)) in
    subst (λ y. HoldsTuples ⦃e = object_key allocations⦄ y [])
      (some_eq x binary_table (sym run ∙ new_binary_test)) holds

abbrev class_of_node : List TableauObject
class_of_node =
    TableauObject.concept (Concept.atomic_concept some_class) ∷ TableauObject.node 7 ∷ []

no_points : PermanentDependencySet
no_points = record { points = []; address = 0 }

abbrev factory : DependencySetFactory
factory = fresh 0

store_tuple_correct_example :
    (r : ExtensionTable × (DependencySetFactory × StoreOutcome)) × ((store_tuple
          ⦃e = object_key allocations⦄ binary_table class_of_node no_points true factory
        ≡ some r)
      × Stored ⦃e = object_key allocations⦄ binary_table [] class_of_node no_points true factory r)
unfolding keys_of unique_key tag_and_inner concept_raw_key
store_tuple_correct_example =
    store_tuple_correct ⦃e = object_key allocations⦄ binary_table [] class_of_node no_points true
      factory binary_table-HoldsTuples refl
      (((2 ^ 63 + 7) ∷ 4096 ∷ [], refl), ((4096 ∷ (2 ^ 63 + 7) ∷ [], refl), tt)) (omega arith)
