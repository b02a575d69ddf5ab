-- ===== src/Tests/Storage.antt =====
-- The storage of the tableau: src/tableau/ground_disjunction_header.rs, tuple_table.rs and
-- tuple_index.rs.
use hermit_rs.Base.{
  ℕ, ◌+◌, ◌≤◌, ◌<◌, ◌≡◌, refl, sym, ◌∙◌, subst, ◌↔◌, Bool, true, Option, none, some, List, [], ◌∷◌,
  ◌++◌, map, arith, if◌then◌else◌, length, nat_eq, ◌==◌,
}
use hermit_rs.Base.Int.{pos}
use hermit_rs.Base.Vectors.{unwrap_all, repeat}
use mathlib.Core.Option
use hermit_rs.Base.{list_eq, string_eq}
use hermit_rs.Model.Types.{DlPredicate, AtomicConcept, LiteralConcept, Role}
use hermit_rs.Model.DlPredicate.{arity}
use hermit_rs.Tableau.GroundDisjunctionHeader
use hermit_rs.Tableau.GroundDisjunctionHeader.{
  DisjunctIndexWithBacktrackings, find_number, increase_number_of_backtrackings,
}
use hermit_rs.Tableau.GroundDisjunctionHeader.Order.{
  new_correct, indexes_of, is_other, is_negative, is_positive,
}
use hermit_rs.Tableau.GroundDisjunctionHeader.Start.{new-IsValid}
use hermit_rs.Tableau.GroundDisjunctionHeader.Valid.{IsValid}
use hermit_rs.Tableau.GroundDisjunctionHeader.Backtracking.{increase-IsValid, find_number-increase}
use hermit_rs.Tableau.GroundDisjunctionHeader.Offsets.{disjunct_start-new, total_arity}
use hermit_rs.Tableau.TupleTable
use hermit_rs.Tableau.TupleTable.{TupleTable}
use hermit_rs.Tableau.TupleTable.Stored.{Holds}
use hermit_rs.Tableau.TupleTable.Removal.{retrieve_tuple-add_tuple}
use hermit_rs.Tableau.TupleTable.Comparison.{tuple_equals_indexed_correct, Agree, projected}
use hermit_rs.Tableau.Object.Keys.{object_key}
use hermit_rs.Tableau.TupleIndex
use hermit_rs.Tableau.TupleIndex.{TupleIndex, EdgeKey, keys_of}
use hermit_rs.Tableau.TupleIndex.Start.{clear_correct}
use hermit_rs.Tableau.TupleIndex.Growth.{get_child_node-resize_buckets}
use hermit_rs.Tableau.TupleIndex.Adding.{get_tuple_index-add_tuple, answered}

abbrev edge_role : Role
edge_role = Role.atomic_role (record { iri = "r" })

abbrev pub some_class : AtomicConcept
some_class = record { iri = "A" }

-- ≥ 1 r.A, ≥ 1 r.¬A, A: one predicate of each group, in the order opposite to that of the slots.
abbrev second_predicate : DlPredicate
second_predicate = DlPredicate.at_least_concept (record {
  number = pos 1;
  on_role = edge_role;
  to_concept =
      LiteralConcept.atomic_negation_concept (record { negated_atomic_concept = some_class });
})

abbrev predicates : List DlPredicate
predicates =
    DlPredicate.at_least_concept (record {
      number = pos 1;
      on_role = edge_role;
      to_concept = LiteralConcept.atomic_concept some_class;
    })
    ∷ second_predicate
    ∷ DlPredicate.atomic_concept some_class
    ∷ []

abbrev entry : ℕ → ℕ → DisjunctIndexWithBacktrackings
entry index number = record { disjunct_index = index; number_of_backtrackings = pos number }

abbrev header : GroundDisjunctionHeader.GroundDisjunctionHeader
header = record {
  dl_predicates = predicates;
  disjunct_start = 0 ∷ 1 ∷ 2 ∷ [];
  disjunct_indexes_with_backtrackings = entry 2 0 ∷ entry 1 0 ∷ entry 0 0 ∷ [];
  first_at_least_positive_index = 2;
  first_at_least_negative_index = 1;
}

new_correct_test : GroundDisjunctionHeader.new predicates ≡ some header
unfolding GroundDisjunctionHeader.new GroundDisjunctionHeader.fill_slots
    GroundDisjunctionHeader.count_at_least GroundDisjunctionHeader.collect_starts
    GroundDisjunctionHeader.is_at_least_over_negated_atomic unwrap_all arity
new_correct_test = refl

pub some_eq {ℓ} : {A : Type ℓ} (a b : A) → some a ≡ some b → a ≡ b
some_eq a b h = ground arith

header-IsValid : IsValid header
header-IsValid =
    let (h, (run, valid)) = new-IsValid predicates in
    subst IsValid (some_eq h header (sym run ∙ new_correct_test)) valid

new_correct_example :
    let other = indexes_of is_other 0 predicates in
    let negative = indexes_of is_negative 0 predicates in
    let positive = indexes_of is_positive 0 predicates in
    GroundDisjunctionHeader.new predicates
    ≡ some (record {
      dl_predicates = predicates;
      disjunct_start = GroundDisjunctionHeader.collect_starts 0 predicates;
      disjunct_indexes_with_backtrackings =
          map GroundDisjunctionHeader.new_entry (other ++ (negative ++ positive));
      first_at_least_positive_index = length other + length negative;
      first_at_least_negative_index = length other;
    })
new_correct_example = new_correct predicates

new-IsValid_example :
    (h : GroundDisjunctionHeader.GroundDisjunctionHeader) × ((GroundDisjunctionHeader.new predicates
        ≡ some h)
      × IsValid h)
new-IsValid_example = new-IsValid predicates

increase-IsValid_example :
    (r : GroundDisjunctionHeader.GroundDisjunctionHeader) × ((increase_number_of_backtrackings
          header 1
        ≡ some r)
      × IsValid r)
unfolding find_number
increase-IsValid_example = increase-IsValid header 1 header-IsValid (λ e. ground arith)

find_number-increase_example :
    (r : GroundDisjunctionHeader.GroundDisjunctionHeader) × ((increase_number_of_backtrackings
          header 1
        ≡ some r)
      × ((i : ℕ)
          → find_number r.disjunct_indexes_with_backtrackings i ≡ (
              if 1 == i
              then Option.map GroundDisjunctionHeader.increment
                  (find_number header.disjunct_indexes_with_backtrackings i)
              else find_number header.disjunct_indexes_with_backtrackings i)))
find_number-increase_example = find_number-increase header 1 header-IsValid

disjunct_start-new_example :
    (h : GroundDisjunctionHeader.GroundDisjunctionHeader) × ((GroundDisjunctionHeader.new predicates
        ≡ some h)
      × ((s : ℕ) × ((GroundDisjunctionHeader.disjunct_start h 1 ≡ some s)
            × ((s + arity second_predicate ≤ total_arity predicates)
                × ((j t : ℕ)
                    → 1 < j
                    → GroundDisjunctionHeader.disjunct_start h j ≡ some t
                    → s + arity second_predicate ≤ t)))))
disjunct_start-new_example = disjunct_start-new predicates 1 second_predicate refl

-- A table with room for two pairs, of which one is stored.
abbrev pairs : TupleTable ℕ
pairs = record {
  arity = 2;
  objects = some 7 ∷ some 8 ∷ none ∷ none ∷ [];
  first_free_tuple_index = 1;
}

pairs-Holds : Holds pairs ((7 ∷ 8 ∷ []) ∷ [])
pairs-Holds = record {
  stores = record {
    has_columns = omega arith;
    arities = (refl, tt);
    rest = none ∷ none ∷ [];
    objects = refl;
  };
  first_free = refl;
}

retrieve_tuple-add_tuple_example :
    (r : TupleTable ℕ) × ((TupleTable.add_tuple pairs (5 ∷ 6 ∷ []) ≡ some (r, 1))
      × ((TupleTable.retrieve_tuple r 1 ≡ some (some 5 ∷ some 6 ∷ []))
          × ((i : ℕ) → i < 1 → TupleTable.retrieve_tuple r i ≡ TupleTable.retrieve_tuple pairs i)))
retrieve_tuple-add_tuple_example =
    retrieve_tuple-add_tuple pairs ((7 ∷ 8 ∷ []) ∷ []) (5 ∷ 6 ∷ []) pairs-Holds refl

tuple_equals_indexed_correct_example :
    (b : Bool) × ((TupleTable.tuple_equals_indexed pairs (8 ∷ 7 ∷ []) (1 ∷ 0 ∷ []) 0 2 ≡ some b)
      × ((b ≡ true) ↔ Agree {T = ℕ} (7 ∷ 8 ∷ []) (projected (8 ∷ 7 ∷ []) (1 ∷ 0 ∷ [])) 2))
tuple_equals_indexed_correct_example =
    tuple_equals_indexed_correct pairs ((7 ∷ 8 ∷ []) ∷ []) (8 ∷ 7 ∷ []) (1 ∷ 0 ∷ []) 0 2
      (7 ∷ 8 ∷ []) pairs-Holds.stores refl (omega arith) (omega arith)
      (omega arith, (omega arith, tt))

instance abbrev number_key : EdgeKey ℕ
number_key = record {
  unique_key = λ n. some n;
  unique_key_inj = λ x y k p q. some_eq x y (p ∙ sym q);
}

-- The index over the second and the first column.
abbrev raw_index : TupleIndex
raw_index = record {
  indexing_sequence = 1 ∷ 0 ∷ [];
  nodes = [];
  free = [];
  root = 0;
  buckets = [];
  buckets_mask = 0;
  resize_threshold = 0;
  number_of_nodes = 0;
}

clear_correct_example :
    (t' : TupleIndex) × ((TupleIndex.clear raw_index ≡ some t')
      × (TupleIndex.Valid.IsValid t'
          × ((t'.indexing_sequence ≡ 1 ∷ 0 ∷ [])
              × ((u : List ℕ) (ks : List ℕ)
                  → keys_of (1 ∷ 0 ∷ []) u ≡ some ks
                  → TupleIndex.get_tuple_index {T = ℕ} t' u ≡ some none))))
clear_correct_example = clear_correct raw_index

abbrev pub first_index : TupleIndex
first_index = record {
  indexing_sequence = 1 ∷ 0 ∷ [];
  nodes = TupleIndex.empty ∷ [];
  free = [];
  root = 0;
  buckets = repeat 1024 none;
  buckets_mask = 1023;
  resize_threshold = 819;
  number_of_nodes = 0;
}

clear_test : TupleIndex.clear raw_index ≡ some first_index
unfolding TupleIndex.clear TupleIndex.new_trie_node
clear_test = refl

first_index-IsValid : TupleIndex.Valid.IsValid first_index
first_index-IsValid =
    let (t, (run, (valid, _))) = clear_correct {T = ℕ} raw_index in
    subst TupleIndex.Valid.IsValid (index_eq t first_index (sym run ∙ clear_test)) valid
  where
    index_eq : (a b : TupleIndex) → some a ≡ some b → a ≡ b
    index_eq a b h = ground arith

get_child_node-resize_buckets_example :
    (t' : TupleIndex) × ((TupleIndex.resize_buckets first_index ≡ some t')
      × (TupleIndex.Valid.IsValid t'
          × ((p k : ℕ)
              → (o : Option ℕ) × ((TupleIndex.get_child_node first_index p k ≡ some o)
                  × (TupleIndex.get_child_node t' p k ≡ some o)))))
get_child_node-resize_buckets_example =
    get_child_node-resize_buckets first_index first_index-IsValid

get_tuple_index-add_tuple_example :
    (t' : TupleIndex) × ((o : Option ℕ) × (TupleIndex.Valid.IsValid t'
        × ((TupleIndex.get_tuple_index {T = ℕ} first_index (5 ∷ 7 ∷ []) ≡ some o)
            × ((TupleIndex.add_tuple {T = ℕ} first_index (5 ∷ 7 ∷ []) 3 ≡ some (t', answered 3 o))
                × ((w : List ℕ) (js : List ℕ)
                    → keys_of (1 ∷ 0 ∷ []) w ≡ some js
                    → TupleIndex.get_tuple_index {T = ℕ} t' w ≡ (
                        if (7 ∷ 5 ∷ []) == js
                        then some (some (answered 3 o))
                        else TupleIndex.get_tuple_index {T = ℕ} first_index w))))))
unfolding keys_of
get_tuple_index-add_tuple_example =
    get_tuple_index-add_tuple first_index (5 ∷ 7 ∷ []) (7 ∷ 5 ∷ []) 3 first_index-IsValid refl
