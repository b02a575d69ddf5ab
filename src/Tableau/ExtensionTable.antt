-- ===== src/Tableau/ExtensionTable.antt =====
-- src/tableau/extension_table.rs: the tuples of one arity that were derived, with their indexes, their
-- dependency sets, their core flags, and the windows of the semi-naive evaluation.
pub mod Indexed
pub mod Marks
pub mod Storing
pub mod Start
use hermit_rs.Base.{
  ℕ, zero, suc, ◌+◌, ◌-◌, ◌*◌, ◌<◌, ◌≡◌, Bool, true, false, not, ◌&&◌, Option, none, some, List, [],
  ◌∷◌, ◌++◌, if◌then◌else◌, length, get_elem?, ltb, leb, nat_eq, ◌==◌,
}
use hermit_rs.Base.Panic.{◌>>=◌}
use hermit_rs.Base.Vectors.{set_elem?, repeat}
use hermit_rs.DependencySet.{PermanentDependencySet}
use hermit_rs.DependencySet.Factory.{DependencySetFactory, add_usage}
use hermit_rs.Tableau.Object.{TableauObject}
use hermit_rs.Tableau.TupleTable
use hermit_rs.Tableau.TupleTable.{TupleTable}
use hermit_rs.Tableau.TupleIndex
use hermit_rs.Tableau.TupleIndex.{TupleIndex, EdgeKey}

pub data View : Type 0 where
  extension_this : View
  extension_old : View
  delta_old : View
  total : View

pub data StoreOutcome : Type 0 where
  added : ℕ → StoreOutcome
  already_present : ℕ → StoreOutcome

pub record ExtensionTable : Type 0 where
  pub arity : ℕ
  pub tuple_table : TupleTable TableauObject
  pub needs_dependency_sets : Bool
  pub tuple_indexes : List TupleIndex
  pub dependency_sets : List (Option PermanentDependencySet)
  pub core_flags : List Bool
  pub is_real_core : Bool
  pub after_extension_old : ℕ
  pub after_extension_this : ℕ
  pub after_delta_new : ℕ
  pub indices_by_branching_point : List ℕ

-- `resize` to at least the given length, filled with the last argument.
abbrev pub extend {ℓ} : {A : Type ℓ} → List A → ℕ → A → List A
extend v len x = if ltb (length v) len then v ++ repeat (len - length v) x else v

unfoldable pub new_indexes : List (List ℕ) → Option (List TupleIndex)
new_indexes [] = some []
new_indexes (s ∷ ss) = TupleIndex.new s >>= λ t. new_indexes ss >>= λ ts. some (t ∷ ts)

unfoldable pub new : ℕ → Bool → List (List ℕ) → Bool → Option ExtensionTable
new arity needs_dependency_sets indexing_sequences is_real_core =
    new_indexes indexing_sequences >>= λ indexes. some (record {
      arity = arity;
      tuple_table = TupleTable.new arity;
      needs_dependency_sets = needs_dependency_sets;
      tuple_indexes = indexes;
      dependency_sets = [];
      core_flags = [];
      is_real_core = is_real_core;
      after_extension_old = 0;
      after_extension_this = 0;
      after_delta_new = 0;
      indices_by_branching_point = repeat 6 0;
    })

unfoldable pub new_binary_extension_table : Bool → Option ExtensionTable
unfolding new
new_binary_extension_table needs = new 2 needs ((1 ∷ 0 ∷ []) ∷ (0 ∷ 1 ∷ []) ∷ []) true

unfoldable pub new_ternary_extension_table : Bool → Option ExtensionTable
unfolding new
new_ternary_extension_table needs =
    new 3 needs ((0 ∷ 1 ∷ 2 ∷ []) ∷ (1 ∷ 2 ∷ 0 ∷ []) ∷ (2 ∷ 0 ∷ 1 ∷ []) ∷ []) false

unfoldable pub get_tuple_object : ExtensionTable → ℕ → ℕ → Option TableauObject
get_tuple_object x tuple_index object_index =
    TupleTable.get_tuple_object x.tuple_table tuple_index object_index >>= λ slot. slot

unfoldable pub get_dependency_set :
    ExtensionTable → ℕ → PermanentDependencySet → PermanentDependencySet
get_dependency_set x tuple_index empty_set =
    if x.needs_dependency_sets
    then elim (get_elem? x.dependency_sets tuple_index >>= λ d. d) [ none ↦ empty_set | some d ↦ d ]
    else empty_set

unfoldable pub is_core : ExtensionTable → ℕ → Bool
is_core x tuple_index =
    if x.is_real_core
    then elim (get_elem? x.core_flags tuple_index) [ none ↦ false | some b ↦ b ]
    else true

unfoldable pub add_core : ExtensionTable → ℕ → Option ExtensionTable
add_core x tuple_index =
    if x.is_real_core
    then (set_elem? (extend x.core_flags (suc tuple_index) false) tuple_index true >>= λ flags.
        some (record x { core_flags = flags }))
    else some x

-- The dependency sets and the core flags with those of a new tuple.
unfoldable pub note_dependency_set :
    ExtensionTable → ℕ → PermanentDependencySet → Option (List (Option PermanentDependencySet))
note_dependency_set x idx d =
    if x.needs_dependency_sets
    then set_elem? (extend x.dependency_sets (suc idx) none) idx (some d)
    else some x.dependency_sets

unfoldable pub note_core : ExtensionTable → ℕ → Bool → Option (List Bool)
note_core x idx core =
    if x.is_real_core
    then set_elem? (extend x.core_flags (suc idx) false) idx core
    else some x.core_flags

-- The table with a tuple that was not there, which the indexes have already.
unfoldable pub append_tuple :
    ExtensionTable
    → List TupleIndex
    → List TableauObject
    → PermanentDependencySet
    → Bool
    → DependencySetFactory
    → ℕ
    → Option (ExtensionTable × (DependencySetFactory × StoreOutcome))
append_tuple x indexes tuple d core f idx = TupleTable.add_tuple x.tuple_table tuple >>= λ a.
    note_dependency_set x idx d >>= λ sets. note_core x idx core >>= λ flags. some (
      record x {
        tuple_table = a.0;
        tuple_indexes = indexes;
        dependency_sets = sets;
        core_flags = flags;
        after_delta_new = TupleTable.get_first_free_tuple_index a.0;
      },
      (if x.needs_dependency_sets then add_usage f d else f, StoreOutcome.added idx),
    )

module _ ⦃e : EdgeKey TableauObject⦄ where
  -- By the primary index, the first one.
  unfoldable pub get_tuple_index : ExtensionTable → List TableauObject → Option (Option ℕ)
  get_tuple_index x tuple = elim x.tuple_indexes [
    | [] ↦ none
    | primary ∷ others ↦ TupleIndex.get_tuple_index primary tuple
  ]

  unfoldable pub add_to_indexes :
      List TupleIndex → List TableauObject → ℕ → Option (List TupleIndex)
  add_to_indexes [] tuple i = some []
  add_to_indexes (t ∷ ts) tuple i = TupleIndex.add_tuple t tuple i >>= λ r.
      add_to_indexes ts tuple i >>= λ rest. some (r.0 ∷ rest)

  unfoldable pub store_tuple :
      ExtensionTable
      → List TableauObject
      → PermanentDependencySet
      → Bool
      → DependencySetFactory
      → Option (ExtensionTable × (DependencySetFactory × StoreOutcome))
  store_tuple x tuple d core f =
      let first_free = TupleTable.get_first_free_tuple_index x.tuple_table in
      elim x.tuple_indexes [
        | [] ↦ none
        | primary ∷ others ↦ TupleIndex.add_tuple primary tuple first_free >>= λ r.
            if r.1 == first_free
            then (add_to_indexes others tuple r.1 >>= λ rest.
                append_tuple x (r.0 ∷ rest) tuple d core f r.1)
            else some
                (record x { tuple_indexes = r.0 ∷ others }, (f, StoreOutcome.already_present r.1))
      ]

unfoldable pub upgrade_core : ExtensionTable → ℕ → Bool → Option (ExtensionTable × Bool)
unfolding is_core add_core
upgrade_core x tuple_index core =
    if core && not (is_core x tuple_index)
    then (add_core x tuple_index >>= λ y. some (y, true))
    else some (x, false)

unfoldable pub propagate_delta_new : ExtensionTable → ExtensionTable × Bool
propagate_delta_new x = (
  record x {
    after_extension_old = x.after_extension_this;
    after_extension_this = x.after_delta_new;
    after_delta_new = TupleTable.get_first_free_tuple_index x.tuple_table;
  },
  not (x.after_extension_this == x.after_delta_new),
)

unfoldable pub branching_point_pushed : ExtensionTable → ℕ → Option ExtensionTable
branching_point_pushed x level =
    let start = level * 3 in
    set_elem? (extend x.indices_by_branching_point (start + 3) 0) start x.after_extension_old
    >>= λ v. set_elem? v (start + 1) x.after_extension_this >>= λ w.
        set_elem? w (start + 2) x.after_delta_new >>= λ indices.
        some (record x { indices_by_branching_point = indices })

unfoldable pub clear_indexes : List TupleIndex → Option (List TupleIndex)
clear_indexes [] = some []
clear_indexes (t ∷ ts) = TupleIndex.clear t >>= λ c. clear_indexes ts >>= λ cs. some (c ∷ cs)

unfoldable pub clear : ExtensionTable → Option ExtensionTable
clear x = clear_indexes x.tuple_indexes >>= λ indexes. some (record x {
  tuple_table = TupleTable.clear x.tuple_table;
  tuple_indexes = indexes;
  dependency_sets = [];
  core_flags = [];
  after_extension_old = 0;
  after_extension_this = 0;
  after_delta_new = 0;
})

unfoldable pub view_range : ExtensionTable → View → ℕ × ℕ
view_range x View.extension_this = (0, x.after_extension_this)
view_range x View.extension_old = (0, x.after_extension_old)
view_range x View.delta_old = (x.after_extension_old, x.after_extension_this)
view_range x View.total = (0, x.after_delta_new)
