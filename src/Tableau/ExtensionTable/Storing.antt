-- ===== src/Tableau/ExtensionTable/Storing.antt =====
-- `store_tuple`: its result on a table that holds a list of tuples.
use hermit_rs.Base.{
  ℕ, suc, ◌<◌, ◌≡◌, refl, sym, ap, ◌∙◌, subst, inl, inr, Bool, false, not, ◌&&◌, ◌||◌, none, some,
  List, [], ◌∷◌, ◌++◌, arith, if◌then◌else◌, length, get_elem?, Option-cases, nat_eq, ◌==◌,
  length-append, get_elem?-lt, ==_refl, All,
}
use hermit_rs.Base.Panic.{◌>>=◌}
use hermit_rs.DependencySet.{PermanentDependencySet}
use hermit_rs.DependencySet.Factory.{DependencySetFactory, add_usage}
use hermit_rs.Tableau.Object.{TableauObject}
use hermit_rs.Tableau.TupleTable
use hermit_rs.Tableau.TupleTable.{TupleTable}
use hermit_rs.Tableau.TupleTable.Stored.{Holds, add_tuple_lem}
use hermit_rs.Tableau.TupleIndex
use hermit_rs.Tableau.TupleIndex.{TupleIndex, EdgeKey, keys_of, get_tuple_index}
use hermit_rs.Tableau.TupleIndex.Content.{some_eq}
use hermit_rs.Tableau.TupleIndex.Adding.{get_tuple_index-add_tuple}
use hermit_rs.Tableau.ExtensionTable.{
  ExtensionTable, StoreOutcome, note_dependency_set, note_core, append_tuple, add_to_indexes,
  store_tuple, is_core, get_dependency_set,
}
use hermit_rs.Tableau.ExtensionTable.Marks.{note_core_lem, note_dependency_set_lem}
use hermit_rs.Tableau.ExtensionTable.Indexed.{Indexed, Indexed-added, Indexed-present}

module _ ⦃e : EdgeKey TableauObject⦄ where
  -- The table holds the tuples of a list: in its tuple table, and in every index.
  pub record HoldsTuples (x : ExtensionTable) (us : List (List TableauObject)) : Type 0 where
    pub stored : Holds x.tuple_table us
    pub indexed : All (Indexed x.tuple_table.arity us) x.tuple_indexes

  -- The columns of the indexes have keys in the tuple.
  abbrev pub HasKeys : List TupleIndex → List TableauObject → Type 0
  HasKeys ts u = All (λ t. (ks : List ℕ) × (keys_of t.indexing_sequence u ≡ some ks)) ts

  add_to_indexes_lem :
      (a : ℕ) (us : List (List TableauObject)) (ts : List TupleIndex) (u : List TableauObject)
      → All (Indexed a us) ts
      → HasKeys ts u
      → length u ≡ a
      → ((i : ℕ) → ¬ (get_elem? us i ≡ some u))
      → (ts' : List TupleIndex) × ((add_to_indexes ts u (length us) ≡ some ts')
          × All (Indexed a (us ++ u ∷ [])) ts')
  unfolding add_to_indexes
  add_to_indexes_lem a us [] u x h size absent = ([], (refl, tt))
  add_to_indexes_lem a us (t ∷ ts) u (x, xs) ((ks, h), hs) size absent =
      let (t', (run, y)) = Indexed-added a us t u ks x size h absent in
      let (ts', (runs, ys)) = add_to_indexes_lem a us ts u xs hs size absent in
      (t' ∷ ts', (rw (run, ◌>>=◌, runs) refl, (y, ys)))

  -- The results of `store_tuple`: the tuple was there, or it is new. The new one gets its core flag
  -- and its dependency set, of which a use is added; the other tuples keep theirs.
  pub data Stored (x : ExtensionTable) (us : List (List TableauObject)) (u : List TableauObject)
      (d : PermanentDependencySet) (core : Bool) (f : DependencySetFactory)
      (r : ExtensionTable × (DependencySetFactory × StoreOutcome)) : Type 0 where
    present :
        (i : ℕ)
        → get_elem? us i ≡ some u
        → r.1.1 ≡ StoreOutcome.already_present i
        → HoldsTuples r.0 us
        → ((j : ℕ) → is_core r.0 j ≡ is_core x j)
        → ((j : ℕ) (empty_set : PermanentDependencySet)
            → get_dependency_set r.0 j empty_set ≡ get_dependency_set x j empty_set)
        → r.1.0 ≡ f
        → Stored x us u d core f r
    fresh :
        ((i : ℕ) → ¬ (get_elem? us i ≡ some u))
        → r.1.1 ≡ StoreOutcome.added (length us)
        → HoldsTuples r.0 (us ++ u ∷ [])
        → r.0.after_delta_new ≡ suc (length us)
        → ((j : ℕ)
            → is_core r.0 j ≡ (if length us == j then core || not x.is_real_core else is_core x j))
        → ((j : ℕ) (empty_set : PermanentDependencySet)
            → get_dependency_set r.0 j empty_set ≡ (
                if length us == j && x.needs_dependency_sets
                then d
                else get_dependency_set x j empty_set))
        → r.1.0 ≡ (if x.needs_dependency_sets then add_usage f d else f)
        → Stored x us u d core f r

  append_tuple_lem :
      (x : ExtensionTable) (us : List (List TableauObject)) (ts : List TupleIndex)
      (u : List TableauObject) (d : PermanentDependencySet) (core : Bool) (f : DependencySetFactory)
      → Holds x.tuple_table us
      → length u ≡ x.tuple_table.arity
      → All (Indexed x.tuple_table.arity (us ++ u ∷ [])) ts
      → ((i : ℕ) → ¬ (get_elem? us i ≡ some u))
      → (r : ExtensionTable × (DependencySetFactory × StoreOutcome)) × ((append_tuple x ts u d core
              f
              (length us)
            ≡ some r)
          × Stored x us u d core f r)
  unfolding append_tuple TupleTable.get_first_free_tuple_index is_core get_dependency_set
  append_tuple_lem x us ts u d core f h size indexed absent =
      let (t, (added, (holds, same))) = add_tuple_lem x.tuple_table us u h size in
      let (sets, (noted, sets_eq)) = note_dependency_set_lem x (length us) d in
      let (flags, (marked, flags_eq)) = note_core_lem x (length us) core in
      let y : ExtensionTable = record x {
        tuple_table = t;
        tuple_indexes = ts;
        dependency_sets = sets;
        core_flags = flags;
        after_delta_new = t.first_free_tuple_index;
      } in
      (
        (y, (if x.needs_dependency_sets then add_usage f d else f, StoreOutcome.added (length us))),
        (
          rw (append_tuple, added, ◌>>=◌, noted, ◌>>=◌, marked, ◌>>=◌) refl,
          Stored.fresh absent refl
              (record {
                stored = holds;
                indexed = subst (λ a. All (Indexed a (us ++ u ∷ [])) ts) (sym same) indexed;
              })
              (holds.first_free ∙ omega (arith, length-append us (u ∷ []))) flags_eq sets_eq refl,
        ),
      )

  store_tuple-fresh :
      (x : ExtensionTable) (t : TupleIndex) (ts : List TupleIndex) (u : List TableauObject)
      (d : PermanentDependencySet) (core : Bool) (f : DependencySetFactory) (n : ℕ)
      (t' : TupleIndex) (ts' : List TupleIndex)
      → x.tuple_indexes ≡ t ∷ ts
      → x.tuple_table.first_free_tuple_index ≡ n
      → TupleIndex.add_tuple t u n ≡ some (t', n)
      → add_to_indexes ts u n ≡ some ts'
      → store_tuple x u d core f ≡ append_tuple x (t' ∷ ts') u d core f n
  unfolding store_tuple TupleTable.get_first_free_tuple_index append_tuple note_dependency_set
      note_core
  store_tuple-fresh x t ts u d core f n t' ts' shape first run runs =
      rw (store_tuple, shape, first, run, ◌>>=◌, ==_refl n, runs, ◌>>=◌) refl

  store_tuple-present :
      (x : ExtensionTable) (t : TupleIndex) (ts : List TupleIndex) (u : List TableauObject)
      (d : PermanentDependencySet) (core : Bool) (f : DependencySetFactory) (i : ℕ)
      (t' : TupleIndex)
      → x.tuple_indexes ≡ t ∷ ts
      → TupleIndex.add_tuple t u x.tuple_table.first_free_tuple_index ≡ some (t', i)
      → (i == x.tuple_table.first_free_tuple_index) ≡ false
      → store_tuple x u d core f
        ≡ some (record x { tuple_indexes = t' ∷ ts }, (f, StoreOutcome.already_present i))
  unfolding store_tuple TupleTable.get_first_free_tuple_index
  store_tuple-present x t ts u d core f i t' shape run other =
      rw (store_tuple, shape, run, ◌>>=◌, other) refl

  -- For a table with an index that holds a list of tuples, which each index finds at their
  -- places and no others, and a tuple of its arity for which the indexes have keys,
  -- `store_tuple` does not panic: if the tuple is in the list, the outcome is its place, and
  -- the table holds the same list with the same core flags and dependency sets; if not, the
  -- outcome is the next place, the table holds the list with the tuple at its end, the tuple
  -- has the core flag and the dependency set given, which is used once more, where the table
  -- keeps them, the others have theirs as before, and the window of new tuples ends behind it.
  pub store_tuple_correct :
      (x : ExtensionTable) (us : List (List TableauObject)) (u : List TableauObject)
      (d : PermanentDependencySet) (core : Bool) (f : DependencySetFactory)
      → HoldsTuples x us
      → length u ≡ x.tuple_table.arity
      → HasKeys x.tuple_indexes u
      → 0 < length x.tuple_indexes
      → (r : ExtensionTable × (DependencySetFactory × StoreOutcome)) × ((store_tuple x u d core f
            ≡ some r)
          × Stored x us u d core f r)
  unfolding is_core get_dependency_set
  store_tuple_correct x us u d core f holds size keys nonempty =
      go x.tuple_indexes refl holds.indexed keys nonempty
    where
      no_index : (i : ℕ) → none ≡ some i → ⊥
      no_index i q = ground arith

      go :
          (ts : List TupleIndex)
          → x.tuple_indexes ≡ ts
          → All (Indexed x.tuple_table.arity us) ts
          → HasKeys ts u
          → 0 < length ts
          → (r : ExtensionTable × (DependencySetFactory × StoreOutcome)) × ((store_tuple x u d core
                  f
                ≡ some r)
              × Stored x us u d core f r)
      go [] shape ys ks some_index = absurd (omega arith)
      go (t ∷ ts) shape (y, ys) ((ks, h), hs) some_index =
          let free = x.tuple_table.first_free_tuple_index in
          let a = x.tuple_table.arity in
          let first : free ≡ length us = holds.stored.first_free in
          let (_, (o, (_, (look, _)))) = get_tuple_index-add_tuple t u ks free y.valid h in
          elim (Option-cases o) [
            | inl q ↦
                let absent : (i : ℕ) → ¬ (get_elem? us i ≡ some u) = λ i g.
                  no_index i
                    (sym q ∙ some_eq o (some i) (sym look ∙ (y.found u ks i size h).1 g)) in
                let (t', (run, y')) = Indexed-added a us t u ks y size h absent in
                let (ts', (runs, ys')) = add_to_indexes_lem a us ts u ys hs size absent in
                let (r, (done, stored)) =
                  append_tuple_lem x us (t' ∷ ts') u d core f holds.stored size (y', ys') absent in
                (
                  r,
                  (
                    store_tuple-fresh x t ts u d core f (length us) t' ts' shape first run runs
                        ∙ done,
                    stored,
                  ),
                )
            | inr (i, q) ↦
                let there : get_elem? us i ≡ some u =
                  (y.found u ks i size h).0 (look ∙ ap some q) in
                let (t', (run, y')) = Indexed-present a us t u ks free i y size h there in
                let other : (i == free) ≡ false =
                  ground (arith, get_elem?-lt us i there, nat_eq.beq_iff i free) in
                let z : ExtensionTable = record x { tuple_indexes = t' ∷ ts } in
                (
                  (z, (f, StoreOutcome.already_present i)),
                  (
                    store_tuple-present x t ts u d core f i t' shape run other,
                    Stored.present i there refl
                        (record { stored = holds.stored; indexed = (y', ys) }) (λ j. refl)
                        (λ j empty_set. refl) refl,
                  ),
                )
          ]
