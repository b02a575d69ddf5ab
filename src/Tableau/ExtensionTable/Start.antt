-- ===== src/Tableau/ExtensionTable/Start.antt =====
-- New and cleared extension tables hold no tuples.
use hermit_rs.Base.{
  ℕ, suc, ◌<◌, ◌≡◌, refl, sym, ap, ◌∙◌, subst, Bool, none, some, List, [], ◌∷◌, arith, length,
  get_elem?, All,
}
use hermit_rs.Base.Vectors.{repeat}
use hermit_rs.Base.Panic.{◌>>=◌}
use hermit_rs.Tableau.Object.{TableauObject}
use hermit_rs.Tableau.TupleTable
use hermit_rs.Tableau.TupleTable.{TupleTable}
use hermit_rs.Tableau.TupleTable.Removal.{new-Holds}
use hermit_rs.Tableau.TupleIndex
use hermit_rs.Tableau.TupleIndex.{TupleIndex, EdgeKey, keys_of}
use hermit_rs.Tableau.TupleIndex.Start.{clear_correct}
use hermit_rs.Tableau.ExtensionTable.{ExtensionTable, new, new_indexes}
use hermit_rs.Tableau.ExtensionTable.Indexed.{Indexed}
use hermit_rs.Tableau.ExtensionTable.Storing.{HoldsTuples}

-- An indexing sequence has all columns.
abbrev pub Covers : ℕ → List ℕ → Type 0
Covers a s = (c : ℕ) → c < a → (j : ℕ) × (get_elem? s j ≡ some c)

module _ ⦃e : EdgeKey TableauObject⦄ where
  cleared-Indexed :
      (a : ℕ) (t : TupleIndex)
      → Covers a t.indexing_sequence
      → (t' : TupleIndex) × ((TupleIndex.clear t ≡ some t')
          × (Indexed {T = TableauObject} a [] t' × (t'.indexing_sequence ≡ t.indexing_sequence)))
  cleared-Indexed a t covers =
      let (t', (run, (valid, (sequence, nothing)))) = clear_correct t in
      (
        t',
        (
          run,
          (
            record {
              valid = valid;
              covers = subst (Covers a) (sym sequence) covers;
              found = λ u ks i size h. (
                λ q. absurd (
                    clash i
                      (sym (nothing u ks (subst (λ s. keys_of s u ≡ some ks) sequence h)) ∙ q)),
                λ q. absurd (no_tuple i u q),
              );
            },
            sequence,
          ),
        ),
      )
    where
      clash : (i : ℕ) → some none ≡ some (some i) → ⊥
      clash i q = ground arith

      no_tuple : (i : ℕ) (u : List TableauObject) → get_elem? [] i ≡ some u → ⊥
      no_tuple i u q = ground arith

  new_indexes_lem :
      (a : ℕ) (ss : List (List ℕ))
      → All (Covers a) ss
      → (ts : List TupleIndex) × ((new_indexes ss ≡ some ts)
          × (All (Indexed {T = TableauObject} a []) ts × (length ts ≡ length ss)))
  unfolding new_indexes TupleIndex.new
  new_indexes_lem a [] h = ([], (refl, (tt, refl)))
  new_indexes_lem a (s ∷ ss) (h, hs) =
      let (t, (run, (x, _))) =
        cleared-Indexed a
          (record {
            indexing_sequence = s;
            nodes = [];
            free = [];
            root = 0;
            buckets = [];
            buckets_mask = 0;
            resize_threshold = 0;
            number_of_nodes = 0;
          })
          h in
      let (ts, (runs, (xs, size))) = new_indexes_lem a ss hs in
      (t ∷ ts, (rw (run, ◌>>=◌, runs) refl, ((x, xs), ap suc size)))

  -- A new table whose indexing sequences have all columns holds no tuple.
  pub new-HoldsTuples :
      (arity : ℕ) (needs : Bool) (ss : List (List ℕ)) (real : Bool)
      → 0 < arity
      → All (Covers arity) ss
      → (x : ExtensionTable) × ((new arity needs ss real ≡ some x)
          × (HoldsTuples x [] × (length x.tuple_indexes ≡ length ss)))
  unfolding new TupleTable.new TupleTable.clear
  new-HoldsTuples arity needs ss real h covers =
      let (ts, (run, (xs, size))) = new_indexes_lem arity ss covers in
      let x : ExtensionTable = record {
        arity = arity;
        tuple_table = TupleTable.new arity;
        needs_dependency_sets = needs;
        tuple_indexes = ts;
        dependency_sets = [];
        core_flags = [];
        is_real_core = real;
        after_extension_old = 0;
        after_extension_this = 0;
        after_delta_new = 0;
        indices_by_branching_point = repeat 6 0;
      } in
      (x, (rw (new, run) refl, (record { stored = new-Holds arity h; indexed = xs }, size)))
