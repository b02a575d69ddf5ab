-- ===== src/Tableau/TupleIndex/Start.antt =====
-- `TupleIndex::new` and `clear` give a well-formed index that holds nothing.
use hermit_rs.Base.{
  ℕ, zero, suc, ◌-◌, ◌≤◌, ◌<◌, ◌≡◌, refl, sym, ap, ◌∙◌, subst, ◌↔◌, true, false, Option, none, some,
  List, [], ◌∷◌, arith, if◌then◌else◌, length, get_elem?, ltb, nat_eq,
}
use hermit_rs.Base.Vectors.{repeat, length-repeat}
use hermit_rs.Collections.HashSet.{contains, IsDistinct}
use hermit_rs.Tableau.TupleIndex.{
  EdgeKey, TrieNode, TupleIndex, empty, clear, new_trie_node, initial_buckets, threshold_of,
  keys_of, get_tuple_index,
}
use hermit_rs.Tableau.TupleIndex.Links.{concat}
use hermit_rs.Tableau.TupleIndex.Rehash.{Table-empty}
use hermit_rs.Tableau.TupleIndex.Valid.{IsValid}
use hermit_rs.Tableau.TupleIndex.Content.{Entry, get_tuple_index_lem, some_eq}

abbrev length_of : TupleIndex → ℕ
length_of t = if ltb (length t.buckets) initial_buckets then initial_buckets else length t.buckets

abbrev cleared : TupleIndex → TupleIndex
cleared t = record t {
  nodes = empty ∷ [];
  free = [];
  root = 0;
  buckets = repeat (length_of t) none;
  buckets_mask = length_of t - 1;
  resize_threshold = threshold_of (length_of t);
  number_of_nodes = 0;
}

clear-eq : (t : TupleIndex) → clear t ≡ some (cleared t)
unfolding clear new_trie_node
clear-eq t = refl

module _ (t : TupleIndex) where
  no_chains : concat (repeat {A = List ℕ} (length_of t) []) ≡ []
  no_chains = (Table-empty (empty ∷ []) 0 0 (length_of t)).1

  no_member : (c : ℕ) → contains (concat (repeat {A = List ℕ} (length_of t) [])) c ≡ false
  no_member c = ap (λ l. contains l c) no_chains

  no_member_at : (c : ℕ) → contains (concat (repeat {A = List ℕ} (length_of t) [])) c ≡ true → ⊥
  no_member_at c h = let x = no_member c in ground arith

  no_child :
      (d : ℕ) (n : TrieNode) (s : ℕ)
      → get_elem? (empty ∷ []) d ≡ some n
      → n.first_child ≡ some s
      → s < 1
  no_child zero n s f e = absurd (ground arith)
  no_child (suc d) n s f e = absurd (ground arith)

  cleared-IsValid : IsValid (cleared t)
  cleared-IsValid = record {
    chains = repeat (length_of t) [];
    table = (Table-empty (empty ∷ []) (length_of t - 1) 0 (length_of t)).0;
    width = omega (arith, length-repeat {A = Option ℕ} (length_of t) none, big);
    distinct = subst IsDistinct (sym no_chains) tt;
    count = ap length (sym no_chains);
    root_apart = no_member 0;
    root_there = omega arith;
    unique = λ p k c d mc md ec ed. absurd (no_member_at c mc);
    parents = λ c n p mc f e. absurd (no_member_at c mc);
    free_apart = λ f h. absurd (ground arith);
    free_distinct = tt;
    children = no_child;
  }
    where
      big : 1 ≤ length_of t
      big = ground arith

  no-Entry : (ks : List ℕ) (i : ℕ) → ¬ (Entry cleared-IsValid ks i)
  unfolding cleared-IsValid
  no-Entry [] i (d, (path, (n, (f, e)))) =
      clash (some_eq empty n (ap (get_elem? (empty ∷ [])) path ∙ f))
    where
      clash : empty ≡ n → ⊥
      clash q = let x = ap (λ y. y.tuple_index) q ∙ e in ground arith
  no-Entry (k ∷ ks) i (d, ((c, (m, _)), _)) = no_member_at c m

module _ {ℓ} {T : Type ℓ} ⦃e : EdgeKey T⦄ where
  -- `clear` does not panic and keeps the indexing sequence; the index is then well formed, and
  -- no tuple with the columns of the sequence has an index in it.
  pub clear_correct :
      (t : TupleIndex)
      → (t' : TupleIndex) × ((clear t ≡ some t')
          × (IsValid t'
              × ((t'.indexing_sequence ≡ t.indexing_sequence)
                  × ((u : List T) (ks : List ℕ)
                      → keys_of t.indexing_sequence u ≡ some ks
                      → get_tuple_index t' u ≡ some none))))
  clear_correct t = (
    cleared t,
    (
      clear-eq t,
      (
        cleared-IsValid t,
        (
          refl,
          λ u ks h.
              let (o, (look, spec)) = get_tuple_index_lem (cleared t) (cleared-IsValid t) u ks h in
              look ∙ ap some (nothing o ks spec),
        ),
      ),
    ),
  )
    where
      nothing :
          (o : Option ℕ) (ks : List ℕ)
          → ((i : ℕ) → (o ≡ some i) ↔ Entry (cleared-IsValid t) ks i)
          → o ≡ none
      nothing none ks spec = refl
      nothing (some i) ks spec = absurd (no-Entry t ks i ((spec i).0 refl))
