-- ===== src/Tableau/TupleIndex/Adding.antt =====
-- `TupleIndex::add_tuple` and `get_tuple_index` as the operations of a map.
use hermit_rs.Base.{
  list_eq, ℕ, ◌≡◌, refl, sym, ap, ◌∙◌, subst, ◌⊎◌, inl, inr, ◌↔◌, false, Option, none, some, List,
  arith, if◌then◌else◌, length, get_elem?, Bool-cases, Option-cases, nat_eq, ◌==◌, get_elem?-lt,
  get_elem?-some,
}
use hermit_rs.Base.Panic.{◌>>=◌}
use hermit_rs.Base.Vectors.{set_elem?, set_elem?-some}
use hermit_rs.Tableau.TupleIndex.{
  EdgeKey, TrieNode, TupleIndex, descend_add, keys_of, add_tuple, get_tuple_index,
}
use hermit_rs.Tableau.TupleIndex.Valid.{IsValid, live-lt}
use hermit_rs.Tableau.TupleIndex.Child.{Grows}
use hermit_rs.Tableau.TupleIndex.Paths.{PathOf, path_unique, path_live, descend_add_lem}
use hermit_rs.Tableau.TupleIndex.Content.{
  Entry, root_live, some_eq, Entry-later, Entry-before, Noted, noted, write-Noted, Entry-here,
  Entry-there, length-keys_of, get_tuple_index_lem,
}

-- The index after `add_tuple`, and the index that it answers: that of the keys, if there is one.
pub record Adds (t : TupleIndex) (v : IsValid t) (ks : List ℕ) (potential : ℕ) (r : TupleIndex × ℕ)
    : Type 0 where
  pub valid : IsValid r.0
  pub sequence : r.0.indexing_sequence ≡ t.indexing_sequence
  pub answer : (Entry v ks r.1) ⊎ ((r.1 ≡ potential) × ((i : ℕ) → ¬ (Entry v ks i)))
  pub here : (i : ℕ) → Entry valid ks i ↔ (i ≡ r.1)
  pub there :
      (js : List ℕ)
      → length ks ≡ length js
      → (ks == js) ≡ false
      → (i : ℕ) → Entry valid js i ↔ Entry v js i

option_ext : (a b : Option ℕ) → ((i : ℕ) → (a ≡ some i) ↔ (b ≡ some i)) → a ≡ b
option_ext none none h = refl
option_ext none (some j) h = (h j).1 refl
option_ext (some i) b h = sym ((h i).0 refl)

-- The index that is there, or the potential one.
abbrev pub answered : (potential : ℕ) → Option ℕ → ℕ
answered potential none = potential
answered potential (some i) = i

answered_eq :
    (t : TupleIndex) (v : IsValid t) (ks : List ℕ) (potential : ℕ) (r : TupleIndex × ℕ)
    (o : Option ℕ)
    → Adds t v ks potential r
    → ((i : ℕ) → (o ≡ some i) ↔ Entry v ks i)
    → r.1 ≡ answered potential o
answered_eq t v ks potential r none a spec = elim a.answer [
  | inl x ↦ absurd (no-Entry ((spec r.1).1 x))
  | inr (x, _) ↦ x
]
  where
    no-Entry : none ≡ some r.1 → ⊥
    no-Entry q = ground arith
answered_eq t v ks potential r (some i) a spec = elim a.answer [
  | inl x ↦ some_eq r.1 i (sym ((spec r.1).1 x))
  | inr (_, x) ↦ absurd (x i ((spec i).0 refl))
]

module _ {ℓ} {T : Type ℓ} ⦃e : EdgeKey T⦄ where
  add_tuple-run_new :
      (t : TupleIndex) (u : List T) (ks : List ℕ) (i : ℕ) (r : TupleIndex × ℕ) (leaf : TrieNode)
      (nodes : List TrieNode)
      → keys_of t.indexing_sequence u ≡ some ks
      → descend_add t t.root ks ≡ some r
      → get_elem? r.0.nodes r.1 ≡ some leaf
      → leaf.tuple_index ≡ none
      → set_elem? r.0.nodes r.1 (record leaf { tuple_index = some i }) ≡ some nodes
      → add_tuple t u i ≡ some (record r.0 { nodes = nodes }, i)
  unfolding add_tuple
  add_tuple-run_new t u ks i r leaf nodes a b c d w = rw (a, ◌>>=◌, b, ◌>>=◌, c, ◌>>=◌, d, w) refl

  add_tuple-run_old :
      (t : TupleIndex) (u : List T) (ks : List ℕ) (i j : ℕ) (r : TupleIndex × ℕ) (leaf : TrieNode)
      → keys_of t.indexing_sequence u ≡ some ks
      → descend_add t t.root ks ≡ some r
      → get_elem? r.0.nodes r.1 ≡ some leaf
      → leaf.tuple_index ≡ some j
      → add_tuple t u i ≡ some (r.0, j)
  unfolding add_tuple
  add_tuple-run_old t u ks i j r leaf a b c d = rw (a, ◌>>=◌, b, ◌>>=◌, c, ◌>>=◌, d) refl

  -- After the descent, with the leaf at hand.
  module _ (t : TupleIndex) (v : IsValid t) (u : List T) (ks : List ℕ) (potential : ℕ)
      (h : keys_of t.indexing_sequence u ≡ some ks) (r : TupleIndex × ℕ) (w : IsValid r.0)
      (g : Grows t v r.0 w) (run : descend_add t t.root ks ≡ some r)
      (path : PathOf w r.0.root ks r.1) (leaf : TrieNode)
      (found : get_elem? r.0.nodes r.1 ≡ some leaf) where
    -- The leaf holds what the trie held.
    Entry-leaf : (i : ℕ) → (leaf.tuple_index ≡ some i) ↔ Entry v ks i
    Entry-leaf i = (
      λ k. Entry-before t v r.0 w g ks i (r.1, (path, (leaf, (found, k)))),
      λ k.
          let (d, (p, (m, (f, q)))) = Entry-later t v r.0 w g ks i k in
          let at : r.1 ≡ d = path_unique r.0 w r.0.root ks r.1 d path p in
          ap (λ y. y.tuple_index) (some_eq leaf m (sym found ∙ ap (get_elem? r.0.nodes) at ∙ f))
          ∙ q,
    )

    Entry-same : (js : List ℕ) (i : ℕ) → Entry w js i ↔ Entry v js i
    Entry-same js i = (Entry-before t v r.0 w g js i, Entry-later t v r.0 w g js i)

    finish_old :
        (j : ℕ)
        → leaf.tuple_index ≡ some j
        → (s : TupleIndex × ℕ) × ((add_tuple t u potential ≡ some s) × Adds t v ks potential s)
    finish_old j k = (
      (r.0, j),
      (
        add_tuple-run_old t u ks potential j r leaf h run found k,
        record {
          valid = w;
          sequence = g.sequence;
          answer = inl ((Entry-leaf j).0 k);
          here = λ i. (
            λ q. some_eq i j (sym ((Entry-leaf i).1 ((Entry-same ks i).0 q)) ∙ k),
            λ q. (Entry-same ks i).1 ((Entry-leaf i).0 (k ∙ ap some (sym q))),
          );
          there = λ js _ _ i. Entry-same js i;
        },
      ),
    )

    finish_new :
        leaf.tuple_index ≡ none
        → (s : TupleIndex × ℕ) × ((add_tuple t u potential ≡ some s) × Adds t v ks potential s)
    finish_new k =
        let (nodes, (wrote, size)) =
          set_elem?-some r.0.nodes r.1 (noted r.0 w r.1 leaf found potential)
            (get_elem?-lt r.0.nodes r.1 found) in
        let N : Noted r.0 w r.1 leaf found potential nodes =
          write-Noted r.0 w r.1 leaf found potential nodes wrote size in
        (
          (record r.0 { nodes = nodes }, potential),
          (
            add_tuple-run_new t u ks potential r leaf nodes h run found k wrote,
            record {
              valid = N.valid;
              sequence = g.sequence;
              answer = inr (refl, λ i q. no-Entry i (sym k ∙ (Entry-leaf i).1 q));
              here = λ i.
                  Entry-here r.0 w r.1 leaf found potential nodes wrote size N ks ks i refl path
                    refl;
              there = λ js same other i.
                  let new =
                    Entry-there r.0 w r.1 leaf found potential nodes wrote size N ks js i same path
                      other in
                  (λ q. (Entry-same js i).0 (new.0 q), λ q. new.1 ((Entry-same js i).1 q));
            },
          ),
        )
      where
        no-Entry : (i : ℕ) → none ≡ some i → ⊥
        no-Entry i q = ground arith

  pub add_tuple_lem :
      (t : TupleIndex) (v : IsValid t) (u : List T) (ks : List ℕ) (potential : ℕ)
      → keys_of t.indexing_sequence u ≡ some ks
      → (r : TupleIndex × ℕ) × ((add_tuple t u potential ≡ some r) × Adds t v ks potential r)
  add_tuple_lem t v u ks potential h =
      let (r, (run, d)) = descend_add_lem t v t.root ks (root_live t v) in
      let w = d.valid in
      let path = subst (λ q. PathOf w q ks r.1) (sym d.grows.root) d.path in
      let (leaf, found) =
        get_elem?-some r.0.nodes r.1
          (live-lt r.0 w r.1 (path_live r.0 w r.0.root ks r.1 (root_live r.0 w) path)) in
      elim (Option-cases leaf.tuple_index) [
        | inl k ↦ finish_new t v u ks potential h r w d.grows run path leaf found k
        | inr (j, k) ↦ finish_old t v u ks potential h r w d.grows run path leaf found j k
      ]

  -- The lookups after the addition.
  lookup_after :
      (t : TupleIndex) (v : IsValid t) (ks : List ℕ) (potential : ℕ) (r : TupleIndex × ℕ)
      → Adds t v ks potential r
      → length ks ≡ length t.indexing_sequence
      → (u : List T) (js : List ℕ) → keys_of t.indexing_sequence u ≡ some js
      → get_tuple_index r.0 u ≡ (if ks == js then some (some r.1) else get_tuple_index t u)
  lookup_after t v ks potential r a size u js h =
      let (o, (look, spec)) =
        get_tuple_index_lem r.0 a.valid u js
          (subst (λ s. keys_of s u ≡ some js) (sym a.sequence) h) in
      let (o', (look', spec')) = get_tuple_index_lem t v u js h in
      elim (Bool-cases (ks == js)) [
        | inl x ↦
            let same : ks ≡ js = (list_eq.beq_iff ks js).0 x in
            let there =
              (spec r.1).1 (subst (λ l. Entry a.valid l r.1) same ((a.here r.1).1 refl)) in
            look
            ∙ ap some there
            ∙ ap (λ b. if b then some (some r.1) else get_tuple_index t u) (sym x)
        | inr x ↦
            let apart = a.there js (size ∙ sym (length-keys_of t.indexing_sequence u js h)) x in
            let same : o ≡ o' = option_ext o o' (λ i. (
              λ q. (spec' i).1 ((apart i).0 ((spec i).0 q)),
              λ q. (spec i).1 ((apart i).1 ((spec' i).0 q)),
            )) in
            look
            ∙ ap some same
            ∙ sym look'
            ∙ ap (λ b. if b then some (some r.1) else get_tuple_index t u) (sym x)
      ]

  -- For a well-formed index and a tuple with the columns of the indexing sequence, `add_tuple`
  -- does not panic, keeps the index well formed, and answers the index that the tuple has, or
  -- the given one if it has none; afterwards `get_tuple_index` gives that answer for every
  -- tuple with the same keys, and for any other tuple what it gave before.
  pub get_tuple_index-add_tuple :
      (t : TupleIndex) (u : List T) (ks : List ℕ) (potential : ℕ)
      → IsValid t
      → keys_of t.indexing_sequence u ≡ some ks
      → (t' : TupleIndex) × ((o : Option ℕ) × (IsValid t'
            × ((get_tuple_index t u ≡ some o)
                × ((add_tuple t u potential ≡ some (t', answered potential o))
                    × ((w : List T) (js : List ℕ)
                        → keys_of t.indexing_sequence w ≡ some js
                        → get_tuple_index t' w ≡ (
                            if ks == js
                            then some (some (answered potential o))
                            else get_tuple_index t w))))))
  get_tuple_index-add_tuple t u ks potential v h =
      let (r, (run, a)) = add_tuple_lem t v u ks potential h in
      let (o, (look, spec)) = get_tuple_index_lem t v u ks h in
      let same = answered_eq t v ks potential r o a spec in
      let size = length-keys_of t.indexing_sequence u ks h in
      (
        r.0,
        (
          o,
          (
            a.valid,
            (
              look,
              (
                run ∙ ap (λ j. some (r.0, j)) same,
                λ w js k.
                    lookup_after t v ks potential r a size w js k
                    ∙ ap (λ j. if ks == js then some (some j) else get_tuple_index t w) same,
              ),
            ),
          ),
        ),
      )
