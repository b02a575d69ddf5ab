-- ===== src/Tableau/TupleIndex/Insert.antt =====
-- Adding a node to a `TupleIndex`, and the writes that link it.
use hermit_rs.Base.{
  ℕ, suc, ◌≤◌, ◌<◌, ◌≡◌, refl, sym, ap, ◌∙◌, subst, ◌⊎◌, inl, inr, true, false, some, List, [], ◌∷◌,
  ◌++◌, arith, length, get_elem?, Bool-cases, List-cases, ltb, ==_refl, nat_eq, ◌==◌, length-append,
  get_elem?-some, get_elem?-push, get_elem?-append_left, get_elem?-lt, ltb→lt,
}
use hermit_rs.Base.Panic.{◌>>=◌}
use hermit_rs.Base.Vectors.{set_elem?, set_elem?-some, get_elem?-set_elem?}
use hermit_rs.Collections.HashSet.{contains, IsDistinct}
use hermit_rs.Tableau.TupleIndex.{TrieNode, TupleIndex, empty, update_node, new_trie_node}
use hermit_rs.Tableau.TupleIndex.Links.{SameLink, Keeps}
use hermit_rs.Tableau.TupleIndex.Rehash.{same_edge}
use hermit_rs.Tableau.TupleIndex.Valid.{IsValid, IsBounded, is_live, live-lt}

-- A new node: one that is not in use, in an array that has not changed elsewhere.
pub record NewNode (t : TupleIndex) (v : IsValid t) (nodes' : List TrieNode) (free' : List ℕ)
    (c : ℕ) : Type 0 where
  pub run : new_trie_node t ≡ some (record t { nodes = nodes'; free = free' }, c)
  pub fresh : is_live v c ≡ false
  pub there : get_elem? nodes' c ≡ some empty
  pub others :
      (d : ℕ) (n : TrieNode)
      → (c == d) ≡ false
      → get_elem? t.nodes d ≡ some n
      → get_elem? nodes' d ≡ some n
  pub bounded : IsBounded (length nodes') nodes'
  pub grows : length t.nodes ≤ length nodes'
  pub still_free :
      (f : ℕ) → contains free' f ≡ true → (contains t.free f ≡ true) × ((c == f) ≡ false)
  pub free_distinct : IsDistinct free'

new_at_end :
    (t : TupleIndex) (v : IsValid t)
    → t.free ≡ []
    → NewNode t v (t.nodes ++ empty ∷ []) [] (length t.nodes)
unfolding new_trie_node
new_at_end t v e = record {
  run =
      rw (e, new_trie_node)
        (ap (λ l. some (record t { nodes = t.nodes ++ empty ∷ []; free = l }, length t.nodes)) e);
  fresh = elim (Bool-cases (is_live v (length t.nodes))) [
    | inl x ↦ absurd (omega (arith, live-lt t v (length t.nodes) x))
    | inr x ↦ x
  ];
  there = get_elem?-push t.nodes empty;
  others = λ d n _ f. get_elem?-append_left t.nodes (empty ∷ []) d (get_elem?-lt t.nodes d f) ∙ f;
  bounded = λ d n s f child. elim (Bool-cases (ltb d (length t.nodes))) [
    | inl x ↦ omega (
      arith,
      size,
      v.children d n s
          (sym (get_elem?-append_left t.nodes (empty ∷ []) d (ltb→lt d (length t.nodes) x)) ∙ f)
          child,
    )
    | inr x ↦
        let here : d ≡ length t.nodes =
          ground (arith, get_elem?-lt (t.nodes ++ empty ∷ []) d f, size) in
        absurd (
          no_child n s
            (sym (get_elem?-push t.nodes empty)
              ∙ ap (get_elem? (t.nodes ++ empty ∷ [])) (sym here)
              ∙ f)
            child)
  ];
  grows = omega (arith, size);
  still_free = λ f q. absurd (ground arith);
  free_distinct = tt;
}
  where
    size : length (t.nodes ++ empty ∷ []) ≡ suc (length t.nodes)
    size = omega (arith, length-append t.nodes (empty ∷ []))

    no_child : (n : TrieNode) (s : ℕ) → some empty ≡ some n → n.first_child ≡ some s → ⊥
    no_child n s h k = ground arith

new_from_free :
    (t : TupleIndex) (v : IsValid t) (c : ℕ) (free' : List ℕ)
    → t.free ≡ c ∷ free'
    → (nodes' : List TrieNode) × NewNode t v nodes' free' c
unfolding new_trie_node
new_from_free t v c free' e =
    let (apart, low) =
      v.free_apart c (subst (λ l. contains l c ≡ true) (sym e) (ground (arith, ==_refl c))) in
    let (nodes', (wrote, size)) = set_elem?-some t.nodes c empty low in
    let read = λ (d : ℕ). get_elem?-set_elem? t.nodes nodes' c d empty wrote in
    let (new, rest) = subst IsDistinct e v.free_distinct in
    (
      nodes',
      record {
        run = run-eq nodes' wrote;
        fresh = apart;
        there = read c ∙ ground (arith, ==_refl c);
        others = λ d n ne f. read d ∙ ground arith;
        bounded = λ d n s f child. elim (Bool-cases (c == d)) [
          | inl x ↦ absurd (no_child n s (sym (read d ∙ ground arith) ∙ f) child)
          | inr x ↦
              subst (λ y. s < y) (sym size)
                (v.children d n s (sym (read d ∙ ground arith) ∙ f) child)
        ];
        grows = omega (arith, size);
        still_free = λ f q. (
          subst (λ l. contains l f ≡ true) (sym e) (ground arith),
          ground (arith, nat_eq.beq_iff c f),
        );
        free_distinct = rest;
      },
    )
  where
    run-eq :
        (nodes' : List TrieNode)
        → set_elem? t.nodes c empty ≡ some nodes'
        → new_trie_node t ≡ some (record t { nodes = nodes'; free = free' }, c)
    run-eq nodes' wrote = rw (new_trie_node, e, wrote) refl

    no_child : (n : TrieNode) (s : ℕ) → some empty ≡ some n → n.first_child ≡ some s → ⊥
    no_child n s h k = ground arith

pub new_trie_node_lem :
    (t : TupleIndex) (v : IsValid t)
    → (nodes' : List TrieNode) × ((free' : List ℕ) × ((c : ℕ) × NewNode t v nodes' free' c))
new_trie_node_lem t v = elim (List-cases t.free) [
  | inl e ↦ (t.nodes ++ empty ∷ [], ([], (length t.nodes, new_at_end t v e)))
  | inr (c, free', e) ↦ let (nodes', n) = new_from_free t v c free' e in (nodes', (free', (c, n)))
]

-- A write that keeps the edges and the links.
pub record Touched (size : ℕ) (nodes nodes' : List TrieNode) : Type 0 where
  pub same_size : length nodes' ≡ length nodes
  pub links : (d : ℕ) → Keeps SameLink nodes nodes' d
  pub bounded : IsBounded size nodes → IsBounded size nodes'

pub update_node_lem :
    (size : ℕ) (nodes : List TrieNode) (c : ℕ) (f : TrieNode → TrieNode)
    → c < length nodes
    → ((n : TrieNode) → SameLink n (f n))
    → ((n : TrieNode) (s : ℕ) → (f n).first_child ≡ some s → (n.first_child ≡ some s) ⊎ (s < size))
    → (nodes' : List TrieNode) × ((update_node nodes c f ≡ some nodes') × Touched size nodes nodes')
update_node_lem size nodes c f low same first =
    let (n, found) = get_elem?-some nodes c low in
    let (nodes', (wrote, long)) = set_elem?-some nodes c (f n) low in
    let read = λ (d : ℕ). get_elem?-set_elem? nodes nodes' c d (f n) wrote in
    (
      nodes',
      (
        rw (found, ◌>>=◌) wrote,
        record {
          same_size = long;
          links = λ d m g. elim (Bool-cases (c == d)) [
            | inl x ↦
                let e : n ≡ m =
                  some_eq n m (sym found ∙ ap (get_elem? nodes) ((nat_eq.beq_iff c d).0 x) ∙ g) in
                (f n, (read d ∙ ground arith, subst (λ y. SameLink y (f n)) e (same n)))
            | inr x ↦ (m, (read d ∙ ground arith, record { edge = same_edge m; next_entry = refl }))
          ];
          bounded = λ b d m s g child. elim (Bool-cases (c == d)) [
            | inl x ↦
                let e : f n ≡ m = some_eq (f n) m (sym (read d ∙ ground arith) ∙ g) in
                elim (first n s (ap (λ y. y.first_child) e ∙ child)) [
                  | inl old ↦ b c n s found old
                  | inr new ↦ new
                ]
            | inr x ↦ b d m s (sym (read d ∙ ground arith) ∙ g) child
          ];
        },
      ),
    )
  where
    some_eq : (a b : TrieNode) → some a ≡ some b → a ≡ b
    some_eq a b h = ground arith
