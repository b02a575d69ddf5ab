-- ===== src/Tableau/TupleIndex/Child.antt =====
-- `TupleIndex::get_child_node_add_if_necessary`: a node for an edge, found or new.
use hermit_rs.Base.{
  ℕ, suc, ◌<◌, ◌≡◌, refl, sym, ap, ◌∙◌, subst, inl, inr, Bool, true, false, ◌||◌, Option, none,
  some, List, arith, if◌then◌else◌, length, get_elem?, Bool-cases, ==_refl, nat_eq, ◌==◌, leb,
  get_elem?-some, get_elem?-lt,
}
use hermit_rs.Base.Panic.{◌>>=◌}
use hermit_rs.Base.Vectors.{set_elem?, set_elem?-some, get_elem?-set_elem?, length-set_elem?}
use hermit_rs.Collections.HashSet.{contains}
use hermit_rs.Tableau.TupleIndex.{
  TrieNode, TupleIndex, update_node, new_trie_node, bucket_of, insert_child, get_child_node,
  resize_buckets, get_child_node_add_if_necessary,
}
use hermit_rs.Tableau.TupleIndex.Links.{
  SameEdge, SameLink, Keeps, concat, Table, Table-push, Pushed,
}
use hermit_rs.Tableau.TupleIndex.Find.{IsEdge, Finds}
use hermit_rs.Tableau.TupleIndex.Rehash.{same_edge, bucket_of-lt}
use hermit_rs.Tableau.TupleIndex.Valid.{
  IsValid, IsBounded, is_live, live-lt, members, member-found, get_child_node_lem, Resized,
  resize_buckets_lem,
}
use hermit_rs.Tableau.TupleIndex.Insert.{NewNode, new_trie_node_lem, Touched, update_node_lem}

-- The index after the operation: it has the old nodes with their edges and tuples, and new ones
-- without a tuple.
pub record Grows (t : TupleIndex) (v : IsValid t) (t' : TupleIndex) (w : IsValid t') : Type 0 where
  pub root : t'.root ≡ t.root
  pub sequence : t'.indexing_sequence ≡ t.indexing_sequence
  pub more : (d : ℕ) → contains (members v) d ≡ true → contains (members w) d ≡ true
  pub kept : (d : ℕ) → is_live v d ≡ true → Keeps SameEdge t.nodes t'.nodes d
  pub no_tuple :
      (d : ℕ) (n : TrieNode)
      → is_live v d ≡ false
      → contains (members w) d ≡ true
      → get_elem? t'.nodes d ≡ some n
      → n.tuple_index ≡ none

-- A node with an edge, in an index that has grown.
pub record Gives (t : TupleIndex) (v : IsValid t) (p k : ℕ) (r : TupleIndex × ℕ) : Type 0 where
  pub valid : IsValid r.0
  pub grows : Grows t v r.0 valid
  pub member : contains (members valid) r.1 ≡ true
  pub edge : IsEdge r.0.nodes p k r.1

-- The node that the source writes for the edge.
abbrev full : (p k : ℕ) (sibling head : Option ℕ) → TrieNode
full p k sibling head = record {
  parent = some p;
  first_child = none;
  previous_sibling = none;
  next_sibling = sibling;
  tuple_index = none;
  next_entry = head;
  key = k;
}

abbrev link_sibling : List TrieNode → ℕ → Option ℕ → Option (List TrieNode)
link_sibling nodes c first = elim first [
  | none ↦ some nodes
  | some s ↦ update_node nodes s (λ n. record n { previous_sibling = some c })
]

link_sibling_lem :
    (size : ℕ) (nodes : List TrieNode) (c : ℕ) (first : Option ℕ)
    → ((s : ℕ) → first ≡ some s → s < length nodes)
    → (nodes' : List TrieNode) × ((link_sibling nodes c first ≡ some nodes')
        × Touched size nodes nodes')
link_sibling_lem size nodes c none low = (
  nodes,
  (
    refl,
    record {
      same_size = refl;
      links = λ d n f. (n, (f, record { edge = same_edge n; next_entry = refl }));
      bounded = λ b. b;
    },
  ),
)
link_sibling_lem size nodes c (some s) low =
    update_node_lem size nodes s (λ n. record n { previous_sibling = some c }) (low s refl)
      (λ n. record {
        edge = record { parent = refl; key = refl; tuple_index = refl };
        next_entry = refl;
      })
      (λ n x h. inl h)

-- The writes of `insert_child`, one after the other.
insert_child-run :
    (t : TupleIndex) (p k : ℕ) (nodes' : List TrieNode) (free' : List ℕ) (c : ℕ) (pn : TrieNode)
    (nodes₁ nodes₂ nodes₃ : List TrieNode) (head : Option ℕ) (buckets' : List (Option ℕ))
    → new_trie_node t ≡ some (record t { nodes = nodes'; free = free' }, c)
    → get_elem? nodes' p ≡ some pn
    → link_sibling nodes' c pn.first_child ≡ some nodes₁
    → update_node nodes₁ p (λ n. record n { first_child = some c }) ≡ some nodes₂
    → get_elem? t.buckets (bucket_of k p t.buckets_mask) ≡ some head
    → update_node nodes₂ c (λ n. full p k pn.first_child head) ≡ some nodes₃
    → set_elem? t.buckets (bucket_of k p t.buckets_mask) (some c) ≡ some buckets'
    → insert_child t p k
      ≡ some (
        record t {
          nodes = nodes₃;
          free = free';
          buckets = buckets';
          number_of_nodes = suc t.number_of_nodes;
        },
        c,
      )
unfolding insert_child
insert_child-run t p k nodes' free' c pn nodes₁ nodes₂ nodes₃ head buckets' e₀ e₁ e₂ e₃ e₄ e₅ e₆ =
    rw (e₀, ◌>>=◌, e₁, ◌>>=◌, e₂, ◌>>=◌, e₃, ◌>>=◌, e₄, ◌>>=◌, e₅, ◌>>=◌, e₆) refl

-- The index after the writes, given what they have done.
module _ (t : TupleIndex) (v : IsValid t) (p k : ℕ) (live : is_live v p ≡ true)
    (no_edge : (c : ℕ) → contains (members v) c ≡ true → ¬ (IsEdge t.nodes p k c))
    (nodes' : List TrieNode) (free' : List ℕ) (c : ℕ) (new : NewNode t v nodes' free' c) where
  abbrev inserted : List TrieNode → List (Option ℕ) → TupleIndex
  inserted nodes buckets = record t {
    nodes = nodes;
    free = free';
    buckets = buckets;
    number_of_nodes = suc t.number_of_nodes;
  }

  not_new : (d : ℕ) → is_live v d ≡ true → (c == d) ≡ false
  not_new d h = elim (Bool-cases (c == d)) [
    | inl x ↦
        absurd (clash (subst (λ y. is_live v y ≡ false) ((nat_eq.beq_iff c d).0 x) new.fresh) h)
    | inr x ↦ x
  ]
    where
      clash : is_live v d ≡ false → is_live v d ≡ true → ⊥
      clash a b = ground arith

  module _ (nodes : List TrieNode) (buckets : List (Option ℕ)) (chains : List (List ℕ))
      (sibling head : Option ℕ) (pushed : Pushed c v.chains chains)
      (table : Table nodes t.buckets_mask 0 buckets chains)
      (width : length buckets ≡ suc t.buckets_mask) (size : length nodes ≡ length nodes')
      (at : get_elem? nodes c ≡ some (full p k sibling head))
      (kept : (d : ℕ) → (c == d) ≡ false → Keeps SameEdge t.nodes nodes d)
      (bounded : IsBounded (length nodes) nodes) where
    -- An edge of an old node is an old edge.
    old-IsEdge :
        (q j d : ℕ) → contains (members v) d ≡ true → IsEdge nodes q j d → IsEdge t.nodes q j d
    old-IsEdge q j d m (x, (found, (parent, key))) =
        let (n, (before, _)) = member-found t v d m in
        let (y, (after, same)) = kept d (not_new d (ground arith)) n before in
        let e : y ≡ x = some_eq y x (sym after ∙ found) in
        (
          n,
          (
            before,
            (
              sym same.parent ∙ ap (λ z. z.parent) e ∙ parent,
              sym same.key ∙ ap (λ z. z.key) e ∙ key,
            ),
          ),
        )
      where
        some_eq : (a b : TrieNode) → some a ≡ some b → a ≡ b
        some_eq a b h = ground arith

    -- The edge of the new node.
    new_edge : (q j : ℕ) → IsEdge nodes q j c → (p ≡ q) × (k ≡ j)
    new_edge q j (x, (found, (parent, key))) =
        let e : full p k sibling head ≡ x = some_eq x (sym at ∙ found) in
        (inj (ap (λ z. z.parent) e ∙ parent), ap (λ z. z.key) e ∙ key)
      where
        some_eq : (b : TrieNode) → some (full p k sibling head) ≡ some b → full p k sibling head ≡ b
        some_eq b h = ground arith

        inj : some p ≡ some q → p ≡ q
        inj h = ground arith

    apart :
        (q j d : ℕ) → contains (members v) d ≡ true → IsEdge nodes q j c → ¬ (IsEdge nodes q j d)
    apart q j d m new other =
        let (e, e') = new_edge q j new in
        no_edge d m (
          subst (λ x. IsEdge t.nodes x k d) (sym e)
            (subst (λ y. IsEdge t.nodes q y d) (sym e') (old-IsEdge q j d m other)))

    new_parent : (n : TrieNode) (q : ℕ) → get_elem? nodes c ≡ some n → n.parent ≡ some q → p ≡ q
    new_parent n q found parent = (new_edge q n.key (n, (found, (parent, refl)))).0

    inserted-IsValid : IsValid (inserted nodes buckets)
    inserted-IsValid = record {
      chains = chains;
      table = table;
      width = width;
      distinct = pushed.distinct (ground (arith, new.fresh)) v.distinct;
      count = omega (arith, v.count, pushed.size);
      root_apart = ground (
        arith,
        pushed.members t.root,
        v.root_apart,
        not_new t.root (ground (arith, ==_refl t.root)),
      );
      root_there = omega (arith, size, new.grows, v.root_there);
      unique = λ q j x y mx my ex ey. elim (Bool-cases (c == x)) [
        | inl a ↦ elim (Bool-cases (c == y)) [
          | inl b ↦ ground arith
          | inr b ↦ absurd (
              apart q j y (ground (arith, pushed.members y))
                (subst (IsEdge nodes q j) (sym ((nat_eq.beq_iff c x).0 a)) ex) ey)
        ]
        | inr a ↦ elim (Bool-cases (c == y)) [
          | inl b ↦ absurd (
              apart q j x (ground (arith, pushed.members x))
                (subst (IsEdge nodes q j) (sym ((nat_eq.beq_iff c y).0 b)) ey) ex)
          | inr b ↦
              let mx' : contains (members v) x ≡ true = ground (arith, pushed.members x) in
              let my' : contains (members v) y ≡ true = ground (arith, pushed.members y) in
              v.unique q j x y mx' my' (old-IsEdge q j x mx' ex) (old-IsEdge q j y my' ey)
        ]
      ];
      parents = λ x n q mx found parent. elim (Bool-cases (c == x)) [
        | inl a ↦
            let e =
              new_parent n q (ap (get_elem? nodes) ((nat_eq.beq_iff c x).0 a) ∙ found) parent in
            subst (λ y. (t.root == y || contains (concat chains) y) ≡ true) e
              (ground (arith, pushed.members p, live))
        | inr a ↦
            let mx' : contains (members v) x ≡ true = ground (arith, pushed.members x) in
            let (n', (found', (parent', _))) =
              old-IsEdge q n.key x mx' (n, (found, (parent, refl))) in
            ground (arith, pushed.members q, v.parents x n' q mx' found' parent')
      ];
      free_apart = λ f h.
          let (old, other) = new.still_free f h in
          let (gone, low) = v.free_apart f old in
          (ground (arith, pushed.members f), omega (arith, size, new.grows));
      free_distinct = new.free_distinct;
      children = bounded;
    }

    inserted-members :
        (d : ℕ) → contains (members inserted-IsValid) d ≡ (c == d || contains (members v) d)
    unfolding inserted-IsValid
    inserted-members d = pushed.members d

    inserted-Gives : Gives t v p k (inserted nodes buckets, c)
    inserted-Gives = record {
      valid = inserted-IsValid;
      grows = record {
        root = refl;
        sequence = refl;
        more = λ d h. ground (arith, inserted-members d);
        kept = λ d h. kept d (not_new d h);
        no_tuple = λ d n h m found. elim (Bool-cases (c == d)) [
          | inl a ↦ no_tuple_at n (ap (get_elem? nodes) ((nat_eq.beq_iff c d).0 a) ∙ found)
          | inr a ↦ absurd (ground (arith, inserted-members d))
        ];
      };
      member = ground (arith, inserted-members c, ==_refl c);
      edge = (full p k sibling head, (at, (refl, refl)));
    }
      where
        no_tuple_at : (n : TrieNode) → get_elem? nodes c ≡ some n → n.tuple_index ≡ none
        no_tuple_at n found = ap (λ z. z.tuple_index) (sym (some_eq n (sym at ∙ found)))
          where
            some_eq :
                (b : TrieNode) → some (full p k sibling head) ≡ some b → full p k sibling head ≡ b
            some_eq b h = ground arith

  -- The last writes: the new node and its bucket.
  write_full :
      (nodes₂ : List TrieNode) (sibling head : Option ℕ)
      → ((d : ℕ) → (c == d) ≡ false → Keeps SameLink t.nodes nodes₂ d)
      → IsBounded (length nodes') nodes₂
      → length nodes₂ ≡ length nodes'
      → get_elem? t.buckets (bucket_of k p t.buckets_mask) ≡ some head
      → (nodes₃ : List TrieNode) × ((buckets' : List (Option ℕ)) × ((update_node nodes₂ c
                (λ n. full p k sibling head)
              ≡ some nodes₃)
            × ((set_elem? t.buckets (bucket_of k p t.buckets_mask) (some c) ≡ some buckets')
                × Gives t v p k (inserted nodes₃ buckets', c))))
  write_full nodes₂ sibling head kept₂ bounded₂ size₂ read =
      let node = full p k sibling head in
      let b = bucket_of k p t.buckets_mask in
      let low : c < length nodes₂ = omega (arith, size₂, get_elem?-lt nodes' c new.there) in
      let (old, there) = get_elem?-some nodes₂ c low in
      let (nodes₃, (wrote, size₃)) = set_elem?-some nodes₂ c node low in
      let after = λ (d : ℕ). get_elem?-set_elem? nodes₂ nodes₃ c d node wrote in
      let itself : get_elem? nodes₃ c ≡ some node = after c ∙ ground (arith, ==_refl c) in
      let kept₃ : (d : ℕ) → (c == d) ≡ false → Keeps SameLink t.nodes nodes₃ d =
        λ d e n f. let (m, (g, same)) = kept₂ d e n f in (m, (after d ∙ ground arith, same)) in
      let bounded₃ : IsBounded (length nodes₃) nodes₃ = λ d n s f child.
        elim (Bool-cases (c == d)) [
          | inl x ↦ absurd (no_child sibling head n s (sym (after d ∙ ground arith) ∙ f) child)
          | inr x ↦
              omega (arith, size₃, size₂, bounded₂ d n s (sym (after d ∙ ground arith) ∙ f) child)
        ] in
      let (buckets', (chains', (filled, (table, pushed)))) =
        Table-push t.nodes nodes₃ t.buckets_mask 0 b t.buckets v.chains head c node v.table
          (λ d m. kept₃ d (not_new d (ground arith))) read itself refl (p, (refl, omega arith)) in
      (
        nodes₃,
        (
          buckets',
          (
            rw (there, ◌>>=◌) wrote,
            (
              filled,
              inserted-Gives nodes₃ buckets' chains' sibling head pushed table
                  (length-set_elem? t.buckets buckets' b (some c) filled ∙ v.width) (size₃ ∙ size₂)
                  itself (λ d e n f. let (m, (g, same)) = kept₃ d e n f in (m, (g, same.edge)))
                  bounded₃,
            ),
          ),
        ),
      )
    where
      no_child :
          (sibling head : Option ℕ) (n : TrieNode) (s : ℕ)
          → some (full p k sibling head) ≡ some n
          → n.first_child ≡ some s
          → ⊥
      no_child sibling head n s h e = ground arith

SameLink-trans : (a b c : TrieNode) → SameLink a b → SameLink b c → SameLink a c
SameLink-trans a b c x y = record {
  edge = record {
    parent = y.edge.parent ∙ x.edge.parent;
    key = y.edge.key ∙ x.edge.key;
    tuple_index = y.edge.tuple_index ∙ x.edge.tuple_index;
  };
  next_entry = y.next_entry ∙ x.next_entry;
}

insert_child_lem :
    (t : TupleIndex) (v : IsValid t) (p k : ℕ)
    → is_live v p ≡ true
    → ((c : ℕ) → contains (members v) c ≡ true → ¬ (IsEdge t.nodes p k c))
    → (r : TupleIndex × ℕ) × ((insert_child t p k ≡ some r) × Gives t v p k r)
insert_child_lem t v p k live no_edge =
    let b = bucket_of k p t.buckets_mask in
    let (nodes', (free', (c, new))) = new_trie_node_lem t v in
    let size = length nodes' in
    let low : p < size = omega (arith, live-lt t v p live, new.grows) in
    let (pn, found) = get_elem?-some nodes' p low in
    let (nodes₁, (e₁, touch₁)) =
      link_sibling_lem size nodes' c pn.first_child (λ s h. new.bounded p pn s found h) in
    let (nodes₂, (e₂, touch₂)) =
      update_node_lem size nodes₁ p (λ n. record n { first_child = some c })
        (omega (arith, touch₁.same_size))
        (λ n. record {
          edge = record { parent = refl; key = refl; tuple_index = refl };
          next_entry = refl;
        })
        (λ n s h. inr (first_lt size c s h (get_elem?-lt nodes' c new.there))) in
    let (head, read) =
      get_elem?-some t.buckets b
        (subst (λ x. b < x) (sym v.width) (bucket_of-lt k p t.buckets_mask)) in
    let kept₂ : (d : ℕ) → (c == d) ≡ false → Keeps SameLink t.nodes nodes₂ d = λ d e n f.
      let (m, (f₁, same₁)) = touch₁.links d n (new.others d n e f) in
      let (m', (f₂, same₂)) = touch₂.links d m f₁ in
      (m', (f₂, SameLink-trans n m m' same₁ same₂)) in
    let (nodes₃, (buckets', (e₃, (e₄, gives)))) =
      write_full t v p k live no_edge nodes' free' c new nodes₂ pn.first_child head kept₂
        (touch₂.bounded (touch₁.bounded new.bounded)) (touch₂.same_size ∙ touch₁.same_size) read in
    (
      _,
      (
        insert_child-run t p k nodes' free' c pn nodes₁ nodes₂ nodes₃ head buckets' new.run found e₁
            e₂ read e₃ e₄,
        gives,
      ),
    )
  where
    first_lt : (size c s : ℕ) → some c ≡ some s → c < size → s < size
    first_lt size c s h l = ground arith

-- The whole operation: the edge is found, or added, after the buckets have grown if they must.
pub Grows-refl : (t : TupleIndex) (v : IsValid t) → Grows t v t v
Grows-refl t v = record {
  root = refl;
  sequence = refl;
  more = λ d h. h;
  kept = λ d h n f. (n, (f, same_edge n));
  no_tuple = λ d n h m f. absurd (ground arith);
}

Resized-Grows :
    (t : TupleIndex) (v : IsValid t) (t' : TupleIndex) (r : Resized t v t') → Grows t v t' r.valid
Resized-Grows t v t' r = record {
  root = r.root;
  sequence = r.sequence;
  more = λ d h. r.members_same d ∙ h;
  kept = λ d h n f. let (m, (g, (same, _))) = r.edges d n f in (m, (g, same));
  no_tuple = λ d n h m f. absurd (ground (arith, r.members_same d));
}

pub Grows-trans :
    (a : TupleIndex) (v : IsValid a) (b : TupleIndex) (w : IsValid b) (c : TupleIndex)
    (x : IsValid c)
    → Grows a v b w
    → Grows b w c x
    → Grows a v c x
Grows-trans a v b w c x g h = record {
  root = h.root ∙ g.root;
  sequence = h.sequence ∙ g.sequence;
  more = λ d m. h.more d (g.more d m);
  kept = λ d l n f.
      let (y, (e, same)) = g.kept d l n f in
      let (z, (e', same')) = h.kept d (live_later d l) y e in
      (
        z,
        (
          e',
          record {
            parent = same'.parent ∙ same.parent;
            key = same'.key ∙ same.key;
            tuple_index = same'.tuple_index ∙ same.tuple_index;
          },
        ),
      );
  no_tuple = λ d n l m f. elim (Bool-cases (is_live w d)) [
    | inl q ↦
        let in_b : contains (members w) d ≡ true = ground (arith, ap (λ r. r == d) g.root) in
        let (y, (e, _)) = member-found b w d in_b in
        let (z, (e', same)) = h.kept d q y e in
        ap (λ u. u.tuple_index) (some_eq n z (sym f ∙ e'))
        ∙ same.tuple_index
        ∙ g.no_tuple d y l in_b e
    | inr q ↦ h.no_tuple d n q m f
  ];
}
  where
    live_later : (d : ℕ) → is_live v d ≡ true → is_live w d ≡ true
    live_later d l = ground (arith, g.more d, ap (λ r. r == d) g.root)

    some_eq : (n z : TrieNode) → some n ≡ some z → n ≡ z
    some_eq n z h = ground arith

-- The two ways to add a node.
add_child-run :
    (t : TupleIndex) (p k : ℕ)
    → get_child_node t p k ≡ some none
    → get_child_node_add_if_necessary t p k ≡ (
        if leb t.resize_threshold t.number_of_nodes
        then (resize_buckets t >>= λ grown. insert_child grown p k)
        else insert_child t p k)
unfolding get_child_node_add_if_necessary
add_child-run t p k e = elim (Bool-cases (leb t.resize_threshold t.number_of_nodes)) [
  | inl b ↦ rw (e, get_child_node_add_if_necessary, ◌>>=◌, b) refl
  | inr b ↦ rw (e, get_child_node_add_if_necessary, ◌>>=◌, b) refl
]

module _ (t : TupleIndex) (v : IsValid t) (p k : ℕ) (live : is_live v p ≡ true) where
  after_resize :
      ((c : ℕ) → contains (members v) c ≡ true → ¬ (IsEdge t.nodes p k c))
      → (r : TupleIndex × ℕ) × (((resize_buckets t >>= λ grown. insert_child grown p k) ≡ some r)
          × Gives t v p k r)
  after_resize none_yet =
      let (t', (run, resized)) = resize_buckets_lem t v in
      let w = resized.valid in
      let (r, (run', g)) =
        insert_child_lem t' w p k
          (ground (arith, resized.members_same p, ap (λ r. r == p) resized.root))
          (λ c m edge. none_yet c (sym (resized.members_same c) ∙ m) (resized.back p k c edge)) in
      (
        r,
        (
          ap (λ o. o >>= λ grown. insert_child grown p k) run ∙ run',
          record {
            valid = g.valid;
            grows = Grows-trans t v t' w r.0 g.valid (Resized-Grows t v t' resized) g.grows;
            member = g.member;
            edge = g.edge;
          },
        ),
      )

  found_or_new :
      (o : Option ℕ)
      → get_child_node t p k ≡ some o
      → Finds t.nodes (members v) p k o
      → (r : TupleIndex × ℕ) × ((get_child_node_add_if_necessary t p k ≡ some r) × Gives t v p k r)
  unfolding get_child_node_add_if_necessary
  found_or_new (some c) run (m, edge) = (
    (t, c),
    (
      rw (run, get_child_node_add_if_necessary, ◌>>=◌) refl,
      record { valid = v; grows = Grows-refl t v; member = m; edge = edge },
    ),
  )
  found_or_new none run none_yet =
      let choice = λ (x : Bool).
        if x then (resize_buckets t >>= λ grown. insert_child grown p k) else insert_child t p k in
      elim (Bool-cases (leb t.resize_threshold t.number_of_nodes)) [
        | inl b ↦
            let (r, (run', g)) = after_resize none_yet in
            (r, (add_child-run t p k run ∙ ap choice b ∙ run', g))
        | inr b ↦
            let (r, (run', g)) = insert_child_lem t v p k live none_yet in
            (r, (add_child-run t p k run ∙ ap choice b ∙ run', g))
      ]

  pub get_child_node_add_if_necessary_lem :
      (r : TupleIndex × ℕ) × ((get_child_node_add_if_necessary t p k ≡ some r) × Gives t v p k r)
  get_child_node_add_if_necessary_lem =
      let (o, (run, finds)) = get_child_node_lem t v p k in found_or_new o run finds
