-- ===== src/Tableau/TupleIndex/Valid.antt =====
-- The well-formedness of a `TupleIndex`, the lookup of an edge, and the growing of the buckets.
use hermit_rs.Base.{
  ℕ, suc, ◌+◌, ◌-◌, ◌*◌, ◌<◌, ◌≡◌, refl, sym, ap, ◌∙◌, subst, inl, inr, Bool, true, false, ◌||◌,
  Option, none, some, List, [], arith, length, get_elem?, Bool-cases, nat_eq, ◌==◌, get_elem?-lt,
  get_elem?-some,
}
use hermit_rs.Base.Panic.{◌>>=◌}
use hermit_rs.Base.Vectors.{repeat, length-repeat}
use hermit_rs.Collections.HashSet.{contains, IsDistinct}
use hermit_rs.Tableau.TupleIndex.{
  TrieNode, TupleIndex, bucket_of, get_child_node, resize_buckets, threshold_of, rehash,
}
use hermit_rs.Tableau.TupleIndex.Links.{Table, concat, SameEdge}
use hermit_rs.Tableau.TupleIndex.Find.{
  IsEdge, Finds, find_child_lem, Table-Home, Table-Chain, Chain,
}
use hermit_rs.Tableau.TupleIndex.Rehash.{bucket_of-lt, Table-empty, rehash_lem, Filled, Moved}

-- No list of children starts out of range.
abbrev pub IsBounded : ℕ → List TrieNode → Type 0
IsBounded size nodes =
    (d : ℕ) (n : TrieNode) (s : ℕ) → get_elem? nodes d ≡ some n → n.first_child ≡ some s → s < size

pub record IsValid (t : TupleIndex) : Type 0 where
  pub chains : List (List ℕ)
  pub table : Table t.nodes t.buckets_mask 0 t.buckets chains
  pub width : length t.buckets ≡ suc t.buckets_mask
  pub distinct : IsDistinct (concat chains)
  pub count : t.number_of_nodes ≡ length (concat chains)
  pub root_apart : contains (concat chains) t.root ≡ false
  pub root_there : t.root < length t.nodes
  pub unique :
      (p k c d : ℕ)
      → contains (concat chains) c ≡ true
      → contains (concat chains) d ≡ true
      → IsEdge t.nodes p k c
      → IsEdge t.nodes p k d
      → c ≡ d
  pub parents :
      (c : ℕ) (n : TrieNode) (p : ℕ)
      → contains (concat chains) c ≡ true
      → get_elem? t.nodes c ≡ some n
      → n.parent ≡ some p
      → (t.root == p || contains (concat chains) p) ≡ true
  pub free_apart :
      (f : ℕ)
      → contains t.free f ≡ true
      → ((t.root == f || contains (concat chains) f) ≡ false) × (f < length t.nodes)
  pub free_distinct : IsDistinct t.free
  pub children : IsBounded (length t.nodes) t.nodes

-- The nodes in use besides the root, and with it.
abbrev pub members : {t : TupleIndex} → IsValid t → List ℕ
members v = concat v.chains

abbrev pub is_live : {t : TupleIndex} → IsValid t → ℕ → Bool
is_live {t} v d = t.root == d || contains (members v) d

pub member-found :
    (t : TupleIndex) (v : IsValid t) (d : ℕ)
    → contains (members v) d ≡ true
    → (n : TrieNode) × ((get_elem? t.nodes d ≡ some n) × ((p : ℕ) × (n.parent ≡ some p)))
member-found t v d c =
    let (n, (found, (j, (low, (p, (parent, here)))))) =
      Table-Home t.nodes t.buckets_mask 0 t.buckets v.chains d v.table c in
    (n, (found, (p, parent)))

pub live-lt : (t : TupleIndex) (v : IsValid t) (d : ℕ) → is_live v d ≡ true → d < length t.nodes
live-lt t v d h = elim (Bool-cases (contains (members v) d)) [
  | inl c ↦ let (n, (found, _)) = member-found t v d c in get_elem?-lt t.nodes d found
  | inr c ↦
      subst (λ x. x < length t.nodes) ((nat_eq.beq_iff t.root d).0 (ground arith)) v.root_there
]

Finds-all :
    (nodes : List TrieNode) (mask b : ℕ) (head : Option ℕ) (all : List ℕ) (p k : ℕ)
    → bucket_of k p mask ≡ b
    → (c : Chain nodes mask b head all) (r : Option ℕ) → Finds nodes c.chain p k r
    → Finds nodes all p k r
Finds-all nodes mask b head all p k here c none f = λ d t (n, (found, (parent, key))).
    f d (c.has d t (n, (found, (p, (parent, ap (λ x. bucket_of x p mask) key ∙ here)))))
      (n, (found, (parent, key)))
Finds-all nodes mask b head all p k here c (some d) (t, edge) = (c.inside d t, edge)

-- The lookup ends, and finds the node with the edge, if there is one.
pub get_child_node_lem :
    (t : TupleIndex) (v : IsValid t) (p k : ℕ)
    → (r : Option ℕ) × ((get_child_node t p k ≡ some r) × Finds t.nodes (members v) p k r)
unfolding get_child_node
get_child_node_lem t v p k =
    let b = bucket_of k p t.buckets_mask in
    let (head, read) =
      get_elem?-some t.buckets b
        (subst (λ x. b < x) (sym v.width) (bucket_of-lt k p t.buckets_mask)) in
    let c = Table-Chain t.nodes t.buckets_mask 0 b t.buckets v.chains head v.table read in
    let (r, (run, finds)) =
      find_child_lem t.nodes t.buckets_mask (0 + b) (suc t.number_of_nodes) head c.chain p k c.links
        (omega (arith, c.size, v.count)) in
    (
      r,
      (
        rw (read, ◌>>=◌) run,
        Finds-all t.nodes t.buckets_mask (0 + b) head (members v) p k (omega arith) c r finds,
      ),
    )

-- What growing the buckets gives: the same nodes and edges.
pub record Resized (t : TupleIndex) (v : IsValid t) (t' : TupleIndex) : Type 0 where
  pub valid : IsValid t'
  pub members_same : (d : ℕ) → contains (members valid) d ≡ contains (members v) d
  pub edges :
      (c : ℕ) (n : TrieNode)
      → get_elem? t.nodes c ≡ some n
      → (m : TrieNode) × ((get_elem? t'.nodes c ≡ some m)
          × (SameEdge n m × (m.first_child ≡ n.first_child)))
  pub back : (q j c : ℕ) → IsEdge t'.nodes q j c → IsEdge t.nodes q j c
  pub root : t'.root ≡ t.root
  pub sequence : t'.indexing_sequence ≡ t.indexing_sequence

-- An edge of the nodes after a move was one before it.
Moved-back :
    (l : List ℕ) (nodes nodes' : List TrieNode) (c : ℕ) (m : TrieNode)
    → Moved l nodes nodes'
    → get_elem? nodes' c ≡ some m
    → (n : TrieNode) × ((get_elem? nodes c ≡ some n)
        × (SameEdge n m × (m.first_child ≡ n.first_child)))
Moved-back l nodes nodes' c m moved found =
    let (n, before) =
      get_elem?-some nodes c (subst (λ x. c < x) moved.size (get_elem?-lt nodes' c found)) in
    let (m', (found', (same, child))) = moved.edges c n before in
    let e : m' ≡ m = some_eq m' (sym found' ∙ found) in
    (n, (before, (subst (SameEdge n) e same, ap (λ x. x.first_child) (sym e) ∙ child)))
  where
    some_eq : (m' : TrieNode) → some m' ≡ some m → m' ≡ m
    some_eq m' h = ground arith

Moved-IsEdge :
    (l : List ℕ) (nodes nodes' : List TrieNode) (p k c : ℕ)
    → Moved l nodes nodes'
    → IsEdge nodes' p k c
    → IsEdge nodes p k c
Moved-IsEdge l nodes nodes' p k c moved (m, (found, (parent, key))) =
    let (n, (before, (same, _))) = Moved-back l nodes nodes' c m moved found in
    (n, (before, (sym same.parent ∙ parent, sym same.key ∙ key)))

module _ (t : TupleIndex) (v : IsValid t) where
  abbrev with_buckets : List TrieNode × List (Option ℕ) → TupleIndex
  with_buckets r = record t {
    nodes = r.0;
    buckets = r.1;
    buckets_mask = length t.buckets * 2 - 1;
    resize_threshold = threshold_of (length t.buckets * 2);
  }

  resize_buckets-run :
      (r : List TrieNode × List (Option ℕ))
      → rehash
          (suc t.number_of_nodes)
          (length t.buckets * 2 - 1)
          t.buckets
          t.nodes
          (repeat (length t.buckets * 2) none)
        ≡ some r
      → resize_buckets t ≡ some (with_buckets r)
  unfolding resize_buckets
  resize_buckets-run r e = rw e refl

  Filled-IsValid :
      (r : List TrieNode × List (Option ℕ)) (empty : List (List ℕ))
      → concat empty ≡ []
      → Filled (members v) (length t.buckets * 2 - 1) t.nodes empty r
      → Resized t v (with_buckets r)
  Filled-IsValid r empty e f = record {
    valid = record {
      chains = f.chains';
      table = f.table;
      width = f.width;
      distinct = f.distinct;
      count = v.count ∙ sym (f.total ∙ ap (λ l. length (members v) + length l) e ∙ omega arith);
      root_apart = same t.root ∙ v.root_apart;
      root_there = subst (λ x. t.root < x) (sym f.moved.size) v.root_there;
      unique = λ p k c d mc md ec ed.
          v.unique p k c d (sym (same c) ∙ mc) (sym (same d) ∙ md)
            (Moved-IsEdge (members v) t.nodes r.0 p k c f.moved ec)
            (Moved-IsEdge (members v) t.nodes r.0 p k d f.moved ed);
      parents = λ c m p mc found parent.
          let (n, (before, (edge, _))) = Moved-back (members v) t.nodes r.0 c m f.moved found in
          ground
            (arith, v.parents c n p (sym (same c) ∙ mc) before (sym edge.parent ∙ parent), same p);
      free_apart = λ x q.
          let (apart, low) = v.free_apart x q in
          (ground (arith, same x), subst (λ y. x < y) (sym f.moved.size) low);
      free_distinct = v.free_distinct;
      children = λ d m s found child.
          let (n, (before, (_, first))) = Moved-back (members v) t.nodes r.0 d m f.moved found in
          subst (λ y. s < y) (sym f.moved.size) (v.children d n s before (sym first ∙ child));
    };
    members_same = same;
    edges = f.moved.edges;
    back = λ q j c edge. Moved-IsEdge (members v) t.nodes r.0 q j c f.moved edge;
    root = refl;
    sequence = refl;
  }
    where
      same : (d : ℕ) → contains (concat f.chains') d ≡ contains (members v) d
      same d = f.members d ∙ ap (λ l. contains (members v) d || contains l d) e ∙ ground arith

  pub resize_buckets_lem : (t' : TupleIndex) × ((resize_buckets t ≡ some t') × Resized t v t')
  resize_buckets_lem =
      let n = length t.buckets * 2 in
      let (table, e) = Table-empty t.nodes (n - 1) 0 n in
      let (r, (run, f)) =
        rehash_lem (suc t.number_of_nodes) t.buckets_mask (n - 1) 0 t.buckets v.chains t.nodes
          (repeat n none) (repeat n []) v.table (omega (arith, v.count)) table
          (omega (arith, length-repeat {A = Option ℕ} n none, v.width)) v.distinct
          (subst IsDistinct (sym e) tt) (λ d q. ap (λ l. contains l d) e) in
      (with_buckets r, (resize_buckets-run r run, Filled-IsValid r (repeat n []) e f))
