-- ===== src/Tableau/TupleIndex/Find.antt =====
-- What `TupleIndex::get_child_node` finds in the chain of a bucket.
use hermit_rs.Base.{
  option_eq, ℕ, zero, suc, ◌+◌, ◌≤◌, ◌<◌, ◌≡◌, refl, sym, ap, ◌∙◌, subst, inl, inr, true, false,
  ◌&&◌, Option, none, some, List, [], ◌∷◌, arith, length, get_elem?, Bool-cases, ==_refl, nat_eq,
  ◌==◌, length-append,
}
use hermit_rs.Base.Panic.{◌>>=◌}
use hermit_rs.Collections.HashSet.{contains, contains-append}
use hermit_rs.Tableau.TupleIndex.{TrieNode, bucket_of, find_child}
use hermit_rs.Tableau.TupleIndex.Links.{Home, Links, Table, concat}

-- The node has the edge from a parent under a key.
abbrev pub IsEdge : List TrieNode → (parent key c : ℕ) → Type 0
IsEdge nodes p k c =
    (n : TrieNode) × ((get_elem? nodes c ≡ some n) × ((n.parent ≡ some p) × (n.key ≡ k)))

-- What the walk along a list finds.
abbrev pub Finds : List TrieNode → List ℕ → (parent key : ℕ) → Option ℕ → Type 0
Finds nodes l p k none = (c : ℕ) → contains l c ≡ true → ¬ (IsEdge nodes p k c)
Finds nodes l p k (some c) = (contains l c ≡ true) × IsEdge nodes p k c

Finds-later :
    (nodes : List TrieNode) (d : ℕ) (l : List ℕ) (p k : ℕ) (r : Option ℕ)
    → ¬ (IsEdge nodes p k d)
    → Finds nodes l p k r
    → Finds nodes (d ∷ l) p k r
Finds-later nodes d l p k none other f = λ c t edge. elim (Bool-cases (d == c)) [
  | inl e ↦ other (subst (IsEdge nodes p k) (sym ((nat_eq.beq_iff d c).0 e)) edge)
  | inr e ↦ f c (ground arith) edge
]
Finds-later nodes d l p k (some c) other (t, edge) = (ground arith, edge)

pub find_child_lem :
    (nodes : List TrieNode) (mask i fuel : ℕ) (head : Option ℕ) (l : List ℕ) (p k : ℕ)
    → Links nodes mask i head l
    → length l < fuel
    → (r : Option ℕ) × ((find_child nodes fuel head p k ≡ some r) × Finds nodes l p k r)
unfolding find_child
find_child_lem nodes mask i zero head l p k h enough = absurd (omega arith)
find_child_lem nodes mask i (suc fuel) head [] p k h enough =
    (none, (rw h refl, λ c t e. absurd (ground arith)))
find_child_lem nodes mask i (suc fuel) head (c ∷ l) p k (h, (n, (found, (home, rest)))) enough =
    let (r, (run, finds)) =
      find_child_lem nodes mask i fuel n.next_entry l p k rest (omega arith) in
    elim (Bool-cases (n.parent == some p && n.key == k)) [
      | inl t ↦ (
        some c,
        (
          rw (h, find_child, found, ◌>>=◌, t) refl,
          (
            ground (arith, ==_refl c),
            (
              n,
              (
                found,
                (
                  (option_eq.beq_iff n.parent (some p)).0 (ground arith),
                  (nat_eq.beq_iff n.key k).0 (ground arith),
                ),
              ),
            ),
          ),
        ),
      )
      | inr t ↦ (
        r,
        (
          rw (h, find_child, found, ◌>>=◌, t) run,
          Finds-later nodes c l p k r
              (λ (m, (found', (parent, key))).
                let same : n ≡ m = ground arith in
                absurd (other n (ap (λ x. x.parent) same ∙ parent) (ap (λ x. x.key) same ∙ key) t))
              finds,
        ),
      )
    ]
  where
    other :
        (n : TrieNode)
        → n.parent ≡ some p
        → n.key ≡ k
        → (n.parent == some p && n.key == k) ≡ false
        → ⊥
    other n a b f =
        ground (arith, (option_eq.beq_iff n.parent (some p)).1 a, (nat_eq.beq_iff n.key k).1 b)

pub Links-Home :
    (nodes : List TrieNode) (mask i : ℕ) (head : Option ℕ) (l : List ℕ) (d : ℕ)
    → Links nodes mask i head l
    → contains l d ≡ true
    → (n : TrieNode) × ((get_elem? nodes d ≡ some n) × Home mask i n)
Links-Home nodes mask i head [] d h t = absurd (ground arith)
Links-Home nodes mask i head (c ∷ l) d (h, (n, (found, (home, rest)))) t =
    elim (Bool-cases (c == d)) [
      | inl e ↦ (n, (ap (get_elem? nodes) (sym ((nat_eq.beq_iff c d).0 e)) ∙ found, home))
      | inr e ↦ Links-Home nodes mask i n.next_entry l d rest (ground arith)
    ]

pub Table-Home :
    (nodes : List TrieNode) (mask i : ℕ) (buckets : List (Option ℕ)) (chains : List (List ℕ))
    (d : ℕ)
    → Table nodes mask i buckets chains
    → contains (concat chains) d ≡ true
    → (n : TrieNode) × ((get_elem? nodes d ≡ some n) × ((j : ℕ) × ((i ≤ j) × Home mask j n)))
Table-Home nodes mask i [] [] d t c = absurd (ground arith)
Table-Home nodes mask i [] (l ∷ ls) d t c = absurd t
Table-Home nodes mask i (h ∷ hs) [] d t c = absurd t
Table-Home nodes mask i (h ∷ hs) (l ∷ ls) d (t, ts) c = elim (Bool-cases (contains l d)) [
  | inl e ↦
      let (n, (found, home)) = Links-Home nodes mask i h l d t e in
      (n, (found, (i, (omega arith, home))))
  | inr e ↦
      let (n, (found, (j, (low, home)))) =
        Table-Home nodes mask (suc i) hs ls d ts
          (ground (arith, contains-append l (concat ls) d)) in
      (n, (found, (j, (omega arith, home))))
]

Home-unique : (mask i j : ℕ) (n : TrieNode) → Home mask i n → Home mask j n → i ≡ j
Home-unique mask i j n (p, (a, b)) (q, (c, d)) =
    let same : p ≡ q = some_eq (sym a ∙ c) in sym b ∙ ap (λ x. bucket_of n.key x mask) same ∙ d
  where
    some_eq : some p ≡ some q → p ≡ q
    some_eq h = ground arith

Home-found :
    (nodes : List TrieNode) (mask i j d : ℕ)
    → (n : TrieNode) × ((get_elem? nodes d ≡ some n) × Home mask i n)
    → (n : TrieNode) × ((get_elem? nodes d ≡ some n) × Home mask j n)
    → i ≡ j
Home-found nodes mask i j d (n, (f, h)) (m, (g, k)) =
    Home-unique mask i j n h (subst (Home mask j) (some_eq (sym g ∙ f)) k)
  where
    some_eq : some m ≡ some n → m ≡ n
    some_eq h = ground arith

-- The chain of one bucket has the nodes of that bucket.
pub record Chain (nodes : List TrieNode) (mask bucket : ℕ) (head : Option ℕ) (all : List ℕ)
    : Type 0 where
  pub chain : List ℕ
  pub links : Links nodes mask bucket head chain
  pub size : length chain ≤ length all
  pub inside : (d : ℕ) → contains chain d ≡ true → contains all d ≡ true
  pub has :
      (d : ℕ)
      → contains all d ≡ true
      → (n : TrieNode) × ((get_elem? nodes d ≡ some n) × Home mask bucket n)
      → contains chain d ≡ true

pub Table-Chain :
    (nodes : List TrieNode) (mask i b : ℕ) (buckets : List (Option ℕ)) (chains : List (List ℕ))
    (head : Option ℕ)
    → Table nodes mask i buckets chains
    → get_elem? buckets b ≡ some head
    → Chain nodes mask (i + b) head (concat chains)
Table-Chain nodes mask i b [] chains head t e = absurd (ground arith)
Table-Chain nodes mask i b (h ∷ hs) [] head t e = absurd t
Table-Chain nodes mask i zero (h ∷ hs) (l ∷ ls) head (t, ts) e = record {
  chain = l;
  links =
      subst (λ j. Links nodes mask j head l) (sum i)
        (subst (λ x. Links nodes mask i x l) (some_eq e) t);
  size = omega (arith, length-append l (concat ls));
  inside = λ d c. ground (arith, contains-append l (concat ls) d);
  has = λ d c home. elim (Bool-cases (contains l d)) [
    | inl x ↦ x
    | inr x ↦
        let (n, (found, (j, (low, there)))) =
          Table-Home nodes mask (suc i) hs ls d ts
            (ground (arith, contains-append l (concat ls) d)) in
        absurd (omega (arith, Home-found nodes mask (i + 0) j d home (n, (found, there))))
  ];
}
  where
    sum : (i : ℕ) → i ≡ i + 0
    sum i = omega arith

    some_eq : some h ≡ some head → h ≡ head
    some_eq h = ground arith
Table-Chain nodes mask i (suc b) (h ∷ hs) (l ∷ ls) head (t, ts) e =
    let c = Table-Chain nodes mask (suc i) b hs ls head ts e in
    record {
      chain = c.chain;
      links = subst (λ j. Links nodes mask j head c.chain) (sum i b) c.links;
      size = omega (arith, c.size, length-append l (concat ls));
      inside = λ d q. ground (arith, c.inside d q, contains-append l (concat ls) d);
      has = λ d q home. elim (Bool-cases (contains l d)) [
        | inl x ↦ absurd (
            omega (
              arith,
              Home-found nodes mask (i + suc b) i d home (Links-Home nodes mask i h l d t x),
            ))
        | inr x ↦ c.has d (ground (arith, contains-append l (concat ls) d)) (
            subst (λ j. (n : TrieNode) × ((get_elem? nodes d ≡ some n) × Home mask j n))
              (sym (sum i b)) home)
      ];
    }
  where
    sum : (i b : ℕ) → suc i + b ≡ i + suc b
    sum i b = omega arith
