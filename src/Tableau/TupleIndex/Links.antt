-- ===== src/Tableau/TupleIndex/Links.antt =====
-- The chains of the buckets of a `TupleIndex`: what the links form, and what a walk finds.
use hermit_rs.Base.{
  ℕ, zero, suc, ◌+◌, ◌≡◌, refl, sym, ap, ◌∙◌, subst, true, false, ◌||◌, Option, none, some, List,
  [], ◌∷◌, ◌++◌, arith, length, get_elem?, ==_refl, nat_eq, ◌==◌, length-append,
}
use hermit_rs.Base.Vectors.{set_elem?}
use hermit_rs.Collections.HashSet.{
  contains, contains-append, IsDistinct, append-IsDistinct, IsDistinct-append,
}
use hermit_rs.Tableau.TupleIndex.{TrieNode, bucket_of}

-- The node belongs to the bucket.
abbrev pub Home : (mask bucket : ℕ) → TrieNode → Type 0
Home mask bucket n = (p : ℕ) × ((n.parent ≡ some p) × (bucket_of n.key p mask ≡ bucket))

-- From a head the links lead through the nodes of a list, all of one bucket.
abbrev pub Links : List TrieNode → (mask bucket : ℕ) → Option ℕ → List ℕ → Type 0
Links nodes mask i head [] = head ≡ none
Links nodes mask i head (c ∷ l) =
    (head ≡ some c)
    × ((n : TrieNode) × ((get_elem? nodes c ≡ some n)
          × (Home mask i n × Links nodes mask i n.next_entry l)))

-- The buckets, from one on, and the lists of their nodes.
abbrev pub Table : List TrieNode → (mask bucket : ℕ) → List (Option ℕ) → List (List ℕ) → Type 0
Table nodes mask i [] [] = Unit
Table nodes mask i [] (l ∷ ls) = ⊥
Table nodes mask i (h ∷ hs) [] = ⊥
Table nodes mask i (h ∷ hs) (l ∷ ls) = Links nodes mask i h l × Table nodes mask (suc i) hs ls

abbrev pub concat : List (List ℕ) → List ℕ
concat [] = []
concat (l ∷ ls) = l ++ concat ls

-- A node keeps its edge and its tuple, and its place in the chain.
pub record SameEdge (n m : TrieNode) : Type 0 where
  pub parent : m.parent ≡ n.parent
  pub key : m.key ≡ n.key
  pub tuple_index : m.tuple_index ≡ n.tuple_index

pub record SameLink (n m : TrieNode) : Type 0 where
  pub edge : SameEdge n m
  pub next_entry : m.next_entry ≡ n.next_entry

abbrev pub Keeps : (TrieNode → TrieNode → Type 0) → List TrieNode → List TrieNode → ℕ → Type 0
Keeps R nodes nodes' c =
    (n : TrieNode)
    → get_elem? nodes c ≡ some n
    → (m : TrieNode) × ((get_elem? nodes' c ≡ some m) × R n m)

-- What the chains depend on.
pub record SameChain (n m : TrieNode) : Type 0 where
  pub parent : m.parent ≡ n.parent
  pub key : m.key ≡ n.key
  pub next_entry : m.next_entry ≡ n.next_entry

same_chain :
    (nodes nodes' : List TrieNode) (c : ℕ)
    → Keeps SameLink nodes nodes' c
    → Keeps SameChain nodes nodes' c
same_chain nodes nodes' c k n f =
    let (m, (g, same)) = k n f in
    (
      m,
      (g, record { parent = same.edge.parent; key = same.edge.key; next_entry = same.next_entry }),
    )

pub Links-kept :
    (nodes nodes' : List TrieNode) (mask i : ℕ) (head : Option ℕ) (l : List ℕ)
    → ((c : ℕ) → contains l c ≡ true → Keeps SameChain nodes nodes' c)
    → Links nodes mask i head l
    → Links nodes' mask i head l
Links-kept nodes nodes' mask i head [] k h = h
Links-kept nodes nodes' mask i head (c ∷ l) k (h, (n, (found, ((p, (parent, here)), rest)))) =
    let (m, (found', same)) = k c (ground (arith, ==_refl c)) n found in
    (
      h,
      (
        m,
        (
          found',
          (
            (p, (same.parent ∙ parent, ap (λ key. bucket_of key p mask) same.key ∙ here)),
            subst (λ e. Links nodes' mask i e l) (sym same.next_entry)
                (Links-kept nodes nodes' mask i n.next_entry l (λ d t. k d (ground arith)) rest),
          ),
        ),
      ),
    )

pub Table-kept :
    (nodes nodes' : List TrieNode) (mask i : ℕ) (buckets : List (Option ℕ)) (chains : List (List ℕ))
    → ((c : ℕ) → contains (concat chains) c ≡ true → Keeps SameChain nodes nodes' c)
    → Table nodes mask i buckets chains
    → Table nodes' mask i buckets chains
Table-kept nodes nodes' mask i [] [] k h = tt
Table-kept nodes nodes' mask i [] (l ∷ ls) k h = absurd h
Table-kept nodes nodes' mask i (b ∷ bs) [] k h = absurd h
Table-kept nodes nodes' mask i (b ∷ bs) (l ∷ ls) k (h, hs) = (
  Links-kept nodes nodes' mask i b l (λ c t. k c (ground (arith, contains-append l (concat ls) c)))
      h,
  Table-kept nodes nodes' mask (suc i) bs ls
      (λ c t. k c (ground (arith, contains-append l (concat ls) c))) hs,
)

pub Links-Keeps :
    (nodes nodes' : List TrieNode) (mask i : ℕ) (head : Option ℕ) (l : List ℕ)
    → ((c : ℕ) → contains l c ≡ true → Keeps SameLink nodes nodes' c)
    → Links nodes mask i head l
    → Links nodes' mask i head l
Links-Keeps nodes nodes' mask i head l k =
    Links-kept nodes nodes' mask i head l (λ c h. same_chain nodes nodes' c (k c h))

pub Table-Keeps :
    (nodes nodes' : List TrieNode) (mask i : ℕ) (buckets : List (Option ℕ)) (chains : List (List ℕ))
    → ((c : ℕ) → contains (concat chains) c ≡ true → Keeps SameLink nodes nodes' c)
    → Table nodes mask i buckets chains
    → Table nodes' mask i buckets chains
Table-Keeps nodes nodes' mask i buckets chains k =
    Table-kept nodes nodes' mask i buckets chains (λ c h. same_chain nodes nodes' c (k c h))

-- The lists after a node is put before one of them.
pub record Pushed (c : ℕ) (chains chains' : List (List ℕ)) : Type 0 where
  pub members : (d : ℕ) → contains (concat chains') d ≡ (c == d || contains (concat chains) d)
  pub size : length (concat chains') ≡ suc (length (concat chains))
  pub distinct :
      contains (concat chains) c ≡ false → IsDistinct (concat chains) → IsDistinct (concat chains')

Pushed-later :
    (c : ℕ) (l : List ℕ) (chains chains' : List (List ℕ))
    → Pushed c chains chains'
    → Pushed c (l ∷ chains) (l ∷ chains')
Pushed-later c l chains chains' p = record {
  members = λ d. ground (
    arith,
    contains-append l (concat chains) d,
    contains-append l (concat chains') d,
    p.members d,
  );
  size = omega (arith, length-append l (concat chains), length-append l (concat chains'), p.size);
  distinct = λ new d.
      let (dl, (dr, apart)) = IsDistinct-append l (concat chains) d in
      append-IsDistinct l (concat chains') dl
        (p.distinct (ground (arith, contains-append l (concat chains) c)) dr)
        (λ x t.
          ground (
            arith,
            p.members x,
            apart x t,
            nat_eq.beq_iff c x,
            contains-append l (concat chains) c,
          ));
}

-- Filling a bucket with a new node whose link is the old head.
pub Table-push :
    (nodes nodes' : List TrieNode) (mask i b : ℕ) (buckets : List (Option ℕ))
    (chains : List (List ℕ)) (head : Option ℕ) (c : ℕ) (n : TrieNode)
    → Table nodes mask i buckets chains
    → ((d : ℕ) → contains (concat chains) d ≡ true → Keeps SameLink nodes nodes' d)
    → get_elem? buckets b ≡ some head
    → get_elem? nodes' c ≡ some n
    → n.next_entry ≡ head
    → Home mask (i + b) n
    → (buckets' : List (Option ℕ)) × ((chains' : List (List ℕ)) × ((set_elem? buckets b (some c)
            ≡ some buckets')
          × (Table nodes' mask i buckets' chains' × Pushed c chains chains')))
Table-push nodes nodes' mask i b [] chains head c n t k e f next home = absurd (ground arith)
Table-push nodes nodes' mask i b (h ∷ hs) [] head c n t k e f next home = absurd t
Table-push nodes nodes' mask i zero (h ∷ hs) (l ∷ ls) head c n (t, ts) k e f next
      (p, (parent, here)) =
    let same : h ≡ n.next_entry = ground arith in
    let later : (d : ℕ) → contains l d ≡ true → Keeps SameLink nodes nodes' d =
      λ d q. k d (ground (arith, contains-append l (concat ls) d)) in
    (
      some c ∷ hs,
      (
        (c ∷ l) ∷ ls,
        (
          refl,
          (
            (
              (
                refl,
                (
                  n,
                  (
                    f,
                    (
                      (p, (parent, here ∙ omega arith)),
                      subst (λ e. Links nodes' mask i e l) same
                          (Links-Keeps nodes nodes' mask i h l later t),
                    ),
                  ),
                ),
              ),
              Table-Keeps nodes nodes' mask (suc i) hs ls
                  (λ d q. k d (ground (arith, contains-append l (concat ls) d))) ts,
            ),
            record { members = λ d. refl; size = refl; distinct = λ new d. (new, d) },
          ),
        ),
      ),
    )
Table-push nodes nodes' mask i (suc b) (h ∷ hs) (l ∷ ls) head c n (t, ts) k e f next
      (p, (parent, here)) =
    let (buckets', (chains', (filled, (table, pushed)))) =
      Table-push nodes nodes' mask (suc i) b hs ls head c n ts
        (λ d q. k d (ground (arith, contains-append l (concat ls) d))) e f next
        (p, (parent, here ∙ omega arith)) in
    (
      h ∷ buckets',
      (
        l ∷ chains',
        (
          rw filled refl,
          (
            (
              Links-Keeps nodes nodes' mask i h l
                  (λ d q. k d (ground (arith, contains-append l (concat ls) d))) t,
              table,
            ),
            Pushed-later c l ls chains' pushed,
          ),
        ),
      ),
    )
