-- ===== src/Tableau/TupleIndex/Rehash.antt =====
-- `TupleIndex::resize_buckets`: the chains move to the new buckets, and keep their nodes.
use native.Mathlib.Nat.{mod-lt}
use hermit_rs.Base.{
  ℕ, zero, suc, ◌+◌, ◌<◌, ◌≡◌, refl, sym, ap, ◌∙◌, subst, inl, inr, true, false, ◌||◌, Option, none,
  some, List, [], ◌∷◌, ◌++◌, arith, if◌then◌else◌, length, get_elem?, Bool-cases, ==_refl, nat_eq,
  ◌==◌, get_elem?-some, get_elem?-lt, length-append,
}
use hermit_rs.Base.Panic.{◌>>=◌}
use hermit_rs.Base.Vectors.{
  set_elem?, set_elem?-some, get_elem?-set_elem?, length-set_elem?, repeat,
}
use hermit_rs.Collections.HashSet.{
  contains, contains-append, IsDistinct, IsDisjoint, IsDistinct-append,
}
use hermit_rs.Tableau.TupleIndex.{TrieNode, bucket_of, edge_hash_key, rehash_chain, rehash}
use hermit_rs.Tableau.TupleIndex.Links.{
  Links, Table, concat, SameEdge, SameLink, Keeps, Links-Keeps, Table-Keeps, Table-push,
}

pub bucket_of-lt : (key p mask : ℕ) → bucket_of key p mask < suc mask
unfolding bucket_of
bucket_of-lt key p mask = mod-lt (edge_hash_key key p) (omega arith)

-- The nodes keep their edges, and the nodes outside a list do not change.
pub record Moved (l : List ℕ) (nodes nodes' : List TrieNode) : Type 0 where
  pub size : length nodes' ≡ length nodes
  pub edges :
      (c : ℕ) (n : TrieNode)
      → get_elem? nodes c ≡ some n
      → (m : TrieNode) × ((get_elem? nodes' c ≡ some m)
          × (SameEdge n m × (m.first_child ≡ n.first_child)))
  pub others : (c : ℕ) → contains l c ≡ false → get_elem? nodes' c ≡ get_elem? nodes c

-- The buckets after the nodes of a list have moved into them.
pub record Filled (l : List ℕ) (mask : ℕ) (nodes : List TrieNode) (chains : List (List ℕ))
    (r : List TrieNode × List (Option ℕ)) : Type 0 where
  pub moved : Moved l nodes r.0
  pub chains' : List (List ℕ)
  pub table : Table r.0 mask 0 r.1 chains'
  pub width : length r.1 ≡ suc mask
  pub members : (d : ℕ) → contains (concat chains') d ≡ (contains l d || contains (concat chains) d)
  pub total : length (concat chains') ≡ length l + length (concat chains)
  pub distinct : IsDistinct (concat chains')

pub same_edge : (n : TrieNode) → SameEdge n n
same_edge n = record { parent = refl; key = refl; tuple_index = refl }

Moved-trans :
    (l l' : List ℕ) (a b c : List TrieNode) → Moved l a b → Moved l' b c → Moved (l ++ l') a c
Moved-trans l l' a b c m n = record {
  size = n.size ∙ m.size;
  edges = λ d x f.
      let (y, (g, (e, p))) = m.edges d x f in
      let (z, (h, (e', p'))) = n.edges d y g in
      (
        z,
        (
          h,
          (
            record {
              parent = e'.parent ∙ e.parent;
              key = e'.key ∙ e.key;
              tuple_index = e'.tuple_index ∙ e.tuple_index;
            },
            p' ∙ p,
          ),
        ),
      );
  others = λ d t.
      n.others d (ground (arith, contains-append l l' d))
      ∙ m.others d (ground (arith, contains-append l l' d));
}

-- Writing the link of one node.
relink :
    (nodes : List TrieNode) (c : ℕ) (n : TrieNode) (top : Option ℕ)
    → get_elem? nodes c ≡ some n
    → (nodes₁ : List TrieNode) × ((set_elem? nodes c (record n { next_entry = top }) ≡ some nodes₁)
        × Moved (c ∷ []) nodes nodes₁)
relink nodes c n top found =
    let n' : TrieNode = record n { next_entry = top } in
    let (nodes₁, (wrote, size)) = set_elem?-some nodes c n' (get_elem?-lt nodes c found) in
    let read : (d : ℕ) → get_elem? nodes₁ d ≡ (if c == d then some n' else get_elem? nodes d) =
      λ d. get_elem?-set_elem? nodes nodes₁ c d n' wrote in
    (
      nodes₁,
      (
        wrote,
        record {
          size = size;
          edges = λ d x g. elim (Bool-cases (c == d)) [
            | inl e ↦
                let same : n ≡ x =
                  some_eq x (sym found ∙ ap (get_elem? nodes) ((nat_eq.beq_iff c d).0 e) ∙ g) in
                (
                  n',
                  (
                    ground (arith, read d),
                    (
                      record {
                        parent = ap (λ y. y.parent) same;
                        key = ap (λ y. y.key) same;
                        tuple_index = ap (λ y. y.tuple_index) same;
                      },
                      ap (λ y. y.first_child) same,
                    ),
                  ),
                )
            | inr e ↦ (x, (ground (arith, read d), (same_edge x, refl)))
          ];
          others = λ d e. ground (arith, read d);
        },
      ),
    )
  where
    some_eq : (x : TrieNode) → some n ≡ some x → n ≡ x
    some_eq x h = ground arith

-- One round of the loop.
rehash_chain-step :
    (fuel mask : ℕ) (head : Option ℕ) (c : ℕ) (n : TrieNode) (p : ℕ) (top : Option ℕ)
    (nodes nodes₁ : List TrieNode) (buckets buckets₁ : List (Option ℕ))
    → head ≡ some c
    → get_elem? nodes c ≡ some n
    → n.parent ≡ some p
    → get_elem? buckets (bucket_of n.key p mask) ≡ some top
    → set_elem? nodes c (record n { next_entry = top }) ≡ some nodes₁
    → set_elem? buckets (bucket_of n.key p mask) (some c) ≡ some buckets₁
    → rehash_chain (suc fuel) mask head nodes buckets
      ≡ rehash_chain fuel mask n.next_entry nodes₁ buckets₁
unfolding rehash_chain
rehash_chain-step fuel mask head c n p top nodes nodes₁ buckets buckets₁ h found parent read wrote
      filled =
    let wrote' =
      ap (λ q. set_elem? nodes c (record n { parent = q; next_entry = top })) (sym parent)
      ∙ wrote in
    rw (h, rehash_chain, found, ◌>>=◌, parent, ◌>>=◌, read, ◌>>=◌, wrote', ◌>>=◌, filled) refl

pub rehash_chain_lem :
    (fuel old mask i : ℕ) (head : Option ℕ) (l : List ℕ) (nodes : List TrieNode)
    (buckets : List (Option ℕ)) (chains : List (List ℕ))
    → Links nodes old i head l
    → length l < fuel
    → Table nodes mask 0 buckets chains
    → length buckets ≡ suc mask
    → IsDistinct l
    → IsDistinct (concat chains)
    → IsDisjoint l (concat chains)
    → (r : List TrieNode × List (Option ℕ)) × ((rehash_chain fuel mask head nodes buckets ≡ some r)
        × Filled l mask nodes chains r)
unfolding rehash_chain
rehash_chain_lem zero old mask i head l nodes buckets chains h enough t w dl dc apart =
    absurd (omega arith)
rehash_chain_lem (suc fuel) old mask i head [] nodes buckets chains h enough t w dl dc apart = (
  (nodes, buckets),
  (
    rw h refl,
    record {
      moved = record {
        size = refl;
        edges = λ c n f. (n, (f, (same_edge n, refl)));
        others = λ c t. refl;
      };
      chains' = chains;
      table = t;
      width = w;
      members = λ d. refl;
      total = omega arith;
      distinct = dc;
    },
  ),
)
rehash_chain_lem (suc fuel) old mask i head (c ∷ l) nodes buckets chains
      (h, (n, (found, ((p, (parent, here)), rest)))) enough t w (new, dl) dc apart =
    let b = bucket_of n.key p mask in
    let (top, read) =
      get_elem?-some buckets b (subst (λ x. b < x) (sym w) (bucket_of-lt n.key p mask)) in
    let (nodes₁, (wrote, m)) = relink nodes c n top found in
    let keeps : (d : ℕ) → (c == d) ≡ false → Keeps SameLink nodes nodes₁ d = λ d e x g.
      (x, (m.others d (ground arith) ∙ g, record { edge = same_edge x; next_entry = refl })) in
    let itself : get_elem? nodes₁ c ≡ some (record n { next_entry = top }) =
      get_elem?-set_elem? nodes nodes₁ c c (record n { next_entry = top }) wrote
      ∙ ground (arith, ==_refl c) in
    let (buckets₁, (chains₁, (filled, (table₁, pushed)))) =
      Table-push nodes nodes₁ mask 0 b buckets chains top c (record n { next_entry = top }) t
        (λ d q. keeps d (ground (arith, apart c, nat_eq.beq_iff c d, ==_refl c))) read itself refl
        (p, (parent, omega arith)) in
    let (r, (run, f)) =
      rehash_chain_lem fuel old mask i n.next_entry l nodes₁ buckets₁ chains₁
        (Links-Keeps nodes nodes₁ old i n.next_entry l
          (λ d q. keeps d (ground (arith, nat_eq.beq_iff c d))) rest)
        (omega arith) table₁ (length-set_elem? buckets buckets₁ b (some c) filled ∙ w) dl
        (pushed.distinct (ground (arith, apart c, ==_refl c)) dc)
        (λ d q. ground (arith, pushed.members d, apart d, nat_eq.beq_iff c d)) in
    (
      r,
      (
        rehash_chain-step fuel mask head c n p top nodes nodes₁ buckets buckets₁ h found parent read
              wrote filled
            ∙ run,
        record {
          moved = Moved-trans (c ∷ []) l nodes nodes₁ r.0 m f.moved;
          chains' = f.chains';
          table = f.table;
          width = f.width;
          members = λ d. ground (arith, f.members d, pushed.members d);
          total = omega (arith, f.total, pushed.size);
          distinct = f.distinct;
        },
      ),
    )

-- The lists of all the old buckets.
pub rehash_lem :
    (fuel old mask i : ℕ) (heads : List (Option ℕ)) (lists : List (List ℕ)) (nodes : List TrieNode)
    (buckets : List (Option ℕ)) (chains : List (List ℕ))
    → Table nodes old i heads lists
    → length (concat lists) < fuel
    → Table nodes mask 0 buckets chains
    → length buckets ≡ suc mask
    → IsDistinct (concat lists)
    → IsDistinct (concat chains)
    → IsDisjoint (concat lists) (concat chains)
    → (r : List TrieNode × List (Option ℕ)) × ((rehash fuel mask heads nodes buckets ≡ some r)
        × Filled (concat lists) mask nodes chains r)
unfolding rehash
rehash_lem fuel old mask i [] [] nodes buckets chains h enough t w dl dc apart = (
  (nodes, buckets),
  (
    refl,
    record {
      moved = record {
        size = refl;
        edges = λ c n f. (n, (f, (same_edge n, refl)));
        others = λ c t. refl;
      };
      chains' = chains;
      table = t;
      width = w;
      members = λ d. refl;
      total = omega arith;
      distinct = dc;
    },
  ),
)
rehash_lem fuel old mask i [] (l ∷ ls) nodes buckets chains h enough t w dl dc apart = absurd h
rehash_lem fuel old mask i (x ∷ xs) [] nodes buckets chains h enough t w dl dc apart = absurd h
rehash_lem fuel old mask i (x ∷ xs) (l ∷ ls) nodes buckets chains (h, hs) enough t w dl dc apart =
    let (d₁, (d₂, between)) = IsDistinct-append l (concat ls) dl in
    let (r, (run, f)) =
      rehash_chain_lem fuel old mask i x l nodes buckets chains h
        (omega (arith, length-append l (concat ls))) t w d₁ dc
        (λ d q. apart d (ground (arith, contains-append l (concat ls) d))) in
    let keeps : (d : ℕ) → contains (concat ls) d ≡ true → Keeps SameLink nodes r.0 d = λ d q n g. (
      n,
      (
        f.moved.others d (ground (arith, between d)) ∙ g,
        record { edge = same_edge n; next_entry = refl },
      ),
    ) in
    let (r', (run', f')) =
      rehash_lem fuel old mask (suc i) xs ls r.0 r.1 f.chains'
        (Table-Keeps nodes r.0 old (suc i) xs ls keeps hs)
        (omega (arith, length-append l (concat ls))) f.table f.width d₂ f.distinct
        (λ d q. ground (arith, f.members d, between d, apart d, contains-append l (concat ls) d)) in
    (
      r',
      (
        rw (run, ◌>>=◌) run',
        record {
          moved = Moved-trans l (concat ls) nodes r.0 r'.0 f.moved f'.moved;
          chains' = f'.chains';
          table = f'.table;
          width = f'.width;
          members = λ d. ground (arith, f.members d, f'.members d, contains-append l (concat ls) d);
          total = omega (arith, f.total, f'.total, length-append l (concat ls));
          distinct = f'.distinct;
        },
      ),
    )

-- Empty buckets.
pub Table-empty :
    (nodes : List TrieNode) (mask i n : ℕ)
    → Table nodes mask i (repeat n none) (repeat n []) × (concat (repeat n []) ≡ [])
Table-empty nodes mask i zero = (tt, refl)
Table-empty nodes mask i (suc n) = let (t, e) = Table-empty nodes mask (suc i) n in ((refl, t), e)
