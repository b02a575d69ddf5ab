-- ===== src/Tableau/TupleIndex/Content.antt =====
-- What a `TupleIndex` holds: a tuple index for each sequence of keys.
use hermit_rs.Base.{
  list_eq, option_eq, ℕ, suc, ◌<◌, ◌≡◌, refl, sym, ap, ◌∙◌, subst, inl, inr, ◌↔◌, true, false,
  Option, none, some, List, [], ◌∷◌, arith, if◌then◌else◌, length, get_elem?, Bool-cases,
  Option-cases, ==_refl, nat_eq, ◌==◌, get_elem?-some,
}
use hermit_rs.Base.Panic.{◌>>=◌}
use hermit_rs.Base.Vectors.{set_elem?, get_elem?-set_elem?}
use hermit_rs.Collections.HashSet.{contains}
use hermit_rs.Tableau.TupleIndex.{EdgeKey, TrieNode, TupleIndex, descend, keys_of, get_tuple_index}
use hermit_rs.Tableau.TupleIndex.Find.{IsEdge}
use hermit_rs.Tableau.TupleIndex.Links.{SameChain, Keeps, Table-kept}
use hermit_rs.Tableau.TupleIndex.Valid.{IsValid, is_live, members, live-lt}
use hermit_rs.Tableau.TupleIndex.Child.{Grows}
use hermit_rs.Tableau.TupleIndex.Paths.{
  PathOf, IsPath-map, path_unique, path_inj, path_live, path_later, path_before, FindsPath,
  descend_lem,
}

-- The index that the trie holds for a sequence of keys.
abbrev pub Entry : {t : TupleIndex} → IsValid t → List ℕ → ℕ → Type 0
Entry {t} v ks i =
    (d : ℕ) × (PathOf v t.root ks d
      × ((n : TrieNode) × ((get_elem? t.nodes d ≡ some n) × (n.tuple_index ≡ some i))))

pub root_live : (t : TupleIndex) (v : IsValid t) → is_live v t.root ≡ true
root_live t v = ground (arith, ==_refl t.root)

pub some_eq {ℓ} : {A : Type ℓ} (a b : A) → some a ≡ some b → a ≡ b
some_eq a b h = ground arith

-- Adding nodes does not change what the trie holds.
module _ (t : TupleIndex) (v : IsValid t) (t' : TupleIndex) (w : IsValid t')
    (g : Grows t v t' w) where
  pub Entry-later : (ks : List ℕ) (i : ℕ) → Entry v ks i → Entry w ks i
  Entry-later ks i (d, (path, (n, (f, e)))) =
      let (m, (f', same)) = g.kept d (path_live t v t.root ks d (root_live t v) path) n f in
      (
        d,
        (
          subst (λ r. PathOf w r ks d) (sym g.root) (path_later t v t' w g t.root ks d path),
          (m, (f', same.tuple_index ∙ e)),
        ),
      )

  pub Entry-before : (ks : List ℕ) (i : ℕ) → Entry w ks i → Entry v ks i
  Entry-before ks i (d, (path, (m, (f', e)))) = elim (Bool-cases (is_live v d)) [
    | inl l ↦
        let (_, old) = path_before t v t' w g t'.root ks d path l in
        let (n, f) = get_elem?-some t.nodes d (live-lt t v d l) in
        let (x, (f'', same)) = g.kept d l n f in
        (
          d,
          (
            subst (λ r. PathOf v r ks d) g.root old,
            (
              n,
              (f, sym same.tuple_index ∙ ap (λ y. y.tuple_index) (some_eq x m (sym f'' ∙ f')) ∙ e),
            ),
          ),
        )
    | inr l ↦ absurd (clash (g.no_tuple d m l (new_member l) f') e)
  ]
    where
      clash : m.tuple_index ≡ none → m.tuple_index ≡ some i → ⊥
      clash a b = ground arith

      new_member : is_live v d ≡ false → contains (members w) d ≡ true
      new_member l =
          ground (arith, path_live t' w t'.root ks d (root_live t' w) path, ap (λ r. r == d) g.root)

-- Writing the index of a node.
module _ (t : TupleIndex) (v : IsValid t) (d : ℕ) (n : TrieNode)
    (found : get_elem? t.nodes d ≡ some n) (i : ℕ) where
  abbrev pub noted : TrieNode
  noted = record n { tuple_index = some i }

  -- The index after the write, with the same members and edges.
  pub record Noted (nodes' : List TrieNode) : Type 0 where
    pub wrote : set_elem? t.nodes d noted ≡ some nodes'
    pub valid : IsValid (record t { nodes = nodes' })
    pub same_members : (c : ℕ) → contains (members valid) c ≡ contains (members v) c
    pub later : (q k c : ℕ) → IsEdge t.nodes q k c → IsEdge nodes' q k c
    pub before : (q k c : ℕ) → IsEdge nodes' q k c → IsEdge t.nodes q k c

  module _ (nodes' : List TrieNode) (wrote : set_elem? t.nodes d noted ≡ some nodes')
      (size : length nodes' ≡ length t.nodes) where
    read : (c : ℕ) → get_elem? nodes' c ≡ (if d == c then some noted else get_elem? t.nodes c)
    read c = get_elem?-set_elem? t.nodes nodes' d c noted wrote

    -- What a node was before.
    old_node :
        (c : ℕ) (m : TrieNode)
        → get_elem? nodes' c ≡ some m
        → (x : TrieNode) × ((get_elem? t.nodes c ≡ some x)
            × (SameChain x m × (m.first_child ≡ x.first_child)))
    old_node c m f = elim (Bool-cases (d == c)) [
      | inl e ↦
          let p = (nat_eq.beq_iff d c).0 e in
          let same : noted ≡ m = some_eq noted m (sym (read c ∙ ground arith) ∙ f) in
          (
            n,
            (
              ap (get_elem? t.nodes) (sym p) ∙ found,
              (
                record {
                  parent = ap (λ y. y.parent) (sym same);
                  key = ap (λ y. y.key) (sym same);
                  next_entry = ap (λ y. y.next_entry) (sym same);
                },
                ap (λ y. y.first_child) (sym same),
              ),
            ),
          )
      | inr e ↦ (
        m,
        (
          sym (read c ∙ ground arith) ∙ f,
          (record { parent = refl; key = refl; next_entry = refl }, refl),
        ),
      )
    ]

    new_node : (c : ℕ) → Keeps SameChain t.nodes nodes' c
    new_node c x f = elim (Bool-cases (d == c)) [
      | inl e ↦
          let same : n ≡ x =
            some_eq n x (sym found ∙ ap (get_elem? t.nodes) ((nat_eq.beq_iff d c).0 e) ∙ f) in
          (
            noted,
            (
              read c ∙ ground arith,
              record {
                parent = ap (λ y. y.parent) same;
                key = ap (λ y. y.key) same;
                next_entry = ap (λ y. y.next_entry) same;
              },
            ),
          )
      | inr e ↦
          (x, (read c ∙ ground arith, record { parent = refl; key = refl; next_entry = refl }))
    ]

    IsEdge-before : (q k c : ℕ) → IsEdge nodes' q k c → IsEdge t.nodes q k c
    IsEdge-before q k c (m, (f, (p, e))) =
        let (x, (g, (same, _))) = old_node c m f in
        (x, (g, (sym same.parent ∙ p, sym same.key ∙ e)))

    pub write-Noted : Noted nodes'
    write-Noted = record {
      wrote = wrote;
      valid = record {
        chains = v.chains;
        table =
            Table-kept t.nodes nodes' t.buckets_mask 0 t.buckets v.chains (λ c _. new_node c)
              v.table;
        width = v.width;
        distinct = v.distinct;
        count = v.count;
        root_apart = v.root_apart;
        root_there = subst (λ y. t.root < y) (sym size) v.root_there;
        unique = λ q k c c' m m' e e'.
            v.unique q k c c' m m' (IsEdge-before q k c e) (IsEdge-before q k c' e');
        parents = λ c m q h f p.
            let (x, (g, (same, _))) = old_node c m f in v.parents c x q h g (sym same.parent ∙ p);
        free_apart = λ f h. let (a, l) = v.free_apart f h in (a, subst (λ y. f < y) (sym size) l);
        free_distinct = v.free_distinct;
        children = λ c m s f h.
            let (x, (g, (_, first))) = old_node c m f in
            subst (λ y. s < y) (sym size) (v.children c x s g (sym first ∙ h));
      };
      same_members = λ c. refl;
      later = λ q k c (x, (f, (p, e))).
          let (m, (g, same)) = new_node c x f in (m, (g, (same.parent ∙ p, same.key ∙ e)));
      before = IsEdge-before;
    }

    -- The path to the node has the index, and the others keep theirs.
    module _ (N : Noted nodes') (ks js : List ℕ) (j : ℕ) (same : length ks ≡ length js)
        (path : PathOf v t.root ks d) where
      path_to : (x : ℕ) → PathOf v t.root js x → PathOf N.valid t.root js x
      path_to x =
          IsPath-map t.nodes nodes' (members v) (members N.valid) (λ c h. N.same_members c ∙ h)
            (λ q k c _ e. N.later q k c e) t.root js x

      path_from : (x : ℕ) → PathOf N.valid t.root js x → PathOf v t.root js x
      path_from x =
          IsPath-map nodes' t.nodes (members N.valid) (members v)
            (λ c h. sym (N.same_members c) ∙ h) (λ q k c _ e. N.before q k c e) t.root js x

      pub Entry-here : ks ≡ js → Entry N.valid js j ↔ (j ≡ i)
      Entry-here e = (
        λ (x, (p, (m, (f, k)))).
            let at : d ≡ x =
              path_unique t v t.root js d x (subst (λ l. PathOf v t.root l d) e path)
                (path_from x p) in
            let this : noted ≡ m =
              some_eq noted m
                (sym (read d ∙ ground (arith, ==_refl d)) ∙ ap (get_elem? nodes') at ∙ f) in
            some_eq j i (sym k ∙ ap (λ y. y.tuple_index) (sym this)),
        λ h. (
          d,
          (
            path_to d (subst (λ l. PathOf v t.root l d) e path),
            (noted, (read d ∙ ground (arith, ==_refl d), ap some (sym h))),
          ),
        ),
      )

      pub Entry-there : (ks == js) ≡ false → Entry N.valid js j ↔ Entry v js j
      Entry-there e = (
        λ (x, (p, (m, (f, k)))).
            let p' = path_from x p in
            (
              x,
              (
                p',
                (
                  m,
                  (
                    sym (
                          read x
                          ∙ ap (λ b. if b then some noted else get_elem? t.nodes x) (unlike x p'))
                        ∙ f,
                    k,
                  ),
                ),
              ),
            ),
        λ (x, (p, (m, (f, k)))). (
          x,
          (
            path_to x p,
            (
              m,
              (
                read x ∙ ap (λ b. if b then some noted else get_elem? t.nodes x) (unlike x p) ∙ f,
                k,
              ),
            ),
          ),
        ),
      )
        where
          differ : true ≡ false → ⊥
          differ q = ground arith

          clash : ks ≡ js → (ks == js) ≡ false → ⊥
          clash h k = differ (sym ((list_eq.beq_iff ks js).1 h) ∙ k)

          unlike : (x : ℕ) → PathOf v t.root js x → (d == x) ≡ false
          unlike x p = elim (Bool-cases (d == x)) [
            | inl a ↦
                let (_, q) =
                  path_inj t v t.root t.root ks js x same
                    (subst (λ y. PathOf v t.root ks y) ((nat_eq.beq_iff d x).0 a) path) p in
                absurd (clash q e)
            | inr a ↦ a
          ]

no_value {ℓ} : {A : Type ℓ} (a : A) → none ≡ some a → ⊥
no_value a h = ground arith

module _ {ℓ} {T : Type ℓ} ⦃e : EdgeKey T⦄ where
  pub length-keys_of :
      (columns : List ℕ) (u : List T) (ks : List ℕ)
      → keys_of columns u ≡ some ks
      → length ks ≡ length columns
  unfolding keys_of
  length-keys_of [] u ks h = ap length (sym (some_eq [] ks h))
  length-keys_of (c ∷ cs) u ks h = elim (Option-cases (get_elem? u c)) [
    | inl a ↦ absurd (ground arith)
    | inr (x, a) ↦ elim (Option-cases (e.unique_key x)) [
      | inl k ↦ absurd (no_value ks (rw (a, keys_of, ◌>>=◌, k, ◌>>=◌) at h))
      | inr (key, k) ↦ elim (Option-cases (keys_of cs u)) [
        | inl b ↦ absurd (no_value ks (rw (a, keys_of, ◌>>=◌, k, ◌>>=◌, b, ◌>>=◌) at h))
        | inr (js, b) ↦
            ap length
              (sym (some_eq (key ∷ js) ks (rw (a, keys_of, ◌>>=◌, k, ◌>>=◌, b, ◌>>=◌) at h)))
            ∙ ap suc (length-keys_of cs u js b)
      ]
    ]
  ]

  -- The lookup gives what the trie holds.
  pub get_tuple_index_lem :
      (t : TupleIndex) (v : IsValid t) (u : List T) (ks : List ℕ)
      → keys_of t.indexing_sequence u ≡ some ks
      → (o : Option ℕ) × ((get_tuple_index t u ≡ some o) × ((i : ℕ) → (o ≡ some i) ↔ Entry v ks i))
  unfolding get_tuple_index
  get_tuple_index_lem t v u ks h = let (r, (run, f)) = descend_lem t v t.root ks in go r run f
    where
      go :
          (r : Option ℕ)
          → descend t t.root ks ≡ some r
          → FindsPath t v t.root ks r
          → (o : Option ℕ) × ((get_tuple_index t u ≡ some o)
              × ((i : ℕ) → (o ≡ some i) ↔ Entry v ks i))
      go none run f = (
        none,
        (rw (h, ◌>>=◌, run) refl, λ i. (λ x. absurd (ground arith), λ (d, (p, _)). absurd (f d p))),
      )
      go (some d) run f =
          let (n, found) =
            get_elem?-some t.nodes d
              (live-lt t v d (path_live t v t.root ks d (root_live t v) f)) in
          (
            n.tuple_index,
            (
              rw (h, ◌>>=◌, run, ◌>>=◌, found) refl,
              λ i. (
                λ x. (d, (f, (n, (found, x)))),
                λ (d', (p, (m, (g, x)))).
                    let at : d ≡ d' = path_unique t v t.root ks d d' f p in
                    ap (λ y. y.tuple_index)
                      (some_eq n m (sym found ∙ ap (get_elem? t.nodes) at ∙ g))
                    ∙ x,
              ),
            ),
          )
