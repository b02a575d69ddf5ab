-- ===== src/Tableau/TupleIndex/Paths.antt =====
-- The paths of the trie of a `TupleIndex`, and the descents along the keys of a tuple.
use hermit_rs.Base.{
  list_eq, ℕ, ◌≡◌, refl, sym, ap, ◌∙◌, subst, inl, inr, true, false, Option, none, some, List, [],
  ◌∷◌, arith, length, Bool-cases, nat_eq, ◌==◌,
}
use hermit_rs.Base.Panic.{◌>>=◌}
use hermit_rs.Collections.HashSet.{contains}
use hermit_rs.Tableau.TupleIndex.{TrieNode, TupleIndex, descend, descend_add, get_child_node}
use hermit_rs.Tableau.TupleIndex.Find.{IsEdge, Finds}
use hermit_rs.Tableau.TupleIndex.Valid.{IsValid, is_live, members, member-found, get_child_node_lem}
use hermit_rs.Tableau.TupleIndex.Child.{
  Grows, Grows-refl, Grows-trans, get_child_node_add_if_necessary_lem,
}

-- From a node, edges under the keys lead to another node.
abbrev pub IsPath : List TrieNode → (all : List ℕ) → ℕ → List ℕ → ℕ → Type 0
IsPath nodes all q [] d = q ≡ d
IsPath nodes all q (k ∷ ks) d =
    (c : ℕ) × ((contains all c ≡ true) × (IsEdge nodes q k c × IsPath nodes all c ks d))

abbrev pub PathOf : {t : TupleIndex} → IsValid t → ℕ → List ℕ → ℕ → Type 0
PathOf {t} v = IsPath t.nodes (members v)

pub IsPath-map :
    (nodes nodes' : List TrieNode) (all all' : List ℕ)
    → ((c : ℕ) → contains all c ≡ true → contains all' c ≡ true)
    → ((q k c : ℕ) → contains all c ≡ true → IsEdge nodes q k c → IsEdge nodes' q k c)
    → (q : ℕ) (ks : List ℕ) (d : ℕ) → IsPath nodes all q ks d
    → IsPath nodes' all' q ks d
IsPath-map nodes nodes' all all' f g q [] d h = h
IsPath-map nodes nodes' all all' f g q (k ∷ ks) d (c, (m, (edge, rest))) =
    (c, (f c m, (g q k c m edge, IsPath-map nodes nodes' all all' f g c ks d rest)))

-- Two edges to one node are the same.
pub IsEdge-inj :
    (nodes : List TrieNode) (q k q' k' c : ℕ)
    → IsEdge nodes q k c
    → IsEdge nodes q' k' c
    → (q ≡ q') × (k ≡ k')
IsEdge-inj nodes q k q' k' c (n, (f, (p, e))) (m, (g, (p', e'))) =
    let same : n ≡ m = some_eq n m (sym f ∙ g) in
    (inj (sym p ∙ ap (λ x. x.parent) same ∙ p'), sym e ∙ ap (λ x. x.key) same ∙ e')
  where
    some_eq : (a b : TrieNode) → some a ≡ some b → a ≡ b
    some_eq a b h = ground arith

    inj : some q ≡ some q' → q ≡ q'
    inj h = ground arith

module _ (t : TupleIndex) (v : IsValid t) where
  pub path_unique : (q : ℕ) (ks : List ℕ) (d d' : ℕ) → PathOf v q ks d → PathOf v q ks d' → d ≡ d'
  path_unique q [] d d' h h' = sym h ∙ h'
  path_unique q (k ∷ ks) d d' (c, (m, (e, r))) (c', (m', (e', r'))) =
      path_unique c ks d d' r (subst (λ x. PathOf v x ks d') (sym (v.unique q k c c' m m' e e')) r')

  -- Paths of one length to one node are the same.
  pub path_inj :
      (q q' : ℕ) (ks js : List ℕ) (d : ℕ)
      → length ks ≡ length js
      → PathOf v q ks d
      → PathOf v q' js d
      → (q ≡ q') × (ks ≡ js)
  path_inj q q' [] [] d l h h' = (h ∙ sym h', refl)
  path_inj q q' [] (j ∷ js) d l h h' = absurd (omega arith)
  path_inj q q' (k ∷ ks) [] d l h h' = absurd (omega arith)
  path_inj q q' (k ∷ ks) (j ∷ js) d l (c, (m, (e, r))) (c', (m', (e', r'))) =
      let (same, rest) = path_inj c c' ks js d (omega arith) r r' in
      let (a, b) = IsEdge-inj t.nodes q k q' j c e (subst (IsEdge t.nodes q' j) (sym same) e') in
      (a, ap (λ x. x ∷ ks) b ∙ ap (λ l. j ∷ l) rest)

  pub path_live :
      (q : ℕ) (ks : List ℕ) (d : ℕ) → is_live v q ≡ true → PathOf v q ks d → is_live v d ≡ true
  path_live q [] d l h = subst (λ x. is_live v x ≡ true) h l
  path_live q (k ∷ ks) d l (c, (m, (e, r))) = path_live c ks d (ground arith) r

  -- The search along the keys ends, and finds the end of the path, if there is one.
  abbrev pub FindsPath : ℕ → List ℕ → Option ℕ → Type 0
  FindsPath q ks none = (d : ℕ) → ¬ (PathOf v q ks d)
  FindsPath q ks (some d) = PathOf v q ks d

  step_found :
      (q k c : ℕ) (ks : List ℕ) (r : Option ℕ)
      → contains (members v) c ≡ true
      → IsEdge t.nodes q k c
      → FindsPath c ks r
      → FindsPath q (k ∷ ks) r
  step_found q k c ks none m e f = λ d (c', (m', (e', rest))).
      f d (subst (λ x. PathOf v x ks d) (v.unique q k c' c m' m e' e) rest)
  step_found q k c ks (some d) m e f = (c, (m, (e, f)))

  pub descend_lem :
      (q : ℕ) (ks : List ℕ) → (r : Option ℕ) × ((descend t q ks ≡ some r) × FindsPath q ks r)
  unfolding descend
  descend_lem q [] = (some q, (refl, refl))
  descend_lem q (k ∷ ks) =
      let (o, (run, f)) = get_child_node_lem t v q k in go o run f (λ c. descend_lem c ks)
    where
      go :
          (o : Option ℕ)
          → get_child_node t q k ≡ some o
          → Finds t.nodes (members v) q k o
          → ((c : ℕ) → (r : Option ℕ) × ((descend t c ks ≡ some r) × FindsPath c ks r))
          → (r : Option ℕ) × ((descend t q (k ∷ ks) ≡ some r) × FindsPath q (k ∷ ks) r)
      go none run f ih = (none, (rw (run, ◌>>=◌) refl, λ d (c, (m, (e, rest))). f c m e))
      go (some c) run (m, e) ih =
          let (r, (run', f)) = ih c in (r, (rw (run, ◌>>=◌) run', step_found q k c ks r m e f))

-- The paths of an index that has grown.
module _ (t : TupleIndex) (v : IsValid t) (t' : TupleIndex) (w : IsValid t')
    (g : Grows t v t' w) where
  kept-IsEdge :
      (q k c : ℕ) → contains (members v) c ≡ true → IsEdge t.nodes q k c → IsEdge t'.nodes q k c
  kept-IsEdge q k c m (n, (f, (p, e))) =
      let (x, (f', same)) = g.kept c (ground arith) n f in
      (x, (f', (same.parent ∙ p, same.key ∙ e)))

  pub path_later : (q : ℕ) (ks : List ℕ) (d : ℕ) → PathOf v q ks d → PathOf w q ks d
  path_later = IsPath-map t.nodes t'.nodes (members v) (members w) g.more kept-IsEdge

  old_member :
      (c : ℕ) → contains (members w) c ≡ true → is_live v c ≡ true → contains (members v) c ≡ true
  old_member c m l = elim (Bool-cases (t.root == c)) [
    | inl e ↦ absurd (
        clash
          (subst (λ x. contains (members w) x ≡ false) (g.root ∙ (nat_eq.beq_iff t.root c).0 e)
            w.root_apart)
          m)
    | inr e ↦ ground arith
  ]
    where
      clash : contains (members w) c ≡ false → contains (members w) c ≡ true → ⊥
      clash a b = ground arith

  -- A path to an old node is an old path.
  pub path_before :
      (q : ℕ) (ks : List ℕ) (d : ℕ)
      → PathOf w q ks d
      → is_live v d ≡ true
      → (is_live v q ≡ true) × PathOf v q ks d
  path_before q [] d h l = (subst (λ x. is_live v x ≡ true) (sym h) l, h)
  path_before q (k ∷ ks) d (c, (m, ((x, (f, (p, e))), rest))) l =
      let (lc, rest') = path_before c ks d rest l in
      let mc = old_member c m lc in
      let (n, (f₀, _)) = member-found t v c mc in
      let (y, (f₁, same)) = g.kept c lc n f₀ in
      let at : y ≡ x = some_eq y x (sym f₁ ∙ f) in
      let parent = sym same.parent ∙ ap (λ z. z.parent) at ∙ p in
      let key = sym same.key ∙ ap (λ z. z.key) at ∙ e in
      (v.parents c n q mc f₀ parent, (c, (mc, ((n, (f₀, (parent, key))), rest'))))
    where
      some_eq : (a b : TrieNode) → some a ≡ some b → a ≡ b
      some_eq a b h = ground arith

-- What the descent that adds nodes gives: the end of the path.
pub record Descends (t : TupleIndex) (v : IsValid t) (q : ℕ) (ks : List ℕ) (r : TupleIndex × ℕ)
    : Type 0 where
  pub valid : IsValid r.0
  pub grows : Grows t v r.0 valid
  pub path : PathOf valid q ks r.1

pub descend_add_lem :
    (t : TupleIndex) (v : IsValid t) (q : ℕ) (ks : List ℕ)
    → is_live v q ≡ true
    → (r : TupleIndex × ℕ) × ((descend_add t q ks ≡ some r) × Descends t v q ks r)
unfolding descend_add
descend_add_lem t v q [] l =
    ((t, q), (refl, record { valid = v; grows = Grows-refl t v; path = refl }))
descend_add_lem t v q (k ∷ ks) l =
    let (s, (run, g)) = get_child_node_add_if_necessary_lem t v q k l in
    let (r, (run', h)) = descend_add_lem s.0 g.valid s.1 ks (ground (arith, g.member)) in
    (
      r,
      (
        ap (λ o. o >>= λ x. descend_add x.0 x.1 ks) run ∙ run',
        record {
          valid = h.valid;
          grows = Grows-trans t v s.0 g.valid r.0 h.valid g.grows h.grows;
          path = (
            s.1,
            (
              h.grows.more s.1 g.member,
              (kept-IsEdge s.0 g.valid r.0 h.valid h.grows q k s.1 g.member g.edge, h.path),
            ),
          );
        },
      ),
    )
