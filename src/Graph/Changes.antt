-- ===== src/Graph/Changes.antt =====
-- The operations that take edges away.
use hermit_rs.Base.{
  ℕ, ◌≡◌, refl, Bool, false, not, ◌&&◌, ◌||◌, List, [], ◌∷◌, none, some, Eq, ◌==◌, if◌then◌else◌,
  nat_eq, arith, Option-cases, inl, inr,
}
use hermit_rs.Collections.HashSet
use hermit_rs.Collections.HashSet.{contains, contains-remove}
use hermit_rs.Collections.HashMap
use hermit_rs.Successors.{successors}
use hermit_rs.Successors.Link.{successors-insert}
use hermit_rs.Graph.{
  Graph, id_of, successor_contains, change_successors, remove_ids, remove_successors, remove_edge,
  clear_successors,
}
use hermit_rs.Graph.Valid.{IsValid}
use hermit_rs.Graph.Edges.{successor_contains-ids}

module _ {ℓ} {A : Type ℓ} ⦃e : Eq A⦄ where
  -- Changing one successor set changes the edges of that node and no others, where the change leaves
  -- an empty set empty.
  successors-change :
      (g : Graph A) (nid : ℕ) (f : List ℕ → List ℕ) (k : ℕ)
      → f [] ≡ []
      → successors (change_successors g nid f).successors_by_id k ≡ (
          if nid == k then f (successors g.successors_by_id k) else successors g.successors_by_id k)
  unfolding change_successors
  successors-change g nid f k empty = elim (Option-cases (HashMap.get g.successors_by_id nid)) [
    | inl n ↦ unfold successors in ground (arith, nat_eq.beq_iff nid k)
    | inr (s, found) ↦
        let old : successors g.successors_by_id nid ≡ s = unfold successors in ground arith in
        ground (arith, successors-insert g.successors_by_id nid (f s) k, nat_eq.beq_iff nid k)
  ]

  ids-change :
      (g : Graph A) (nid : ℕ) (f : List ℕ → List ℕ) → (change_successors g nid f).ids ≡ g.ids
  unfolding change_successors
  ids-change g nid f = ground arith

  -- The edges after a change to the successors of one element.
  successor_contains-change :
      (g : Graph A) (a : A) (i : ℕ) (f : List ℕ → List ℕ) (keep : ℕ → Bool) (x y : A)
      → IsValid g
      → id_of g a ≡ some i
      → f [] ≡ []
      → ((s : List ℕ) (j : ℕ) → contains (f s) j ≡ (contains s j && keep j))
      → successor_contains (change_successors g i f) x y ≡ (
          successor_contains g x y
          && (not (a == x) || (elim (id_of g y) [ none ↦ false | some j ↦ keep j ])))
  successor_contains-change g a i f keep x y v ha empty kept = elim (Option-cases (id_of g x)) [
    | inl ex ↦ ground (
      arith,
      successor_contains-ids g x y,
      successor_contains-ids (change_successors g i f) x y,
      ids-change g i f,
    )
    | inr (k, ex) ↦ elim (Option-cases (id_of g y)) [
      | inl ey ↦ ground (
        arith,
        successor_contains-ids g x y,
        successor_contains-ids (change_successors g i f) x y,
        ids-change g i f,
      )
      | inr (j, ey) ↦ ground (
        arith,
        successor_contains-ids g x y,
        successor_contains-ids (change_successors g i f) x y,
        ids-change g i f,
        successors-change g i f k empty,
        kept (successors g.successors_by_id k) j,
        v.ids_elems a i ha,
        v.ids_elems x k ex,
        e.beq_iff a x,
        nat_eq.beq_iff i k,
      )
    ]
  ]

  -- Ids are equal exactly when the elements are.
  beq-ids :
      (g : Graph A) (b y : A) (i j : ℕ)
      → IsValid g
      → id_of g b ≡ some i
      → id_of g y ≡ some j
      → (i == j) ≡ (b == y)
  beq-ids g b y i j v hb hy =
      ground (arith, v.ids_elems b i hb, v.ids_elems y j hy, e.beq_iff b y, nat_eq.beq_iff i j)

  -- For a well-formed graph, `remove_edge` removes the edge and no other.
  pub successor_contains-remove_edge :
      (g : Graph A) (a b x y : A)
      → IsValid g
      → successor_contains (remove_edge g a b) x y
        ≡ (successor_contains g x y && not (a == x && b == y))
  unfolding remove_edge HashSet.remove
  successor_contains-remove_edge g a b x y v = elim (Option-cases (id_of g a)) [
    | inl ea ↦ ground (arith, successor_contains-ids g x y, e.beq_iff a x)
    | inr (i, ea) ↦ elim (Option-cases (id_of g b)) [
      | inl eb ↦ ground (arith, successor_contains-ids g x y, e.beq_iff b y)
      | inr (k, eb) ↦ elim (Option-cases (id_of g y)) [
        | inl ey ↦ ground (
          arith,
          successor_contains-change g a i (λ s. HashSet.remove s k) (λ j. not (k == j)) x y v ea
              refl (λ s j. contains-remove s k j),
          successor_contains-ids g x y,
        )
        | inr (j, ey) ↦ ground (
          arith,
          successor_contains-change g a i (λ s. HashSet.remove s k) (λ j. not (k == j)) x y v ea
              refl (λ s j. contains-remove s k j),
          beq-ids g b y k j v eb ey,
        )
      ]
    ]
  ]

  -- For a well-formed graph, `clear_successors` removes the edges from the node and no other.
  pub successor_contains-clear_successors :
      (g : Graph A) (a x y : A)
      → IsValid g
      → successor_contains (clear_successors g a) x y ≡ (successor_contains g x y && not (a == x))
  unfolding clear_successors
  successor_contains-clear_successors g a x y v = elim (Option-cases (id_of g a)) [
    | inl ea ↦ ground (arith, successor_contains-ids g x y, e.beq_iff a x)
    | inr (i, ea) ↦ elim (Option-cases (id_of g y)) [
      | inl ey ↦ ground (
        arith,
        successor_contains-change g a i (λ s. []) (λ j. false) x y v ea refl (λ s j. ground arith),
        successor_contains-ids g x y,
      )
      | inr (j, ey) ↦ ground (
        arith,
        successor_contains-change g a i (λ s. []) (λ j. false) x y v ea refl (λ s j. ground arith),
      )
    ]
  ]

  -- Whether a list has an element of a given id.
  names : Graph A → List A → ℕ → Bool
  names g [] j = false
  names g (r ∷ rs) j = (elim (id_of g r) [ none ↦ false | some k ↦ k == j ]) || names g rs j

  remove_ids-nil : (g : Graph A) (rs : List A) → remove_ids g [] rs ≡ []
  unfolding remove_ids HashSet.remove
  remove_ids-nil g [] = refl
  remove_ids-nil g (r ∷ rs) = ground (arith, remove_ids-nil g rs)

  contains-remove_ids :
      (g : Graph A) (rs : List A) (s : List ℕ) (j : ℕ)
      → contains (remove_ids g s rs) j ≡ (contains s j && not (names g rs j))
  unfolding remove_ids names
  contains-remove_ids g [] s j = ground arith
  contains-remove_ids g (r ∷ rs) s j = elim (Option-cases (id_of g r)) [
    | inl er ↦ ground (arith, contains-remove_ids g rs s j)
    | inr (k, er) ↦
        ground (arith, contains-remove_ids g rs (HashSet.remove s k) j, contains-remove s k j)
  ]

  names-contains :
      (g : Graph A) (rs : List A) (y : A) (j : ℕ)
      → IsValid g
      → id_of g y ≡ some j
      → names g rs j ≡ contains rs y
  unfolding names
  names-contains g [] y j v hy = refl
  names-contains g (r ∷ rs) y j v hy = elim (Option-cases (id_of g r)) [
    | inl er ↦ ground (arith, names-contains g rs y j v hy, e.beq_iff r y)
    | inr (k, er) ↦ ground (arith, names-contains g rs y j v hy, beq-ids g r y k j v er hy)
  ]

  -- For a well-formed graph, `remove_successors` removes the edges from the node to the
  -- elements listed and no other.
  pub successor_contains-remove_successors :
      (g : Graph A) (a : A) (rs : List A) (x y : A)
      → IsValid g
      → successor_contains (remove_successors g a rs) x y
        ≡ (successor_contains g x y && not (a == x && contains rs y))
  unfolding remove_successors
  successor_contains-remove_successors g a rs x y v = elim (Option-cases (id_of g a)) [
    | inl ea ↦ ground (arith, successor_contains-ids g x y, e.beq_iff a x)
    | inr (i, ea) ↦
        let change =
          successor_contains-change g a i (λ s. remove_ids g s rs) (λ j. not (names g rs j)) x y v
            ea (remove_ids-nil g rs) (λ s j. contains-remove_ids g rs s j) in
        elim (Option-cases (id_of g y)) [
          | inl ey ↦ ground (arith, change, successor_contains-ids g x y)
          | inr (j, ey) ↦ ground (arith, change, names-contains g rs y j v ey)
        ]
  ]
