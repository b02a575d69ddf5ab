-- ===== src/Graph/Edges.antt =====
-- What the operations of a graph do to its edges.
use hermit_rs.Base.{
  ℕ, ◌+◌, ◌≤◌, ◌<◌, ◌≡◌, refl, true, false, ◌&&◌, ◌||◌, List, [], ◌∷◌, none, some, Eq, ◌==◌, nat_eq,
  length, arith, Option-cases, inl, inr, ap, ◌∙◌, get_elem?-some,
}
use hermit_rs.Collections.HashSet
use hermit_rs.Collections.HashSet.{contains, contains-insert}
use hermit_rs.Collections.HashMap
use hermit_rs.Successors.{successors}
use hermit_rs.Successors.Link.{link, contains-link}
use hermit_rs.Graph.{
  Graph, id_limit, id_of, intern, add_edge, successor_contains, elements_of, get_successors,
}
use hermit_rs.Graph.Valid.{IsValid, intern-Interned, Interned, no_edge}

module _ {ℓ} {A : Type ℓ} ⦃e : Eq A⦄ where
  -- An edge, by the ids of its ends.
  pub successor_contains-ids :
      (g : Graph A) (x y : A)
      → successor_contains g x y ≡ (elim (id_of g x) [
        | none ↦ false
        | some i ↦ elim (id_of g y) [
          | none ↦ false
          | some j ↦ contains (successors g.successors_by_id i) j
        ]
      ])
  unfolding successor_contains successors
  successor_contains-ids g x y = ground arith

  -- Interning an element adds no edge.
  pub successor_contains-Interned :
      (g : Graph A) (t : A) (g' : Graph A) (id : ℕ) (x y : A)
      → IsValid g
      → Interned g t g' id
      → successor_contains g' x y ≡ successor_contains g x y
  successor_contains-Interned g t g' id x y v i =
      let map' = ap successors i.map in
      elim (Option-cases (id_of g t)) [
        | inl new ↦ elim (Option-cases (id_of g x)) [
          | inl ex ↦ elim (Option-cases (id_of g y)) [
            | inl ey ↦ ground (
              arith,
              successor_contains-ids g x y,
              successor_contains-ids g' x y,
              i.ids x,
              i.ids y,
              map',
              no_edge g id id v (inl (i.fresh new)),
            )
            | inr (b, ey) ↦ ground (
              arith,
              successor_contains-ids g x y,
              successor_contains-ids g' x y,
              i.ids x,
              i.ids y,
              map',
              no_edge g id b v (inl (i.fresh new)),
              no_edge g id id v (inl (i.fresh new)),
            )
          ]
          | inr (a, ex) ↦ ground (
            arith,
            successor_contains-ids g x y,
            successor_contains-ids g' x y,
            i.ids x,
            i.ids y,
            map',
            no_edge g a id v (inr (i.fresh new)),
            e.beq_iff t x,
            e.beq_iff t y,
          )
        ]
        | inr (k, old) ↦ ground (
          arith,
          successor_contains-ids g x y,
          successor_contains-ids g' x y,
          i.ids x,
          i.ids y,
          map',
          i.kept k old,
          e.beq_iff t x,
          e.beq_iff t y,
        )
      ]

  successor_contains-link :
      (g : Graph A) (from to : A) (i j : ℕ) (elements : List A) (x y : A)
      → IsValid g
      → id_of g from ≡ some i
      → id_of g to ≡ some j
      → successor_contains
          (record g { successors_by_id = link g.successors_by_id i j; elements = elements })
          x
          y
        ≡ (successor_contains g x y || (from == x && to == y))
  successor_contains-link g from to i j elements x y v hf ht =
      let g' : Graph A = record g {
        successors_by_id = link g.successors_by_id i j;
        elements = elements;
      } in
      elim (Option-cases (id_of g x)) [
        | inl ex ↦
            ground
              (arith, successor_contains-ids g x y, successor_contains-ids g' x y, e.beq_iff from x)
        | inr (a, ex) ↦ elim (Option-cases (id_of g y)) [
          | inl ey ↦
              ground
                (arith, successor_contains-ids g x y, successor_contains-ids g' x y, e.beq_iff to y)
          | inr (b, ey) ↦ ground (
            arith,
            successor_contains-ids g x y,
            successor_contains-ids g' x y,
            e.beq_iff to y,
            e.beq_iff from x,
            contains-link g.successors_by_id i j a b,
            v.ids_elems from i hf,
            v.ids_elems x a ex,
            v.ids_elems to j ht,
            v.ids_elems y b ey,
            nat_eq.beq_iff i a,
            nat_eq.beq_iff j b,
          )
        ]
      ]

  -- For a well-formed graph with room for two more 32-bit ids, after `add_edge` the edges are
  -- the old ones and the new one, and the elements are the old ones and the two ends.
  pub successor_contains-add_edge :
      (g : Graph A) (from to x y : A)
      → IsValid g
      → length g.elems + 2 ≤ id_limit
      → (successor_contains (add_edge g from to) x y
          ≡ (successor_contains g x y || (from == x && to == y)))
        × (contains (add_edge g from to).elements x
            ≡ (contains g.elements x || from == x || to == x))
  unfolding add_edge
  successor_contains-add_edge g from to x y v room =
      let i1 = intern-Interned g from v (omega arith) in
      let g1 = (intern g from).0 in
      let i2 = intern-Interned g1 to i1.valid (omega (arith, i1.bound)) in
      let g2 = (intern g1 to).0 in
      let from_id : id_of g2 from ≡ some (intern g from).1 = ground (
        arith,
        i2.ids from,
        i1.ids from,
        e.beq_iff from from,
        e.beq_iff to from,
        i2.kept (intern g from).1,
      ) in
      let to_id : id_of g2 to ≡ some (intern g1 to).1 =
        ground (arith, i2.ids to, e.beq_iff to to) in
      (
        successor_contains-link g2 from to (intern g from).1 (intern g1 to).1 _ x y i2.valid from_id
              to_id
            ∙ ap (λ b. b || (from == x && to == y))
                (successor_contains-Interned g1 to g2 (intern g1 to).1 x y i1.valid i2
                  ∙ successor_contains-Interned g from g1 (intern g from).1 x y v i1),
        ground (
          arith,
          contains-insert g2.elements from x,
          contains-insert (HashSet.insert g2.elements from) to x,
          ap (λ s. contains s x) (i2.elements ∙ i1.elements),
        ),
      )

  -- A successor set holds exactly the targets of the node's edges, and reading it does not panic.
  pub elements_of-contains :
      (g : Graph A) (ids : List ℕ)
      → IsValid g
      → ((j : ℕ) → contains ids j ≡ true → j < length g.elems)
      → (s : List A) × (elements_of g.elems ids ≡ some s)
        × ((y : A) → contains s y ≡ (elim (id_of g y) [ none ↦ false | some j ↦ contains ids j ]))
  unfolding elements_of
  elements_of-contains g [] v bound = ([], refl, λ y. ground arith)
  elements_of-contains g (i ∷ ids) v bound =
      let (x, ex) = get_elem?-some g.elems i (bound i (ground (arith, nat_eq.beq_iff i i))) in
      let (s, es, has) = elements_of-contains g ids v (λ j h. bound j (ground arith)) in
      (
        x ∷ s,
        ground arith,
        λ y. elim (Option-cases (id_of g y)) [
          | inl ey ↦ ground (arith, has y, v.elems_ids i x ex, e.beq_iff x y)
          | inr (j, ey) ↦ ground (
            arith,
            has y,
            v.elems_ids i x ex,
            v.ids_elems y j ey,
            e.beq_iff x y,
            nat_eq.beq_iff i j,
          )
        ],
      )

  -- For a well-formed graph, `get_successors` does not panic, and the elements that it returns
  -- are those for which `successor_contains` holds.
  pub get_successors-contains :
      (g : Graph A) (x : A)
      → IsValid g
      → (s : List A) × (get_successors g x ≡ some s)
        × ((y : A) → contains s y ≡ successor_contains g x y)
  unfolding get_successors
  get_successors-contains g x v = elim (Option-cases (id_of g x)) [
    | inl ex ↦ ([], ground arith, λ y. ground (arith, successor_contains-ids g x y))
    | inr (i, ex) ↦ elim (Option-cases (HashMap.get g.successors_by_id i)) [
      | inl ei ↦ ([], ground arith, λ y. unfold successor_contains in ground arith)
      | inr (ids, ei) ↦
          let same : successors g.successors_by_id i ≡ ids = unfold successors in ground arith in
          let (s, es, has) = elements_of-contains g ids v (λ j h. v.targets i j (rw same h)) in
          (s, ground arith, λ y. unfold successor_contains in ground (arith, has y))
    ]
  ]
