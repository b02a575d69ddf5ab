-- ===== src/Graph/Closure.antt =====
-- Transitive closure and reachability, in terms of the edges between elements.
use mathlib.Core.Logic.{⊎_elim}
use hermit_rs.Base.Panic.{◌>>=◌}
use hermit_rs.Base.{
  get_elem?-lt, ℕ, ◌<◌, ◌≡◌, refl, Bool, true, false, ◌⊎◌, ◌↔◌, List, [], ◌∷◌, none, some, Eq, ◌==◌,
  nat_eq, length, get_elem?-some, arith, Option-cases, Bool-cases, inl, inr,
}
use hermit_rs.Collections.HashSet.{contains}
use hermit_rs.Successors.{SuccessorMap}
use hermit_rs.Successors.Reach.{Edge, Walk, Reach}
use hermit_rs.Successors.Closure.Keys.{close_keys_correct}
use hermit_rs.Successors.Search.Visit.{visit_nodes_correct}
use hermit_rs.Successors.Search.Find.{find_node_correct, Reach-of_Walk}
use hermit_rs.Graph.{
  Graph, id_of, successor_contains, transitively_close, is_reachable_successor,
  get_reachable_successors, ◌>>=◌,
}
use hermit_rs.Graph.Valid.{IsValid, edge_lt}
use hermit_rs.Graph.Edges.{successor_contains-ids, elements_of-contains}

Walk-of_Reach : {m : SuccessorMap} {i j : ℕ} → Reach m i j → (i ≡ j) ⊎ Walk m i j
Walk-of_Reach Reach.here = inl refl
Walk-of_Reach (Reach.step {v = k} {w = j} p f) = elim (Walk-of_Reach p) [
  | inl same ↦ inr (Walk.edge (rw (← same) at f))
  | inr w ↦ inr (Walk.extend w f)
]

module _ {ℓ} {A : Type ℓ} ⦃e : Eq A⦄ where
  -- A chain of at least one edge.
  pub data Chain (g : Graph A) (x : A) : A → Type ℓ where
    edge : {y : A} → successor_contains g x y ≡ true → Chain g x y
    extend : {y z : A} → Chain g x y → successor_contains g y z ≡ true → Chain g x z

  -- The ids of the ends of an edge.
  edge_ids :
      (g : Graph A) (x y : A)
      → successor_contains g x y ≡ true
      → (i j : ℕ) × (id_of g x ≡ some i) × (id_of g y ≡ some j) × Edge g.successors_by_id i j
  edge_ids g x y h = elim (Option-cases (id_of g x)) [
    | inl ex ↦ absurd (ground (arith, successor_contains-ids g x y))
    | inr (i, ex) ↦ elim (Option-cases (id_of g y)) [
      | inl ey ↦ absurd (ground (arith, successor_contains-ids g x y))
      | inr (j, ey) ↦ (i, j, ex, ey, ground (arith, successor_contains-ids g x y))
    ]
  ]

  edge_of_ids :
      (g : Graph A) (x y : A) (i j : ℕ)
      → id_of g x ≡ some i
      → id_of g y ≡ some j
      → Edge g.successors_by_id i j
      → successor_contains g x y ≡ true
  edge_of_ids g x y i j ex ey h = ground (arith, successor_contains-ids g x y)

  Chain-ids :
      (g : Graph A) (x : A) {y : A}
      → Chain g x y
      → (i j : ℕ) × (id_of g x ≡ some i) × (id_of g y ≡ some j) × Walk g.successors_by_id i j
  Chain-ids g x (edge h) = let (i, j, ex, ey, f) = edge_ids g x _ h in (i, j, ex, ey, Walk.edge f)
  Chain-ids g x (extend {y} {z} p h) =
      let (i, j, ex, ey, w) = Chain-ids g x p in
      let (k, l, ey', ez, f) = edge_ids g y z h in
      let same : k ≡ j = ground arith in (i, l, ex, ez, Walk.extend w (rw same at f))

  Chain-of_ids :
      (g : Graph A) (x : A) (i : ℕ) (y : A) {j : ℕ}
      → IsValid g
      → id_of g x ≡ some i
      → id_of g y ≡ some j
      → Walk g.successors_by_id i j
      → Chain g x y
  Chain-of_ids g x i y v ex ey (Walk.edge {v = j} f) = edge (edge_of_ids g x y i j ex ey f)
  Chain-of_ids g x i y v ex ey (Walk.extend {v = k} {w = j} w f) =
      let (z, there) = get_elem?-some g.elems k (edge_lt g k j v f).0 in
      let ez = v.elems_ids k z there in
      extend (Chain-of_ids g x i z v ex ez w) (edge_of_ids g z y k j ez ey f)

  walk_lt :
      (g : Graph A) (i : ℕ) {j : ℕ} → IsValid g → Walk g.successors_by_id i j → j < length g.elems
  walk_lt g i v (Walk.edge {v = j} f) = (edge_lt g i j v f).1
  walk_lt g i v (Walk.extend {v = k} {w = j} w f) = (edge_lt g k j v f).1

  -- Two elements with one id are the same.
  id_of-injective :
      (g : Graph A) (x y : A) (i : ℕ) → IsValid g → id_of g x ≡ some i → id_of g y ≡ some i → x ≡ y
  id_of-injective g x y i v ex ey = ground (arith, v.ids_elems x i ex, v.ids_elems y i ey)

  -- For a well-formed graph, `transitively_close` ends, keeps the graph well formed and its
  -- elements, and its edges are exactly the chains of one or more edges of the old graph.
  pub transitively_close_correct :
      (g : Graph A)
      → IsValid g
      → (g' : Graph A) × (transitively_close g ≡ some g')
        × IsValid g'
        × (g'.elements ≡ g.elements)
        × ((x y : A) → (successor_contains g' x y ≡ true) ↔ Chain g x y)
  unfolding transitively_close
  transitively_close_correct g v =
      let (m, ends, exact, domain) = close_keys_correct g.successors_by_id in
      let g' : Graph A = record g { successors_by_id = m } in
      let last : (k j : ℕ) → Walk g.successors_by_id k j → j < length g.elems =
        λ k j w. walk_lt g k v w in
      (
        g',
        rw (ends, ◌>>=◌),
        record {
          ids_elems = v.ids_elems;
          elems_ids = v.elems_ids;
          sources = λ k s h. let (s', old) = domain k s h in v.sources k s' old;
          targets = λ k j h. last k j ((exact k j).0 h);
        },
        refl,
        λ x y. (
          λ h.
              let (i, j, ex, ey, f) = edge_ids g' x y h in
              Chain-of_ids g x i y v ex ey ((exact i j).0 f),
          λ c.
              let (i, j, ex, ey, w) = Chain-ids g x c in
              edge_of_ids g' x y i j ex ey ((exact i j).1 w),
        ),
      )

  -- An element that was never interned starts no chain.
  not-Chain : (g : Graph A) (x : A) {y : A} → id_of g x ≡ none → ¬ Chain g x y
  not-Chain g x n c = let (i, j, ex, ey, w) = Chain-ids g x c in ground arith

  -- For a well-formed graph, `is_reachable_successor` ends, and the answer is yes exactly if
  -- the two elements are the same or a chain of edges leads from the first one to the second.
  pub is_reachable_successor_correct :
      (g : Graph A) (x y : A)
      → IsValid g
      → (b : Bool) × (is_reachable_successor g x y ≡ some b)
        × ((b ≡ true) ↔ ((x ≡ y) ⊎ Chain g x y))
  unfolding is_reachable_successor
  is_reachable_successor_correct g x y v = elim (Bool-cases (x == y)) [
    | inl same ↦ (true, rw same, (λ _. inl ((e.beq_iff x y).0 same), λ _. refl))
    | inr other ↦
        let ne : ¬ (x ≡ y) = λ p. ground (arith, e.beq_iff x y) in
        elim (Option-cases (id_of g x)) [
          | inl ex ↦ (
            false,
            ground arith,
            (
              λ f. absurd (ground arith),
              ⊎_elim (λ p. absurd (ne p)) (λ c. absurd (not-Chain g x ex c)),
            ),
          )
          | inr (i, ex) ↦ elim (Option-cases (id_of g y)) [
            | inl ey ↦ (
              false,
              ground arith,
              (
                λ f. absurd (ground arith),
                ⊎_elim (λ p. absurd (ne p))
                    (λ c. let (k, l, ek, el, w) = Chain-ids g x c in absurd (ground arith)),
              ),
            )
            | inr (j, ey) ↦
                let (b, ends, exact) = find_node_correct g.successors_by_id i j in
                (
                  b,
                  ground arith,
                  (
                    λ h. inr (Chain-of_ids g x i y v ex ey (exact.0 h)),
                    ⊎_elim (λ p. absurd (ne p))
                        (λ c.
                          let (k, l, ek, el, w) = Chain-ids g x c in
                          let si : k ≡ i = ground arith in
                          let sj : l ≡ j = ground arith in exact.1 (rw si at (rw sj at w))),
                  ),
                )
          ]
        ]
  ]

  -- For a well-formed graph, `get_reachable_successors` ends, and returns exactly the element
  -- itself and those to which a chain of edges leads from it.
  pub get_reachable_successors_correct :
      (g : Graph A) (x : A)
      → IsValid g
      → (s : List A) × (get_reachable_successors g x ≡ some s)
        × ((y : A) → (contains s y ≡ true) ↔ ((x ≡ y) ⊎ Chain g x y))
  unfolding get_reachable_successors
  get_reachable_successors_correct g x v = elim (Option-cases (id_of g x)) [
    | inl ex ↦ (
      x ∷ [],
      rw (ex, get_reachable_successors),
      λ y. (
        λ h. inl (ground (arith, e.beq_iff x y)),
        ⊎_elim (λ p. ground (arith, e.beq_iff x y)) (λ c. absurd (not-Chain g x ex c)),
      ),
    )
    | inr (i, ex) ↦
        let (r, ends, exact) = visit_nodes_correct g.successors_by_id i in
        let bound : (j : ℕ) → contains r j ≡ true → j < length g.elems = λ j h.
          elim (Walk-of_Reach ((exact j).0 h)) [
            | inl same ↦ rw (← same) (get_elem?-lt g.elems i (v.ids_elems x i ex))
            | inr w ↦ walk_lt g i v w
          ] in
        let (s, es, has) = elements_of-contains g r v bound in
        (
          s,
          rw (ex, get_reachable_successors, ends) es,
          λ y. elim (Option-cases (id_of g y)) [
            | inl ey ↦ (
              λ h. absurd (ground (arith, has y)),
              ⊎_elim (λ p. absurd (ground arith))
                  (λ c. let (k, l, ek, el, w) = Chain-ids g x c in absurd (ground arith)),
            )
            | inr (j, ey) ↦ (
              λ h. elim (Walk-of_Reach ((exact j).0 (ground (arith, has y)))) [
                | inl same ↦ inl (id_of-injective g x y i v ex (rw same ey))
                | inr w ↦ inr (Chain-of_ids g x i y v ex ey w)
              ],
              λ h.
                  let reach : Reach g.successors_by_id i j = elim h [
                    | inl p ↦ let same : i ≡ j = ground arith in rw same Reach.here
                    | inr c ↦
                        let (k, l, ek, el, w) = Chain-ids g x c in
                        let si : k ≡ i = ground arith in
                        let sj : l ≡ j = ground arith in Reach-of_Walk (rw si at (rw sj at w))
                  ] in
                  ground (arith, has y, (exact j).1 reach),
            )
          ],
        )
  ]
