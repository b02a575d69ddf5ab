-- ===== src/Graph/Valid.antt =====
-- The well-formedness of a graph: `ids` and `elems` are inverse to one another, and the successor map
-- speaks of ids that elements have.
use hermit_rs.Base.{
  ℕ, ◌+◌, ◌%◌, ◌≤◌, ◌<◌, ◌≡◌, refl, true, false, List, [], ◌∷◌, ◌++◌, none, some, Eq, ◌==◌,
  if◌then◌else◌, nat_eq, length, get_elem?, arith, length-append, get_elem?-lt,
  get_elem?-append_left, get_elem?-push, Option-cases, Bool-cases, inl, inr, ◌∙◌, ltb, ltb→lt, ◌⊎◌,
}
use hermit_rs.Collections.HashSet
use hermit_rs.Collections.HashSet.{contains, contains-insert}
use hermit_rs.Collections.HashMap
use hermit_rs.Collections.HashMap.{get-insert}
use hermit_rs.Successors.{successors}
use hermit_rs.Successors.Link.{link, contains-link}
use hermit_rs.Graph.{Graph, id_limit, new, intern, add_edge}

module _ {ℓ} {A : Type ℓ} ⦃e : Eq A⦄ where
  pub record IsValid (g : Graph A) : Type ℓ where
    pub ids_elems : (t : A) (id : ℕ) → HashMap.get g.ids t ≡ some id → get_elem? g.elems id ≡ some t
    pub elems_ids : (id : ℕ) (t : A) → get_elem? g.elems id ≡ some t → HashMap.get g.ids t ≡ some id
    pub sources :
        (k : ℕ) (s : List ℕ) → HashMap.get g.successors_by_id k ≡ some s → k < length g.elems
    pub targets :
        (k j : ℕ) → contains (successors g.successors_by_id k) j ≡ true → j < length g.elems

  pub new-IsValid : IsValid new
  unfolding new successors
  new-IsValid = record {
    ids_elems = λ t id h. absurd (ground arith);
    elems_ids = λ id t h. absurd (ground arith);
    sources = λ k s h. absurd (ground arith);
    targets = λ k j h. absurd (ground arith);
  }

  -- What interning an element does.
  pub record Interned (g : Graph A) (t : A) (g' : Graph A) (id : ℕ) : Type ℓ where
    pub valid : IsValid g'
    pub ids : (y : A) → HashMap.get g'.ids y ≡ (if t == y then some id else HashMap.get g.ids y)
    pub elements : g'.elements ≡ g.elements
    pub map : g'.successors_by_id ≡ g.successors_by_id
    pub grows : length g.elems ≤ length g'.elems
    pub bound : length g'.elems ≤ length g.elems + 1
    pub id_lt : id < length g'.elems
    pub kept : (i : ℕ) → HashMap.get g.ids t ≡ some i → i ≡ id
    pub fresh : HashMap.get g.ids t ≡ none → length g.elems ≤ id

  intern_new :
      (g : Graph A) (t : A)
      → HashMap.get g.ids t ≡ none
      → IsValid g
      → length g.elems < id_limit
      → Interned g t
          (record g {
            elems = g.elems ++ t ∷ [];
            ids = HashMap.insert g.ids t (length g.elems % id_limit);
          })
          (length g.elems % id_limit)
  intern_new g t fresh v room =
      let id = length g.elems % id_limit in
      let exact : id ≡ length g.elems = omega arith in
      let count = length-append g.elems (t ∷ []) in
      let ids' = λ (y : A). get-insert g.ids t y id in
      let old = λ (i : ℕ) (h : i < length g.elems). get_elem?-append_left g.elems (t ∷ []) i h in
      let last : get_elem? (g.elems ++ t ∷ []) id ≡ some t = rw exact (get_elem?-push g.elems t) in
      record {
        valid = record {
          ids_elems = λ y i h. elim (Bool-cases (t == y)) [
            | inl same ↦ ground (arith, ids' y, e.beq_iff t y)
            | inr other ↦
                let before : HashMap.get g.ids y ≡ some i = ground (arith, ids' y) in
                let there = v.ids_elems y i before in old i (get_elem?-lt g.elems i there) ∙ there
          ];
          elems_ids = λ i y h. elim (Bool-cases (ltb i (length g.elems))) [
            | inl before ↦
                ground (arith, ids' y, old i (ltb→lt i _ before), v.elems_ids i y, e.beq_iff t y)
            | inr after ↦
                let at_end : i ≡ length g.elems =
                  ground (arith, get_elem?-lt (g.elems ++ t ∷ []) i h) in
                let there : get_elem? (g.elems ++ t ∷ []) i ≡ some t =
                  rw at_end (get_elem?-push g.elems t) in
                ground (arith, ids' y, e.beq_iff t y)
          ];
          sources = λ k s h. omega (arith, v.sources k s h);
          targets = λ k j h. omega (arith, v.targets k j h);
        };
        ids = λ y. ids' y;
        elements = refl;
        map = refl;
        grows = omega arith;
        bound = omega arith;
        id_lt = omega arith;
        kept = λ i h. absurd (ground arith);
        fresh = λ _. omega arith;
      }

  pub intern-Interned :
      (g : Graph A) (t : A)
      → IsValid g
      → length g.elems < id_limit
      → Interned g t (intern g t).0 (intern g t).1
  unfolding intern
  intern-Interned g t v room = elim (Option-cases (HashMap.get g.ids t)) [
    | inl fresh ↦ rw (fresh, intern) (intern_new g t fresh v room)
    | inr (id, found) ↦
        rw (found, intern)
          (record {
            valid = v;
            ids = λ y. ground (arith, e.beq_iff t y);
            elements = refl;
            map = refl;
            grows = omega arith;
            bound = omega arith;
            id_lt = get_elem?-lt g.elems id (v.ids_elems t id found);
            kept = λ i h. ground arith;
            fresh = λ n. absurd (ground arith);
          })
  ]

  pub link-IsValid :
      (g : Graph A) (from to : ℕ) (elements : List A)
      → IsValid g
      → from < length g.elems
      → to < length g.elems
      → IsValid
          (record g { successors_by_id = link g.successors_by_id from to; elements = elements })
  link-IsValid g from to elements v lf lt = record {
    ids_elems = v.ids_elems;
    elems_ids = v.elems_ids;
    sources = λ k s h. ground (
      arith,
      get-insert g.successors_by_id from k (HashSet.insert (successors g.successors_by_id from) to),
      v.sources k s,
    );
    targets = λ k j h. ground (arith, contains-link g.successors_by_id from to k j, v.targets k j);
  }

  -- To add an edge keeps a graph well formed, as long as two more ids fit into 32 bits.
  pub add_edge-IsValid :
      (g : Graph A) (from to : A)
      → IsValid g
      → length g.elems + 2 ≤ id_limit
      → IsValid (add_edge g from to)
  unfolding add_edge
  add_edge-IsValid g from to v room =
      let i1 = intern-Interned g from v (omega arith) in
      let g1 = (intern g from).0 in
      let i2 = intern-Interned g1 to i1.valid (omega (arith, i1.bound)) in
      link-IsValid (intern g1 to).0 (intern g from).1 (intern g1 to).1 _ i2.valid
        (omega (arith, i1.id_lt, i2.grows)) i2.id_lt

  pub length-add_edge :
      (g : Graph A) (from to : A)
      → IsValid g
      → length g.elems + 2 ≤ id_limit
      → length (add_edge g from to).elems ≤ length g.elems + 2
  unfolding add_edge
  length-add_edge g from to v room =
      let i1 = intern-Interned g from v (omega arith) in
      let g1 = (intern g from).0 in
      let i2 = intern-Interned g1 to i1.valid (omega (arith, i1.bound)) in
      omega (arith, i1.bound, i2.bound)

  -- Both ends of an edge have ids in range.
  pub edge_lt :
      (g : Graph A) (k j : ℕ)
      → IsValid g
      → contains (successors g.successors_by_id k) j ≡ true
      → (k < length g.elems) × (j < length g.elems)
  unfolding successors
  edge_lt g k j v h = elim (Option-cases (HashMap.get g.successors_by_id k)) [
    | inl e ↦ absurd (ground arith)
    | inr (s, e) ↦ (v.sources k s e, v.targets k j (unfold successors in h))
  ]

  -- No edge has an end whose id is out of range.
  pub no_edge :
      (g : Graph A) (k j : ℕ)
      → IsValid g
      → (length g.elems ≤ k) ⊎ (length g.elems ≤ j)
      → contains (successors g.successors_by_id k) j ≡ false
  no_edge g k j v out = elim (Bool-cases (contains (successors g.successors_by_id k) j)) [
    | inl h ↦ absurd (omega (arith, edge_lt g k j v h))
    | inr h ↦ h
  ]
