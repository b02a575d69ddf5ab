-- ===== src/Model/DlOntology/GraphFixpoint.antt =====
-- The fixpoint of `compute_graph_atomic_roles`, against an inductive description of the roles.
use hermit_rs.Base.{
  ◌⊎◌, inl, inr, ◌≡◌, refl, Bool, true, false, ◌&&◌, ◌||◌, List, [], ◌∷◌, ◌==◌, if◌then◌else◌, any,
  arith, Bool-cases,
}
use hermit_rs.Collections.HashSet
use hermit_rs.Collections.HashSet.{contains, contains-insert}
use hermit_rs.Model.Types.{AtomicRole, DlClause, DescriptionGraph, Edge}
use hermit_rs.Model.Sameness.{atomic_role_eq}
use hermit_rs.Model.DlOntology.GraphRoles.{
  add_edge_roles, add_graph_roles, contains_role, contains_atomic_roles, add_atomic_roles,
  pass_clauses,
}
use hermit_rs.Model.DlOntology.GraphClosure.{
  mentions, joined, contains-add_atomic_roles, add_atomic_roles-change, add_atomic_roles-same,
  any-contains_role, any-contains_role_of,
}

abbrev pub on_edge : List DescriptionGraph → AtomicRole → Bool
on_edge graphs r = any (λ g. any (λ e. e.atomic_role == r) g.edges) graphs

-- The roles of the edges of the graphs, closed under standing in one clause.
pub data IsGraphRole (graphs : List DescriptionGraph) (clauses : List DlClause)
    : AtomicRole → Type 0 where
  starts : {r : AtomicRole} → on_edge graphs r ≡ true → IsGraphRole graphs clauses r
  shares :
      {r q : AtomicRole}
      → IsGraphRole graphs clauses r
      → joined clauses r q ≡ true
      → IsGraphRole graphs clauses q

contains-add_edge_roles :
    (es : List Edge) (s : List AtomicRole) (r : AtomicRole)
    → contains (add_edge_roles es s) r ≡ (contains s r || any (λ e. e.atomic_role == r) es)
unfolding add_edge_roles
contains-add_edge_roles [] s r = ground arith
contains-add_edge_roles (e ∷ es) s r = ground (
  arith,
  contains-add_edge_roles es (HashSet.insert s e.atomic_role) r,
  contains-insert s e.atomic_role r,
)

pub contains-add_graph_roles :
    (gs : List DescriptionGraph) (s : List AtomicRole) (r : AtomicRole)
    → contains (add_graph_roles gs s) r ≡ (contains s r || on_edge gs r)
unfolding add_graph_roles
contains-add_graph_roles [] s r = ground arith
contains-add_graph_roles (g ∷ gs) s r = ground (
  arith,
  contains-add_graph_roles gs (add_edge_roles g.edges s) r,
  contains-add_edge_roles g.edges s r,
)

-- A clause passes the test exactly where it mentions a role of the set.
contains_atomic_roles-found :
    (c : DlClause) (s : List AtomicRole)
    → contains_atomic_roles c s ≡ true
    → (r : AtomicRole) × (mentions r c ≡ true) × (contains s r ≡ true)
unfolding contains_atomic_roles
contains_atomic_roles-found c s h =
    elim (Bool-cases (any (λ a. contains_role a.dl_predicate s) c.body_atoms)) [
      | inl t ↦ let (r, is, has) = any-contains_role c.body_atoms s t in (r, ground arith, has)
      | inr n ↦
          let (r, is, has) = any-contains_role c.head_atoms s (ground arith) in
          (r, ground arith, has)
    ]

contains_atomic_roles-of :
    (c : DlClause) (s : List AtomicRole) (r : AtomicRole)
    → mentions r c ≡ true
    → contains s r ≡ true
    → contains_atomic_roles c s ≡ true
unfolding contains_atomic_roles
contains_atomic_roles-of c s r is has =
    ground (arith, any-contains_role_of c.body_atoms s r, any-contains_role_of c.head_atoms s r)

-- What the treatment of one clause does.
unfoldable pub step : DlClause → List AtomicRole × Bool → List AtomicRole × Bool
step c (s, change) =
    if contains_atomic_roles c s
    then ((add_atomic_roles c s).0, (add_atomic_roles c s).1 || change)
    else (s, change)

pub step-grows :
    (c : DlClause) (t : List AtomicRole × Bool) (q : AtomicRole)
    → contains t.0 q ≡ true
    → contains (step c t).0 q ≡ true
unfolding step
step-grows c (s, change) q h = ground (arith, contains-add_atomic_roles c s q)

pub step-change :
    (c : DlClause) (t : List AtomicRole × Bool)
    → (step c t).1 ≡ true
    → (t.1 ≡ true)
      ⊎ ((r : AtomicRole) × (mentions r c ≡ true)
          × (contains t.0 r ≡ false)
          × (contains (step c t).0 r ≡ true))
unfolding step
step-change c (s, change) h = elim (Bool-cases (contains_atomic_roles c s)) [
  | inl t ↦ elim (Bool-cases (add_atomic_roles c s).1) [
    | inl a ↦
        let (r, is, new) = add_atomic_roles-change c s a in
        inr (r, is, new, ground (arith, contains-add_atomic_roles c s r))
    | inr b ↦ inl (ground arith)
  ]
  | inr n ↦ inl (ground arith)
]

pub step-fixed :
    (c : DlClause) (t : List AtomicRole × Bool)
    → (step c t).1 ≡ false
    → (t.1 ≡ false)
      × ((step c t).0 ≡ t.0)
      × ((r q : AtomicRole)
          → (mentions r c && mentions q c) ≡ true
          → contains t.0 r ≡ true
          → contains t.0 q ≡ true)
unfolding step
step-fixed c (s, change) h = elim (Bool-cases (contains_atomic_roles c s)) [
  | inl t ↦
      let same : (add_atomic_roles c s).0 ≡ s = add_atomic_roles-same c s (ground arith) in
      (
        ground arith,
        ground arith,
        λ r q both has. ground (arith, contains-add_atomic_roles c s q, same),
      )
  | inr n ↦ (
    ground arith,
    ground arith,
    λ r q both has. absurd (ground (arith, contains_atomic_roles-of c s r)),
  )
]

pub step_sound :
    (c : DlClause) (t : List AtomicRole × Bool) (q : AtomicRole)
    → contains (step c t).0 q ≡ true
    → (contains t.0 q ≡ true)
      ⊎ ((r : AtomicRole) × (contains t.0 r ≡ true) × ((mentions r c && mentions q c) ≡ true))
unfolding step
step_sound c (s, change) q h = elim (Bool-cases (contains_atomic_roles c s)) [
  | inl t ↦ elim (Bool-cases (contains s q)) [
    | inl old ↦ inl old
    | inr new ↦
        let (r, is, has) = contains_atomic_roles-found c s t in
        inr (r, has, ground (arith, contains-add_atomic_roles c s q))
  ]
  | inr n ↦ inl (ground arith)
]

pub pass_clauses-step :
    (c : DlClause) (cs : List DlClause) (t : List AtomicRole × Bool)
    → pass_clauses (c ∷ cs) t ≡ pass_clauses cs (step c t)
unfolding pass_clauses step
pass_clauses-step c cs (s, change) = refl
