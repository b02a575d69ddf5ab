-- ===== src/Model/DlOntology/GraphClosure.antt =====
-- The roles that `compute_graph_atomic_roles` collects.
use hermit_rs.Base.{
  ◌⊎◌, inl, inr, ◌≡◌, refl, Bool, true, false, ◌&&◌, ◌||◌, List, [], ◌∷◌, ◌==◌, any, arith,
  Bool-cases, ==_iff, ◌∙◌, ap,
}
use hermit_rs.Collections.HashSet.{contains, contains-insert}
use hermit_rs.Model.Types.{AtomicRole, DlPredicate, Atom, DlClause}
use hermit_rs.Model.Sameness.{atomic_role_eq}
use hermit_rs.Model.DlOntology.GraphRoles.{contains_role, add_role, add_roles, add_atomic_roles}

abbrev pub is_role : AtomicRole → DlPredicate → Bool
is_role r (DlPredicate.atomic_role q) = q == r
is_role r _ = false

abbrev pub in_atoms : AtomicRole → List Atom → Bool
in_atoms r atoms = any (λ a. is_role r a.dl_predicate) atoms

abbrev pub mentions : AtomicRole → DlClause → Bool
mentions r c = in_atoms r c.body_atoms || in_atoms r c.head_atoms

-- Whether a clause has an atom of one role and an atom of the other.
abbrev pub joined : List DlClause → AtomicRole → AtomicRole → Bool
joined clauses r q = any (λ c. mentions r c && mentions q c) clauses

contains-add_role :
    (p : DlPredicate) (s : List AtomicRole) (change : Bool) (q : AtomicRole)
    → contains (add_role p (s, change)).0 q ≡ (contains s q || is_role q p)
unfolding add_role
contains-add_role (DlPredicate.atomic_role r) s change q =
    ground (arith, contains-insert s r q, ==_iff r q)
contains-add_role _ s change q = ground arith

contains-add_roles :
    (atoms : List Atom) (t : List AtomicRole × Bool) (q : AtomicRole)
    → contains (add_roles atoms t).0 q ≡ (contains t.0 q || in_atoms q atoms)
unfolding add_roles
contains-add_roles [] t q = ground arith
contains-add_roles (a ∷ atoms) t q = ground (
  arith,
  contains-add_roles atoms (add_role a.dl_predicate t) q,
  contains-add_role a.dl_predicate t.0 t.1 q,
)

-- The flag is set only for a role that is new.
add_role-change :
    (p : DlPredicate) (t : List AtomicRole × Bool)
    → ((add_role p t).1 ≡ t.1)
      ⊎ ((r : AtomicRole) × (is_role r p ≡ true)
          × (contains t.0 r ≡ false)
          × ((add_role p t).1 ≡ true))
unfolding add_role
add_role-change (DlPredicate.atomic_role r) (s, change) = elim (Bool-cases (contains s r)) [
  | inl t ↦ inl (rw t refl)
  | inr n ↦ inr (r, ground (arith, ==_iff r r), n, rw n refl)
]
add_role-change _ t = inl refl

-- Without a change the set is the old one.
add_role-same :
    (p : DlPredicate) (t : List AtomicRole × Bool) → (add_role p t).1 ≡ false → add_role p t ≡ t
unfolding add_role
add_role-same (DlPredicate.atomic_role r) (s, change) h = elim (Bool-cases (contains s r)) [
  | inl t ↦ rw t refl
  | inr n ↦ absurd (ground arith)
]
add_role-same _ t h = refl

add_roles-change :
    (atoms : List Atom) (t : List AtomicRole × Bool)
    → (add_roles atoms t).1 ≡ true
    → (t.1 ≡ true) ⊎ ((r : AtomicRole) × (in_atoms r atoms ≡ true) × (contains t.0 r ≡ false))
unfolding add_roles
add_roles-change [] t h = inl h
add_roles-change (a ∷ atoms) t h = elim (add_roles-change atoms (add_role a.dl_predicate t) h) [
  | inl e ↦ elim (add_role-change a.dl_predicate t) [
    | inl same ↦ inl (ground arith)
    | inr (r, is, new, set) ↦ inr (r, ground arith, new)
  ]
  | inr (r, is, new) ↦
      inr (r, ground arith, ground (arith, contains-add_role a.dl_predicate t.0 t.1 r))
]

add_roles-same :
    (atoms : List Atom) (t : List AtomicRole × Bool)
    → (add_roles atoms t).1 ≡ false
    → add_roles atoms t ≡ t
unfolding add_roles
add_roles-same [] t h = refl
add_roles-same (a ∷ atoms) t h =
    let rest = add_roles-same atoms (add_role a.dl_predicate t) h in
    let first = add_role-same a.dl_predicate t (ground (arith, rest)) in rest ∙ first

pub contains-add_atomic_roles :
    (c : DlClause) (s : List AtomicRole) (q : AtomicRole)
    → contains (add_atomic_roles c s).0 q ≡ (contains s q || mentions q c)
unfolding add_atomic_roles
contains-add_atomic_roles c s q = ground (
  arith,
  contains-add_roles c.head_atoms (add_roles c.body_atoms (s, false)) q,
  contains-add_roles c.body_atoms (s, false) q,
)

pub add_atomic_roles-change :
    (c : DlClause) (s : List AtomicRole)
    → (add_atomic_roles c s).1 ≡ true
    → (r : AtomicRole) × (mentions r c ≡ true) × (contains s r ≡ false)
unfolding add_atomic_roles
add_atomic_roles-change c s h =
    elim (add_roles-change c.head_atoms (add_roles c.body_atoms (s, false)) h) [
      | inl e ↦ elim (add_roles-change c.body_atoms (s, false) e) [
        | inl f ↦ absurd (ground arith)
        | inr (r, is, new) ↦ (r, ground arith, new)
      ]
      | inr (r, is, new) ↦
          (r, ground arith, ground (arith, contains-add_roles c.body_atoms (s, false) r))
    ]

pub add_atomic_roles-same :
    (c : DlClause) (s : List AtomicRole)
    → (add_atomic_roles c s).1 ≡ false
    → (add_atomic_roles c s).0 ≡ s
unfolding add_atomic_roles
add_atomic_roles-same c s h =
    let head = add_roles-same c.head_atoms (add_roles c.body_atoms (s, false)) h in
    let body = add_roles-same c.body_atoms (s, false) (ground (arith, head)) in
    ap (λ t. t.0) (head ∙ body)

contains_role-found :
    (p : DlPredicate) (s : List AtomicRole)
    → contains_role p s ≡ true
    → (r : AtomicRole) × (is_role r p ≡ true) × (contains s r ≡ true)
unfolding contains_role
contains_role-found (DlPredicate.atomic_role r) s h = (r, ground (arith, ==_iff r r), h)
contains_role-found _ s h = absurd (ground arith)

contains_role-of :
    (p : DlPredicate) (s : List AtomicRole) (r : AtomicRole)
    → is_role r p ≡ true
    → contains s r ≡ true
    → contains_role p s ≡ true
unfolding contains_role
contains_role-of (DlPredicate.atomic_role q) s r is has = ground (arith, ==_iff q r)
contains_role-of _ s r is has = absurd (ground arith)

pub any-contains_role :
    (atoms : List Atom) (s : List AtomicRole)
    → any (λ a. contains_role a.dl_predicate s) atoms ≡ true
    → (r : AtomicRole) × (in_atoms r atoms ≡ true) × (contains s r ≡ true)
any-contains_role [] s h = absurd (ground arith)
any-contains_role (a ∷ atoms) s h = elim (Bool-cases (contains_role a.dl_predicate s)) [
  | inl t ↦ let (r, is, has) = contains_role-found a.dl_predicate s t in (r, ground arith, has)
  | inr n ↦ let (r, is, has) = any-contains_role atoms s (ground arith) in (r, ground arith, has)
]

pub any-contains_role_of :
    (atoms : List Atom) (s : List AtomicRole) (r : AtomicRole)
    → in_atoms r atoms ≡ true
    → contains s r ≡ true
    → any (λ a. contains_role a.dl_predicate s) atoms ≡ true
any-contains_role_of [] s r h has = absurd (ground arith)
any-contains_role_of (a ∷ atoms) s r h has =
    ground (arith, any-contains_role_of atoms s r, contains_role-of a.dl_predicate s r)
