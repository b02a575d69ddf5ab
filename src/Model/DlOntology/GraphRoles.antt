-- ===== src/Model/DlOntology/GraphRoles.antt =====
-- dl_ontology.rs, `compute_graph_atomic_roles`: the roles of the description graphs, closed under the
-- clauses. The fuel of the loop is one more than the number of role atoms of the clauses; `none` is
-- fuel that ran out.
use hermit_rs.Base.{
  ℕ, zero, suc, ◌+◌, Bool, true, false, ◌||◌, List, [], ◌∷◌, Option, none, some, if◌then◌else◌, any,
}
use hermit_rs.Collections.HashSet
use hermit_rs.Model.Types.{AtomicRole, DlPredicate, Atom, DlClause, DescriptionGraph, Edge}
use hermit_rs.Model.Sameness.{atomic_role_eq}
use hermit_rs.Model.DlOntology.{DlOntology}

unfoldable pub add_edge_roles : List Edge → List AtomicRole → List AtomicRole
add_edge_roles [] roles = roles
add_edge_roles (e ∷ es) roles = add_edge_roles es (HashSet.insert roles e.atomic_role)

-- The first loop of `compute_graph_atomic_roles`.
unfoldable pub add_graph_roles : List DescriptionGraph → List AtomicRole → List AtomicRole
unfolding add_edge_roles
add_graph_roles [] roles = roles
add_graph_roles (g ∷ gs) roles = add_graph_roles gs (add_edge_roles g.edges roles)

unfoldable pub contains_role : DlPredicate → List AtomicRole → Bool
contains_role (DlPredicate.atomic_role r) roles = HashSet.contains roles r
contains_role _ roles = false

unfoldable pub contains_atomic_roles : DlClause → List AtomicRole → Bool
unfolding contains_role
contains_atomic_roles c roles =
    any (λ a. contains_role a.dl_predicate roles) c.body_atoms
    || any (λ a. contains_role a.dl_predicate roles) c.head_atoms

-- Inserting the role of a predicate; the flag tells whether any role was new.
unfoldable pub add_role : DlPredicate → List AtomicRole × Bool → List AtomicRole × Bool
add_role (DlPredicate.atomic_role r) (roles, change) =
    if HashSet.contains roles r then (roles, change) else (HashSet.insert roles r, true)
add_role _ s = s

unfoldable pub add_roles : List Atom → List AtomicRole × Bool → List AtomicRole × Bool
unfolding add_role
add_roles [] s = s
add_roles (a ∷ atoms) s = add_roles atoms (add_role a.dl_predicate s)

unfoldable pub add_atomic_roles : DlClause → List AtomicRole → List AtomicRole × Bool
unfolding add_roles
add_atomic_roles c roles = add_roles c.head_atoms (add_roles c.body_atoms (roles, false))

-- One pass over the clauses.
unfoldable pub pass_clauses : List DlClause → List AtomicRole × Bool → List AtomicRole × Bool
unfolding contains_atomic_roles add_atomic_roles
pass_clauses [] s = s
pass_clauses (c ∷ cs) (roles, change) = pass_clauses cs (
    if contains_atomic_roles c roles
    then (let (roles', added) = add_atomic_roles c roles in (roles', added || change))
    else (roles, change))

-- The loop, while a pass changes the set.
unfoldable pub close_roles : ℕ → List DlClause → List AtomicRole → Option (List AtomicRole)
unfolding pass_clauses
close_roles zero clauses roles = none
close_roles (suc fuel) clauses roles =
    let (roles', change) = pass_clauses clauses (roles, false) in
    elim change [ true ↦ close_roles fuel clauses roles' | false ↦ some roles' ]

-- The number of role atoms, which bounds the number of passes.
unfoldable pub count_role : DlPredicate → ℕ
count_role (DlPredicate.atomic_role r) = 1
count_role _ = 0

unfoldable pub count_roles : List Atom → ℕ
unfolding count_role
count_roles [] = 0
count_roles (a ∷ atoms) = count_role a.dl_predicate + count_roles atoms

unfoldable pub count_clause_roles : List DlClause → ℕ
unfolding count_roles
count_clause_roles [] = 0
count_clause_roles (c ∷ cs) =
    count_roles c.body_atoms + count_roles c.head_atoms + count_clause_roles cs

unfoldable pub compute_graph_atomic_roles : DlOntology → Option (List AtomicRole)
unfolding add_graph_roles close_roles count_clause_roles
compute_graph_atomic_roles o =
    close_roles (suc (count_clause_roles o.dl_clauses)) o.dl_clauses
      (add_graph_roles o.all_description_graphs [])
