-- ===== src/Model/DlOntology/GraphCorrect.antt =====
-- What `compute_graph_atomic_roles` returns.
use hermit_rs.Base.{
  inl, inr, ◌↔◌, ◌<◌, ℕ, zero, suc, ◌≡◌, true, false, List, [], some, arith, Bool-cases, sym, subst,
}
use hermit_rs.Collections.HashSet.{contains}
use hermit_rs.Model.Types.{AtomicRole, DlClause, DescriptionGraph}
use hermit_rs.Model.Sameness.{atomic_role_eq}
use hermit_rs.Model.DlOntology.{DlOntology}
use hermit_rs.Model.DlOntology.GraphRoles.{
  add_graph_roles, pass_clauses, close_roles, count_clause_roles, compute_graph_atomic_roles,
}
use hermit_rs.Model.DlOntology.GraphClosure.{joined}
use hermit_rs.Model.DlOntology.GraphFixpoint.{IsGraphRole, starts, shares, contains-add_graph_roles}
use hermit_rs.Model.DlOntology.GraphPasses.{
  pass-grows, pass-change, pass-fixed, pass_sound, missing, missing_le, drop,
}

-- What the loop gives: the graph roles of the set, the set itself, closed.
record Closed (graphs : List DescriptionGraph) (clauses : List DlClause)
    (s result : List AtomicRole) : Type 0 where
  pub grows : (q : AtomicRole) → contains s q ≡ true → contains result q ≡ true
  pub sound : (q : AtomicRole) → contains result q ≡ true → IsGraphRole graphs clauses q
  pub closed :
      (r q : AtomicRole)
      → joined clauses r q ≡ true
      → contains result r ≡ true
      → contains result q ≡ true

-- A pass that changes the set leaves fewer roles missing.
pass-missing :
    (clauses : List DlClause) (s : List AtomicRole)
    → (pass_clauses clauses (s, false)).1 ≡ true
    → missing clauses (pass_clauses clauses (s, false)).0 < missing clauses s
pass-missing clauses s h = elim (pass-change clauses (s, false) h) [
  | inl e ↦ absurd (ground arith)
  | inr (r, is, new, has) ↦
      let (le, lt) =
        drop s (pass_clauses clauses (s, false)).0 (pass-grows clauses (s, false)) r new has
          clauses in
      ground arith
]

close_roles_lem :
    (fuel : ℕ) (graphs : List DescriptionGraph) (clauses : List DlClause) (s : List AtomicRole)
    → missing clauses s < fuel
    → ((r : AtomicRole) → contains s r ≡ true → IsGraphRole graphs clauses r)
    → (result : List AtomicRole) × (close_roles fuel clauses s ≡ some result)
      × Closed graphs clauses s result
unfolding close_roles
close_roles_lem zero graphs clauses s h g = absurd (omega arith)
close_roles_lem (suc fuel) graphs clauses s h g =
    let s' = (pass_clauses clauses (s, false)).0 in
    let g' = pass_sound graphs clauses clauses (s, false) (λ r q j. j) g in
    elim (Bool-cases (pass_clauses clauses (s, false)).1) [
      | inl t ↦
          let (result, ends, c) =
            close_roles_lem fuel graphs clauses s' (omega (arith, pass-missing clauses s t)) g' in
          (
            result,
            ground (arith, ends),
            record {
              grows = λ q has. c.grows q (pass-grows clauses (s, false) q has);
              sound = c.sound;
              closed = c.closed;
            },
          )
      | inr n ↦
          let (flag, kept, closed) = pass-fixed clauses (s, false) n in
          (
            s',
            ground arith,
            record {
              grows = pass-grows clauses (s, false);
              sound = g';
              closed = λ r q j has.
                  subst (λ u. contains u q ≡ true) (sym kept)
                    (closed r q j (subst (λ u. contains u r ≡ true) kept has));
            },
          )
    ]

graph_role-contained :
    (graphs : List DescriptionGraph) (clauses : List DlClause) (result : List AtomicRole)
    → Closed graphs clauses (add_graph_roles graphs []) result
    → (r : AtomicRole) → IsGraphRole graphs clauses r
    → contains result r ≡ true
graph_role-contained graphs clauses result c r (starts h) =
    c.grows r (ground (arith, contains-add_graph_roles graphs [] r))
graph_role-contained graphs clauses result c q (shares {r} p j) =
    c.closed r q j (graph_role-contained graphs clauses result c r p)

-- The loop of `compute_graph_atomic_roles` ends, and its result is exactly the least set of roles
-- that has the roles on the edges of the description graphs and, with a role, every role that
-- stands in one clause with it.
pub compute_graph_atomic_roles_correct :
    (o : DlOntology)
    → (roles : List AtomicRole) × (compute_graph_atomic_roles o ≡ some roles)
      × ((r : AtomicRole)
          → (contains roles r ≡ true) ↔ IsGraphRole o.all_description_graphs o.dl_clauses r)
unfolding compute_graph_atomic_roles
compute_graph_atomic_roles_correct o =
    let base = add_graph_roles o.all_description_graphs [] in
    let (roles, ends, c) =
      close_roles_lem (suc (count_clause_roles o.dl_clauses)) o.all_description_graphs o.dl_clauses
        base (omega (arith, missing_le o.dl_clauses base))
        (λ r h. starts (ground (arith, contains-add_graph_roles o.all_description_graphs [] r))) in
    (
      roles,
      ends,
      λ r. (c.sound r, graph_role-contained o.all_description_graphs o.dl_clauses roles c r),
    )
