-- ===== src/Successors/Search.antt =====
-- The two searches end within their fuel: each node's successors are queued once.
pub mod Visit
pub mod Find
use mathlib.Core.List.{append-nil}
use hermit_rs.Base.{
  ℕ, zero, suc, ◌+◌, ◌≤◌, ◌<◌, ◌≡◌, refl, Bool, true, false, not, ◌&&◌, ◌||◌, List, [], ◌∷◌, ◌++◌,
  Option, none, some, arith, ◌==◌, if◌then◌else◌, nat_eq, length, ==_iff, length-append, Bool-cases,
  inl, inr, Option-cases, ap,
}
use hermit_rs.Collections.HashSet
use hermit_rs.Collections.HashSet.{contains, contains-insert}
use hermit_rs.Collections.HashMap
use hermit_rs.Successors.{SuccessorMap, successors, edge_count, find_node, visit_nodes}

-- The edges from nodes that were not visited.
unvisited : SuccessorMap → List ℕ → ℕ
unvisited [] visited = 0
unvisited ((k, s) ∷ m) visited = (if contains visited k then 0 else length s) + unvisited m visited

unvisited-insert_le :
    (m : SuccessorMap) (visited : List ℕ) (x : ℕ)
    → unvisited m (HashSet.insert visited x) ≤ unvisited m visited
unfolding unvisited
unvisited-insert_le [] visited x = omega arith
unvisited-insert_le ((k, s) ∷ m) visited x =
    ground (arith, unvisited-insert_le m visited x, contains-insert visited x k)

unvisited-insert :
    (m : SuccessorMap) (visited : List ℕ) (x : ℕ)
    → contains visited x ≡ false
    → unvisited m (HashSet.insert visited x) + length (successors m x) ≤ unvisited m visited
unfolding unvisited successors
unvisited-insert [] visited x h = omega arith
unvisited-insert ((k, s) ∷ m) visited x h = ground (
  arith,
  unvisited-insert m visited x,
  unvisited-insert_le m visited x,
  contains-insert visited x k,
  ==_iff k x,
  ==_iff x k,
)

unvisited_le : (m : SuccessorMap) (visited : List ℕ) → unvisited m visited ≤ edge_count m
unfolding unvisited edge_count
unvisited_le [] visited = omega arith
unvisited_le ((k, s) ∷ m) visited = ground (arith, unvisited_le m visited)

visit_nodes_ends :
    (fuel : ℕ) (m : SuccessorMap) (visited to_visit : List ℕ)
    → unvisited m visited + length to_visit ≤ fuel
    → (r : List ℕ) × (visit_nodes fuel m visited to_visit ≡ some r)
unfolding visit_nodes
visit_nodes_ends zero m visited [] h = (visited, refl)
visit_nodes_ends zero m visited (x ∷ q) h = absurd (omega arith)
visit_nodes_ends (suc fuel) m visited [] h = (visited, refl)
visit_nodes_ends (suc fuel) m visited (x ∷ q) h = elim (Bool-cases (contains visited x)) [
  | inl old ↦
      let (r, ends) = visit_nodes_ends fuel m visited q (omega arith) in
      (r, rw (old, visit_nodes) ends)
  | inr new ↦
      let (r, ends) =
        visit_nodes_ends fuel m (HashSet.insert visited x) (q ++ successors m x)
          (omega (arith, unvisited-insert m visited x new, length-append q (successors m x))) in
      (r, rw (new, visit_nodes) ends)
]

-- One unit of fuel more than there are edges is enough for `get_reachable_successors`.
pub visit_nodes_total :
    (m : SuccessorMap) (u : ℕ)
    → (r : List ℕ) × (visit_nodes (edge_count m + 1) m [] (u ∷ []) ≡ some r)
visit_nodes_total m u =
    visit_nodes_ends (edge_count m + 1) m [] (u ∷ []) (omega (arith, unvisited_le m []))

find_node_ends :
    (fuel : ℕ) (m : SuccessorMap) (t : ℕ) (result to_visit : List ℕ)
    → unvisited m result + length to_visit ≤ fuel
    → (b : Bool) × (find_node fuel m t result to_visit ≡ some b)
unfolding find_node
find_node_ends zero m t result [] h = (false, refl)
find_node_ends zero m t result (x ∷ q) h = absurd (omega arith)
find_node_ends (suc fuel) m t result [] h = (false, refl)
find_node_ends (suc fuel) m t result (x ∷ q) h = elim (Option-cases (HashMap.get m x)) [
  | inl e ↦
      let (b, ends) =
        find_node_ends fuel m t (HashSet.insert result x) q
          (omega (arith, unvisited-insert_le m result x)) in
      (b, rw (e, find_node) ends)
  | inr (s, e) ↦ elim (Bool-cases (contains s t)) [
    | inl hit ↦ (true, ground arith)
    | inr miss ↦ elim (Bool-cases (contains result x)) [
      | inl old ↦
          let (b, ends) = find_node_ends fuel m t result q (omega arith) in (b, ground arith)
      | inr new ↦
          let same : successors m x ≡ s = unfold successors in ground arith in
          let (b, ends) =
            find_node_ends fuel m t (HashSet.insert result x) (q ++ s)
              (omega (arith, unvisited-insert m result x new, length-append q s, ap length same)) in
          (b, ground arith)
    ]
  ]
]

-- One unit of fuel more than there are edges is enough for `is_reachable_successor`.
pub find_node_total :
    (m : SuccessorMap) (u t : ℕ)
    → (b : Bool) × (find_node (edge_count m + 1) m t [] (u ∷ []) ≡ some b)
find_node_total m u t =
    find_node_ends (edge_count m + 1) m t [] (u ∷ []) (omega (arith, unvisited_le m []))
