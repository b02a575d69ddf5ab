-- ===== src/Successors.antt =====
-- The loops of src/graph.rs over the successor sets of a graph, which are kept by node id.
pub mod Link
pub mod Reach
pub mod Closure
pub mod Search
use hermit_rs.Base.{
  ℕ, zero, suc, ◌+◌, Bool, true, false, List, [], ◌∷◌, ◌++◌, Option, none, some, if◌then◌else◌,
  nat_eq, length,
}
use hermit_rs.Collections.HashSet
use hermit_rs.Collections.HashMap

-- `successors_by_id`: the successor ids of each node id.
abbrev pub SuccessorMap : Type 0
SuccessorMap = List (ℕ × List ℕ)

-- The successors of a node, none where it has no entry.
unfoldable pub successors : SuccessorMap → ℕ → List ℕ
successors m k = elim (HashMap.get m k) [ some s ↦ s | none ↦ [] ]

-- The number of edges of the map: the fuel of the loops below.
unfoldable pub edge_count : SuccessorMap → ℕ
edge_count [] = 0
edge_count ((k, s) ∷ m) = length s + edge_count m

-- The loop over the successors of one node in `transitively_close`. The head of `to_process` is the
-- end of the source's vector.
pub record Closing : Type 0 where
  pub reachable : List ℕ
  pub to_process : List ℕ

unfoldable pub push_successors : Closing → List ℕ → Closing
push_successors c [] = c
push_successors c (succ ∷ rest) =
    push_successors
      (if HashSet.contains c.reachable succ then c else record {
        reachable = HashSet.insert c.reachable succ;
        to_process = succ ∷ c.to_process;
      })
      rest

-- The inner loop of `transitively_close`; `none` if the fuel runs out.
unfoldable pub close_node : ℕ → SuccessorMap → Closing → Option (List ℕ)
unfolding successors push_successors
close_node zero m c = elim c.to_process [ [] ↦ some c.reachable | _ ∷ _ ↦ none ]
close_node (suc fuel) m c = elim c.to_process [
  | [] ↦ some c.reachable
  | on_path ∷ rest ↦
      close_node fuel m (push_successors (record c { to_process = rest }) (successors m on_path))
]

-- The outer loop of `transitively_close`, over the keys.
unfoldable pub close_keys : List ℕ → SuccessorMap → Option SuccessorMap
unfolding successors edge_count close_node
close_keys [] m = some m
close_keys (key ∷ keys) m =
    let start = successors m key in
    elim (close_node (edge_count m + length start) m
      (record { reachable = start; to_process = start })) [
        | none ↦ none
        | some reachable ↦ close_keys keys (HashMap.insert m key reachable)
      ]

-- The loop of `is_reachable_successor`; `none` if the fuel runs out.
unfoldable pub find_node : ℕ → SuccessorMap → ℕ → List ℕ → List ℕ → Option Bool
unfolding edge_count
find_node fuel m target result [] = some false
find_node zero m target result (current ∷ to_visit) = none
find_node (suc fuel) m target result (current ∷ to_visit) = elim (HashMap.get m current) [
  | some succs ↦ elim (HashSet.contains succs target) [
    | true ↦ some true
    | false ↦ elim (HashSet.contains result current) [
      | true ↦ find_node fuel m target result to_visit
      | false ↦ find_node fuel m target (HashSet.insert result current) (to_visit ++ succs)
    ]
  ]
  | none ↦ find_node fuel m target (HashSet.insert result current) to_visit
]

-- The loop of `get_reachable_successors`; `none` if the fuel runs out.
unfoldable pub visit_nodes : ℕ → SuccessorMap → List ℕ → List ℕ → Option (List ℕ)
unfolding successors
visit_nodes fuel m visited [] = some visited
visit_nodes zero m visited (current ∷ to_visit) = none
visit_nodes (suc fuel) m visited (current ∷ to_visit) = elim (HashSet.contains visited current) [
  | true ↦ visit_nodes fuel m visited to_visit
  | false ↦ visit_nodes fuel m (HashSet.insert visited current) (to_visit ++ successors m current)
]
