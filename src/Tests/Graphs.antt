-- ===== src/Tests/Graphs.antt =====
-- Graphs over numbers: src/graph.rs.
use hermit_rs.Base.{
  ◌⊎◌, ◌↔◌, ◌≤◌, ◌+◌, ℕ, ◌≡◌, refl, Bool, true, not, ◌&&◌, ◌||◌, List, [], ◌∷◌, some, ◌==◌, arith,
  nat_eq, length,
}
use hermit_rs.Collections.HashSet
use hermit_rs.Collections.HashSet.{contains}
use hermit_rs.Collections.HashMap
use hermit_rs.Successors.{successors}
use hermit_rs.Graph.{
  Graph, id_limit, new, intern, add_edge, successor_contains, get_successors, transitively_close,
  is_reachable_successor, get_reachable_successors, remove_edge, clone, copy_edges, copy_entries,
  remove_successors, change_successors, remove_ids,
}
use hermit_rs.Graph.Valid.{IsValid, new-IsValid, add_edge-IsValid}
use hermit_rs.Graph.Edges.{successor_contains-add_edge, get_successors-contains}
use hermit_rs.Graph.Closure.{
  Chain, transitively_close_correct, is_reachable_successor_correct,
  get_reachable_successors_correct,
}
use hermit_rs.Graph.Changes.{successor_contains-remove_edge}

abbrev a : ℕ
a = 1

abbrev b : ℕ
b = 2

abbrev c : ℕ
c = 3

-- The graph 1 → 2 → 3.
abbrev one_edge : Graph ℕ
one_edge = add_edge new a 2

abbrev path : Graph ℕ
path = add_edge one_edge 2 c

room : length one_edge.elems + 2 ≤ id_limit
unfolding add_edge intern new HashMap.insert HashSet.insert successors
room = omega arith

one_edge-IsValid : IsValid one_edge
unfolding new
one_edge-IsValid = add_edge-IsValid new a 2 new-IsValid (omega arith)

path-IsValid : IsValid path
path-IsValid = add_edge-IsValid one_edge 2 c one_edge-IsValid room

add_edge-IsValid_example : IsValid (add_edge one_edge 2 c)
add_edge-IsValid_example = add_edge-IsValid one_edge 2 c one_edge-IsValid room

successor_contains-add_edge_example :
    (successor_contains (add_edge one_edge 2 c) b c
      ≡ (successor_contains one_edge 2 c || (b == b && c == c)))
    × (contains (add_edge one_edge 2 c).elements 2
        ≡ (contains one_edge.elements 2 || b == b || c == b))
successor_contains-add_edge_example =
    successor_contains-add_edge one_edge 2 c 2 c one_edge-IsValid room

get_successors-contains_example :
    (s : List ℕ) × (get_successors path 2 ≡ some s)
    × ((y : ℕ) → contains s y ≡ successor_contains path 2 y)
get_successors-contains_example = get_successors-contains path 2 path-IsValid

transitively_close_correct_example :
    (g' : Graph ℕ) × (transitively_close path ≡ some g')
    × IsValid g'
    × (g'.elements ≡ path.elements)
    × ((x y : ℕ) → (successor_contains g' x y ≡ true) ↔ Chain path x y)
transitively_close_correct_example = transitively_close_correct path path-IsValid

is_reachable_successor_correct_example :
    (answer : Bool) × (is_reachable_successor path a c ≡ some answer)
    × ((answer ≡ true) ↔ ((a ≡ c) ⊎ Chain path a c))
is_reachable_successor_correct_example = is_reachable_successor_correct path a c path-IsValid

get_reachable_successors_correct_example :
    (s : List ℕ) × (get_reachable_successors path a ≡ some s)
    × ((y : ℕ) → (contains s y ≡ true) ↔ ((a ≡ y) ⊎ Chain path a y))
get_reachable_successors_correct_example = get_reachable_successors_correct path a path-IsValid

successor_contains-remove_edge_example :
    successor_contains (remove_edge path a 2) b c
    ≡ (successor_contains path 2 c && not (a == b && b == c))
successor_contains-remove_edge_example = successor_contains-remove_edge path a 2 2 c path-IsValid

-- The copy gives the elements new ids, in the order of the edges, and has no node without an edge.
clone_test :
    clone (remove_edge path a 2)
    ≡ some (record {
      elements = 1 ∷ 2 ∷ 3 ∷ [];
      ids = (2, 0) ∷ (3, 1) ∷ [];
      elems = 2 ∷ 3 ∷ [];
      successors_by_id = (0, 1 ∷ []) ∷ [];
    })
unfolding clone copy_entries copy_edges add_edge intern new remove_edge remove_successors
    change_successors remove_ids successors HashMap.insert HashSet.insert HashSet.extend
    HashSet.remove HashMap.remove
clone_test = refl
