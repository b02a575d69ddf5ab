-- ===== src/Successors/Link.antt =====
-- Replacing the successor set of one node, and adding one edge.
use hermit_rs.Base.{ℕ, ◌≡◌, ◌&&◌, ◌||◌, List, arith, ◌==◌, if◌then◌else◌, nat_eq, ==_iff}
use hermit_rs.Collections.HashSet
use hermit_rs.Collections.HashSet.{contains, contains-insert}
use hermit_rs.Collections.HashMap
use hermit_rs.Collections.HashMap.{get-insert}
use hermit_rs.Successors.{SuccessorMap, successors}

pub successors-insert :
    (m : SuccessorMap) (key : ℕ) (s : List ℕ) (u : ℕ)
    → successors (HashMap.insert m key s) u ≡ (if key == u then s else successors m u)
unfolding successors
successors-insert m key s u = ground (arith, get-insert m key u s)

-- The map with one more edge.
abbrev pub link : SuccessorMap → ℕ → ℕ → SuccessorMap
link m from to = HashMap.insert m from (HashSet.insert (successors m from) to)

pub contains-link :
    (m : SuccessorMap) (from to u v : ℕ)
    → contains (successors (link m from to) u) v
      ≡ (contains (successors m u) v || (from == u && to == v))
contains-link m from to u v = ground (
  arith,
  successors-insert m from (HashSet.insert (successors m from) to) u,
  contains-insert (successors m from) to v,
  ==_iff from u,
)
