-- ===== src/Successors/Closure.antt =====
-- The inner loop of `transitively_close` ends within its fuel.
pub mod Correct
pub mod Keys
use hermit_rs.Base.{
  ℕ, zero, suc, ◌+◌, ◌≤◌, ◌<◌, ◌≡◌, refl, Bool, true, false, not, ◌&&◌, ◌||◌, List, [], ◌∷◌, Option,
  none, some, arith, ◌==◌, if◌then◌else◌, nat_eq, length, ==_iff, List-cases, inl, inr, ap,
}
use hermit_rs.Collections.HashSet
use hermit_rs.Collections.HashSet.{contains, contains-insert}
use hermit_rs.Collections.HashMap
use hermit_rs.Successors.{
  SuccessorMap, successors, edge_count, Closing, push_successors, close_node, close_keys,
}

-- The elements of a list that a set lacks, with repetition.
missing : List ℕ → List ℕ → ℕ
missing reached [] = 0
missing reached (x ∷ xs) = (if contains reached x then 0 else 1) + missing reached xs

missing-insert_le :
    (reached : List ℕ) (j : ℕ) (xs : List ℕ)
    → missing (HashSet.insert reached j) xs ≤ missing reached xs
unfolding missing
missing-insert_le reached j [] = omega arith
missing-insert_le reached j (x ∷ xs) =
    ground (arith, missing-insert_le reached j xs, contains-insert reached j x)

missing-insert_lt :
    (reached : List ℕ) (j : ℕ) (xs : List ℕ)
    → contains xs j ≡ true
    → contains reached j ≡ false
    → missing (HashSet.insert reached j) xs < missing reached xs
unfolding missing
missing-insert_lt reached j [] h n = ground arith
missing-insert_lt reached j (x ∷ xs) h n = ground (
  arith,
  missing-insert_lt reached j xs,
  missing-insert_le reached j xs,
  contains-insert reached j x,
  ==_iff x j,
)

-- The edges of a map whose target a set lacks.
potential : SuccessorMap → List ℕ → ℕ
potential [] reached = 0
potential ((k, s) ∷ m) reached = missing reached s + potential m reached

-- The node is a target in the map.
abbrev is_target : SuccessorMap → ℕ → Bool
is_target [] j = false
is_target ((k, s) ∷ m) j = contains s j || is_target m j

potential-insert_le :
    (m : SuccessorMap) (reached : List ℕ) (j : ℕ)
    → potential m (HashSet.insert reached j) ≤ potential m reached
unfolding potential
potential-insert_le [] reached j = omega arith
potential-insert_le ((k, s) ∷ m) reached j =
    omega (arith, potential-insert_le m reached j, missing-insert_le reached j s)

potential-insert_lt :
    (m : SuccessorMap) (reached : List ℕ) (j : ℕ)
    → is_target m j ≡ true
    → contains reached j ≡ false
    → potential m (HashSet.insert reached j) < potential m reached
unfolding potential
potential-insert_lt [] reached j h n = ground arith
potential-insert_lt ((k, s) ∷ m) reached j h n = ground (
  arith,
  potential-insert_lt m reached j,
  potential-insert_le m reached j,
  missing-insert_lt reached j s,
  missing-insert_le reached j s,
)

-- Each push is paid for by an edge whose target was not reached before.
potential-push_successors :
    (m : SuccessorMap) (c : Closing) (js : List ℕ)
    → ((j : ℕ) → contains js j ≡ true → is_target m j ≡ true)
    → potential m (push_successors c js).reachable + length (push_successors c js).to_process
      ≤ potential m c.reachable + length c.to_process
unfolding push_successors
potential-push_successors m c [] h = omega arith
potential-push_successors m c (j ∷ js) h =
    let grown : Closing = record {
      reachable = HashSet.insert c.reachable j;
      to_process = j ∷ c.to_process;
    } in
    let tail : (i : ℕ) → contains js i ≡ true → is_target m i ≡ true = λ i e. h i (ground arith) in
    ground (
      arith,
      potential-push_successors m c js tail,
      potential-push_successors m grown js tail,
      potential-insert_lt m c.reachable j (h j (ground (arith, ==_iff j j))),
    )

is_target-successors :
    (m : SuccessorMap) (k j : ℕ) → contains (successors m k) j ≡ true → is_target m j ≡ true
unfolding successors
is_target-successors [] k j h = ground arith
is_target-successors ((i, s) ∷ m) k j h = ground (arith, is_target-successors m k j)

-- Fuel beyond the unreached edges and the pending nodes is never used up.
close_node_ends :
    (fuel : ℕ) (m : SuccessorMap) (c : Closing)
    → potential m c.reachable + length c.to_process ≤ fuel
    → (r : List ℕ) × (close_node fuel m c ≡ some r)
unfolding close_node
close_node_ends zero m c h = elim (List-cases c.to_process) [
  | inl e ↦ (c.reachable, rw (e, close_node))
  | inr (x, rest, e) ↦ absurd (omega (arith, ap length e))
]
close_node_ends (suc fuel) m c h = elim (List-cases c.to_process) [
  | inl e ↦ (c.reachable, rw (e, close_node))
  | inr (x, rest, e) ↦
      let popped : Closing = record c { to_process = rest } in
      let (r, ends) = close_node_ends fuel m (push_successors popped (successors m x)) (
        omega (
          arith,
          ap length e,
          potential-push_successors m popped (successors m x) (is_target-successors m x),
        )) in
      (r, rw (e, close_node) ends)
]

missing_le : (reached xs : List ℕ) → missing reached xs ≤ length xs
unfolding missing
missing_le reached [] = omega arith
missing_le reached (x ∷ xs) = ground (arith, missing_le reached xs)

potential_le : (m : SuccessorMap) (reached : List ℕ) → potential m reached ≤ edge_count m
unfolding potential edge_count
potential_le [] reached = omega arith
potential_le ((k, s) ∷ m) reached = omega (arith, potential_le m reached, missing_le reached s)

-- The fuel that `close_keys` gives to the inner loop is enough.
pub close_node_total :
    (m : SuccessorMap) (start : List ℕ)
    → (r : List ℕ) × (close_node
          (edge_count m + length start)
          m
          (record { reachable = start; to_process = start })
        ≡ some r)
close_node_total m start =
    close_node_ends (edge_count m + length start) m
      (record { reachable = start; to_process = start }) (omega (arith, potential_le m start))
