-- ===== src/Successors/Closure/Keys.antt =====
-- The outer loop of `transitively_close`, which replaces the sets one key after the other.
use hermit_rs.Base.{
  ℕ, ◌≡◌, refl, true, ◌||◌, inl, inr, ◌↔◌, List, [], ◌∷◌, some, arith, ◌==◌, nat_eq, length, ==_iff,
  Bool-cases, ◌+◌,
}
use hermit_rs.Collections.HashSet.{contains}
use hermit_rs.Collections.HashMap
use hermit_rs.Collections.HashMap.{keys, get-insert}
use hermit_rs.Successors.{SuccessorMap, successors, edge_count, close_keys}
use hermit_rs.Successors.Link.{successors-insert}
use hermit_rs.Successors.Reach.{Edge, Walk, edge, extend, Walk-lift}
use hermit_rs.Successors.Closure.{close_node_total}
use hermit_rs.Successors.Closure.Correct.{close_node_lem, Inv-start}

module _ (m : SuccessorMap) (key : ℕ) (r : List ℕ)
    (closed : (v : ℕ) → (contains r v ≡ true) ↔ Walk m key v) where
  -- One key: its edges become its walks, and the others stay.
  one_sound : (u v : ℕ) → Edge (HashMap.insert m key r) u v → Walk m u v
  one_sound u v e = elim (Bool-cases (key == u)) [
    | inl same ↦
        rw (← (==_iff key u).0 same) ((closed v).0 (ground (arith, successors-insert m key r u)))
    | inr other ↦ edge (ground (arith, successors-insert m key r u))
  ]

  one_keeps : (u v : ℕ) → Edge m u v → Edge (HashMap.insert m key r) u v
  one_keeps u v e = elim (Bool-cases (key == u)) [
    | inl same ↦
        let start : Walk m key v = rw ((==_iff key u).0 same) (edge e) in
        ground (arith, successors-insert m key r u, (closed v).1 start)
    | inr other ↦ ground (arith, successors-insert m key r u)
  ]

  one_complete : (v : ℕ) → Walk m key v → Edge (HashMap.insert m key r) key v
  one_complete v p = ground (arith, successors-insert m key r key, (closed v).1 p, ==_iff key key)

-- What the loop over the keys makes of a map.
pub record Closes (ks : List ℕ) (m m' : SuccessorMap) : Type 0 where
  pub sound : (u v : ℕ) → Edge m' u v → Walk m u v
  pub keeps : (u v : ℕ) → Edge m u v → Edge m' u v
  pub complete : (u v : ℕ) → contains ks u ≡ true → Walk m u v → Edge m' u v
  pub domain :
      (k : ℕ) (s : List ℕ)
      → HashMap.get m' k ≡ some s
      → (contains ks k || contains (keys m) k) ≡ true

close_keys-Closes :
    (ks : List ℕ) (m : SuccessorMap)
    → (m' : SuccessorMap) × (close_keys ks m ≡ some m') × Closes ks m m'
unfolding close_keys
close_keys-Closes [] m = (
  m,
  refl,
  record {
    sound = λ u v e. edge e;
    keeps = λ u v e. e;
    complete = λ u v h p. absurd (ground arith);
    domain = λ k s h. HashMap.contains-keys m k h;
  },
)
close_keys-Closes (key ∷ ks) m =
    let (r, ends) = close_node_total m (successors m key) in
    let exact =
      close_node_lem (edge_count m + length (successors m key)) m key
        (record { reachable = successors m key; to_process = successors m key }) r (Inv-start m key)
        ends in
    let (m', rest, after) = close_keys-Closes ks (HashMap.insert m key r) in
    let lift = λ (u v : ℕ) (p : Walk m u v).
      Walk-lift m (HashMap.insert m key r) (λ x y e. edge (one_keeps m key r exact x y e)) p in
    (
      m',
      rw (ends, close_keys) rest,
      record {
        sound = λ u v e.
            Walk-lift (HashMap.insert m key r) m (one_sound m key r exact) (after.sound u v e);
        keeps = λ u v e. after.keeps u v (one_keeps m key r exact u v e);
        complete = λ u v h p. elim (Bool-cases (contains ks u)) [
          | inl later ↦ after.complete u v later (lift u v p)
          | inr now ↦
              let same : key ≡ u = ground (arith, ==_iff key u) in
              after.keeps u v (rw (← same) (one_complete m key r exact v (rw same p)))
        ];
        domain = λ k s h. elim (Bool-cases (contains ks k)) [
          | inl later ↦ ground arith
          | inr n ↦
              let (w, found) =
                HashMap.get-of_keys (HashMap.insert m key r) k
                  (ground (arith, after.domain k s h)) in
              elim (Bool-cases (key == k)) [
                | inl same ↦ ground arith
                | inr other ↦
                    let old : HashMap.get m k ≡ some w = ground (arith, get-insert m key k r) in
                    ground (arith, HashMap.contains-keys m k old)
              ]
        ];
      },
    )

contains-keys : (m : SuccessorMap) (u v : ℕ) → Edge m u v → contains (keys m) u ≡ true
unfolding successors
contains-keys [] u v e = ground arith
contains-keys ((k, s) ∷ m) u v e = ground (arith, contains-keys m u v)

Walk-starts : (m : SuccessorMap) {u v : ℕ} → Walk m u v → contains (keys m) u ≡ true
Walk-starts m (edge e) = contains-keys m _ _ e
Walk-starts m (extend p e) = Walk-starts m p

-- The loop over all keys ends within its fuel, and in the map that it leaves the edges from a node
-- to another are exactly the walks of the old map; no node gets an entry that had none.
pub close_keys_correct :
    (m : SuccessorMap)
    → (m' : SuccessorMap) × (close_keys (keys m) m ≡ some m')
      × ((u v : ℕ) → Edge m' u v ↔ Walk m u v)
      × ((k : ℕ) (s : List ℕ)
          → HashMap.get m' k ≡ some s
          → (s' : List ℕ) × (HashMap.get m k ≡ some s'))
close_keys_correct m =
    let (m', ends, c) = close_keys-Closes (keys m) m in
    (
      m',
      ends,
      λ u v. (c.sound u v, λ p. c.complete u v (Walk-starts m p) p),
      λ k s h. HashMap.get-of_keys m k (ground (arith, c.domain k s h)),
    )
