-- ===== src/Successors/Closure/Correct.antt =====
-- `transitively_close` computes the transitive closure.
use hermit_rs.Base.{
  ℕ, zero, suc, ◌≡◌, true, false, ◌||◌, inl, inr, ◌↔◌, List, [], ◌∷◌, some, arith, ◌==◌, nat_eq,
  ==_iff, Bool-cases, List-cases,
}
use hermit_rs.Collections.HashSet
use hermit_rs.Collections.HashSet.{contains, contains-insert}
use hermit_rs.Successors.{SuccessorMap, successors, Closing, push_successors, close_node}
use hermit_rs.Successors.Reach.{Edge, Walk, edge, extend}

reachable-push_successors :
    (c : Closing) (js : List ℕ) (v : ℕ)
    → contains (push_successors c js).reachable v ≡ (contains c.reachable v || contains js v)
unfolding push_successors
reachable-push_successors c [] v = ground arith
reachable-push_successors c (j ∷ js) v =
    let grown : Closing = record {
      reachable = HashSet.insert c.reachable j;
      to_process = j ∷ c.to_process;
    } in
    ground (
      arith,
      reachable-push_successors c js v,
      reachable-push_successors grown js v,
      contains-insert c.reachable j v,
      ==_iff j v,
    )

-- What is new is pending, and what was pending still is.
to_process-push_successors :
    (c : Closing) (js : List ℕ) (v : ℕ)
    → (contains (push_successors c js).reachable v ≡ true
        → (contains c.reachable v || contains (push_successors c js).to_process v) ≡ true)
      × (contains c.to_process v ≡ true → contains (push_successors c js).to_process v ≡ true)
      × (contains (push_successors c js).to_process v ≡ true
          → (contains c.to_process v || contains js v) ≡ true)
unfolding push_successors
to_process-push_successors c [] v = ground arith
to_process-push_successors c (j ∷ js) v =
    let grown : Closing = record {
      reachable = HashSet.insert c.reachable j;
      to_process = j ∷ c.to_process;
    } in
    ground (
      arith,
      to_process-push_successors c js v,
      to_process-push_successors grown js v,
      contains-insert c.reachable j v,
      ==_iff j v,
    )

pub record Inv (m : SuccessorMap) (u : ℕ) (c : Closing) : Type 0 where
  pub sound : (v : ℕ) → contains c.reachable v ≡ true → Walk m u v
  pub first : (v : ℕ) → Edge m u v → contains c.reachable v ≡ true
  pub pending : (v : ℕ) → contains c.to_process v ≡ true → contains c.reachable v ≡ true
  pub closed :
      (v w : ℕ)
      → contains c.reachable v ≡ true
      → Edge m v w
      → (contains c.to_process v || contains c.reachable w) ≡ true

pub Inv-start :
    (m : SuccessorMap) (u : ℕ)
    → Inv m u (record { reachable = successors m u; to_process = successors m u })
Inv-start m u = record {
  sound = λ v h. edge h;
  first = λ v h. h;
  pending = λ v h. h;
  closed = λ v w h e. ground arith;
}

Inv-push :
    (m : SuccessorMap) (u : ℕ) (c : Closing) (x : ℕ) (rest : List ℕ)
    → c.to_process ≡ x ∷ rest
    → Inv m u c
    → Inv m u (push_successors (record c { to_process = rest }) (successors m x))
Inv-push m u c x rest e inv =
    let popped : Closing = record c { to_process = rest } in
    let reach = reachable-push_successors popped (successors m x) in
    let stack = to_process-push_successors popped (successors m x) in
    let top : contains c.reachable x ≡ true = inv.pending x (rw e (ground (arith, ==_iff x x))) in
    let member =
      λ (v : ℕ). let old : contains c.to_process v ≡ (x == v || contains rest v) = rw e in old in
    record {
      sound = λ v h. elim (Bool-cases (contains c.reachable v)) [
        | inl old ↦ inv.sound v old
        | inr new ↦ extend (inv.sound x top) (ground (arith, reach v))
      ];
      first = λ v h. ground (arith, reach v, inv.first v h);
      pending = λ v h. ground (arith, reach v, stack v, inv.pending v, member v);
      closed = λ v w h f.
          ground (arith, reach v, reach w, stack v, inv.closed v w, member v, ==_iff x v);
    }

-- With nothing pending the reached set holds every target of a walk.
complete :
    (m : SuccessorMap) (u : ℕ) (c : Closing)
    → Inv m u c
    → c.to_process ≡ []
    → {v : ℕ} → Walk m u v
    → contains c.reachable v ≡ true
complete m u c inv e (edge f) = inv.first _ f
complete m u c inv e (extend {v} {w} p f) =
    let closed = inv.closed v w (complete m u c inv e p) f in
    let empty : contains c.to_process v ≡ false = rw e in ground arith

pub close_node_lem :
    (fuel : ℕ) (m : SuccessorMap) (u : ℕ) (c : Closing) (r : List ℕ)
    → Inv m u c
    → close_node fuel m c ≡ some r
    → (v : ℕ) → (contains r v ≡ true) ↔ Walk m u v
unfolding close_node
close_node_lem zero m u c r inv h v = elim (List-cases c.to_process) [
  | inl e ↦
      let same : c.reachable ≡ r = ground arith in rw (← same) (inv.sound v, complete m u c inv e)
  | inr (x, rest, e) ↦ absurd (ground arith)
]
close_node_lem (suc fuel) m u c r inv h v = elim (List-cases c.to_process) [
  | inl e ↦
      let same : c.reachable ≡ r = ground arith in rw (← same) (inv.sound v, complete m u c inv e)
  | inr (x, rest, e) ↦
      close_node_lem fuel m u (push_successors (record c { to_process = rest }) (successors m x)) r
        (Inv-push m u c x rest e inv) (rw (e, close_node) at h) v
]
