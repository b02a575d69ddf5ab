-- ===== src/Successors/Search/Visit.antt =====
-- `get_reachable_successors` visits exactly the reachable nodes.
use hermit_rs.Base.{
  ℕ, zero, suc, ◌+◌, ◌≡◌, true, ◌||◌, ◌↔◌, inl, inr, List, [], ◌∷◌, ◌++◌, some, arith, nat_eq,
  ==_iff, Bool-cases,
}
use hermit_rs.Collections.HashSet
use hermit_rs.Collections.HashSet.{contains, contains-insert, contains-append}
use hermit_rs.Successors.{SuccessorMap, successors, edge_count, visit_nodes}
use hermit_rs.Successors.Reach.{Edge, Reach, here, step}
use hermit_rs.Successors.Search.{visit_nodes_total}

record Inv (m : SuccessorMap) (u : ℕ) (visited to_visit : List ℕ) : Type 0 where
  start : (contains visited u || contains to_visit u) ≡ true
  sound : (v : ℕ) → (contains visited v || contains to_visit v) ≡ true → Reach m u v
  closed :
      (v w : ℕ)
      → contains visited v ≡ true
      → Edge m v w
      → (contains visited w || contains to_visit w) ≡ true

Inv-skip :
    (m : SuccessorMap) (u x : ℕ) (visited to_visit : List ℕ)
    → contains visited x ≡ true
    → Inv m u visited (x ∷ to_visit)
    → Inv m u visited to_visit
Inv-skip m u x visited to_visit old inv = record {
  start = ground (arith, inv.start, ==_iff x u);
  sound = λ v h. inv.sound v (ground arith);
  closed = λ v w h e. ground (arith, inv.closed v w, ==_iff x w);
}

Inv-visit :
    (m : SuccessorMap) (u x : ℕ) (visited to_visit : List ℕ)
    → Inv m u visited (x ∷ to_visit)
    → Inv m u (HashSet.insert visited x) (to_visit ++ successors m x)
Inv-visit m u x visited to_visit inv =
    let ins = contains-insert visited x in
    let app = contains-append to_visit (successors m x) in
    let top : Reach m u x = inv.sound x (ground (arith, ==_iff x x)) in
    record {
      start = ground (arith, inv.start, ins u, app u);
      sound = λ v h. elim (Bool-cases (contains (successors m x) v)) [
        | inl e ↦ step top e
        | inr n ↦ inv.sound v (ground (arith, ins v, app v))
      ];
      closed = λ v w h e. ground (arith, inv.closed v w, ins v, ins w, app w, ==_iff x v);
    }

complete :
    (m : SuccessorMap) (u : ℕ) (visited : List ℕ)
    → Inv m u visited []
    → {v : ℕ} → Reach m u v
    → contains visited v ≡ true
complete m u visited inv here = ground (arith, inv.start)
complete m u visited inv (step {v} {w} p e) =
    ground (arith, inv.closed v w (complete m u visited inv p) e)

visit_nodes_lem :
    (fuel : ℕ) (m : SuccessorMap) (u : ℕ) (visited to_visit r : List ℕ)
    → Inv m u visited to_visit
    → visit_nodes fuel m visited to_visit ≡ some r
    → (v : ℕ) → (contains r v ≡ true) ↔ Reach m u v
unfolding visit_nodes
visit_nodes_lem zero m u visited [] r inv h v =
    let same : visited ≡ r = ground arith in
    rw (← same) (λ m. inv.sound v (ground arith), complete m u visited inv)
visit_nodes_lem zero m u visited (x ∷ q) r inv h v = absurd (ground arith)
visit_nodes_lem (suc fuel) m u visited [] r inv h v =
    let same : visited ≡ r = ground arith in
    rw (← same) (λ m. inv.sound v (ground arith), complete m u visited inv)
visit_nodes_lem (suc fuel) m u visited (x ∷ q) r inv h v = elim (Bool-cases (contains visited x)) [
  | inl old ↦
      visit_nodes_lem fuel m u visited q r (Inv-skip m u x visited q old inv)
        (rw (old, visit_nodes) at h) v
  | inr new ↦
      visit_nodes_lem fuel m u (HashSet.insert visited x) (q ++ successors m x) r
        (Inv-visit m u x visited q inv) (rw (new, visit_nodes) at h) v
]

-- From any node the search returns exactly the nodes that a walk, empty or not, leads to.
pub visit_nodes_correct :
    (m : SuccessorMap) (u : ℕ)
    → (r : List ℕ) × (visit_nodes (edge_count m + 1) m [] (u ∷ []) ≡ some r)
      × ((v : ℕ) → (contains r v ≡ true) ↔ Reach m u v)
visit_nodes_correct m u =
    let (r, ends) = visit_nodes_total m u in
    let start : Inv m u [] (u ∷ []) = record {
      start = ground (arith, ==_iff u u);
      sound = λ v h. rw (← (==_iff u v).0 (ground arith)) here;
      closed = λ v w h e. absurd (ground arith);
    } in
    (r, ends, visit_nodes_lem (edge_count m + 1) m u [] (u ∷ []) r start ends)
