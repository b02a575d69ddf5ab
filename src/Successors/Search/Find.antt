-- ===== src/Successors/Search/Find.antt =====
-- `is_reachable_successor` finds the target exactly if a walk of at least one edge leads to it.
use mathlib.Core.List.{append-nil}
use hermit_rs.Base.{
  ℕ, zero, suc, ◌+◌, ◌≡◌, refl, Bool, true, false, ◌||◌, ◌↔◌, inl, inr, List, [], ◌∷◌, ◌++◌, some,
  arith, nat_eq, ==_iff, Bool-cases, Option-cases,
}
use hermit_rs.Collections.HashSet
use hermit_rs.Collections.HashSet.{contains, contains-insert, contains-append}
use hermit_rs.Collections.HashMap
use hermit_rs.Successors.{SuccessorMap, successors, edge_count, find_node}
use hermit_rs.Successors.Reach.{Edge, Reach, here, step, Walk, edge, extend}
use hermit_rs.Successors.Search.{find_node_total}

record Inv (m : SuccessorMap) (u t : ℕ) (result to_visit : List ℕ) : Type 0 where
  start : (contains result u || contains to_visit u) ≡ true
  sound : (v : ℕ) → contains to_visit v ≡ true → Reach m u v
  missed : (v : ℕ) → contains result v ≡ true → contains (successors m v) t ≡ false
  closed :
      (v w : ℕ)
      → contains result v ≡ true
      → Edge m v w
      → (contains result w || contains to_visit w) ≡ true

Inv-skip :
    (m : SuccessorMap) (u t x : ℕ) (result to_visit : List ℕ)
    → contains result x ≡ true
    → Inv m u t result (x ∷ to_visit)
    → Inv m u t result to_visit
Inv-skip m u t x result to_visit old inv = record {
  start = ground (arith, inv.start, ==_iff x u);
  sound = λ v h. inv.sound v (ground arith);
  missed = inv.missed;
  closed = λ v w h e. ground (arith, inv.closed v w, ==_iff x w);
}

Inv-visit :
    (m : SuccessorMap) (u t x : ℕ) (result to_visit : List ℕ)
    → contains (successors m x) t ≡ false
    → Inv m u t result (x ∷ to_visit)
    → Inv m u t (HashSet.insert result x) (to_visit ++ successors m x)
Inv-visit m u t x result to_visit miss inv =
    let ins = contains-insert result x in
    let app = contains-append to_visit (successors m x) in
    let top : Reach m u x = inv.sound x (ground (arith, ==_iff x x)) in
    record {
      start = ground (arith, inv.start, ins u, app u);
      sound = λ v h. elim (Bool-cases (contains (successors m x) v)) [
        | inl e ↦ step top e
        | inr n ↦ inv.sound v (ground (arith, app v))
      ];
      missed = λ v h. ground (arith, inv.missed v, ins v, ==_iff x v);
      closed = λ v w h e. ground (arith, inv.closed v w, ins v, ins w, app w, ==_iff x v);
    }

reached :
    (m : SuccessorMap) (u t : ℕ) (result : List ℕ)
    → Inv m u t result []
    → {v : ℕ} → Reach m u v
    → contains result v ≡ true
reached m u t result inv here = ground (arith, inv.start)
reached m u t result inv (step {v} {w} p e) =
    ground (arith, inv.closed v w (reached m u t result inv p) e)

Walk-of_Reach : {m : SuccessorMap} {u v w : ℕ} → Reach m u v → Edge m v w → Walk m u w
Walk-of_Reach here e = edge e
Walk-of_Reach (step p f) e = extend (Walk-of_Reach p f) e

pub Reach-of_Walk : {m : SuccessorMap} {u v : ℕ} → Walk m u v → Reach m u v
Reach-of_Walk (edge e) = step here e
Reach-of_Walk (extend p e) = step (Reach-of_Walk p) e

exhausted : (m : SuccessorMap) (u t : ℕ) (result : List ℕ) → Inv m u t result [] → ¬ Walk m u t
exhausted m u t result inv (edge e) = cc (inv.missed u (reached m u t result inv here))
exhausted m u t result inv (extend {v} p e) =
    cc (inv.missed v (reached m u t result inv (Reach-of_Walk p)))

find_node_lem :
    (fuel : ℕ) (m : SuccessorMap) (u t : ℕ) (result to_visit : List ℕ) (b : Bool)
    → Inv m u t result to_visit
    → find_node fuel m t result to_visit ≡ some b
    → (b ≡ true) ↔ Walk m u t
unfolding find_node
find_node_lem zero m u t result [] b inv h =
    let same : false ≡ b = ground arith in
    rw (← same) (λ e. absurd (ground arith), λ w. absurd (exhausted m u t result inv w))
find_node_lem zero m u t result (x ∷ q) b inv h = absurd (ground arith)
find_node_lem (suc fuel) m u t result [] b inv h =
    let same : false ≡ b = ground arith in
    rw (← same) (λ e. absurd (ground arith), λ w. absurd (exhausted m u t result inv w))
find_node_lem (suc fuel) m u t result (x ∷ q) b inv h = elim (Option-cases (HashMap.get m x)) [
  | inl e ↦
      let none_left : successors m x ≡ [] = unfold successors in ground arith in
      let inv' : Inv m u t (HashSet.insert result x) (q ++ successors m x) =
        Inv-visit m u t x result q (rw none_left) inv in
      let inv'' : Inv m u t (HashSet.insert result x) q = rw append-nil at (rw none_left at inv') in
      find_node_lem fuel m u t (HashSet.insert result x) q b inv'' (rw (e, find_node) at h)
  | inr (s, e) ↦
      let same : successors m x ≡ s = unfold successors in ground arith in
      elim (Bool-cases (contains s t)) [
        | inl hit ↦
            let found : true ≡ b = ground arith in
            rw (← found) (
              λ _. Walk-of_Reach (inv.sound x (ground (arith, ==_iff x x))) (rw same hit),
              λ _. refl,
            )
        | inr miss ↦ elim (Bool-cases (contains result x)) [
          | inl old ↦
              find_node_lem fuel m u t result q b (Inv-skip m u t x result q old inv) (ground arith)
          | inr new ↦
              find_node_lem fuel m u t (HashSet.insert result x) (q ++ s) b
                (rw same at (Inv-visit m u t x result q (rw same miss) inv)) (ground arith)
        ]
      ]
]

-- The search answers, and the answer is yes exactly if a walk of at least one edge leads to the
-- target.
pub find_node_correct :
    (m : SuccessorMap) (u t : ℕ)
    → (b : Bool) × (find_node (edge_count m + 1) m t [] (u ∷ []) ≡ some b)
      × ((b ≡ true) ↔ Walk m u t)
find_node_correct m u t =
    let (b, ends) = find_node_total m u t in
    let start : Inv m u t [] (u ∷ []) = record {
      start = ground (arith, ==_iff u u);
      sound = λ v h. rw (← (==_iff u v).0 (ground arith)) here;
      missed = λ v h. absurd (ground arith);
      closed = λ v w h e. absurd (ground arith);
    } in
    (b, ends, find_node_lem (edge_count m + 1) m u t [] (u ∷ []) b start ends)
