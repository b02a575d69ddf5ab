-- ===== src/Successors/Reach.antt =====
-- Edges and walks of a successor map.
use hermit_rs.Base.{ℕ, ◌≡◌, true}
use hermit_rs.Collections.HashSet.{contains}
use hermit_rs.Base.{nat_eq}
use hermit_rs.Successors.{SuccessorMap, successors}

abbrev pub Edge : SuccessorMap → ℕ → ℕ → Type 0
Edge m u v = contains (successors m u) v ≡ true

-- The walks from `u`, and those of at least one edge.
pub data Reach (m : SuccessorMap) (u : ℕ) : ℕ → Type 0 where
  here : Reach m u u
  step : {v w : ℕ} → Reach m u v → Edge m v w → Reach m u w

pub data Walk (m : SuccessorMap) (u : ℕ) : ℕ → Type 0 where
  edge : {v : ℕ} → Edge m u v → Walk m u v
  extend : {v w : ℕ} → Walk m u v → Edge m v w → Walk m u w

pub Walk-trans : {m : SuccessorMap} {u v w : ℕ} → Walk m u v → Walk m v w → Walk m u w
Walk-trans p (edge e) = extend p e
Walk-trans p (extend q e) = extend (Walk-trans p q) e

-- Where each edge of a map is a walk of another, so is each walk.
pub Walk-lift :
    (m n : SuccessorMap) {u v : ℕ} → ((x y : ℕ) → Edge m x y → Walk n x y) → Walk m u v → Walk n u v
Walk-lift m n f (edge e) = f _ _ e
Walk-lift m n f (extend p e) = Walk-trans (Walk-lift m n f p) (f _ _ e)
