-- ===== src/Tableau/GroundDisjunctionHeader/Raising.antt =====
-- What `GroundDisjunctionHeader::increase_number_of_backtrackings` does to one partition.
use mathlib.Core.Option
use mathlib.Core.Logic.{◌≢◌}
use hermit_rs.Base.{
  ℕ, zero, suc, ◌≡◌, refl, ap, ◌∙◌, inl, inr, false, none, some, List, [], ◌∷◌, map, arith,
  if◌then◌else◌, Bool-cases, All, nat_eq, ◌==◌,
}
use hermit_rs.Base.Int.{ℤ, pos, negsuc}
use hermit_rs.Collections.HashSet.{contains, IsDistinct}
use hermit_rs.Tableau.GroundDisjunctionHeader.{
  DisjunctIndexWithBacktrackings, increment_entry, increment, max_i32, find_number,
}
use hermit_rs.Tableau.GroundDisjunctionHeader.Sinking.{
  index_of, sink_in, NoMore, IsSorted, All-sink_in, sink_in-IsSorted, contains-sink_in,
  sink_in-IsDistinct,
}

-- One more backtracking for a disjunct, in the list of its partition.
unfoldable pub raise : ℕ → List DisjunctIndexWithBacktrackings → List DisjunctIndexWithBacktrackings
raise d [] = []
raise d (x ∷ xs) = if x.disjunct_index == d then sink_in (increment_entry x) xs else x ∷ raise d xs

pub contains-raise :
    (d : ℕ) (g : List DisjunctIndexWithBacktrackings) (i : ℕ)
    → contains (map index_of (raise d g)) i ≡ contains (map index_of g) i
unfolding raise
contains-raise d [] i = refl
contains-raise d (x ∷ xs) i =
    ground (arith, contains-raise d xs i, contains-sink_in (increment_entry x) xs i)

pub raise-IsDistinct :
    (d : ℕ) (g : List DisjunctIndexWithBacktrackings)
    → IsDistinct (map index_of g)
    → IsDistinct (map index_of (raise d g))
unfolding raise
raise-IsDistinct d [] h = h
raise-IsDistinct d (x ∷ xs) h = elim (Bool-cases (x.disjunct_index == d)) [
  | inl t ↦ rw (t, raise) (sink_in-IsDistinct (increment_entry x) xs h)
  | inr t ↦ rw (t, raise) (contains-raise d xs (index_of x) ∙ h.0, raise-IsDistinct d xs h.1)
]

increment_ge :
    (p x : DisjunctIndexWithBacktrackings)
    → x.number_of_backtrackings ≢ pos max_i32
    → NoMore p x
    → NoMore p (increment_entry x)
unfolding increment
increment_ge p x below h = go x.number_of_backtrackings below h
  where
    go :
        (n : ℤ)
        → n ≢ pos max_i32
        → NoMore p (record x { number_of_backtrackings = n })
        → NoMore p (record x { number_of_backtrackings = increment n })
    go (pos n) b h = elim (Bool-cases (n == max_i32)) [
      | inl t ↦ absurd (b (ap pos ((nat_eq.beq_iff n max_i32).0 t)))
      | inr t ↦ rw (t, increment) (ground arith)
    ]
    go (negsuc zero) b h = ground arith
    go (negsuc (suc n)) b h = ground arith

-- An entry that has no more backtrackings than the old entries has no more than the new ones.
All-raise :
    (y : DisjunctIndexWithBacktrackings) (d : ℕ) (g : List DisjunctIndexWithBacktrackings)
    → find_number g d ≢ some (pos max_i32)
    → All (λ z. NoMore y z) g
    → All (λ z. NoMore y z) (raise d g)
unfolding raise find_number
All-raise y d [] below h = tt
All-raise y d (x ∷ xs) below (h, hs) = elim (Bool-cases (x.disjunct_index == d)) [
  | inl t ↦
      rw (t, raise)
        (All-sink_in (λ z. NoMore y z) (increment_entry x) xs
          (increment_ge y x (λ e. below (rw (t, find_number) (ap some e))) h) hs)
  | inr t ↦ rw (t, raise) (h, All-raise y d xs (λ e. below (rw (t, find_number) e)) hs)
]

pub raise-IsSorted :
    (d : ℕ) (g : List DisjunctIndexWithBacktrackings)
    → find_number g d ≢ some (pos max_i32)
    → IsSorted g
    → IsSorted (raise d g)
unfolding raise find_number
raise-IsSorted d [] below s = tt
raise-IsSorted d (x ∷ xs) below (a, s) = elim (Bool-cases (x.disjunct_index == d)) [
  | inl t ↦ rw (t, raise) (sink_in-IsSorted (increment_entry x) xs s)
  | inr t ↦
      let below' = λ (e : find_number xs d ≡ some (pos max_i32)). below (rw (t, find_number) e) in
      rw (t, raise) (All-raise x d xs below' a, raise-IsSorted d xs below' s)
]

pub find_number-absent :
    (g : List DisjunctIndexWithBacktrackings) (i : ℕ)
    → contains (map index_of g) i ≡ false
    → find_number g i ≡ none
unfolding find_number
find_number-absent [] i h = refl
find_number-absent (x ∷ xs) i h = ground (arith, find_number-absent xs i)

find_number-sink_in :
    (x : DisjunctIndexWithBacktrackings) (g : List DisjunctIndexWithBacktrackings) (i : ℕ)
    → IsDistinct (map index_of (x ∷ g))
    → find_number (sink_in x g) i ≡ find_number (x ∷ g) i
unfolding find_number sink_in
find_number-sink_in x [] i d = refl
find_number-sink_in x (y ∷ g) i d = ground (arith, find_number-sink_in x g i)

pub find_number-raise :
    (d : ℕ) (g : List DisjunctIndexWithBacktrackings) (i : ℕ)
    → IsDistinct (map index_of g)
    → find_number (raise d g) i
      ≡ (if d == i then Option.map increment (find_number g i) else find_number g i)
unfolding find_number raise
find_number-raise d [] i h = ground arith
find_number-raise d (x ∷ xs) i h = elim (Bool-cases (x.disjunct_index == d)) [
  | inl t ↦
      rw (t, raise)
        (find_number-sink_in (increment_entry x) xs i h
          ∙ ground (
            arith,
            nat_eq.beq_iff d i,
            nat_eq.beq_iff x.disjunct_index i,
            nat_eq.beq_iff x.disjunct_index d,
            find_number-absent xs i,
          ))
  | inr t ↦ ground (arith, find_number-raise d xs i h.1, nat_eq.beq_iff d i)
]
