-- ===== src/Tableau/GroundDisjunctionHeader/Sinking.antt =====
-- The loop of `GroundDisjunctionHeader::increase_number_of_backtrackings`: it sinks an entry
-- into the ordered rest of its partition.
use hermit_rs.Base.{
  ℕ, zero, suc, ◌+◌, ◌<◌, ◌≡◌, refl, ◌∙◌, inl, inr, true, false, some, List, [], ◌∷◌, ◌++◌, map,
  arith, if◌then◌else◌, length, get_elem?, Bool-cases, ltb, All, nat_eq, get_elem?-middle,
  length-append, All-imp,
}
use hermit_rs.Base.Int.{◌≤ℤ◌}
use hermit_rs.Base.Panic.{◌>>=◌}
use hermit_rs.Base.Vectors.{set_elem?, set_elem?-middle, append_assoc}
use hermit_rs.Collections.HashSet.{contains, IsDistinct}
use hermit_rs.Tableau.GroundDisjunctionHeader.{DisjunctIndexWithBacktrackings, swap, sink, has_more}

abbrev pub index_of : DisjunctIndexWithBacktrackings → ℕ
index_of d = d.disjunct_index

-- Sinking an entry into a list: past the entries with fewer backtrackings.
unfoldable pub sink_in :
    DisjunctIndexWithBacktrackings
    → List DisjunctIndexWithBacktrackings
    → List DisjunctIndexWithBacktrackings
sink_in x [] = x ∷ []
sink_in x (y ∷ ys) = if has_more x y then y ∷ sink_in x ys else x ∷ y ∷ ys

-- The order of the entries: by their numbers of backtrackings.
abbrev pub NoMore : DisjunctIndexWithBacktrackings → DisjunctIndexWithBacktrackings → Type 0
NoMore x y = x.number_of_backtrackings ≤ℤ y.number_of_backtrackings

-- No entry has more backtrackings than a later one.
abbrev pub IsSorted : List DisjunctIndexWithBacktrackings → Type 0
IsSorted [] = Unit
IsSorted (x ∷ xs) = All (λ y. NoMore x y) xs × IsSorted xs

-- The test of the loop decides the order.
has_more-true : (x y : DisjunctIndexWithBacktrackings) → has_more x y ≡ true → NoMore y x
unfolding has_more
has_more-true x y h = ground arith

has_more-false : (x y : DisjunctIndexWithBacktrackings) → has_more x y ≡ false → NoMore x y
unfolding has_more
has_more-false x y h = ground arith

module _ (pre : List DisjunctIndexWithBacktrackings) (x y : DisjunctIndexWithBacktrackings)
    (xs : List DisjunctIndexWithBacktrackings) where
  next : (z : DisjunctIndexWithBacktrackings) → length (pre ++ z ∷ []) ≡ suc (length pre)
  next z = omega (arith, length-append pre (z ∷ []))

  get_elem?-second : get_elem? (pre ++ x ∷ y ∷ xs) (suc (length pre)) ≡ some y
  get_elem?-second =
      rw (next x, append_assoc pre (x ∷ []) (y ∷ xs)) at (get_elem?-middle (pre ++ x ∷ []) y xs)

  set_elem?-second : set_elem? (pre ++ y ∷ y ∷ xs) (suc (length pre)) x ≡ some (pre ++ y ∷ x ∷ xs)
  set_elem?-second =
      rw (next y, append_assoc pre (y ∷ []) (y ∷ xs), append_assoc pre (y ∷ []) (x ∷ xs)) at
        (set_elem?-middle (pre ++ y ∷ []) y x xs)

  swap-middle : swap (pre ++ x ∷ y ∷ xs) (length pre) (suc (length pre)) ≡ some (pre ++ y ∷ x ∷ xs)
  unfolding swap
  swap-middle =
      rw
        (
          get_elem?-middle pre x (y ∷ xs),
          get_elem?-second,
          set_elem?-middle pre x y (y ∷ xs),
          set_elem?-second,
        )
        refl

  -- One round that goes on, and one that ends.
  sink-more :
      (fuel end : ℕ)
      → suc (length pre) < end
      → has_more x y ≡ true
      → sink (suc fuel) (length pre) end (pre ++ x ∷ y ∷ xs)
        ≡ sink fuel (suc (length pre)) end (pre ++ y ∷ x ∷ xs)
  unfolding sink
  sink-more fuel end h more =
      let e : ltb (suc (length pre)) end ≡ true = ground arith in
      rw (e, sink, get_elem?-middle pre x (y ∷ xs), get_elem?-second, ◌>>=◌, more, swap-middle) refl

  sink-stop :
      (fuel end : ℕ)
      → suc (length pre) < end
      → has_more x y ≡ false
      → sink (suc fuel) (length pre) end (pre ++ x ∷ y ∷ xs) ≡ some (pre ++ x ∷ y ∷ xs)
  unfolding sink
  sink-stop fuel end h more =
      let e : ltb (suc (length pre)) end ≡ true = ground arith in
      rw (e, sink, get_elem?-middle pre x (y ∷ xs), get_elem?-second, ◌>>=◌, more) refl

-- With enough fuel the loop sinks the entry into the rest of its partition.
pub sink_lem :
    (fuel : ℕ) (pre : List DisjunctIndexWithBacktrackings) (x : DisjunctIndexWithBacktrackings)
    (mid post : List DisjunctIndexWithBacktrackings)
    → length mid < fuel
    → sink fuel (length pre) (length pre + suc (length mid)) (pre ++ x ∷ (mid ++ post))
      ≡ some (pre ++ (sink_in x mid ++ post))
unfolding sink sink_in
sink_lem zero pre x mid post h = absurd (omega arith)
sink_lem (suc fuel) pre x [] post h =
    let e : ltb (suc (length pre)) (length pre + 1) ≡ false = ground arith in rw (e, sink) refl
sink_lem (suc fuel) pre x (y ∷ mid) post h = elim (Bool-cases (has_more x y)) [
  | inl t ↦
      sink-more pre x y (mid ++ post) fuel (length pre + suc (suc (length mid))) (omega arith) t
      ∙ rw (t, sink_in)
          (rw
            (
              length-append pre (y ∷ []),
              append_assoc pre (y ∷ []) (x ∷ (mid ++ post)),
              append_assoc pre (y ∷ []) (sink_in x mid ++ post),
              shift,
              shift',
            )
            at (sink_lem fuel (pre ++ y ∷ []) x mid post (omega arith)))
  | inr t ↦
      sink-stop pre x y (mid ++ post) fuel (length pre + suc (suc (length mid))) (omega arith) t
      ∙ rw (t, sink_in) refl
]
  where
    shift : length pre + 1 ≡ suc (length pre)
    shift = omega arith

    shift' : suc (length pre) + suc (length mid) ≡ length pre + suc (suc (length mid))
    shift' = omega arith

-- Sinking keeps the entries and orders them.
pub contains-sink_in :
    (x : DisjunctIndexWithBacktrackings) (mid : List DisjunctIndexWithBacktrackings) (i : ℕ)
    → contains (map index_of (sink_in x mid)) i ≡ contains (map index_of (x ∷ mid)) i
unfolding sink_in
contains-sink_in x [] i = refl
contains-sink_in x (y ∷ mid) i = ground (arith, contains-sink_in x mid i)

pub sink_in-IsDistinct :
    (x : DisjunctIndexWithBacktrackings) (mid : List DisjunctIndexWithBacktrackings)
    → IsDistinct (map index_of (x ∷ mid))
    → IsDistinct (map index_of (sink_in x mid))
unfolding sink_in
sink_in-IsDistinct x [] d = d
sink_in-IsDistinct x (y ∷ mid) (d, (e, r)) = elim (Bool-cases (has_more x y)) [
  | inl t ↦
      rw (t, sink_in)
        (
          ground (arith, contains-sink_in x mid (index_of y)),
          sink_in-IsDistinct x mid (ground arith, r),
        )
  | inr t ↦ rw (t, sink_in) (d, (e, r))
]

NoMore-trans : (x y z : DisjunctIndexWithBacktrackings) → NoMore x y → NoMore y z → NoMore x z
NoMore-trans x y z h k = omega (arith, h, k)

pub All-sink_in {ℓ} :
    (P : DisjunctIndexWithBacktrackings → Type ℓ) (x : DisjunctIndexWithBacktrackings)
    (mid : List DisjunctIndexWithBacktrackings)
    → P x
    → All P mid
    → All P (sink_in x mid)
unfolding sink_in
All-sink_in P x [] h k = (h, tt)
All-sink_in P x (y ∷ mid) h (k, ks) = elim (Bool-cases (has_more x y)) [
  | inl t ↦ rw (t, sink_in) (k, All-sink_in P x mid h ks)
  | inr t ↦ rw (t, sink_in) (h, (k, ks))
]

pub sink_in-IsSorted :
    (x : DisjunctIndexWithBacktrackings) (mid : List DisjunctIndexWithBacktrackings)
    → IsSorted mid
    → IsSorted (sink_in x mid)
unfolding sink_in
sink_in-IsSorted x [] s = (tt, tt)
sink_in-IsSorted x (y ∷ mid) (a, s) = elim (Bool-cases (has_more x y)) [
  | inl t ↦
      rw (t, sink_in)
        (All-sink_in (λ z. NoMore y z) x mid (has_more-true x y t) a, sink_in-IsSorted x mid s)
  | inr t ↦
      let low = has_more-false x y t in
      rw (t, sink_in) ((low, All-imp (λ z h. NoMore-trans x y z low h) mid a), (a, s))
]
