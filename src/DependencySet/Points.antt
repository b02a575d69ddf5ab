-- ===== src/DependencySet/Points.antt =====
-- Vectors of branching points: the sorting and the `dedup` of `intern`, and `first`, `last` and `max`.
use hermit_rs.Base.{
  Ordering, List, [], ◌∷◌, Option, none, some, ◌==◌, if◌then◌else◌, nat_eq, list_eq,
}
use hermit_rs.Base.Int.{ℤ, int_eq, compare_ℤ}

abbrev pub max_ℤ : ℤ → ℤ → ℤ
max_ℤ a b = elim (compare_ℤ a b) [ Ordering.gt ↦ a | _ ↦ b ]

unfoldable pub first : List ℤ → Option ℤ
first [] = none
first (x ∷ xs) = some x

unfoldable pub last : List ℤ → Option ℤ
last [] = none
last (x ∷ xs) = elim (last xs) [ none ↦ some x | some y ↦ some y ]

unfoldable pub insert_descending : ℤ → List ℤ → List ℤ
insert_descending x [] = x ∷ []
insert_descending x (y ∷ ys) = elim (compare_ℤ y x) [
  | Ordering.lt ↦ x ∷ y ∷ ys
  | _ ↦ y ∷ insert_descending x ys
]

-- `sort_unstable_by(|a, b| b.cmp(a))`.
unfoldable pub sort_descending : List ℤ → List ℤ
unfolding insert_descending
sort_descending [] = []
sort_descending (x ∷ xs) = insert_descending x (sort_descending xs)

-- `dedup` behind an element.
unfoldable pub dedup_from : ℤ → List ℤ → List ℤ
dedup_from x [] = x ∷ []
dedup_from x (y ∷ ys) = if x == y then dedup_from x ys else x ∷ dedup_from y ys

unfoldable pub dedup : List ℤ → List ℤ
unfolding dedup_from
dedup [] = []
dedup (x ∷ xs) = dedup_from x xs

-- The canonical form that `intern` makes.
unfoldable pub canonical_form : List ℤ → List ℤ
unfolding sort_descending dedup
canonical_form xs = dedup (sort_descending xs)
