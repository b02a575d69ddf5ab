-- ===== src/DependencySet/Union.antt =====
-- src/tableau/dependency_set.rs: `UnionDependencySet` and the enum `DependencySet`. `none` is an index
-- out of range.
use hermit_rs.Base.{
  ℕ, zero, suc, Bool, true, false, ◌&&◌, ◌||◌, List, ◌++◌, Option, none, some, nat_eq, list_eq,
}
use hermit_rs.Base.Int.{ℤ, int_eq}
use hermit_rs.DependencySet.{DependencySet, permanent, union, UnionDependencySet, end, constituents}
use hermit_rs.DependencySet.Points.{max_ℤ}
use hermit_rs.DependencySet.Permanent
use hermit_rs.DependencySet.Permanent.{unwrap_or, minus_one}

-- `UnionDependencySet::new`; the number is a capacity hint.
abbrev pub new : ℕ → UnionDependencySet
new number_of_constituents = end

unfoldable pub number_of_constituents : UnionDependencySet → ℕ
number_of_constituents end = 0
number_of_constituents (constituents s u) = suc (number_of_constituents u)

unfoldable pub constituent : UnionDependencySet → ℕ → Option DependencySet
constituent end index = none
constituent (constituents s u) zero = some s
constituent (constituents s u) (suc index) = constituent u index

unfoldable pub set_constituent : UnionDependencySet → ℕ → DependencySet → Option UnionDependencySet
set_constituent end index d = none
set_constituent (constituents s u) zero d = some (constituents d u)
set_constituent (constituents s u) (suc index) d = elim (set_constituent u index d) [
  | none ↦ none
  | some u' ↦ some (constituents s u')
]

abbrev pub clear_constituents : UnionDependencySet → UnionDependencySet
clear_constituents u = end

unfoldable pub add_constituent : UnionDependencySet → DependencySet → UnionDependencySet
add_constituent end d = constituents d end
add_constituent (constituents s u) d = constituents s (add_constituent u d)

-- The enum passes each operation on; a union asks its constituents, the last one first.
unfoldable mutual
  pub contains_branching_point : DependencySet → ℤ → Bool
  contains_branching_point (permanent s) b = Permanent.contains_branching_point s b
  contains_branching_point (union u) b = union_contains_branching_point u b

  pub union_contains_branching_point : UnionDependencySet → ℤ → Bool
  union_contains_branching_point end b = false
  union_contains_branching_point (constituents s u) b =
      union_contains_branching_point u b || contains_branching_point s b

unfoldable mutual
  pub is_empty : DependencySet → Bool
  is_empty (permanent s) = Permanent.is_empty s
  is_empty (union u) = union_is_empty u

  pub union_is_empty : UnionDependencySet → Bool
  union_is_empty end = true
  union_is_empty (constituents s u) = is_empty s && union_is_empty u

-- `Iterator::max` of the maxima, `none` for no constituent.
unfoldable mutual
  pub get_maximum_branching_point : DependencySet → ℤ
  get_maximum_branching_point (permanent s) = Permanent.get_maximum_branching_point s
  get_maximum_branching_point (union u) = unwrap_or (union_maximum u) minus_one

  pub union_maximum : UnionDependencySet → Option ℤ
  union_maximum end = none
  union_maximum (constituents s u) = elim (union_maximum u) [
    | none ↦ some (get_maximum_branching_point s)
    | some m ↦ some (max_ℤ (get_maximum_branching_point s) m)
  ]

-- `collect_branching_points`, with the points to append to.
unfoldable mutual
  pub collect_branching_points : DependencySet → List ℤ → List ℤ
  collect_branching_points (permanent s) out = out ++ s.points
  collect_branching_points (union u) out = collect_constituents u out

  pub collect_constituents : UnionDependencySet → List ℤ → List ℤ
  collect_constituents end out = out
  collect_constituents (constituents s u) out =
      collect_constituents u (collect_branching_points s out)
