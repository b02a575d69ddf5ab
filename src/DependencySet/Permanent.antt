-- ===== src/DependencySet/Permanent.antt =====
-- src/tableau/dependency_set.rs: `PermanentDependencySet` and its part of `DependencySetOps`.
use hermit_rs.Base.{
  Bool, ◌||◌, Option, none, some, ◌==◌, nat_eq, list_eq, is_empty as is_empty_points,
}
use hermit_rs.Base.Int.{ℤ, negsuc, int_eq}
use hermit_rs.Collections.HashSet
use hermit_rs.DependencySet.{PermanentDependencySet}
use hermit_rs.DependencySet.Points.{first, last}

-- `unwrap_or`.
abbrev pub unwrap_or : Option ℤ → ℤ → ℤ
unwrap_or none d = d
unwrap_or (some x) d = x

abbrev pub minus_one : ℤ
minus_one = negsuc 0

abbrev pub ptr_eq : PermanentDependencySet → PermanentDependencySet → Bool
ptr_eq s t = s.address == t.address

-- `PartialEq::eq`.
abbrev pub same_set : PermanentDependencySet → PermanentDependencySet → Bool
same_set s t = ptr_eq s t || s.points == t.points

abbrev pub contains_branching_point : PermanentDependencySet → ℤ → Bool
contains_branching_point s branching_point =
    branching_point == minus_one || HashSet.contains s.points branching_point

abbrev pub is_empty : PermanentDependencySet → Bool
is_empty s = is_empty_points s.points

abbrev pub get_maximum_branching_point : PermanentDependencySet → ℤ
get_maximum_branching_point s = unwrap_or (first s.points) minus_one

abbrev pub get_minimum_branching_point : PermanentDependencySet → ℤ
get_minimum_branching_point s = unwrap_or (last s.points) minus_one
