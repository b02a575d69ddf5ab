-- ===== src/Tests/DependencySets.antt =====
-- Dependency sets: src/tableau/dependency_set.rs.
use hermit_rs.Base.{
  ◌⊎◌, ◌↔◌, ◌≤◌, ◌<◌, ◌+◌, ◌*◌, ◌^◌, ℕ, suc, ◌≡◌, refl, true, false, not, ◌&&◌, ◌||◌, List, [], ◌∷◌,
  none, some, ◌==◌, arith, nat_eq, length,
}
use hermit_rs.Base.Int.{ℤ, pos, int_eq, beq_ℤ_iff}
use hermit_rs.DependencySet.{
  PermanentDependencySet, DependencySet, permanent, union, end, constituents,
}
use hermit_rs.DependencySet.Permanent
use hermit_rs.DependencySet.Permanent.{minus_one, same_set}
use hermit_rs.DependencySet.Union.{contains_branching_point, get_maximum_branching_point}
use hermit_rs.DependencySet.Factory.{
  DependencySetFactory, new, intern, get_permanent, add_branching_point, remove_branching_point,
  union_with, permanent_union_of, permanent_union_of_scratch, add_usage, remove_unused_sets,
  size_in_memory,
}
use hermit_rs.DependencySet.Valid.{IsValid, IsInterned}
use hermit_rs.DependencySet.Operations.{
  AllInterned, Yields, get_permanent-Yields, add_branching_point-Yields,
  remove_branching_point-Yields,
}
use hermit_rs.DependencySet.Sharing.{
  union_with-Yields, permanent_union_of-Yields, permanent_union_of_scratch-eq, present_contains,
}
use hermit_rs.DependencySet.Maximum.{get_maximum-get_permanent}
use hermit_rs.DependencySet.Usage.{remove_unused_sets-add_usage, intern-remove_unused_sets}
use hermit_rs.DependencySet.Reachable.{starts, adds, IsReachable-IsValid}
use hermit_rs.DependencySet.Interning.{ptr_eq-permanent_union_of, has_point}
use hermit_rs.DependencySet.Tracking.{Event, run_events}
use hermit_rs.DependencySet.Capacity.{size_in_memory_lem}

abbrev nothing_known : DependencySet
nothing_known = permanent new.empty_set

-- The factory that holds { } and { 5 }.
abbrev made : DependencySetFactory × PermanentDependencySet
made = add_branching_point new nothing_known (pos 5)

abbrev factory : DependencySetFactory
factory = made.0

abbrev five : PermanentDependencySet
five = made.1

-- The union of { 5 } and { }.
abbrev both : DependencySet
both = union (constituents (permanent five) (constituents nothing_known end))

empty_held : AllInterned new nothing_known
unfolding AllInterned
empty_held = (record { set = new.empty_set; usage = 1 }, (refl, refl))

new-IsValid : IsValid new
new-IsValid = IsReachable-IsValid starts

made_lem : Yields new (λ x. contains_branching_point nothing_known x || pos 5 == x) made
made_lem =
    add_branching_point-Yields new nothing_known (pos 5) new-IsValid empty_held (λ e. ground arith)

five_held : IsInterned factory five
five_held = made_lem.interned

both_held : AllInterned factory both
unfolding AllInterned
both_held = (five_held, (made_lem.kept new.empty_set empty_held, tt))

IsReachable-IsValid_example : IsValid factory
IsReachable-IsValid_example = IsReachable-IsValid (adds nothing_known (pos 5) starts)

get_permanent-Yields_example :
    Yields factory (contains_branching_point both) (get_permanent factory both)
get_permanent-Yields_example = get_permanent-Yields factory both made_lem.valid both_held

add_branching_point-Yields_example :
    Yields factory
      (λ x. contains_branching_point both x || pos 7 == x)
      (add_branching_point factory both (pos 7))
add_branching_point-Yields_example =
    add_branching_point-Yields factory both (pos 7) made_lem.valid both_held (λ e. ground arith)

remove_branching_point-Yields_example :
    Yields factory
      (λ x. contains_branching_point both x && not (pos 5 == x))
      (remove_branching_point factory both (pos 5))
remove_branching_point-Yields_example =
    remove_branching_point-Yields factory both (pos 5) made_lem.valid both_held

union_with-Yields_example :
    Yields factory
      (λ x. contains_branching_point both x || contains_branching_point nothing_known x)
      (union_with factory both nothing_known)
unfolding AllInterned
union_with-Yields_example =
    union_with-Yields factory both nothing_known made_lem.valid both_held both_held.1.0

-- { 5 } and { 5 } ∪ { }: between the unions a use of { 5 } is added and the unused sets are removed.
abbrev between : List Event
between = Event.use_set five ∷ Event.unite (none ∷ []) ∷ Event.collect ∷ []

ptr_eq-permanent_union_of_example :
    let first = permanent_union_of new (some five ∷ none ∷ []) in
    let g = run_events first.0 between in
    let second = permanent_union_of g (some new.empty_set ∷ some five ∷ []) in
    (Permanent.ptr_eq first.1 second.1 ≡ true) ↔ (
      ((b : ℤ)
        → has_point (some five ∷ none ∷ []) b ≡ has_point (some new.empty_set ∷ some five ∷ []) b)
      × IsInterned g first.1)
ptr_eq-permanent_union_of_example =
    ptr_eq-permanent_union_of new (some five ∷ none ∷ []) (some new.empty_set ∷ some five ∷ [])
      between starts

permanent_union_of-Yields_example :
    Yields factory
      (present_contains (some five ∷ none ∷ []))
      (permanent_union_of factory (some five ∷ none ∷ []))
permanent_union_of-Yields_example =
    permanent_union_of-Yields factory (some five ∷ none ∷ []) made_lem.valid

permanent_union_of_scratch-eq_example :
    (rest : List ℤ) × (permanent_union_of_scratch factory (none ∷ some five ∷ []) (pos 1 ∷ [])
      ≡ some (permanent_union_of factory (none ∷ some five ∷ []), rest))
permanent_union_of_scratch-eq_example =
    permanent_union_of_scratch-eq factory (none ∷ some five ∷ []) (pos 1 ∷ []) made_lem.valid
      (five_held, tt)

get_maximum-get_permanent_example :
    Permanent.get_maximum_branching_point (get_permanent factory both).1
    ≡ get_maximum_branching_point both
unfolding contains_branching_point add_branching_point hermit_rs.DependencySet.Points.canonical_form
get_maximum-get_permanent_example =
    get_maximum-get_permanent factory both made_lem.valid both_held
      (λ b h. ground (arith, beq_ℤ_iff (pos 5) b, beq_ℤ_iff b minus_one))

remove_unused_sets-add_usage_example : IsInterned (remove_unused_sets (add_usage factory five)) five
remove_unused_sets-add_usage_example =
    remove_unused_sets-add_usage factory five made_lem.valid five_held

size_in_memory_lem_example :
    (m_size : ℕ) × (k : ℕ) × ((length factory.canonical ≡ suc m_size)
      × (size_in_memory factory ≡ some (16 * 2 ^ k * 4 + m_size * 20))
      × (m_size * 4 < 16 * 2 ^ k * 3)
      × ((k ≡ 0) ⊎ (16 * 2 ^ k * 3 ≤ m_size * 8)))
size_in_memory_lem_example = size_in_memory_lem factory made_lem.valid

intern-remove_unused_sets_example :
    (same_set five (intern (remove_unused_sets factory) five.points).1 ≡ true)
    × (Permanent.ptr_eq five (intern (remove_unused_sets factory) five.points).1 ≡ false)
unfolding add_branching_point hermit_rs.DependencySet.Points.canonical_form
    hermit_rs.Collections.HashMap.insert
intern-remove_unused_sets_example =
    intern-remove_unused_sets factory five (record { set = five; usage = 0 }) made_lem.valid refl
      refl refl refl
