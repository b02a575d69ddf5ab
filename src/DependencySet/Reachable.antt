-- ===== src/DependencySet/Reachable.antt =====
-- The states that a factory can reach.
use hermit_rs.Base.{
  nat_eq, list_eq, ◌-◌, subst, suc, ◌≡◌, Bool, true, false, List, [], ◌∷◌, ◌++◌, Option, none, some,
  ◌==◌, if◌then◌else◌, arith,
}
use hermit_rs.Base.Int.{ℤ, int_eq}
use hermit_rs.DependencySet.{PermanentDependencySet, DependencySet, permanent, union}
use hermit_rs.DependencySet.Permanent
use hermit_rs.DependencySet.Permanent.{minus_one, same_set}
use hermit_rs.DependencySet.Union.{collect_branching_points}
use hermit_rs.DependencySet.Factory.{
  DependencySetFactory, intern, get_permanent, add_branching_point, remove_branching_point, without,
  union_with, gather, permanent_union_of,
}
use hermit_rs.DependencySet.Valid.{IsValid}
use hermit_rs.DependencySet.Operations.{intern-Yields}
use hermit_rs.DependencySet.Factory.{
  new, clear, add_usage, remove_usage, remove_unused_sets, permanent_union_of_scratch,
  intern_scratch, count_present,
}
use hermit_rs.DependencySet.Valid.{fresh-IsValid, change_usage-IsValid, remove_unused_sets-IsValid}

-- The states reached from the new factory by the public operations, in any order and on any arguments.
pub data IsReachable : DependencySetFactory → Type 0 where
  starts : IsReachable new
  clears : {f : DependencySetFactory} → IsReachable f → IsReachable (clear f)
  unites :
      {f : DependencySetFactory} (cs : List (Option PermanentDependencySet))
      → IsReachable f
      → IsReachable (permanent_union_of f cs).0
  unites_scratch :
      {f f' : DependencySetFactory} (cs : List (Option PermanentDependencySet)) (scratch : List ℤ)
      {s : PermanentDependencySet} {rest : List ℤ}
      → IsReachable f
      → permanent_union_of_scratch f cs scratch ≡ some ((f', s), rest)
      → IsReachable f'
  makes_permanent :
      {f : DependencySetFactory} (d : DependencySet)
      → IsReachable f
      → IsReachable (get_permanent f d).0
  adds :
      {f : DependencySetFactory} (d : DependencySet) (b : ℤ)
      → IsReachable f
      → IsReachable (add_branching_point f d b).0
  removes :
      {f : DependencySetFactory} (d : DependencySet) (b : ℤ)
      → IsReachable f
      → IsReachable (remove_branching_point f d b).0
  joins :
      {f : DependencySetFactory} (d d' : DependencySet)
      → IsReachable f
      → IsReachable (union_with f d d').0
  uses :
      {f : DependencySetFactory} (s : PermanentDependencySet)
      → IsReachable f
      → IsReachable (add_usage f s)
  releases :
      {f : DependencySetFactory} (s : PermanentDependencySet)
      → IsReachable f
      → IsReachable (remove_usage f s)
  collects : {f : DependencySetFactory} → IsReachable f → IsReachable (remove_unused_sets f)

intern-IsValid : (f : DependencySetFactory) (xs : List ℤ) → IsValid f → IsValid (intern f xs).0
intern-IsValid f xs v = (intern-Yields f xs v).valid

get_permanent-IsValid :
    (f : DependencySetFactory) (d : DependencySet) → IsValid f → IsValid (get_permanent f d).0
unfolding get_permanent
get_permanent-IsValid f (permanent s) v = v
get_permanent-IsValid f (union u) v = intern-IsValid f (collect_branching_points (union u) []) v

-- Either branch of a test keeps the invariant.
either-IsValid :
    (c : Bool) (r s : DependencySetFactory × PermanentDependencySet)
    → IsValid r.0
    → IsValid s.0
    → IsValid (if c then r else s).0
either-IsValid true r s v w = v
either-IsValid false r s v w = w

-- The end of `permanent_union_of_scratch`, on both branches.
scratch_result-IsValid :
    (c : Bool) (only : Option PermanentDependencySet) (f f' : DependencySetFactory)
    (s : PermanentDependencySet) (rest : List ℤ)
    (r : (DependencySetFactory × PermanentDependencySet) × List ℤ)
    → IsValid f
    → IsValid r.0.0
    → (if c then elim only [ none ↦ none | some t ↦ some ((f, t), []) ] else some r)
      ≡ some ((f', s), rest)
    → IsValid f'
scratch_result-IsValid true none f f' s rest r v w h = absurd (ground arith)
scratch_result-IsValid true (some t) f f' s rest r v w h =
    let same : f ≡ f' = cc in subst IsValid same v
scratch_result-IsValid false only f f' s rest r v w h =
    let same : r.0.0 ≡ f' = cc in subst IsValid same w

permanent_union_of_scratch-IsValid :
    (f f' : DependencySetFactory) (cs : List (Option PermanentDependencySet))
    (s : PermanentDependencySet) (scratch rest : List ℤ)
    → IsValid f
    → permanent_union_of_scratch f cs scratch ≡ some ((f', s), rest)
    → IsValid f'
unfolding permanent_union_of_scratch intern_scratch intern
permanent_union_of_scratch-IsValid f f' cs s scratch rest v h =
    scratch_result-IsValid ((count_present none 0 cs).1 == 1) (count_present none 0 cs).0 f f' s
      rest (intern_scratch f (gather [] cs)) v (intern-IsValid f (gather [] cs) v) h

-- Every factory that is reached from the new one by the public operations, in any order and on
-- any arguments, is well formed: no key is held twice, keys are strictly descending, each is the
-- points of its set, different keys have different allocations, and the empty set is held.
pub IsReachable-IsValid : {f : DependencySetFactory} → IsReachable f → IsValid f
unfolding permanent_union_of add_branching_point remove_branching_point union_with add_usage
    remove_usage clear
IsReachable-IsValid starts = fresh-IsValid 0
IsReachable-IsValid (clears {f} r) = fresh-IsValid f.next
IsReachable-IsValid (unites {f} cs r) = intern-IsValid f (gather [] cs) (IsReachable-IsValid r)
IsReachable-IsValid (unites_scratch {f} {f'} cs scratch {s} {rest} r h) =
    permanent_union_of_scratch-IsValid f f' cs s scratch rest (IsReachable-IsValid r) h
IsReachable-IsValid (makes_permanent {f} d r) = get_permanent-IsValid f d (IsReachable-IsValid r)
IsReachable-IsValid (adds {f} d b r) =
    let (f', s) = get_permanent f d in
    let v = get_permanent-IsValid f d (IsReachable-IsValid r) in
    either-IsValid (Permanent.contains_branching_point s b) (f', s) (intern f' (s.points ++ b ∷ []))
      v (intern-IsValid f' (s.points ++ b ∷ []) v)
IsReachable-IsValid (removes {f} d b r) =
    let (f', s) = get_permanent f d in
    let v = get_permanent-IsValid f d (IsReachable-IsValid r) in
    either-IsValid (Permanent.contains_branching_point s b) (intern f' (without s.points b)) (f', s)
      (intern-IsValid f' (without s.points b) v) v
IsReachable-IsValid (joins {f} d d' r) =
    let (f1, s1) = get_permanent f d in
    let (f2, s2) = get_permanent f1 d' in
    let v = get_permanent-IsValid f1 d' (get_permanent-IsValid f d (IsReachable-IsValid r)) in
    either-IsValid (same_set s1 s2) (f2, s1) (intern f2 (s1.points ++ s2.points)) v
      (intern-IsValid f2 (s1.points ++ s2.points) v)
IsReachable-IsValid (uses {f} s r) = change_usage-IsValid f s suc (IsReachable-IsValid r)
IsReachable-IsValid (releases {f} s r) =
    change_usage-IsValid f s (λ n. n - 1) (IsReachable-IsValid r)
IsReachable-IsValid (collects {f} r) = remove_unused_sets-IsValid f (IsReachable-IsValid r)
