-- ===== src/DependencySet/Factory.antt =====
-- src/tableau/dependency_set.rs: `DependencySetFactory`. The state holds, besides the fields of the
-- source, the address of the next allocation.
use hermit_rs.Base.{
  ◌*◌, ◌-◌, ℕ, zero, suc, ◌+◌, Bool, true, false, ◌||◌, List, [], ◌∷◌, ◌++◌, Option, none, some,
  ◌==◌, if◌then◌else◌, nat_eq, list_eq, length, is_empty, leb, ltb,
}
use hermit_rs.Base.Int.{ℤ, int_eq}
use hermit_rs.Collections.HashMap
use hermit_rs.Collections.HashMap.{HashMap}
use hermit_rs.DependencySet.{PermanentDependencySet, DependencySet, permanent, union}
use hermit_rs.DependencySet.Points.{canonical_form}
use hermit_rs.DependencySet.Permanent.{contains_branching_point, same_set}
use hermit_rs.DependencySet.Union.{collect_branching_points}

pub record CanonicalEntry : Type 0 where
  pub set : PermanentDependencySet
  pub usage : ℕ

pub record DependencySetFactory : Type 0 where
  pub canonical : HashMap (List ℤ) CanonicalEntry
  pub empty_set : PermanentDependencySet
  pub next : ℕ

-- The factory whose empty set has a given address.
abbrev pub fresh : ℕ → DependencySetFactory
fresh address =
    let set : PermanentDependencySet = record { address = address; points = [] } in
    record {
      canonical = ([], record { set = set; usage = 1 }) ∷ [];
      empty_set = set;
      next = suc address;
    }

abbrev pub new : DependencySetFactory
new = fresh 0

unfoldable pub clear : DependencySetFactory → DependencySetFactory
clear f = fresh f.next

-- Java's table capacity: doubling from 16 while the load is at least 0.75. The product with 0.75 is
-- exact in `f64` for every number of sets that fits in memory.
unfoldable pub grow_capacity : ℕ → ℕ → ℕ → Option ℕ
grow_capacity zero m_size capacity = none
grow_capacity (suc fuel) m_size capacity = elim (leb (capacity * 3) (m_size * 4)) [
  | true ↦ grow_capacity fuel m_size (capacity * 2)
  | false ↦ some capacity
]

unfoldable pub size_in_memory : DependencySetFactory → Option ℕ
unfolding grow_capacity
size_in_memory f = elim (length f.canonical) [
  | zero ↦ none
  | suc m_size ↦ elim (grow_capacity (suc m_size) m_size 16) [
    | none ↦ none
    | some capacity ↦ some (capacity * 4 + m_size * 20)
  ]
]

-- The set of a key in canonical form, allocated where the table has none.
unfoldable pub intern_key :
    DependencySetFactory → List ℤ → DependencySetFactory × PermanentDependencySet
intern_key f key = elim (HashMap.get f.canonical key) [
  | some entry ↦ (f, entry.set)
  | none ↦
      let set : PermanentDependencySet = record { address = f.next; points = key } in
      (
        record f {
          canonical = HashMap.insert f.canonical key (record { set = set; usage = 0 });
          next = suc f.next;
        },
        set,
      )
]

unfoldable pub intern :
    DependencySetFactory → List ℤ → DependencySetFactory × PermanentDependencySet
unfolding intern_key
intern f branching_points = intern_key f (canonical_form branching_points)

-- `intern_scratch` also leaves the canonical form in the buffer.
unfoldable pub intern_scratch :
    DependencySetFactory → List ℤ → (DependencySetFactory × PermanentDependencySet) × List ℤ
unfolding intern_key
intern_scratch f scratch = let key = canonical_form scratch in (intern_key f key, key)

-- The points of the constituents that are present, appended to a vector.
unfoldable pub gather : List ℤ → List (Option PermanentDependencySet) → List ℤ
gather out [] = out
gather out (none ∷ cs) = gather out cs
gather out (some s ∷ cs) = gather (out ++ s.points) cs

unfoldable pub permanent_union_of :
    DependencySetFactory
    → List (Option PermanentDependencySet)
    → DependencySetFactory × PermanentDependencySet
unfolding gather intern
permanent_union_of f constituents = intern f (gather [] constituents)

-- The first loop of `permanent_union_of_scratch`: `only` and `count`, with the break at the second
-- constituent.
unfoldable pub count_present :
    Option PermanentDependencySet
    → ℕ
    → List (Option PermanentDependencySet)
    → Option PermanentDependencySet × ℕ
count_present only count [] = (only, count)
count_present only count (none ∷ cs) = count_present only count cs
count_present only zero (some s ∷ cs) = count_present (some s) 1 cs
count_present only (suc count) (some s ∷ cs) = (none, suc (suc count))

-- `none` is the `unwrap` of a missing constituent.
unfoldable pub permanent_union_of_scratch :
    DependencySetFactory
    → List (Option PermanentDependencySet)
    → List ℤ
    → Option ((DependencySetFactory × PermanentDependencySet) × List ℤ)
unfolding gather count_present intern_scratch
permanent_union_of_scratch f constituents scratch =
    let (only, count) = count_present none 0 constituents in
    if count == 1
    then elim only [ none ↦ none | some s ↦ some ((f, s), []) ]
    else some (intern_scratch f (gather [] constituents))

unfoldable pub get_permanent :
    DependencySetFactory → DependencySet → DependencySetFactory × PermanentDependencySet
unfolding intern
get_permanent f (permanent s) = (f, s)
get_permanent f (union u) = intern f (collect_branching_points (union u) [])

unfoldable pub add_branching_point :
    DependencySetFactory → DependencySet → ℤ → DependencySetFactory × PermanentDependencySet
unfolding get_permanent intern
add_branching_point f d b =
    let (f', s) = get_permanent f d in
    if contains_branching_point s b then (f', s) else intern f' (s.points ++ b ∷ [])

-- `filter` with the test that drops a branching point.
unfoldable pub without : List ℤ → ℤ → List ℤ
without [] b = []
without (x ∷ xs) b = if x == b then without xs b else x ∷ without xs b

unfoldable pub remove_branching_point :
    DependencySetFactory → DependencySet → ℤ → DependencySetFactory × PermanentDependencySet
unfolding get_permanent intern without
remove_branching_point f d b =
    let (f', s) = get_permanent f d in
    if contains_branching_point s b then intern f' (without s.points b) else (f', s)

unfoldable pub union_with :
    DependencySetFactory
    → DependencySet
    → DependencySet
    → DependencySetFactory × PermanentDependencySet
unfolding get_permanent intern
union_with f set1 set2 =
    let (f1, permanent1) = get_permanent f set1 in
    let (f2, permanent2) = get_permanent f1 set2 in
    if same_set permanent1 permanent2
    then (f2, permanent1)
    else intern f2 (permanent1.points ++ permanent2.points)

-- `get_mut` with a change of the usage.
unfoldable pub change_usage :
    DependencySetFactory → PermanentDependencySet → (ℕ → ℕ) → DependencySetFactory
change_usage f s change = elim (HashMap.get f.canonical s.points) [
  | none ↦ f
  | some entry ↦ record f {
    canonical = HashMap.insert f.canonical s.points (record entry { usage = change entry.usage });
  }
]

unfoldable pub add_usage : DependencySetFactory → PermanentDependencySet → DependencySetFactory
unfolding change_usage
add_usage f s = change_usage f s suc

unfoldable pub remove_usage : DependencySetFactory → PermanentDependencySet → DependencySetFactory
unfolding change_usage
remove_usage f s = change_usage f s (λ n. n - 1)

-- The test of `retain`.
abbrev pub in_use : List ℤ → CanonicalEntry → Bool
in_use key entry = is_empty key || ltb 0 entry.usage

unfoldable pub remove_unused_sets : DependencySetFactory → DependencySetFactory
remove_unused_sets f = record f { canonical = HashMap.retain in_use f.canonical }
