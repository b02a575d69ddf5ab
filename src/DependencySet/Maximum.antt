-- ===== src/DependencySet/Maximum.antt =====
-- The largest branching point.
use hermit_rs.Base.{
  list_eq, ◌⊎◌, subst, ◌≡◌, refl, Bool, true, ◌||◌, List, [], ◌∷◌, Option, none, some, ◌==◌, arith,
  inl, inr, sym,
}
use hermit_rs.Base.Int.{ℤ, int_eq, beq_ℤ_iff}
use hermit_rs.Collections.HashSet.{contains}
use hermit_rs.DependencySet.{
  PermanentDependencySet, DependencySet, permanent, union, UnionDependencySet, end, constituents,
}
use hermit_rs.DependencySet.Permanent
use hermit_rs.DependencySet.Permanent.{minus_one, same_set}
use hermit_rs.DependencySet.Union.{contains_branching_point, union_contains_branching_point}
use hermit_rs.DependencySet.Factory.{DependencySetFactory, get_permanent}
use hermit_rs.DependencySet.Valid.{IsValid}
use hermit_rs.DependencySet.Operations.{AllInterned, ConstituentsInterned, get_permanent-Yields}
use hermit_rs.DependencySet.Canonical.{IsDescending, compare-cases}
use hermit_rs.DependencySet.Points.{first, max_ℤ}
use hermit_rs.DependencySet.Union.{get_maximum_branching_point, union_maximum}
use hermit_rs.Base.Int.{◌<ℤ◌}

-- The branching points are not below -1.
abbrev pub IsNonnegative : DependencySet → Type 0
IsNonnegative d = (b : ℤ) → contains_branching_point d b ≡ true → ¬ (b <ℤ minus_one)

-- A bound that the set attains, or that is -1.
record IsMaximum (member : ℤ → Bool) (m : ℤ) : Type 0 where
  pub upper : (b : ℤ) → member b ≡ true → ¬ (m <ℤ b)
  pub lower : ¬ (m <ℤ minus_one)
  pub attained : ¬ (m ≡ minus_one) → member m ≡ true

points-IsMaximum :
    (xs : List ℤ)
    → IsDescending xs
    → ((b : ℤ) → (b == minus_one || contains xs b) ≡ true → ¬ (b <ℤ minus_one))
    → IsMaximum (λ b. b == minus_one || contains xs b) (Permanent.unwrap_or (first xs) minus_one)
unfolding first
points-IsMaximum [] d n = record {
  upper = λ b h. ground (arith, beq_ℤ_iff b minus_one);
  lower = ground arith;
  attained = λ h. absurd (h refl);
}
points-IsMaximum (x ∷ xs) d n = record {
  upper = λ b h.
      ground
        (arith, d.0 b, n x, beq_ℤ_iff x x, beq_ℤ_iff x b, beq_ℤ_iff b minus_one, compare-cases x b);
  lower = n x (ground (arith, beq_ℤ_iff x x));
  attained = λ h. ground (arith, beq_ℤ_iff x x);
}

permanent-IsMaximum :
    (s : PermanentDependencySet)
    → IsDescending s.points
    → ((b : ℤ) → Permanent.contains_branching_point s b ≡ true → ¬ (b <ℤ minus_one))
    → IsMaximum (Permanent.contains_branching_point s) (Permanent.get_maximum_branching_point s)
permanent-IsMaximum s d n = points-IsMaximum s.points d n

max_ℤ-cases : (a b : ℤ) → ((max_ℤ a b ≡ a) × ¬ (a <ℤ b)) ⊎ ((max_ℤ a b ≡ b) × ¬ (b <ℤ a))
max_ℤ-cases a b = ground arith

-- The maximum of a first constituent and of the rest.
combine :
    {p q : ℤ → Bool} {a : ℤ} (m : Option ℤ)
    → IsMaximum p a
    → IsMaximum q (Permanent.unwrap_or m minus_one)
    → IsMaximum
        (λ b. q b || p b)
        (Permanent.unwrap_or (elim m [ none ↦ some a | some n ↦ some (max_ℤ a n) ]) minus_one)
combine {p} {q} {a} none x y = record {
  upper = λ b h. ground (arith, x.upper b, y.upper b, x.lower);
  lower = x.lower;
  attained = λ h. ground (arith, x.attained h);
}
combine {p} {q} {a} (some n) x y = elim (max_ℤ-cases a n) [
  | inl (same, le) ↦ subst (IsMaximum (λ b. q b || p b)) (sym same) (record {
    upper = λ b h. ground (arith, x.upper b, y.upper b);
    lower = x.lower;
    attained = λ h. ground (arith, x.attained h);
  })
  | inr (same, le) ↦ subst (IsMaximum (λ b. q b || p b)) (sym same) (record {
    upper = λ b h. ground (arith, x.upper b, y.upper b);
    lower = y.lower;
    attained = λ h. ground (arith, y.attained h);
  })
]

mutual
  unfolding contains_branching_point get_maximum_branching_point AllInterned

  dependency_set-IsMaximum :
      (f : DependencySetFactory) (d : DependencySet)
      → IsValid f
      → AllInterned f d
      → IsNonnegative d
      → IsMaximum (contains_branching_point d) (get_maximum_branching_point d)
  dependency_set-IsMaximum f (permanent s) v (e, (held, same)) n =
      permanent-IsMaximum s (v.descending s.points e held) n
  dependency_set-IsMaximum f (union u) v h n = union-IsMaximum f u v h n

  union-IsMaximum :
      (f : DependencySetFactory) (u : UnionDependencySet)
      → IsValid f
      → ConstituentsInterned f u
      → ((b : ℤ) → union_contains_branching_point u b ≡ true → ¬ (b <ℤ minus_one))
      → IsMaximum
          (union_contains_branching_point u)
          (Permanent.unwrap_or (union_maximum u) minus_one)
  union-IsMaximum f end v h n = record {
    upper = λ b c. absurd (ground arith);
    lower = ground arith;
    attained = λ c. absurd (c refl);
  }
  union-IsMaximum f (constituents s u) v h n =
      combine (union_maximum u) (dependency_set-IsMaximum f s v h.0 (λ b c. n b (ground arith)))
        (union-IsMaximum f u v h.1 (λ b c. n b (ground arith)))

-- For a well-formed factory that holds the permanent sets of a dependency set without points
-- below -1, the permanent set has the same largest branching point as the dependency set.
pub get_maximum-get_permanent :
    (f : DependencySetFactory) (d : DependencySet)
    → IsValid f
    → AllInterned f d
    → IsNonnegative d
    → Permanent.get_maximum_branching_point (get_permanent f d).1 ≡ get_maximum_branching_point d
get_maximum-get_permanent f d v h n =
    let y = get_permanent-Yields f d v h in
    let (e, (held, same)) = y.interned in
    let r = (get_permanent f d).1 in
    let a =
      permanent-IsMaximum r (y.valid.descending r.points e held)
        (λ b c. ground (arith, n b, y.members b)) in
    let b = dependency_set-IsMaximum f d v h n in
    let top = Permanent.get_maximum_branching_point r in
    let goal = get_maximum_branching_point d in
    ground (
      arith,
      compare-cases top goal,
      a.lower,
      b.lower,
      a.upper goal,
      b.upper top,
      a.attained,
      b.attained,
      y.members top,
      y.members goal,
    )
