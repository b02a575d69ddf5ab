-- ===== src/DependencySet/Operations.antt =====
-- The permanent sets that the operations of the factory give.
use hermit_rs.Base.{
  ◌≡◌, refl, Bool, not, ◌&&◌, ◌||◌, List, [], ◌∷◌, ◌++◌, ◌==◌, arith, Bool-cases, inl, inr, ◌∙◌,
}
use hermit_rs.Base.Int.{ℤ, int_eq, beq_ℤ_iff}
use hermit_rs.Collections.HashSet.{contains, contains-append}
use hermit_rs.DependencySet.{
  PermanentDependencySet, DependencySet, permanent, union, UnionDependencySet, end, constituents,
}
use hermit_rs.DependencySet.Canonical.{canonical_form-IsDescending, contains-canonical_form}
use hermit_rs.DependencySet.Points.{canonical_form}
use hermit_rs.DependencySet.Permanent
use hermit_rs.DependencySet.Permanent.{minus_one, same_set}
use hermit_rs.DependencySet.Union.{
  contains_branching_point, union_contains_branching_point, collect_branching_points,
  collect_constituents,
}
use hermit_rs.DependencySet.Factory.{
  DependencySetFactory, intern_key, intern, get_permanent, add_branching_point,
  remove_branching_point, without,
}
use hermit_rs.DependencySet.Valid.{IsValid, IsInterned, intern_key_lem}

-- The table of the factory holds every permanent set of a dependency set.
unfoldable mutual
  pub AllInterned : DependencySetFactory → DependencySet → Type 0
  AllInterned f (permanent s) = IsInterned f s
  AllInterned f (union u) = ConstituentsInterned f u

  pub ConstituentsInterned : DependencySetFactory → UnionDependencySet → Type 0
  ConstituentsInterned f end = Unit
  ConstituentsInterned f (constituents s u) = AllInterned f s × ConstituentsInterned f u

-- Every set that one factory holds, the other holds too.
abbrev pub Extends : DependencySetFactory → DependencySetFactory → Type 0
Extends f g = (s : PermanentDependencySet) → IsInterned f s → IsInterned g s

-- What an operation promises: a well-formed factory that still holds the sets it held, and an interned
-- set that contains the given branching points and, as every permanent set does, -1.
pub record Yields (f : DependencySetFactory) (member : ℤ → Bool)
    (r : DependencySetFactory × PermanentDependencySet) : Type 0 where
  pub valid : IsValid r.0
  pub interned : IsInterned r.0 r.1
  pub members : (b : ℤ) → Permanent.contains_branching_point r.1 b ≡ (b == minus_one || member b)
  pub kept : Extends f r.0

-- The members other than -1.
pub Yields-members :
    {f : DependencySetFactory} {member : ℤ → Bool}
    {r : DependencySetFactory × PermanentDependencySet}
    → Yields f member r
    → (b : ℤ) → ¬ (b ≡ minus_one)
    → Permanent.contains_branching_point r.1 b ≡ member b
Yields-members y b n = ground (arith, y.members b, beq_ℤ_iff b minus_one)

pub members_of_others :
    (s : PermanentDependencySet) (member : ℤ → Bool)
    → ((b : ℤ) → ¬ (b ≡ minus_one) → Permanent.contains_branching_point s b ≡ member b)
    → (b : ℤ) → Permanent.contains_branching_point s b ≡ (b == minus_one || member b)
members_of_others s member h b = elim (Bool-cases (b == minus_one)) [
  | inl t ↦ ground arith
  | inr c ↦ ground (arith, h b (λ e. ground (arith, beq_ℤ_iff b minus_one)))
]

pub intern-Yields :
    (f : DependencySetFactory) (xs : List ℤ) → IsValid f → Yields f (contains xs) (intern f xs)
unfolding intern
intern-Yields f xs v =
    let r = intern_key_lem f (canonical_form xs) v (canonical_form-IsDescending xs) in
    record {
      valid = r.valid;
      interned = r.interned;
      members = λ b. members b r.points;
      kept = r.kept;
    }
  where
    members :
        (b : ℤ)
        → (intern_key f (canonical_form xs)).1.points ≡ canonical_form xs
        → Permanent.contains_branching_point (intern_key f (canonical_form xs)).1 b
          ≡ (b == minus_one || contains xs b)
    members b same = ground (arith, same, contains-canonical_form xs b)

-- The points that are collected are those that the set contains.
mutual
  unfolding contains_branching_point collect_branching_points

  contains-collect_branching_points :
      (d : DependencySet) (out : List ℤ) (b : ℤ)
      → ¬ (b ≡ minus_one)
      → contains (collect_branching_points d out) b
        ≡ (contains out b || contains_branching_point d b)
  contains-collect_branching_points (permanent s) out b n =
      ground (arith, contains-append out s.points b, beq_ℤ_iff b minus_one)
  contains-collect_branching_points (union u) out b n = contains-collect_constituents u out b n

  contains-collect_constituents :
      (u : UnionDependencySet) (out : List ℤ) (b : ℤ)
      → ¬ (b ≡ minus_one)
      → contains (collect_constituents u out) b
        ≡ (contains out b || union_contains_branching_point u b)
  contains-collect_constituents end out b n = ground arith
  contains-collect_constituents (constituents s u) out b n = ground (
    arith,
    contains-collect_branching_points s out b n,
    contains-collect_constituents u (collect_branching_points s out) b n,
  )

-- Interning from a later state, where the points are as expected.
pub Yields-imp :
    {f g : DependencySetFactory} {member other : ℤ → Bool}
    {r : DependencySetFactory × PermanentDependencySet}
    → Yields g member r
    → ((s : PermanentDependencySet) → IsInterned f s → IsInterned g s)
    → ((b : ℤ) → ¬ (b ≡ minus_one) → member b ≡ other b)
    → Yields f other r
Yields-imp {other = other} {r = r} y kept same = record {
  valid = y.valid;
  interned = y.interned;
  members = members_of_others r.1 other (λ b n. Yields-members y b n ∙ same b n);
  kept = λ s h. y.kept s (kept s h);
}

-- For a well-formed factory that holds the permanent sets of a dependency set, `get_permanent`
-- leaves a well-formed factory that holds what it held, and gives a set that the factory holds
-- and that contains exactly -1 and what the dependency set contains.
pub get_permanent-Yields :
    (f : DependencySetFactory) (d : DependencySet)
    → IsValid f
    → AllInterned f d
    → Yields f (contains_branching_point d) (get_permanent f d)
unfolding get_permanent contains_branching_point collect_branching_points AllInterned
get_permanent-Yields f (permanent s) v h = record {
  valid = v;
  interned = h;
  members = λ b. ground arith;
  kept = λ s' h'. h';
}
get_permanent-Yields f (union u) v h =
    Yields-imp (intern-Yields f (collect_branching_points (union u) []) v) (λ s i. i)
      (λ b n. ground (arith, contains-collect_branching_points (union u) [] b n))

-- The points of a set with one more, in either order of the tests.
pub contains-push :
    (s : PermanentDependencySet) (ys : List ℤ) (x : ℤ)
    → ¬ (x ≡ minus_one)
    → contains (s.points ++ ys) x ≡ (Permanent.contains_branching_point s x || contains ys x)
contains-push s ys x n = ground (arith, contains-append s.points ys x, beq_ℤ_iff x minus_one)

-- For a well-formed factory that holds the permanent sets of a dependency set, and a branching
-- point other than -1, `add_branching_point` leaves a well-formed factory that holds what it
-- held, and gives a set that the factory holds and that contains exactly -1, the point, and what
-- the dependency set contains.
pub add_branching_point-Yields :
    (f : DependencySetFactory) (d : DependencySet) (b : ℤ)
    → IsValid f
    → AllInterned f d
    → ¬ (b ≡ minus_one)
    → Yields f (λ x. contains_branching_point d x || b == x) (add_branching_point f d b)
unfolding add_branching_point
add_branching_point-Yields f d b v h n =
    let r = get_permanent f d in
    let y = get_permanent-Yields f d v h in
    elim (Bool-cases (Permanent.contains_branching_point r.1 b)) [
      | inl t ↦
          rw (t, add_branching_point)
            (Yields-imp y (λ s i. i)
              (λ x m. ground (arith, t, Yields-members y b n, beq_ℤ_iff b x)))
      | inr c ↦
          rw (c, add_branching_point)
            (Yields-imp (intern-Yields r.0 (r.1.points ++ b ∷ []) y.valid) y.kept
              (λ x m. ground (arith, contains-push r.1 (b ∷ []) x m, Yields-members y x m)))
    ]

contains-without :
    (xs : List ℤ) (b x : ℤ) → contains (without xs b) x ≡ (contains xs x && not (b == x))
unfolding without
contains-without [] b x = refl
contains-without (y ∷ xs) b x =
    ground (arith, contains-without xs b x, beq_ℤ_iff y b, beq_ℤ_iff y x, beq_ℤ_iff b x)

-- For a well-formed factory that holds the permanent sets of a dependency set,
-- `remove_branching_point` leaves a well-formed factory that holds what it held, and gives a set
-- that the factory holds and that contains exactly -1 and what the dependency set contains
-- besides the point.
pub remove_branching_point-Yields :
    (f : DependencySetFactory) (d : DependencySet) (b : ℤ)
    → IsValid f
    → AllInterned f d
    → Yields f (λ x. contains_branching_point d x && not (b == x)) (remove_branching_point f d b)
unfolding remove_branching_point
remove_branching_point-Yields f d b v h =
    let r = get_permanent f d in
    let y = get_permanent-Yields f d v h in
    elim (Bool-cases (Permanent.contains_branching_point r.1 b)) [
      | inl t ↦
          rw (t, remove_branching_point)
            (Yields-imp (intern-Yields r.0 (without r.1.points b) y.valid) y.kept (λ x m. ground (
              arith,
              contains-without r.1.points b x,
              Yields-members y x m,
              beq_ℤ_iff x minus_one,
            )))
      | inr c ↦
          rw (c, remove_branching_point)
            (Yields-imp y (λ s i. i)
              (λ x m. ground (arith, c, Yields-members y x m, beq_ℤ_iff b x)))
    ]

-- A dependency set stays interned where every permanent set does.
mutual
  unfolding AllInterned

  pub AllInterned-kept :
      (f g : DependencySetFactory)
      → ((s : PermanentDependencySet) → IsInterned f s → IsInterned g s)
      → (d : DependencySet) → AllInterned f d
      → AllInterned g d
  AllInterned-kept f g k (permanent s) h = k s h
  AllInterned-kept f g k (union u) h = ConstituentsInterned-kept f g k u h

  pub ConstituentsInterned-kept :
      (f g : DependencySetFactory)
      → ((s : PermanentDependencySet) → IsInterned f s → IsInterned g s)
      → (u : UnionDependencySet) → ConstituentsInterned f u
      → ConstituentsInterned g u
  ConstituentsInterned-kept f g k end h = tt
  ConstituentsInterned-kept f g k (constituents s u) h =
      (AllInterned-kept f g k s h.0, ConstituentsInterned-kept f g k u h.1)
