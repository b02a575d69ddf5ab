-- ===== src/DependencySet/Sharing.antt =====
-- Sets that share one allocation, and the operations that rest on sharing.
use hermit_rs.Base.{
  list_eq, ◌⊎◌, ◌↔◌, ◌≡◌, refl, Bool, true, false, ◌||◌, List, [], ◌∷◌, ◌++◌, Option, none, some,
  arith, Bool-cases, inl, inr, ap, sym, ◌∙◌, ◌↔◌,
}
use hermit_rs.Base.Int.{ℤ, int_eq, beq_ℤ_iff}
use hermit_rs.Collections.HashMap
use hermit_rs.Collections.HashSet.{contains, contains-append}
use hermit_rs.DependencySet.{PermanentDependencySet, DependencySet}
use hermit_rs.DependencySet.Points.{canonical_form}
use hermit_rs.DependencySet.Permanent
use hermit_rs.DependencySet.Permanent.{minus_one, same_set}
use hermit_rs.DependencySet.Union.{contains_branching_point}
use hermit_rs.DependencySet.Factory.{
  DependencySetFactory, intern_key, intern, get_permanent, union_with, gather, permanent_union_of,
}
use hermit_rs.DependencySet.Valid.{IsValid, IsInterned, key_eq}
use hermit_rs.DependencySet.Valid.{key_eq}
use hermit_rs.DependencySet.Operations.{
  AllInterned, Yields, Yields-imp, intern-Yields, contains-push, get_permanent-Yields,
  AllInterned-kept, Yields-members,
}
use hermit_rs.DependencySet.Canonical.{canonical_form-fixed}
use hermit_rs.DependencySet.Factory.{count_present, permanent_union_of_scratch, intern_scratch}

-- Two sets that a well-formed factory holds are one allocation exactly if they have the same
-- points.
pub ptr_eq-IsInterned :
    (f : DependencySetFactory) (s t : PermanentDependencySet)
    → IsValid f
    → IsInterned f s
    → IsInterned f t
    → (Permanent.ptr_eq s t ≡ true) ↔ (s.points ≡ t.points)
ptr_eq-IsInterned f s t v (e, (hs, es)) (e', (ht, et)) = (
  λ same. v.apart s.points t.points e e' hs ht (ground arith),
  λ same. ground (arith, sym hs ∙ ap (HashMap.get f.canonical) same ∙ ht),
)

-- For a well-formed factory that holds the permanent sets of two dependency sets, `union_with`
-- leaves a well-formed factory that holds what it held, and gives a set that the factory holds
-- and that contains exactly -1 and what one of the two contains.
pub union_with-Yields :
    (f : DependencySetFactory) (set1 set2 : DependencySet)
    → IsValid f
    → AllInterned f set1
    → AllInterned f set2
    → Yields f
        (λ x. contains_branching_point set1 x || contains_branching_point set2 x)
        (union_with f set1 set2)
unfolding union_with
union_with-Yields f set1 set2 v h1 h2 =
    let r1 = get_permanent f set1 in
    let y1 = get_permanent-Yields f set1 v h1 in
    let r2 = get_permanent r1.0 set2 in
    let y2 = get_permanent-Yields r1.0 set2 y1.valid (AllInterned-kept f r1.0 y1.kept set2 h2) in
    let kept : (s : PermanentDependencySet) → IsInterned f s → IsInterned r2.0 s =
      λ s i. y2.kept s (y1.kept s i) in
    elim (Bool-cases (same_set r1.1 r2.1)) [
      | inl t ↦
          rw (t, union_with)
            (record {
              valid = y2.valid;
              interned = y2.kept r1.1 y1.interned;
              members = λ b.
                  let same : r1.1.points ≡ r2.1.points = ground (
                    arith,
                    t,
                    ptr_eq-IsInterned r2.0 r1.1 r2.1 y2.valid (y2.kept r1.1 y1.interned)
                        y2.interned,
                    key_eq r1.1.points r2.1.points,
                  ) in
                  ground (arith, same, y1.members b, y2.members b);
              kept = kept;
            })
      | inr c ↦
          rw (c, union_with)
            (Yields-imp (intern-Yields r2.0 (r1.1.points ++ r2.1.points) y2.valid) kept (λ x m.
              ground (
                arith,
                contains-push r1.1 r2.1.points x m,
                Yields-members y1 x m,
                Yields-members y2 x m,
                beq_ℤ_iff x minus_one,
              )))
    ]

-- Interning the points of a set that the factory holds changes nothing and gives that set.
pub intern-IsInterned :
    (f : DependencySetFactory) (s : PermanentDependencySet)
    → IsValid f
    → IsInterned f s
    → intern f s.points ≡ (f, s)
unfolding intern intern_key
intern-IsInterned f s v (e, (held, same)) =
    rw (canonical_form-fixed s.points (v.descending s.points e held), held, intern_key)
      (ap (λ t. (f, t)) same)

-- The sets that are present are interned.
abbrev pub PresentInterned : DependencySetFactory → List (Option PermanentDependencySet) → Type 0
PresentInterned f [] = Unit
PresentInterned f (none ∷ cs) = PresentInterned f cs
PresentInterned f (some s ∷ cs) = IsInterned f s × PresentInterned f cs

-- Whether a set that is present contains a branching point.
abbrev pub present_contains : List (Option PermanentDependencySet) → ℤ → Bool
present_contains [] b = false
present_contains (none ∷ cs) b = present_contains cs b
present_contains (some s ∷ cs) b = Permanent.contains_branching_point s b || present_contains cs b

contains-gather :
    (out : List ℤ) (cs : List (Option PermanentDependencySet)) (b : ℤ)
    → ¬ (b ≡ minus_one)
    → contains (gather out cs) b ≡ (contains out b || present_contains cs b)
unfolding gather
contains-gather out [] b n = ground arith
contains-gather out (none ∷ cs) b n = contains-gather out cs b n
contains-gather out (some s ∷ cs) b n = ground (
  arith,
  contains-gather (out ++ s.points) cs b n,
  contains-append out s.points b,
  beq_ℤ_iff b minus_one,
)

-- For a well-formed factory, `permanent_union_of` leaves a well-formed factory that holds what it
-- held, and gives a set that the factory holds and that contains exactly -1 and what a set that
-- is present contains.
pub permanent_union_of-Yields :
    (f : DependencySetFactory) (cs : List (Option PermanentDependencySet))
    → IsValid f
    → Yields f (present_contains cs) (permanent_union_of f cs)
unfolding permanent_union_of
permanent_union_of-Yields f cs v =
    Yields-imp (intern-Yields f (gather [] cs) v) (λ s i. i)
      (λ b n. ground (arith, contains-gather [] cs b n))

-- After the first constituent, the count stays at one exactly where no other is present.
count_present-one :
    (s : PermanentDependencySet) (out : List ℤ) (cs : List (Option PermanentDependencySet))
    → ((count_present (some s) 1 cs ≡ (some s, 1)) × (gather out cs ≡ out))
      ⊎ (count_present (some s) 1 cs ≡ (none, 2))
unfolding count_present gather
count_present-one s out [] = inl (refl, refl)
count_present-one s out (none ∷ cs) = count_present-one s out cs
count_present-one s out (some t ∷ cs) = inr refl

-- What the first loop finds: nothing, the only constituent, or more than one.
Counted : DependencySetFactory → List (Option PermanentDependencySet) → Type 0
Counted f cs =
    (count_present none 0 cs ≡ (none, 0))
    ⊎ (((s : PermanentDependencySet) × ((count_present none 0 cs ≡ (some s, 1))
            × ((gather [] cs ≡ s.points) × IsInterned f s)))
        ⊎ (count_present none 0 cs ≡ (none, 2)))

count_present_lem :
    (f : DependencySetFactory) (cs : List (Option PermanentDependencySet))
    → PresentInterned f cs
    → Counted f cs
unfolding Counted count_present gather
count_present_lem f [] h = inl refl
count_present_lem f (none ∷ cs) h = count_present_lem f cs h
count_present_lem f (some s ∷ cs) h = elim (count_present-one s s.points cs) [
  | inl (one, same) ↦ inr (inl (s, (one, (same, h.0))))
  | inr more ↦ inr (inr more)
]

-- For a well-formed factory that holds the sets that are present, `permanent_union_of_scratch`
-- does not panic and gives the same factory and the same set as `permanent_union_of`, whatever
-- the scratch buffer held.
pub permanent_union_of_scratch-eq :
    (f : DependencySetFactory) (cs : List (Option PermanentDependencySet)) (scratch : List ℤ)
    → IsValid f
    → PresentInterned f cs
    → (rest : List ℤ) × (permanent_union_of_scratch f cs scratch
        ≡ some (permanent_union_of f cs, rest))
unfolding permanent_union_of_scratch permanent_union_of intern_scratch intern Counted
permanent_union_of_scratch-eq f cs scratch v h = elim (count_present_lem f cs h) [
  | inl zero_found ↦ (canonical_form (gather [] cs), rw zero_found refl)
  | inr (inl (s, (one, (same, held)))) ↦ (
    [],
    rw one (ap (λ r. some (r, [])) (sym (ap (intern f) same ∙ intern-IsInterned f s v held))),
  )
  | inr (inr more) ↦ (canonical_form (gather [] cs), rw more refl)
]
