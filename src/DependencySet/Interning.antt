-- ===== src/DependencySet/Interning.antt =====
-- One allocation for each set of branching points, over any number of unions.
use hermit_rs.Base.{
  ◌↔◌, inl, inr, ◌≡◌, Bool, true, false, ◌||◌, List, [], ◌∷◌, ◌++◌, Option, none, some, arith, sym,
  ap, ◌∙◌, nat_eq, list_eq, subst,
}
use hermit_rs.Base.Int.{ℤ, int_eq}
use hermit_rs.Collections.HashSet.{contains, contains-append}
use hermit_rs.DependencySet.{PermanentDependencySet}
use hermit_rs.DependencySet.Points.{canonical_form}
use hermit_rs.DependencySet.Permanent
use hermit_rs.DependencySet.Factory.{DependencySetFactory, intern, gather, permanent_union_of}
use hermit_rs.DependencySet.Valid.{IsValid, IsInterned, intern_key_lem}
use hermit_rs.DependencySet.Canonical.{
  canonical_form-IsDescending, contains-canonical_form, descending_unique,
}
use hermit_rs.DependencySet.Sharing.{permanent_union_of-Yields, ptr_eq-IsInterned}
use hermit_rs.DependencySet.Reachable.{IsReachable, IsReachable-IsValid}
use hermit_rs.DependencySet.Tracking.{
  Event, run_events, Tracks-permanent_union_of, Tracks-run, IsInterned-Tracks,
  permanent_union_of-cases,
}

-- Whether a branching point is in the vector of a set that is present.
abbrev pub has_point : List (Option PermanentDependencySet) → ℤ → Bool
has_point [] b = false
has_point (none ∷ cs) b = has_point cs b
has_point (some s ∷ cs) b = contains s.points b || has_point cs b

contains-gather_points :
    (out : List ℤ) (cs : List (Option PermanentDependencySet)) (b : ℤ)
    → contains (gather out cs) b ≡ (contains out b || has_point cs b)
unfolding gather
contains-gather_points out [] b = ground arith
contains-gather_points out (none ∷ cs) b = contains-gather_points out cs b
contains-gather_points out (some s ∷ cs) b =
    ground (arith, contains-gather_points (out ++ s.points) cs b, contains-append out s.points b)

permanent_union_of-points :
    (f : DependencySetFactory) (cs : List (Option PermanentDependencySet))
    → IsValid f
    → (permanent_union_of f cs).1.points ≡ canonical_form (gather [] cs)
unfolding permanent_union_of intern
permanent_union_of-points f cs v =
    (intern_key_lem f (canonical_form (gather [] cs)) v
      (canonical_form-IsDescending (gather [] cs))).points

-- The canonical vector and the points determine each other.
canonical_form-same :
    (cs ds : List (Option PermanentDependencySet))
    → (canonical_form (gather [] cs) ≡ canonical_form (gather [] ds))
      ↔ ((b : ℤ) → has_point cs b ≡ has_point ds b)
canonical_form-same cs ds = (
  λ same b. sym (points cs b) ∙ ap (λ k. contains k b) same ∙ points ds b,
  λ same.
      descending_unique (canonical_form (gather [] cs)) (canonical_form (gather [] ds))
        (canonical_form-IsDescending (gather [] cs)) (canonical_form-IsDescending (gather [] ds))
        (λ b. points cs b ∙ same b ∙ sym (points ds b)),
)
  where
    points :
        (cs : List (Option PermanentDependencySet)) (b : ℤ)
        → contains (canonical_form (gather [] cs)) b ≡ has_point cs b
    points cs b = contains-canonical_form (gather [] cs) b ∙ contains-gather_points [] cs b

-- In every factory that is reached by the public operations, after a union, any sequence of
-- unions, uses added and removed, and removals of unused sets, and a second union, the results of
-- the two unions are one allocation exactly if the vectors of the sets united have the same
-- points and the factory still holds the first result at the second union.
pub ptr_eq-permanent_union_of :
    (f : DependencySetFactory) (cs ds : List (Option PermanentDependencySet)) (between : List Event)
    → IsReachable f
    → let first = permanent_union_of f cs in
      let g = run_events first.0 between in
      let second = permanent_union_of g ds in
      (Permanent.ptr_eq first.1 second.1 ≡ true)
      ↔ (((b : ℤ) → has_point cs b ≡ has_point ds b) × IsInterned g first.1)
ptr_eq-permanent_union_of f cs ds between reached =
    let v = IsReachable-IsValid reached in
    let first = permanent_union_of f cs in
    let y = permanent_union_of-Yields f cs v in
    let g = run_events first.0 between in
    let t =
      Tracks-run first.1 first.0 between (IsInterned-Tracks first.0 first.1 y.valid y.interned) in
    let second = permanent_union_of g ds in
    let z = permanent_union_of-Yields g ds t.valid in
    let a = permanent_union_of-points f cs v in
    let b = permanent_union_of-points g ds t.valid in
    let same = canonical_form-same cs ds in
    (
      λ shared.
          let address : second.1.address ≡ first.1.address =
            ground (arith, nat_eq.beq_iff first.1.address second.1.address) in
          let (e, (held, set)) = z.interned in
          let one : second.1 ≡ first.1 =
            sym set
            ∙ (Tracks-permanent_union_of first.1 g ds t).only second.1.points e held
                (ap (λ s. s.address) set ∙ address) in
          (
            same.0 (sym a ∙ sym (ap (λ s. s.points) one) ∙ b),
            elim (permanent_union_of-cases g ds t.valid) [
              | inl old ↦ subst (IsInterned g) one old
              | inr new ↦ absurd (omega (arith, t.older, sym address ∙ new))
            ],
          ),
      λ (points, held).
          (ptr_eq-IsInterned second.0 first.1 second.1 z.valid (z.kept first.1 held) z.interned).1
            (a ∙ same.1 points ∙ sym b),
    )
