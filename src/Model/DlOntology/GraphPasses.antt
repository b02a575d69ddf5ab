-- ===== src/Model/DlOntology/GraphPasses.antt =====
-- The passes of `compute_graph_atomic_roles` and their end.
use hermit_rs.Base.{
  ◌⊎◌, inl, inr, ◌≤◌, ◌<◌, ℕ, ◌+◌, ◌≡◌, refl, Bool, true, false, ◌&&◌, List, [], ◌∷◌, if◌then◌else◌,
  any, arith, Bool-cases, ==_iff, sym, subst, ◌∙◌, ap,
}
use hermit_rs.Collections.HashSet.{contains}
use hermit_rs.Model.Types.{AtomicRole, DlPredicate, Atom, DlClause, DescriptionGraph}
use hermit_rs.Model.Sameness.{atomic_role_eq}
use hermit_rs.Model.DlOntology.GraphRoles.{
  pass_clauses, count_role, count_roles, count_clause_roles,
}
use hermit_rs.Model.DlOntology.GraphClosure.{is_role, in_atoms, mentions, joined}
use hermit_rs.Model.DlOntology.GraphFixpoint.{
  IsGraphRole, shares, step, step-grows, step-change, step-fixed, step_sound, pass_clauses-step,
}

pub pass-grows :
    (cs : List DlClause) (t : List AtomicRole × Bool) (q : AtomicRole)
    → contains t.0 q ≡ true
    → contains (pass_clauses cs t).0 q ≡ true
unfolding pass_clauses
pass-grows [] t q h = h
pass-grows (c ∷ cs) t q h =
    rw (pass_clauses-step c cs t) (pass-grows cs (step c t) q (step-grows c t q h))

pub pass-change :
    (cs : List DlClause) (t : List AtomicRole × Bool)
    → (pass_clauses cs t).1 ≡ true
    → (t.1 ≡ true)
      ⊎ ((r : AtomicRole) × (any (mentions r) cs ≡ true)
          × (contains t.0 r ≡ false)
          × (contains (pass_clauses cs t).0 r ≡ true))
unfolding pass_clauses
pass-change [] t h = inl h
pass-change (c ∷ cs) t h =
    let same = pass_clauses-step c cs t in
    elim (pass-change cs (step c t) (ap (λ u. u.1) (sym same) ∙ h)) [
      | inl e ↦ elim (step-change c t e) [
        | inl old ↦ inl old
        | inr (r, is, new, has) ↦
            inr (r, ground arith, new, rw same (pass-grows cs (step c t) r has))
      ]
      | inr (r, is, new, has) ↦ inr (r, ground arith, ground (arith, step-grows c t r), rw same has)
    ]

pub pass-fixed :
    (cs : List DlClause) (t : List AtomicRole × Bool)
    → (pass_clauses cs t).1 ≡ false
    → (t.1 ≡ false)
      × ((pass_clauses cs t).0 ≡ t.0)
      × ((r q : AtomicRole) → joined cs r q ≡ true → contains t.0 r ≡ true → contains t.0 q ≡ true)
unfolding pass_clauses
pass-fixed [] t h = (h, refl, λ r q j has. absurd (ground arith))
pass-fixed (c ∷ cs) t h =
    let same = pass_clauses-step c cs t in
    let (flag, kept, closed) = pass-fixed cs (step c t) (ap (λ u. u.1) (sym same) ∙ h) in
    let (flag', kept', closed') = step-fixed c t flag in
    (
      flag',
      ap (λ u. u.0) same ∙ kept ∙ kept',
      λ r q j has. elim (Bool-cases (mentions r c && mentions q c)) [
        | inl both ↦ closed' r q both has
        | inr other ↦
            subst (λ s. contains s q ≡ true) kept'
              (closed r q (ground arith) (subst (λ s. contains s r ≡ true) (sym kept') has))
      ],
    )

pub pass_sound :
    (graphs : List DescriptionGraph) (clauses cs : List DlClause) (t : List AtomicRole × Bool)
    → ((r q : AtomicRole) → joined cs r q ≡ true → joined clauses r q ≡ true)
    → ((r : AtomicRole) → contains t.0 r ≡ true → IsGraphRole graphs clauses r)
    → (q : AtomicRole) → contains (pass_clauses cs t).0 q ≡ true
    → IsGraphRole graphs clauses q
unfolding pass_clauses
pass_sound graphs clauses [] t sub g q h = g q h
pass_sound graphs clauses (c ∷ cs) t sub g q h =
    pass_sound graphs clauses cs (step c t) (λ r q' j. sub r q' (ground arith)) sound q
      (rw (pass_clauses-step c cs t) at h)
  where
    sound : (q' : AtomicRole) → contains (step c t).0 q' ≡ true → IsGraphRole graphs clauses q'
    sound q' has = elim (step_sound c t q' has) [
      | inl old ↦ g q' old
      | inr (r, has', both) ↦ shares (g r has') (sub r q' (ground arith))
    ]

-- The role atoms whose role is not in a set.
missing_role : DlPredicate → List AtomicRole → ℕ
missing_role (DlPredicate.atomic_role r) s = if contains s r then 0 else 1
missing_role _ s = 0

missing_roles : List Atom → List AtomicRole → ℕ
unfolding missing_role
missing_roles [] s = 0
missing_roles (a ∷ atoms) s = missing_role a.dl_predicate s + missing_roles atoms s

pub missing : List DlClause → List AtomicRole → ℕ
unfolding missing_roles
missing [] s = 0
missing (c ∷ cs) s = missing_roles c.body_atoms s + missing_roles c.head_atoms s + missing cs s

missing_role_le : (p : DlPredicate) (s : List AtomicRole) → missing_role p s ≤ count_role p
unfolding missing_role count_role
missing_role_le (DlPredicate.atomic_role r) s = ground arith
missing_role_le _ s = omega arith

missing_roles_le :
    (atoms : List Atom) (s : List AtomicRole) → missing_roles atoms s ≤ count_roles atoms
unfolding missing_roles count_roles
missing_roles_le [] s = omega arith
missing_roles_le (a ∷ atoms) s =
    omega (arith, missing_role_le a.dl_predicate s, missing_roles_le atoms s)

pub missing_le : (cs : List DlClause) (s : List AtomicRole) → missing cs s ≤ count_clause_roles cs
unfolding missing count_clause_roles
missing_le [] s = omega arith
missing_le (c ∷ cs) s =
    omega (arith, missing_roles_le c.body_atoms s, missing_roles_le c.head_atoms s, missing_le cs s)

-- A larger set misses no more, and less where it has a role that the smaller one misses.
module _ (s s' : List AtomicRole)
    (more : (q : AtomicRole) → contains s q ≡ true → contains s' q ≡ true) (r : AtomicRole)
    (new : contains s r ≡ false) (has : contains s' r ≡ true) where
  role_drop :
      (p : DlPredicate)
      → (missing_role p s' ≤ missing_role p s)
        × ((is_role r p ≡ false) ⊎ (missing_role p s' < missing_role p s))
  unfolding missing_role
  role_drop (DlPredicate.atomic_role q) =
      (ground (arith, more q), ground (arith, more q, ==_iff q r))
  role_drop _ = (omega arith, inl refl)

  roles_drop :
      (atoms : List Atom)
      → (missing_roles atoms s' ≤ missing_roles atoms s)
        × ((in_atoms r atoms ≡ false) ⊎ (missing_roles atoms s' < missing_roles atoms s))
  unfolding missing_roles
  roles_drop [] = (omega arith, inl refl)
  roles_drop (a ∷ atoms) =
      let (le, lt) = role_drop a.dl_predicate in
      let (le', lt') = roles_drop atoms in (omega arith, ground arith)

  pub drop :
      (cs : List DlClause)
      → (missing cs s' ≤ missing cs s)
        × ((any (mentions r) cs ≡ false) ⊎ (missing cs s' < missing cs s))
  unfolding missing
  drop [] = (omega arith, inl refl)
  drop (c ∷ cs) =
      let (le, lt) = roles_drop c.body_atoms in
      let (le', lt') = roles_drop c.head_atoms in
      let (le'', lt'') = drop cs in (omega arith, ground arith)
