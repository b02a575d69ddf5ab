-- ===== src/Model/DlClause/Safe.antt =====
-- `get_safe_version` (clause.rs): in its result every variable of the head occurs in the body.
use mathlib.Core.List.{append-nil, append_assoc}
use hermit_rs.Base.{
  ◌≡◌, refl, Bool, false, not, ◌&&◌, ◌||◌, List, [], ◌∷◌, ◌++◌, some, arith, ◌==◌, any, is_empty,
  map, inl, inr, List-cases,
}
use hermit_rs.Collections.HashSet.{contains, contains-insert, contains-remove}
use hermit_rs.Model.Types.{Variable, Term, DlPredicate, Atom, DlClause, variable}
use hermit_rs.Model.Sameness.{variable_eq}
use hermit_rs.Model.DlPredicate
use hermit_rs.Model.Atom
use hermit_rs.Model.Atom.{is_variable}
use hermit_rs.Model.DlClause.{
  insert_argument, insert_arguments, insert_atoms, remove_argument, remove_arguments, remove_atoms,
  unsafe_variables, push_atoms, get_safe_version,
}

-- The variable is an argument of one of the atoms.
abbrev pub occurs : List Atom → Variable → Bool
occurs atoms v = any (λ a. any (is_variable v) a.arguments) atoms

contains-insert_argument :
    (s : List Variable) (t : Term) (v : Variable)
    → contains (insert_argument s t) v ≡ (contains s v || is_variable v t)
contains-insert_argument s (variable w) v = contains-insert s w v
contains-insert_argument s (Term.individual i) v = ground arith
contains-insert_argument s (Term.constant c) v = ground arith

contains-insert_arguments :
    (s : List Variable) (ts : List Term) (v : Variable)
    → contains (insert_arguments s ts) v ≡ (contains s v || any (is_variable v) ts)
unfolding insert_arguments
contains-insert_arguments s [] v = ground arith
contains-insert_arguments s (t ∷ ts) v =
    ground
      (arith, contains-insert_arguments (insert_argument s t) ts v, contains-insert_argument s t v)

contains-insert_atoms :
    (s : List Variable) (as' : List Atom) (v : Variable)
    → contains (insert_atoms s as') v ≡ (contains s v || occurs as' v)
unfolding insert_atoms
contains-insert_atoms s [] v = ground arith
contains-insert_atoms s (a ∷ as') v = ground (
  arith,
  contains-insert_atoms (insert_arguments s a.arguments) as' v,
  contains-insert_arguments s a.arguments v,
)

contains-remove_argument :
    (s : List Variable) (t : Term) (v : Variable)
    → contains (remove_argument s t) v ≡ (contains s v && not (is_variable v t))
contains-remove_argument s (variable w) v = contains-remove s w v
contains-remove_argument s (Term.individual i) v = ground arith
contains-remove_argument s (Term.constant c) v = ground arith

contains-remove_arguments :
    (s : List Variable) (ts : List Term) (v : Variable)
    → contains (remove_arguments s ts) v ≡ (contains s v && not (any (is_variable v) ts))
unfolding remove_arguments
contains-remove_arguments s [] v = ground arith
contains-remove_arguments s (t ∷ ts) v =
    ground
      (arith, contains-remove_arguments (remove_argument s t) ts v, contains-remove_argument s t v)

contains-remove_atoms :
    (s : List Variable) (as' : List Atom) (v : Variable)
    → contains (remove_atoms s as') v ≡ (contains s v && not (occurs as' v))
unfolding remove_atoms
contains-remove_atoms s [] v = ground arith
contains-remove_atoms s (a ∷ as') v = ground (
  arith,
  contains-remove_atoms (remove_arguments s a.arguments) as' v,
  contains-remove_arguments s a.arguments v,
)

-- The clause of no atoms at all.
abbrev pub is_empty_clause : DlClause → Bool
is_empty_clause c = is_empty c.head_atoms && is_empty c.body_atoms

contains-unsafe_variables :
    (c : DlClause) (v : Variable)
    → contains (unsafe_variables c) v ≡ (
        (occurs c.head_atoms v && not (occurs c.body_atoms v))
        || (is_empty_clause c && record { name = "X" } == v))
unfolding unsafe_variables
contains-unsafe_variables c v = ground (
  arith,
  contains-insert_atoms [] c.head_atoms v,
  contains-remove_atoms (insert_atoms [] c.head_atoms) c.body_atoms v,
  contains-insert (remove_atoms (insert_atoms [] c.head_atoms) c.body_atoms) (record { name = "X" })
      v,
)

-- The atom that makes a variable safe.
abbrev pub safe_atom : DlPredicate → Variable → Atom
safe_atom p v = record { dl_predicate = p; arguments = variable v ∷ [] }

push_atoms-eq :
    (p : DlPredicate) (body : List Atom) (vs : List Variable)
    → DlPredicate.arity p ≡ 1
    → push_atoms p body vs ≡ some (body ++ map (safe_atom p) vs)
unfolding push_atoms Atom.create
push_atoms-eq p body [] h = rw append-nil
push_atoms-eq p body (v ∷ vs) h = ground (
  arith,
  push_atoms-eq p (body ++ safe_atom p v ∷ []) vs h,
  append_assoc body (safe_atom p v ∷ []) (map (safe_atom p) vs),
)

occurs-append :
    (xs ys : List Atom) (v : Variable) → occurs (xs ++ ys) v ≡ (occurs xs v || occurs ys v)
occurs-append [] ys v = refl
occurs-append (x ∷ xs) ys v = ground (arith, occurs-append xs ys v)

occurs-safe_atoms :
    (p : DlPredicate) (vs : List Variable) (v : Variable)
    → occurs (map (safe_atom p) vs) v ≡ contains vs v
occurs-safe_atoms p [] v = refl
occurs-safe_atoms p (w ∷ vs) v = ground (arith, occurs-safe_atoms p vs v)

-- With a safe-making predicate of arity 1, `get_safe_version` does not panic: it keeps the head
-- and appends to the body one atom for each unsafe variable.
pub get_safe_version-eq :
    (c : DlClause) (p : DlPredicate)
    → DlPredicate.arity p ≡ 1
    → get_safe_version c p
      ≡ some (record {
        head_atoms = c.head_atoms;
        body_atoms = c.body_atoms ++ map (safe_atom p) (unsafe_variables c);
      })
unfolding get_safe_version
get_safe_version-eq c p h = elim (List-cases (unsafe_variables c)) [
  | inl e ↦ rw (e, append-nil)
  | inr (x, rest, e) ↦
      rw (e, get_safe_version) (ground (arith, push_atoms-eq p c.body_atoms (x ∷ rest) h))
]

-- With a safe-making predicate of arity 1, `get_safe_version` does not panic; in the clause that
-- it returns the head is the old one, a variable occurs in the body exactly if it occurred in the
-- clause or is the `X` that the empty clause is given, and each variable of the head occurs in
-- the body.
pub get_safe_version_safe :
    (c : DlClause) (p : DlPredicate)
    → DlPredicate.arity p ≡ 1
    → (d : DlClause) × (get_safe_version c p ≡ some d)
      × (d.head_atoms ≡ c.head_atoms)
      × ((v : Variable)
          → occurs d.body_atoms v ≡ (
              occurs c.head_atoms v
              || occurs c.body_atoms v
              || (is_empty_clause c && record { name = "X" } == v)))
      × ((v : Variable) → (occurs d.head_atoms v && not (occurs d.body_atoms v)) ≡ false)
get_safe_version_safe c p h =
    let vs = unsafe_variables c in
    let body = c.body_atoms ++ map (safe_atom p) vs in
    let covers : (v : Variable)
        → occurs body v ≡ (
            occurs c.head_atoms v
            || occurs c.body_atoms v
            || (is_empty_clause c && record { name = "X" } == v)) =
      λ v. ground (
        arith,
        occurs-append c.body_atoms (map (safe_atom p) vs) v,
        occurs-safe_atoms p vs v,
        contains-unsafe_variables c v,
      ) in
    (
      record { head_atoms = c.head_atoms; body_atoms = body },
      get_safe_version-eq c p h,
      refl,
      covers,
      λ v. ground (arith, covers v),
    )
