-- ===== src/Model/DlClause.antt =====
-- clause.rs, the operations of `impl DLClause` that build clauses.
pub mod Classify
pub mod Safe
pub mod Shapes
pub mod RoleShapes
use hermit_rs.Base.{
  ℕ, Bool, true, false, ◌&&◌, List, [], ◌∷◌, ◌++◌, Option, none, some, if◌then◌else◌, is_empty,
}
use hermit_rs.Base.Panic.{◌>>=◌}
use hermit_rs.Collections.HashSet
use hermit_rs.Model.Types.{Variable, Term, DlPredicate, Atom, DlClause, variable}
use hermit_rs.Model.Sameness.{variable_eq}
use hermit_rs.Model.Atom

-- One round of the loop over the head's arguments.
abbrev pub insert_argument : List Variable → Term → List Variable
insert_argument s (variable v) = HashSet.insert s v
insert_argument s _ = s

unfoldable pub insert_arguments : List Variable → List Term → List Variable
insert_arguments s [] = s
insert_arguments s (t ∷ ts) = insert_arguments (insert_argument s t) ts

-- The variables that occur in the head.
unfoldable pub insert_atoms : List Variable → List Atom → List Variable
unfolding insert_arguments
insert_atoms s [] = s
insert_atoms s (a ∷ as') = insert_atoms (insert_arguments s a.arguments) as'

abbrev pub remove_argument : List Variable → Term → List Variable
remove_argument s (variable v) = HashSet.remove s v
remove_argument s _ = s

unfoldable pub remove_arguments : List Variable → List Term → List Variable
remove_arguments s [] = s
remove_arguments s (t ∷ ts) = remove_arguments (remove_argument s t) ts

-- The same less those that occur in the body.
unfoldable pub remove_atoms : List Variable → List Atom → List Variable
unfolding remove_arguments
remove_atoms s [] = s
remove_atoms s (a ∷ as') = remove_atoms (remove_arguments s a.arguments) as'

-- The set `variables` after its three changes.
unfoldable pub unsafe_variables : DlClause → List Variable
unfolding insert_atoms remove_atoms
unsafe_variables c =
    let variables = remove_atoms (insert_atoms [] c.head_atoms) c.body_atoms in
    if is_empty c.head_atoms && is_empty c.body_atoms
    then HashSet.insert variables (record { name = "X" })
    else variables

-- The loop that pushes a concept atom for each variable; `none` is the panic of `Atom::create`.
unfoldable pub push_atoms : DlPredicate → List Atom → List Variable → Option (List Atom)
push_atoms p body [] = some body
push_atoms p body (v ∷ vs) = do
  a ← Atom.create p (variable v ∷ [])
  push_atoms p (body ++ a ∷ []) vs

unfoldable pub get_safe_version : DlClause → DlPredicate → Option DlClause
unfolding unsafe_variables push_atoms
get_safe_version c safe_making_predicate =
    let variables = unsafe_variables c in
    if is_empty variables then some c else do
      body ← push_atoms safe_making_predicate c.body_atoms variables
      some (record { head_atoms = c.head_atoms; body_atoms = body })

unfoldable pub get_changed_dl_clause : DlClause → Option (List Atom) → Option (List Atom) → DlClause
get_changed_dl_clause c head body = record {
  head_atoms = elim head [ some h ↦ h | none ↦ c.head_atoms ];
  body_atoms = elim body [ some b ↦ b | none ↦ c.body_atoms ];
}
