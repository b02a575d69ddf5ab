-- ===== src/Model/DlClause/Classify.antt =====
-- clause.rs, the tests that recognise the shape of the axiom behind a clause. `none` is the panic of
-- an index out of range.
use hermit_rs.Base.{
  ℕ, Bool, true, false, not, ◌&&◌, ◌||◌, List, [], ◌∷◌, Option, none, some, ◌==◌, if◌then◌else◌,
  length, get_elem?, is_empty, nat_eq, option_eq,
}
use hermit_rs.Base.Panic.{◌>>=◌}
use hermit_rs.Model.Types.{Variable, Term, Atom, DlClause, variable}
use hermit_rs.Model.Sameness.{dl_predicate_eq, variable_eq, term_eq, atomic_concept_eq}
use hermit_rs.Model.AtomicConcept
use hermit_rs.Model.DlPredicate
use hermit_rs.Model.Atom
use hermit_rs.Model.Atom.{get_arity, get_argument}

-- `matches!(t, Term::Variable(_))`.
unfoldable pub is_variable_term : Term → Bool
is_variable_term (variable v) = true
is_variable_term _ = false

-- Some body atom is no data range over one argument.
unfoldable pub has_non_data_range : List Atom → Bool
has_non_data_range [] = false
has_non_data_range (a ∷ as') =
    if not (get_arity a == 1) || not (DlPredicate.is_data_range a.dl_predicate)
    then true
    else has_non_data_range as'

-- The body names the special concept for named individuals.
unfoldable pub has_named : List Atom → Bool
has_named [] = false
has_named (a ∷ as') =
    let rest = has_named as' in
    if get_arity a == 1
    then elim (DlPredicate.as_atomic_concept a.dl_predicate) [
      | some c ↦ if c == AtomicConcept.internal_named then true else rest
      | none ↦ rest
    ]
    else rest

unfoldable pub has_binary : List Atom → Bool
has_binary [] = false
has_binary (a ∷ as') = if get_arity a == 2 then true else has_binary as'

-- The loop over the head atoms: the first that decides.
unfoldable pub head_decides : List Atom → List Atom → Bool
unfolding has_named has_binary
head_decides body [] = false
head_decides body (a ∷ as') =
    let rest = head_decides body as' in
    let p = a.dl_predicate in
    if DlPredicate.is_at_least p
      || DlPredicate.is_literal_concept p
      || DlPredicate.is_annotated_equality p
      || DlPredicate.is_node_id_less_equal_than p
      || DlPredicate.is_node_ids_ascending_or_equal p
    then true
    else if DlPredicate.is_equality p && has_named body
    then false
    else if DlPredicate.is_data_range p
    then has_binary body
    else if DlPredicate.is_role p
    then false
    else rest

-- The early return for a body of two binary atoms.
unfoldable pub is_binary_pair : List Atom → Bool
is_binary_pair (a ∷ b ∷ []) = get_arity a == 2 && get_arity b == 2
is_binary_pair _ = false

unfoldable pub is_general_concept_inclusion : DlClause → Bool
unfolding has_non_data_range head_decides is_binary_pair
is_general_concept_inclusion c =
    if is_empty c.head_atoms
    then (if is_binary_pair c.body_atoms
        then false
        else if has_non_data_range c.body_atoms
        then true
        else head_decides c.body_atoms c.head_atoms)
    else head_decides c.body_atoms c.head_atoms

-- The test on the two atoms of a clause with one head atom and one body atom.
unfoldable pub concept_inclusion_atoms : Atom → Atom → Option Bool
unfolding is_variable_term
concept_inclusion_atoms body head =
    if get_arity body == 1
      && get_arity head == 1
      && DlPredicate.is_atomic_concept body.dl_predicate
      && DlPredicate.is_atomic_concept head.dl_predicate
    then (do
      argument ← get_argument body 0
      other ← get_argument head 0
      some (is_variable_term argument && argument == other))
    else some false

-- A test on the head atom and the body atom, where there is one of each.
unfoldable pub on_single_atoms : (Atom → Atom → Option Bool) → DlClause → Option Bool
on_single_atoms f c =
    if length c.body_atoms == 1 && length c.head_atoms == 1
    then (do body ← get_elem? c.body_atoms 0; head ← get_elem? c.head_atoms 0; f body head)
    else some false

unfoldable pub is_atomic_concept_inclusion : DlClause → Option Bool
unfolding on_single_atoms concept_inclusion_atoms
is_atomic_concept_inclusion c = on_single_atoms concept_inclusion_atoms c

-- The tests of role inclusions: the head's arguments `i` and `j` repeat the body's two.
unfoldable pub role_inclusion_atoms : ℕ → ℕ → Atom → Atom → Option Bool
unfolding is_variable_term
role_inclusion_atoms i j body head =
    if get_arity body == 2
      && get_arity head == 2
      && DlPredicate.is_role body.dl_predicate
      && DlPredicate.is_role head.dl_predicate
    then (do
      argument0 ← get_argument body 0
      argument1 ← get_argument body 1
      first ← get_argument head i
      second ← get_argument head j
      some (
          is_variable_term argument0
          && is_variable_term argument1
          && not (argument0 == argument1)
          && argument0 == first
          && argument1 == second))
    else some false

unfoldable pub is_atomic_role_inclusion : DlClause → Option Bool
unfolding on_single_atoms role_inclusion_atoms
is_atomic_role_inclusion c = on_single_atoms (role_inclusion_atoms 0 1) c

unfoldable pub is_atomic_role_inverse_inclusion : DlClause → Option Bool
unfolding on_single_atoms role_inclusion_atoms
is_atomic_role_inverse_inclusion c = on_single_atoms (role_inclusion_atoms 1 0) c

unfoldable pub matching_functional_variables :
    Option Variable → Option Variable → Option Variable → Option Variable → Bool
matching_functional_variables (some y1) (some y2) (some head_y1) (some head_y2) =
    not (y1 == y2) && ((y1 == head_y1 && y2 == head_y2) || (y1 == head_y2 && y2 == head_y1))
matching_functional_variables _ _ _ _ = false

-- The variables at position `j` of the two body atoms against those of the head.
unfoldable pub functional_variables : ℕ → Atom → Atom → Atom → Option Bool
unfolding matching_functional_variables
functional_variables j body0 body1 head = do
  y1 ← Atom.get_argument_variable body0 j
  y2 ← Atom.get_argument_variable body1 j
  head_y1 ← Atom.get_argument_variable head 0
  head_y2 ← Atom.get_argument_variable head 1
  some (matching_functional_variables y1 y2 head_y1 head_y2)

-- The variable `x` at position `i` of the first atom is shared by the second one.
unfoldable pub shared_variable : ℕ → ℕ → Atom → Atom → Atom → Option Variable → Option Bool
shared_variable i j body0 body1 head none = some false
shared_variable i j body0 body1 head (some v) = do
  shared ← get_argument body1 i
  if variable v == shared then functional_variables j body0 body1 head else some false

-- The common text of the two functionality tests: `i` is the position of the shared variable and
-- `j` that of the others.
unfoldable pub functionality_atoms : ℕ → ℕ → Atom → Atom → Atom → Option Bool
unfolding functional_variables shared_variable
functionality_atoms i j body0 body1 head =
    if DlPredicate.is_role body0.dl_predicate
      && body1.dl_predicate == body0.dl_predicate
      && DlPredicate.is_annotated_equality head.dl_predicate
    then (do x ← Atom.get_argument_variable body0 i; shared_variable i j body0 body1 head x)
    else some false

unfoldable pub functionality : ℕ → ℕ → DlClause → Option Bool
functionality i j c =
    if length c.body_atoms == 2 && length c.head_atoms == 1
    then (do
      body0 ← get_elem? c.body_atoms 0
      body1 ← get_elem? c.body_atoms 1
      head ← get_elem? c.head_atoms 0
      functionality_atoms i j body0 body1 head)
    else some false

unfoldable pub is_functionality_axiom : DlClause → Option Bool
unfolding functionality functionality_atoms
is_functionality_axiom c = functionality 0 1 c

unfoldable pub is_inverse_functionality_axiom : DlClause → Option Bool
unfolding functionality functionality_atoms
is_inverse_functionality_axiom c = functionality 1 0 c
