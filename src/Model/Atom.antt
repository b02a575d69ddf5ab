-- ===== src/Model/Atom.antt =====
-- atom.rs, `impl Atom`, and the role assertions of role.rs. `none` is a panic: a failed assertion or
-- an index out of range.
use mathlib.Core.Option
use mathlib.Core.List.{reverse}
use hermit_rs.Base.{
  ℕ, Bool, false, List, [], ◌∷◌, Option, none, some, ◌==◌, if◌then◌else◌, length, get_elem?, nat_eq,
  any,
}
use hermit_rs.Collections.HashSet
use hermit_rs.Model.Types.{
  Variable, Individual, Term, AtomicRole, InverseRole, Role, DlPredicate, Atom, variable,
  individual, atomic_role, inverse_role,
}
use hermit_rs.Model.Sameness.{variable_eq, individual_eq}
use hermit_rs.Model.Term
use hermit_rs.Model.DlPredicate

unfoldable pub create : DlPredicate → List Term → Option Atom
create p args =
    if DlPredicate.arity p == length args
    then some (record { dl_predicate = p; arguments = args })
    else none

abbrev pub get_arity : Atom → ℕ
get_arity a = length a.arguments

abbrev pub get_argument : Atom → ℕ → Option Term
get_argument a i = get_elem? a.arguments i

-- The outer option is the panic, the inner one the result.
unfoldable pub get_argument_variable : Atom → ℕ → Option (Option Variable)
get_argument_variable a i = Option.map Term.as_variable (get_argument a i)

-- `variables.insert(v)` where the term is a variable.
unfoldable pub insert_variable : List Variable → Term → List Variable
insert_variable s (variable v) = HashSet.insert s v
insert_variable s _ = s

insert_variables : List Variable → List Term → List Variable
unfolding insert_variable
insert_variables s [] = s
insert_variables s (t ∷ ts) = insert_variables (insert_variable s t) ts

unfoldable pub get_variables : Atom → List Variable → List Variable
unfolding insert_variables
get_variables a variables = insert_variables variables (reverse a.arguments)

insert_individuals : List Individual → List Term → List Individual
insert_individuals s [] = s
insert_individuals s (individual i ∷ ts) = insert_individuals (HashSet.insert s i) ts
insert_individuals s (_ ∷ ts) = insert_individuals s ts

unfoldable pub get_individuals : Atom → List Individual → List Individual
unfolding insert_individuals
get_individuals a individuals = insert_individuals individuals (reverse a.arguments)

abbrev pub is_variable : Variable → Term → Bool
is_variable v (variable w) = w == v
is_variable v _ = false

unfoldable pub contains_variable : Atom → Variable → Bool
contains_variable a v = any (is_variable v) (reverse a.arguments)

unfoldable pub replace_dl_predicate : Atom → DlPredicate → Option Atom
unfolding create
replace_dl_predicate a p = create p a.arguments

unfoldable pub atomic_role_assertion : AtomicRole → Term → Term → Option Atom
unfolding create
atomic_role_assertion r t0 t1 = create (DlPredicate.atomic_role r) (t0 ∷ t1 ∷ [])

unfoldable pub inverse_role_assertion : InverseRole → Term → Term → Option Atom
unfolding create
inverse_role_assertion r t0 t1 = create (DlPredicate.atomic_role r.inverse_of) (t1 ∷ t0 ∷ [])

unfoldable pub get_role_assertion : Role → Term → Term → Option Atom
unfolding atomic_role_assertion inverse_role_assertion
get_role_assertion (atomic_role r) t0 t1 = atomic_role_assertion r t0 t1
get_role_assertion (inverse_role r) t0 t1 = inverse_role_assertion r t0 t1
