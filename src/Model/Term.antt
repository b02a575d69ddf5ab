-- ===== src/Model/Term.antt =====
-- term.rs, `impl Term`.
use hermit_rs.Base.{Option, none, some}
use hermit_rs.Model.Types.{Variable, Individual, Constant, Term, variable, individual, constant}

unfoldable pub as_variable : Term → Option Variable
as_variable (variable v) = some v
as_variable _ = none

unfoldable pub as_individual : Term → Option Individual
as_individual (individual i) = some i
as_individual _ = none

unfoldable pub as_constant : Term → Option Constant
as_constant (constant c) = some c
as_constant _ = none
