-- ===== src/Model/InternalDatatype.antt =====
-- datarange.rs, `impl InternalDatatype`.
use hermit_rs.Base.{ℕ, Bool, true, false, ◌==◌}
use hermit_rs.Model.Types.{InternalDatatype, AtomicDataRange, LiteralDataRange}
use hermit_rs.Model.Sameness.{internal_datatype_eq}

abbrev pub rdfs_literal : InternalDatatype
rdfs_literal = record { iri = "http://www.w3.org/2000/01/rdf-schema#Literal" }

unfoldable pub arity : InternalDatatype → ℕ
arity r = 1

unfoldable pub get_negation : InternalDatatype → LiteralDataRange
get_negation r =
    LiteralDataRange.atomic_negation_data_range
      (record { negated_data_range = AtomicDataRange.internal_datatype r })

unfoldable pub is_always_true : InternalDatatype → Bool
is_always_true r = r == rdfs_literal

unfoldable pub is_always_false : InternalDatatype → Bool
is_always_false r = false

unfoldable pub is_internal_datatype : InternalDatatype → Bool
is_internal_datatype r = true
