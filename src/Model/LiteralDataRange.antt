-- ===== src/Model/LiteralDataRange.antt =====
-- datarange.rs, `impl LiteralDataRange`.
use hermit_rs.Base.{ℕ, Bool, false}
use hermit_rs.Model.Types.{LiteralDataRange}
use hermit_rs.Model.Types.LiteralDataRange.{
  datatype_restriction, constant_enumeration, internal_datatype, atomic_negation_data_range,
}
use hermit_rs.Model.DatatypeRestriction
use hermit_rs.Model.ConstantEnumeration
use hermit_rs.Model.InternalDatatype
use hermit_rs.Model.AtomicNegationDataRange

unfoldable pub arity : LiteralDataRange → ℕ
arity r = 1

unfoldable pub get_negation : LiteralDataRange → LiteralDataRange
unfolding DatatypeRestriction.get_negation ConstantEnumeration.get_negation
    InternalDatatype.get_negation AtomicNegationDataRange.get_negation
get_negation (datatype_restriction r) = DatatypeRestriction.get_negation r
get_negation (constant_enumeration r) = ConstantEnumeration.get_negation r
get_negation (internal_datatype r) = InternalDatatype.get_negation r
get_negation (atomic_negation_data_range r) = AtomicNegationDataRange.get_negation r

unfoldable pub is_always_true : LiteralDataRange → Bool
unfolding DatatypeRestriction.is_always_true ConstantEnumeration.is_always_true
    InternalDatatype.is_always_true AtomicNegationDataRange.is_always_true
is_always_true (datatype_restriction r) = DatatypeRestriction.is_always_true r
is_always_true (constant_enumeration r) = ConstantEnumeration.is_always_true r
is_always_true (internal_datatype r) = InternalDatatype.is_always_true r
is_always_true (atomic_negation_data_range r) = AtomicNegationDataRange.is_always_true r

unfoldable pub is_always_false : LiteralDataRange → Bool
unfolding DatatypeRestriction.is_always_false ConstantEnumeration.is_always_false
    InternalDatatype.is_always_false AtomicNegationDataRange.is_always_false
is_always_false (datatype_restriction r) = DatatypeRestriction.is_always_false r
is_always_false (constant_enumeration r) = ConstantEnumeration.is_always_false r
is_always_false (internal_datatype r) = InternalDatatype.is_always_false r
is_always_false (atomic_negation_data_range r) = AtomicNegationDataRange.is_always_false r

unfoldable pub is_internal_datatype : LiteralDataRange → Bool
unfolding DatatypeRestriction.is_internal_datatype ConstantEnumeration.is_internal_datatype
    InternalDatatype.is_internal_datatype AtomicNegationDataRange.is_internal_datatype
is_internal_datatype (datatype_restriction r) = DatatypeRestriction.is_internal_datatype r
is_internal_datatype (constant_enumeration r) = ConstantEnumeration.is_internal_datatype r
is_internal_datatype (internal_datatype r) = InternalDatatype.is_internal_datatype r
is_internal_datatype (atomic_negation_data_range r) = AtomicNegationDataRange.is_internal_datatype r

unfoldable pub is_negated_internal_datatype : LiteralDataRange → Bool
unfolding AtomicNegationDataRange.is_negated_internal_datatype
is_negated_internal_datatype (atomic_negation_data_range r) =
    AtomicNegationDataRange.is_negated_internal_datatype r
is_negated_internal_datatype _ = false
