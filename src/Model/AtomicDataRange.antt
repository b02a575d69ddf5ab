-- ===== src/Model/AtomicDataRange.antt =====
-- datarange.rs, `impl AtomicDataRange` and its conversion into `LiteralDataRange`.
use hermit_rs.Base.{ℕ, Bool}
use hermit_rs.Model.Types.{AtomicDataRange, LiteralDataRange}
use hermit_rs.Model.Types.AtomicDataRange.{
  datatype_restriction, constant_enumeration, internal_datatype,
}
use hermit_rs.Model.DatatypeRestriction
use hermit_rs.Model.ConstantEnumeration
use hermit_rs.Model.InternalDatatype

unfoldable pub arity : AtomicDataRange → ℕ
arity r = 1

unfoldable pub get_negation : AtomicDataRange → LiteralDataRange
unfolding DatatypeRestriction.get_negation ConstantEnumeration.get_negation
    InternalDatatype.get_negation
get_negation (datatype_restriction r) = DatatypeRestriction.get_negation r
get_negation (constant_enumeration r) = ConstantEnumeration.get_negation r
get_negation (internal_datatype r) = InternalDatatype.get_negation r

unfoldable pub is_always_true : AtomicDataRange → Bool
unfolding DatatypeRestriction.is_always_true ConstantEnumeration.is_always_true
    InternalDatatype.is_always_true
is_always_true (datatype_restriction r) = DatatypeRestriction.is_always_true r
is_always_true (constant_enumeration r) = ConstantEnumeration.is_always_true r
is_always_true (internal_datatype r) = InternalDatatype.is_always_true r

unfoldable pub is_always_false : AtomicDataRange → Bool
unfolding DatatypeRestriction.is_always_false ConstantEnumeration.is_always_false
    InternalDatatype.is_always_false
is_always_false (datatype_restriction r) = DatatypeRestriction.is_always_false r
is_always_false (constant_enumeration r) = ConstantEnumeration.is_always_false r
is_always_false (internal_datatype r) = InternalDatatype.is_always_false r

unfoldable pub is_internal_datatype : AtomicDataRange → Bool
unfolding DatatypeRestriction.is_internal_datatype ConstantEnumeration.is_internal_datatype
    InternalDatatype.is_internal_datatype
is_internal_datatype (datatype_restriction r) = DatatypeRestriction.is_internal_datatype r
is_internal_datatype (constant_enumeration r) = ConstantEnumeration.is_internal_datatype r
is_internal_datatype (internal_datatype r) = InternalDatatype.is_internal_datatype r

-- `impl From<AtomicDataRange> for LiteralDataRange`.
unfoldable pub to_literal_data_range : AtomicDataRange → LiteralDataRange
to_literal_data_range (datatype_restriction r) = LiteralDataRange.datatype_restriction r
to_literal_data_range (constant_enumeration r) = LiteralDataRange.constant_enumeration r
to_literal_data_range (internal_datatype r) = LiteralDataRange.internal_datatype r
