-- ===== src/Model/AtomicNegationDataRange.antt =====
-- datarange.rs, `impl AtomicNegationDataRange`.
use hermit_rs.Base.{ℕ, Bool, false}
use hermit_rs.Model.Types.{AtomicNegationDataRange, LiteralDataRange}
use hermit_rs.Model.AtomicDataRange

unfoldable pub arity : AtomicNegationDataRange → ℕ
arity r = 1

unfoldable pub get_negation : AtomicNegationDataRange → LiteralDataRange
unfolding AtomicDataRange.to_literal_data_range
get_negation r = AtomicDataRange.to_literal_data_range r.negated_data_range

unfoldable pub is_always_true : AtomicNegationDataRange → Bool
unfolding AtomicDataRange.is_always_false
is_always_true r = AtomicDataRange.is_always_false r.negated_data_range

unfoldable pub is_always_false : AtomicNegationDataRange → Bool
unfolding AtomicDataRange.is_always_true
is_always_false r = AtomicDataRange.is_always_true r.negated_data_range

unfoldable pub is_internal_datatype : AtomicNegationDataRange → Bool
is_internal_datatype r = false

unfoldable pub is_negated_internal_datatype : AtomicNegationDataRange → Bool
unfolding AtomicDataRange.is_internal_datatype
is_negated_internal_datatype r = AtomicDataRange.is_internal_datatype r.negated_data_range
