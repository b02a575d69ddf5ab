-- ===== src/Model/AtLeastDataRange.antt =====
-- concept.rs, `impl AtLeastDataRange`.
use hermit_rs.Base.{ℕ, Bool, false}
use hermit_rs.Model.Types.{AtLeastDataRange}
use hermit_rs.Model.LiteralDataRange

unfoldable pub arity : AtLeastDataRange → ℕ
arity c = 1

unfoldable pub is_always_true : AtLeastDataRange → Bool
is_always_true c = false

unfoldable pub is_always_false : AtLeastDataRange → Bool
unfolding LiteralDataRange.is_always_false
is_always_false c = LiteralDataRange.is_always_false c.to_data_range
