-- ===== src/Model/AtLeastConcept.antt =====
-- concept.rs, `impl AtLeastConcept`.
use hermit_rs.Base.{ℕ, Bool, false}
use hermit_rs.Model.Types.{AtLeastConcept}
use hermit_rs.Model.LiteralConcept

unfoldable pub arity : AtLeastConcept → ℕ
arity c = 1

unfoldable pub is_always_true : AtLeastConcept → Bool
is_always_true c = false

unfoldable pub is_always_false : AtLeastConcept → Bool
unfolding LiteralConcept.is_always_false
is_always_false c = LiteralConcept.is_always_false c.to_concept
