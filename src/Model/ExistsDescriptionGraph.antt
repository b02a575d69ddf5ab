-- ===== src/Model/ExistsDescriptionGraph.antt =====
-- description_graph.rs, `impl ExistsDescriptionGraph`.
use hermit_rs.Base.{ℕ, Bool, false}
use hermit_rs.Model.Types.{ExistsDescriptionGraph}

unfoldable pub arity : ExistsDescriptionGraph → ℕ
arity c = 1

unfoldable pub is_always_true : ExistsDescriptionGraph → Bool
is_always_true c = false

unfoldable pub is_always_false : ExistsDescriptionGraph → Bool
is_always_false c = false
