-- ===== src/Model/ConstantEnumeration.antt =====
-- datarange.rs, `impl ConstantEnumeration`, and `PartialEq` of its data.
pub mod Equality
use hermit_rs.Base.{ℕ, Bool, false, not, ◌==◌, if◌then◌else◌, length, is_empty, all, nat_eq}
use hermit_rs.Collections.HashSet.{contains}
use hermit_rs.Model.Types.{ConstantEnumeration, AtomicDataRange, LiteralDataRange}
use hermit_rs.Model.Sameness.{constant_eq}

unfoldable pub same_data : ConstantEnumeration → ConstantEnumeration → Bool
same_data self other =
    if not (length self.constants == length other.constants)
    then false
    else all (contains other.constants) self.constants

unfoldable pub arity : ConstantEnumeration → ℕ
arity r = 1

unfoldable pub get_negation : ConstantEnumeration → LiteralDataRange
get_negation r =
    LiteralDataRange.atomic_negation_data_range
      (record { negated_data_range = AtomicDataRange.constant_enumeration r })

unfoldable pub is_always_true : ConstantEnumeration → Bool
is_always_true r = false

unfoldable pub is_always_false : ConstantEnumeration → Bool
is_always_false r = is_empty r.constants

unfoldable pub is_internal_datatype : ConstantEnumeration → Bool
is_internal_datatype r = false
