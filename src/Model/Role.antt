-- ===== src/Model/Role.antt =====
-- role.rs, `impl Role`.
use hermit_rs.Model.Types.{Role, atomic_role, inverse_role}
use hermit_rs.Model.AtomicRole
use hermit_rs.Model.InverseRole

unfoldable pub get_inverse : Role → Role
unfolding AtomicRole.get_inverse InverseRole.get_inverse
get_inverse (atomic_role r) = AtomicRole.get_inverse r
get_inverse (inverse_role r) = InverseRole.get_inverse r
