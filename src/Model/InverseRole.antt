-- ===== src/Model/InverseRole.antt =====
-- role.rs, `impl InverseRole`.
use hermit_rs.Model.Types.{InverseRole, Role, atomic_role}

unfoldable pub get_inverse : InverseRole → Role
get_inverse r = atomic_role r.inverse_of
