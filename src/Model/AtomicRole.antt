-- ===== src/Model/AtomicRole.antt =====
-- role.rs, `impl AtomicRole`.
use hermit_rs.Base.{ℕ, ◌||◌, ◌==◌, if◌then◌else◌}
use hermit_rs.Model.Types.{AtomicRole, Role, atomic_role, inverse_role}
use hermit_rs.Model.Sameness.{atomic_role_eq}

abbrev pub top_object_role : AtomicRole
top_object_role = record { iri = "http://www.w3.org/2002/07/owl#topObjectProperty" }

abbrev pub bottom_object_role : AtomicRole
bottom_object_role = record { iri = "http://www.w3.org/2002/07/owl#bottomObjectProperty" }

abbrev pub top_data_role : AtomicRole
top_data_role = record { iri = "http://www.w3.org/2002/07/owl#topDataProperty" }

abbrev pub bottom_data_role : AtomicRole
bottom_data_role = record { iri = "http://www.w3.org/2002/07/owl#bottomDataProperty" }

unfoldable pub arity : AtomicRole → ℕ
arity r = 2

unfoldable pub get_inverse : AtomicRole → Role
get_inverse r =
    if r == top_object_role || r == bottom_object_role
    then atomic_role r
    else inverse_role (record { inverse_of = r })
