-- ===== src/Model/DlClause/RoleShapes.antt =====
-- The tests of clause.rs that recognise role inclusions, against the shapes that they stand for.
use hermit_rs.Base.{
  ℕ, ◌≡◌, ◌≢◌, ◌↔◌, true, [], ◌∷◌, some, arith, length, get_elem?, ==_iff, ◌∙◌, ap, sym,
}
use hermit_rs.Model.Types.{AtomicRole, Variable, Term, Atom, DlClause, variable}
use hermit_rs.Model.Sameness.{variable_eq, term_eq}
use hermit_rs.Model.DlPredicate
use hermit_rs.Model.DlClause.Classify.{
  is_variable_term, role_inclusion_atoms, is_atomic_role_inclusion,
  is_atomic_role_inverse_inclusion,
}
use hermit_rs.Model.DlClause.Shapes.{
  role_atom, single, two_of, atomic_role_of, variable_of, on_single_atoms-shape,
}

role_inclusion_atoms-tests :
    (i j : ℕ) (b h : Atom)
    → role_inclusion_atoms i j b h ≡ some true
    → (length b.arguments ≡ 2)
      × (length h.arguments ≡ 2)
      × (DlPredicate.is_role b.dl_predicate ≡ true)
      × (DlPredicate.is_role h.dl_predicate ≡ true)
unfolding role_inclusion_atoms
role_inclusion_atoms-tests i j b h e = ground arith

role_inclusion_arguments :
    (i j : ℕ) (b h : Atom) (t u v w : Term)
    → b.arguments ≡ t ∷ u ∷ []
    → get_elem? h.arguments i ≡ some v
    → get_elem? h.arguments j ≡ some w
    → role_inclusion_atoms i j b h ≡ some true
    → (is_variable_term t ≡ true) × (is_variable_term u ≡ true) × (t ≢ u) × (t ≡ v) × (u ≡ w)
unfolding role_inclusion_atoms
role_inclusion_arguments i j b h t u v w p q r e =
    ground (arith, ==_iff t u, ==_iff t v, ==_iff u w)

role_inclusion_atoms-shape :
    (b h : Atom)
    → role_inclusion_atoms 0 1 b h ≡ some true
    → (sub super : AtomicRole) × (x y : Variable) × (x ≢ y)
      × (b ≡ role_atom sub x y)
      × (h ≡ role_atom super x y)
role_inclusion_atoms-shape b h e =
    let (lb, lh, pb, ph) = role_inclusion_atoms-tests 0 1 b h e in
    let (t, u, eb) = two_of b.arguments lb in
    let (v, w, eh) = two_of h.arguments lh in
    let (vt, vu, ne, tv, uw) =
      role_inclusion_arguments 0 1 b h t u v w eb (ap (λ l. get_elem? l 0) eh)
        (ap (λ l. get_elem? l 1) eh) e in
    let (sub, esub) = atomic_role_of b.dl_predicate pb in
    let (super, esuper) = atomic_role_of h.dl_predicate ph in
    let (x, ex) = variable_of t vt in
    let (y, ey) = variable_of u vu in
    (sub, super, x, y, λ same. ne (ex ∙ ap variable same ∙ sym ey), ground arith, ground arith)

inverse_inclusion_atoms-shape :
    (b h : Atom)
    → role_inclusion_atoms 1 0 b h ≡ some true
    → (sub super : AtomicRole) × (x y : Variable) × (x ≢ y)
      × (b ≡ role_atom sub x y)
      × (h ≡ role_atom super y x)
inverse_inclusion_atoms-shape b h e =
    let (lb, lh, pb, ph) = role_inclusion_atoms-tests 1 0 b h e in
    let (t, u, eb) = two_of b.arguments lb in
    let (v, w, eh) = two_of h.arguments lh in
    let (vt, vu, ne, tw, uv) =
      role_inclusion_arguments 1 0 b h t u w v eb (ap (λ l. get_elem? l 1) eh)
        (ap (λ l. get_elem? l 0) eh) e in
    let (sub, esub) = atomic_role_of b.dl_predicate pb in
    let (super, esuper) = atomic_role_of h.dl_predicate ph in
    let (x, ex) = variable_of t vt in
    let (y, ey) = variable_of u vu in
    (sub, super, x, y, λ same. ne (ex ∙ ap variable same ∙ sym ey), ground arith, ground arith)

role_inclusion_atoms-shaped :
    (sub super : AtomicRole) (x y : Variable)
    → x ≢ y
    → (role_inclusion_atoms 0 1 (role_atom sub x y) (role_atom super x y) ≡ some true)
      × (role_inclusion_atoms 1 0 (role_atom sub x y) (role_atom super y x) ≡ some true)
unfolding role_inclusion_atoms DlPredicate.is_role is_variable_term
role_inclusion_atoms-shaped sub super x y n = ground (arith, ==_iff x x, ==_iff y y, ==_iff x y)

-- `is_atomic_role_inclusion` holds exactly of the clauses s(x, y) :- r(x, y) of two atomic roles
-- over two distinct variables.
pub is_atomic_role_inclusion_iff :
    (c : DlClause)
    → (is_atomic_role_inclusion c ≡ some true) ↔ (
        (sub super : AtomicRole) × (x y : Variable) × (x ≢ y)
        × (c ≡ single (role_atom sub x y) (role_atom super x y)))
unfolding is_atomic_role_inclusion
is_atomic_role_inclusion_iff c = (
  λ e.
      let (b, h, ec, passed) = on_single_atoms-shape (role_inclusion_atoms 0 1) c e in
      let (sub, super, x, y, n, eb, eh) = role_inclusion_atoms-shape b h passed in
      (sub, super, x, y, n, ground arith),
  λ (sub, super, x, y, n, ec). rw ec (role_inclusion_atoms-shaped sub super x y n).0,
)

-- The test `is_atomic_role_inverse_inclusion` holds exactly of the clauses s(y, x) :- r(x, y) of
-- two atomic roles over two distinct variables.
pub is_atomic_role_inverse_inclusion_iff :
    (c : DlClause)
    → (is_atomic_role_inverse_inclusion c ≡ some true) ↔ (
        (sub super : AtomicRole) × (x y : Variable) × (x ≢ y)
        × (c ≡ single (role_atom sub x y) (role_atom super y x)))
unfolding is_atomic_role_inverse_inclusion
is_atomic_role_inverse_inclusion_iff c = (
  λ e.
      let (b, h, ec, passed) = on_single_atoms-shape (role_inclusion_atoms 1 0) c e in
      let (sub, super, x, y, n, eb, eh) = inverse_inclusion_atoms-shape b h passed in
      (sub, super, x, y, n, ground arith),
  λ (sub, super, x, y, n, ec). rw ec (role_inclusion_atoms-shaped sub super x y n).1,
)
