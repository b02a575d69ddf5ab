-- ===== src/Model/DlClause/Shapes.antt =====
-- The tests of clause.rs that recognise inclusions, against the shapes of clause that they stand for.
use hermit_rs.Base.{◌≡◌, refl, ◌↔◌, Bool, true, List, [], ◌∷◌, Option, some, arith, length, ==_iff}
use hermit_rs.Model.Types.{
  AtomicConcept, AtomicRole, Variable, Term, DlPredicate, Atom, DlClause, variable,
}
use hermit_rs.Model.Sameness.{variable_eq, term_eq}
use hermit_rs.Model.DlPredicate
use hermit_rs.Model.DlClause.Classify.{
  is_variable_term, concept_inclusion_atoms, on_single_atoms, is_atomic_concept_inclusion,
}

-- A(x).
abbrev pub concept_atom : AtomicConcept → Variable → Atom
concept_atom a x = record {
  dl_predicate = DlPredicate.atomic_concept a;
  arguments = variable x ∷ [];
}

-- r(x, y).
abbrev pub role_atom : AtomicRole → Variable → Variable → Atom
role_atom r x y = record {
  dl_predicate = DlPredicate.atomic_role r;
  arguments = variable x ∷ variable y ∷ [];
}

abbrev pub single : Atom → Atom → DlClause
single body head = record { head_atoms = head ∷ []; body_atoms = body ∷ [] }

atomic_concept_of :
    (p : DlPredicate)
    → DlPredicate.is_atomic_concept p ≡ true
    → (a : AtomicConcept) × (p ≡ DlPredicate.atomic_concept a)
unfolding DlPredicate.is_atomic_concept
atomic_concept_of (DlPredicate.atomic_concept a) h = (a, refl)
atomic_concept_of _ h = absurd (ground arith)

pub atomic_role_of :
    (p : DlPredicate)
    → DlPredicate.is_role p ≡ true
    → (r : AtomicRole) × (p ≡ DlPredicate.atomic_role r)
unfolding DlPredicate.is_role
atomic_role_of (DlPredicate.atomic_role a) h = (a, refl)
atomic_role_of _ h = absurd (ground arith)

pub variable_of : (t : Term) → is_variable_term t ≡ true → (x : Variable) × (t ≡ variable x)
unfolding is_variable_term
variable_of (variable x) h = (x, refl)
variable_of _ h = absurd (ground arith)

pub one_of {ℓ} : {A : Type ℓ} (xs : List A) → length xs ≡ 1 → (x : A) × (xs ≡ x ∷ [])
one_of [] h = absurd (omega arith)
one_of (x ∷ []) h = (x, refl)
one_of (x ∷ y ∷ xs) h = absurd (omega arith)

pub two_of {ℓ} : {A : Type ℓ} (xs : List A) → length xs ≡ 2 → (x : A) × (y : A) × (xs ≡ x ∷ y ∷ [])
two_of [] h = absurd (omega arith)
two_of (x ∷ []) h = absurd (omega arith)
two_of (x ∷ y ∷ []) h = (x, y, refl)
two_of (x ∷ y ∷ z ∷ xs) h = absurd (omega arith)

concept_inclusion_atoms-tests :
    (b h : Atom)
    → concept_inclusion_atoms b h ≡ some true
    → (length b.arguments ≡ 1)
      × (length h.arguments ≡ 1)
      × (DlPredicate.is_atomic_concept b.dl_predicate ≡ true)
      × (DlPredicate.is_atomic_concept h.dl_predicate ≡ true)
unfolding concept_inclusion_atoms
concept_inclusion_atoms-tests b h e = ground arith

concept_inclusion_arguments :
    (b h : Atom) (t u : Term)
    → b.arguments ≡ t ∷ []
    → h.arguments ≡ u ∷ []
    → concept_inclusion_atoms b h ≡ some true
    → (is_variable_term t ≡ true) × (t ≡ u)
unfolding concept_inclusion_atoms
concept_inclusion_arguments b h t u p q e = ground (arith, ==_iff t u)

concept_inclusion_atoms-shape :
    (b h : Atom)
    → concept_inclusion_atoms b h ≡ some true
    → (sub super : AtomicConcept) × (x : Variable) × (b ≡ concept_atom sub x)
      × (h ≡ concept_atom super x)
concept_inclusion_atoms-shape b h e =
    let (lb, lh, pb, ph) = concept_inclusion_atoms-tests b h e in
    let (t, et) = one_of b.arguments lb in
    let (u, eu) = one_of h.arguments lh in
    let (var, same) = concept_inclusion_arguments b h t u et eu e in
    let (sub, esub) = atomic_concept_of b.dl_predicate pb in
    let (super, esuper) = atomic_concept_of h.dl_predicate ph in
    let (x, ex) = variable_of t var in (sub, super, x, ground arith, ground arith)

concept_inclusion_atoms-shaped :
    (sub super : AtomicConcept) (x : Variable)
    → concept_inclusion_atoms (concept_atom sub x) (concept_atom super x) ≡ some true
unfolding concept_inclusion_atoms DlPredicate.is_atomic_concept is_variable_term
concept_inclusion_atoms-shaped sub super x = ground (arith, ==_iff x x)

-- A test on the two atoms passes exactly where there is one body atom and one head atom and they
-- pass.
pub on_single_atoms-shape :
    (f : Atom → Atom → Option Bool) (c : DlClause)
    → on_single_atoms f c ≡ some true
    → (b h : Atom) × (c ≡ single b h) × (f b h ≡ some true)
unfolding on_single_atoms
on_single_atoms-shape f c e =
    let (one_b, one_h) = counts in
    let (b, eb) = one_of c.body_atoms one_b in
    let (h, eh) = one_of c.head_atoms one_h in (b, h, ground arith, ground arith)
  where
    counts : (length c.body_atoms ≡ 1) × (length c.head_atoms ≡ 1)
    counts = ground arith

pub on_single_atoms-shaped :
    (f : Atom → Atom → Option Bool) (b h : Atom) → on_single_atoms f (single b h) ≡ f b h
unfolding on_single_atoms
on_single_atoms-shaped f b h = refl

-- `is_atomic_concept_inclusion` holds exactly of the clauses B(x) :- A(x) of two atomic concepts
-- over one variable.
pub is_atomic_concept_inclusion_iff :
    (c : DlClause)
    → (is_atomic_concept_inclusion c ≡ some true) ↔ (
        (sub super : AtomicConcept) × (x : Variable) × (c
          ≡ single (concept_atom sub x) (concept_atom super x)))
unfolding is_atomic_concept_inclusion
is_atomic_concept_inclusion_iff c = (
  λ e.
      let (b, h, ec, passed) = on_single_atoms-shape concept_inclusion_atoms c e in
      let (sub, super, x, eb, eh) = concept_inclusion_atoms-shape b h passed in
      (sub, super, x, ground arith),
  λ (sub, super, x, ec). rw ec (concept_inclusion_atoms-shaped sub super x),
)
