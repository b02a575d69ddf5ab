-- ===== src/Tableau/GroundDisjunctionHeader/Start.antt =====
-- That `GroundDisjunctionHeader::new` gives a well-formed header.
use hermit_rs.Base.{
  ℕ, suc, ◌≤◌, ◌≡◌, refl, sym, ap, ◌∙◌, subst, inl, inr, true, false, some, List, [], ◌∷◌, ◌++◌,
  map, arith, Bool-cases, All, nat_eq, length-map,
}
use hermit_rs.Base.Vectors.{map-append}
use hermit_rs.Model.Types.{DlPredicate}
use hermit_rs.Collections.HashSet.{
  contains, IsDistinct, IsDisjoint, append-IsDistinct, IsDisjoint-append,
}
use hermit_rs.Tableau.GroundDisjunctionHeader.{GroundDisjunctionHeader, new, new_entry}
use hermit_rs.Tableau.GroundDisjunctionHeader.Sinking.{NoMore, IsSorted}
use hermit_rs.Tableau.GroundDisjunctionHeader.Order.{
  Groups, indexes_of, indexes_of-Groups, is_other, is_negative, is_positive, new_correct,
}
use hermit_rs.Tableau.GroundDisjunctionHeader.Valid.{IsValid, disjuncts}

-- The indexes in the groups start at `i`.
abbrev IsFrom : ℕ → List ℕ → Type 0
IsFrom i xs = (j : ℕ) → contains xs j ≡ true → i ≤ j

cons-IsFrom : (i : ℕ) (xs : List ℕ) → IsFrom (suc i) xs → IsFrom i (i ∷ xs)
cons-IsFrom i xs h j c = ground (arith, h j)

weaken : (i : ℕ) (xs : List ℕ) → IsFrom (suc i) xs → IsFrom i xs
weaken i xs h j c = omega (arith, h j c)

IsFrom-absent : (i : ℕ) (xs : List ℕ) → IsFrom (suc i) xs → contains xs i ≡ false
IsFrom-absent i xs h = elim (Bool-cases (contains xs i)) [
  | inl t ↦ absurd (omega (arith, h i t))
  | inr t ↦ t
]

record Separate (i : ℕ) (a n q : List ℕ) : Type 0 where
  from_other : IsFrom i a
  from_negative : IsFrom i n
  from_positive : IsFrom i q
  distinct_other : IsDistinct a
  distinct_negative : IsDistinct n
  distinct_positive : IsDistinct q
  other_negative : IsDisjoint a n
  other_positive : IsDisjoint a q
  negative_positive : IsDisjoint n q

cons_left : (i : ℕ) (xs ys : List ℕ) → IsFrom (suc i) ys → IsDisjoint xs ys → IsDisjoint (i ∷ xs) ys
cons_left i xs ys h d j c = ground (arith, IsFrom-absent i ys h, nat_eq.beq_iff i j, d j)

cons_right :
    (i : ℕ) (xs ys : List ℕ) → IsFrom (suc i) xs → IsDisjoint xs ys → IsDisjoint xs (i ∷ ys)
cons_right i xs ys h d j c = ground (arith, IsFrom-absent i xs h, nat_eq.beq_iff i j, d j c)

Groups-Separate :
    {i : ℕ} {ps : List DlPredicate} {a n q : List ℕ} → Groups i ps a n q → Separate i a n q
Groups-Separate Groups.nil = record {
  from_other = λ j c. absurd (ground arith);
  from_negative = λ j c. absurd (ground arith);
  from_positive = λ j c. absurd (ground arith);
  distinct_other = tt;
  distinct_negative = tt;
  distinct_positive = tt;
  other_negative = λ j c. refl;
  other_positive = λ j c. refl;
  negative_positive = λ j c. refl;
}
Groups-Separate {i} (Groups.put_other {a} {n} {q} p e g) =
    let s = Groups-Separate g in
    record {
      from_other = cons-IsFrom i a s.from_other;
      from_negative = weaken i n s.from_negative;
      from_positive = weaken i q s.from_positive;
      distinct_other = (IsFrom-absent i a s.from_other, s.distinct_other);
      distinct_negative = s.distinct_negative;
      distinct_positive = s.distinct_positive;
      other_negative = cons_left i a n s.from_negative s.other_negative;
      other_positive = cons_left i a q s.from_positive s.other_positive;
      negative_positive = s.negative_positive;
    }
Groups-Separate {i} (Groups.put_negative {a} {n} {q} p e g) =
    let s = Groups-Separate g in
    record {
      from_other = weaken i a s.from_other;
      from_negative = cons-IsFrom i n s.from_negative;
      from_positive = weaken i q s.from_positive;
      distinct_other = s.distinct_other;
      distinct_negative = (IsFrom-absent i n s.from_negative, s.distinct_negative);
      distinct_positive = s.distinct_positive;
      other_negative = cons_right i a n s.from_other s.other_negative;
      other_positive = s.other_positive;
      negative_positive = cons_left i n q s.from_positive s.negative_positive;
    }
Groups-Separate {i} (Groups.put_positive {a} {n} {q} p e g) =
    let s = Groups-Separate g in
    record {
      from_other = weaken i a s.from_other;
      from_negative = weaken i n s.from_negative;
      from_positive = cons-IsFrom i q s.from_positive;
      distinct_other = s.distinct_other;
      distinct_negative = s.distinct_negative;
      distinct_positive = (IsFrom-absent i q s.from_positive, s.distinct_positive);
      other_negative = s.other_negative;
      other_positive = cons_right i a q s.from_other s.other_positive;
      negative_positive = cons_right i n q s.from_negative s.negative_positive;
    }

disjuncts-new_entry : (xs : List ℕ) → disjuncts (map new_entry xs) ≡ xs
disjuncts-new_entry [] = refl
disjuncts-new_entry (x ∷ xs) = ap (◌∷◌ x) (disjuncts-new_entry xs)

new_entries-even : (i : ℕ) (xs : List ℕ) → All (λ y. NoMore (new_entry i) y) (map new_entry xs)
new_entries-even i [] = tt
new_entries-even i (x ∷ xs) = (omega arith, new_entries-even i xs)

new_entries-IsSorted : (xs : List ℕ) → IsSorted (map new_entry xs)
new_entries-IsSorted [] = tt
new_entries-IsSorted (x ∷ xs) = (new_entries-even x xs, new_entries-IsSorted xs)

-- The constructor `new` does not panic, and gives a well-formed header.
pub new-IsValid :
    (ps : List DlPredicate) → (h : GroundDisjunctionHeader) × ((new ps ≡ some h) × IsValid h)
new-IsValid ps = (
  _,
  (
    new_correct ps,
    record {
      other = map new_entry a;
      negative = map new_entry n;
      positive = map new_entry q;
      entries =
          map-append new_entry a (n ++ q)
          ∙ ap (λ l. map new_entry a ++ l) (map-append new_entry n q);
      first_negative = sym (length-map new_entry a);
      first_positive = omega (arith, length-map new_entry a, length-map new_entry n);
      distinct = subst IsDistinct (sym (disjuncts-new_entry (a ++ (n ++ q)))) (
          append-IsDistinct a (n ++ q) s.distinct_other
            (append-IsDistinct n q s.distinct_negative s.distinct_positive s.negative_positive)
            (IsDisjoint-append a n q s.other_negative s.other_positive));
      other_sorted = new_entries-IsSorted a;
      negative_sorted = new_entries-IsSorted n;
      positive_sorted = new_entries-IsSorted q;
      other_members = λ i. ap (λ l. contains l i) (disjuncts-new_entry a);
      negative_members = λ i. ap (λ l. contains l i) (disjuncts-new_entry n);
      positive_members = λ i. ap (λ l. contains l i) (disjuncts-new_entry q);
    },
  ),
)
  where
    a : List ℕ
    a = indexes_of is_other 0 ps

    n : List ℕ
    n = indexes_of is_negative 0 ps

    q : List ℕ
    q = indexes_of is_positive 0 ps

    s : Separate 0 a n q
    s = Groups-Separate (indexes_of-Groups 0 ps)
