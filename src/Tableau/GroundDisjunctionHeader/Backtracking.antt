-- ===== src/Tableau/GroundDisjunctionHeader/Backtracking.antt =====
-- What a run of `GroundDisjunctionHeader::new` and `increase_number_of_backtrackings` gives.
use hermit_rs.Base.{
  ℕ, suc, ◌≡◌, refl, sym, ap, ◌∙◌, inl, inr, none, some, List, [], ◌∷◌, ◌++◌, arith, if◌then◌else◌,
  length, Bool-cases, nat_eq, ◌==◌,
}
use mathlib.Core.Option
use mathlib.Core.Logic.{◌≢◌}
use hermit_rs.Base.Int.{pos}
use hermit_rs.Collections.HashSet.{
  contains, contains-append, IsDistinct, IsDisjoint, append-IsDistinct, IsDisjoint-same,
}
use hermit_rs.Tableau.GroundDisjunctionHeader.{
  DisjunctIndexWithBacktrackings, GroundDisjunctionHeader, increment, increment_entry, max_i32,
  find_number, increase_number_of_backtrackings,
}
use hermit_rs.Tableau.GroundDisjunctionHeader.Sinking.{sink_in}
use hermit_rs.Tableau.GroundDisjunctionHeader.Raising.{
  raise, raise-IsSorted, raise-IsDistinct, contains-raise, find_number-raise, find_number-absent,
}
use hermit_rs.Tableau.GroundDisjunctionHeader.Valid.{
  IsValid, disjuncts, disjuncts_append, parts, raised, increase_lem,
}

find_number-append :
    (xs ys : List DisjunctIndexWithBacktrackings) (i : ℕ)
    → find_number (xs ++ ys) i
      ≡ (elim (find_number xs i) [ none ↦ find_number ys i | some n ↦ some n ])
unfolding find_number
find_number-append [] ys i = refl
find_number-append (x ∷ xs) ys i = ground (arith, find_number-append xs ys i)

length-sink_in :
    (x : DisjunctIndexWithBacktrackings) (g : List DisjunctIndexWithBacktrackings)
    → length (sink_in x g) ≡ suc (length g)
unfolding sink_in
length-sink_in x [] = refl
length-sink_in x (y ∷ g) = ground (arith, length-sink_in x g)

length-raise : (d : ℕ) (g : List DisjunctIndexWithBacktrackings) → length (raise d g) ≡ length g
unfolding raise
length-raise d [] = refl
length-raise d (x ∷ g) = ground (arith, length-raise d g, length-sink_in (increment_entry x) g)

module _ (h : GroundDisjunctionHeader) (d : ℕ) (v : IsValid h) where
  abbrev after : GroundDisjunctionHeader
  after = record h { disjunct_indexes_with_backtrackings = raised h d v }

  number_eq :
      (a b c : List DisjunctIndexWithBacktrackings) (i : ℕ)
      → find_number (a ++ (b ++ c)) i ≡ (elim (find_number a i) [
        | none ↦ elim (find_number b i) [ none ↦ find_number c i | some n ↦ some n ]
        | some n ↦ some n
      ])
  number_eq a b c i = ground (arith, find_number-append a (b ++ c) i, find_number-append b c i)

  number_of_entries :
      (i : ℕ)
      → find_number h.disjunct_indexes_with_backtrackings i
        ≡ find_number (v.other ++ (v.negative ++ v.positive)) i
  number_of_entries i = ap (λ l. find_number l i) v.entries

  raised-IsDistinct : IsDistinct (disjuncts (raised h d v))
  raised-IsDistinct =
      let (a, (n, (q, (apart, apart')))) = parts h d v in
      let ra = raise d v.other in
      let rn = raise d v.negative in
      let rq = raise d v.positive in
      rw (disjuncts_append ra rn rq) (
        append-IsDistinct (disjuncts ra) (disjuncts rn ++ disjuncts rq)
          (raise-IsDistinct d v.other a)
          (append-IsDistinct (disjuncts rn) (disjuncts rq) (raise-IsDistinct d v.negative n)
            (raise-IsDistinct d v.positive q)
            (IsDisjoint-same (disjuncts v.negative) (disjuncts v.positive) (disjuncts rn)
              (disjuncts rq) (contains-raise d v.negative) (contains-raise d v.positive) apart'))
          (IsDisjoint-same (disjuncts v.other) (disjuncts v.negative ++ disjuncts v.positive)
            (disjuncts ra) (disjuncts rn ++ disjuncts rq) (contains-raise d v.other)
            (λ i. ground (
              arith,
              contains-append (disjuncts rn) (disjuncts rq) i,
              contains-append (disjuncts v.negative) (disjuncts v.positive) i,
              contains-raise d v.negative i,
              contains-raise d v.positive i,
            ))
            apart))

  after-IsValid :
      find_number h.disjunct_indexes_with_backtrackings d ≢ some (pos max_i32) → IsValid after
  after-IsValid below = record {
    other = raise d v.other;
    negative = raise d v.negative;
    positive = raise d v.positive;
    entries = refl;
    first_negative = v.first_negative ∙ sym (length-raise d v.other);
    first_positive =
        omega (arith, v.first_positive, length-raise d v.other, length-raise d v.negative);
    distinct = raised-IsDistinct;
    other_sorted =
        raise-IsSorted d v.other
          (λ e.
            below (number_of_entries d ∙ ground (arith, number_eq v.other v.negative v.positive d)))
          v.other_sorted;
    negative_sorted =
        raise-IsSorted d v.negative
          (λ e. below (
            number_of_entries d
            ∙ ground (
              arith,
              number_eq v.other v.negative v.positive d,
              later v.negative v.other apart_negative,
            )))
          v.negative_sorted;
    positive_sorted =
        raise-IsSorted d v.positive
          (λ e. below (
            number_of_entries d
            ∙ ground (
              arith,
              number_eq v.other v.negative v.positive d,
              later v.positive v.other apart_positive,
              later v.positive v.negative (parts h d v).1.1.1.1,
            )))
          v.positive_sorted;
    other_members = λ i. contains-raise d v.other i ∙ v.other_members i;
    negative_members = λ i. contains-raise d v.negative i ∙ v.negative_members i;
    positive_members = λ i. contains-raise d v.positive i ∙ v.positive_members i;
  }
    where
      apart_negative : IsDisjoint (disjuncts v.other) (disjuncts v.negative)
      apart_negative i c = ground (
        arith,
        (parts h d v).1.1.1.0 i c,
        contains-append (disjuncts v.negative) (disjuncts v.positive) i,
      )

      apart_positive : IsDisjoint (disjuncts v.other) (disjuncts v.positive)
      apart_positive i c = ground (
        arith,
        (parts h d v).1.1.1.0 i c,
        contains-append (disjuncts v.negative) (disjuncts v.positive) i,
      )

      later :
          (g g' : List DisjunctIndexWithBacktrackings)
          → IsDisjoint (disjuncts g') (disjuncts g)
          → find_number g d ≡ some (pos max_i32)
          → find_number g' d ≡ none
      later g g' apart e = find_number-absent g' d (elim (Bool-cases (contains (disjuncts g') d)) [
        | inl t ↦ absurd (ground (arith, apart d t, find_number-absent g d))
        | inr t ↦ t
      ])

  -- For a well-formed header in which the disjunct has not yet the largest number of
  -- backtrackings that an `i32` holds, `increase_number_of_backtrackings` does not panic and
  -- keeps the header well formed: the three partitions keep their disjuncts, and each stays
  -- sorted by the number of backtrackings.
  pub increase-IsValid :
      find_number h.disjunct_indexes_with_backtrackings d ≢ some (pos max_i32)
      → (r : GroundDisjunctionHeader) × ((increase_number_of_backtrackings h d ≡ some r)
          × IsValid r)
  increase-IsValid below = (after, (increase_lem h d v, after-IsValid below))

  -- For a well-formed header, `increase_number_of_backtrackings` does not panic; the number of
  -- the disjunct is then incremented, if the header has the disjunct, and the numbers of the
  -- others are as before.
  pub find_number-increase :
      (r : GroundDisjunctionHeader) × ((increase_number_of_backtrackings h d ≡ some r)
        × ((i : ℕ)
            → find_number r.disjunct_indexes_with_backtrackings i ≡ (
                if d == i
                then Option.map increment (find_number h.disjunct_indexes_with_backtrackings i)
                else find_number h.disjunct_indexes_with_backtrackings i)))
  find_number-increase =
      let (a, (n, (q, _))) = parts h d v in
      (
        after,
        (
          increase_lem h d v,
          λ i. ground (
            arith,
            number_of_entries i,
            number_eq v.other v.negative v.positive i,
            number_eq (raise d v.other) (raise d v.negative) (raise d v.positive) i,
            find_number-raise d v.other i a,
            find_number-raise d v.negative i n,
            find_number-raise d v.positive i q,
          ),
        ),
      )
