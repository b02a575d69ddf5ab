-- ===== src/Tableau/GroundDisjunctionHeader/Valid.antt =====
-- The well-formedness of a `GroundDisjunctionHeader`, and that the counting of backtrackings
-- keeps it.
use hermit_rs.Base.{
  ℕ, suc, ◌+◌, ◌≤◌, ◌<◌, ◌≡◌, refl, sym, ap, ◌∙◌, subst, inl, inr, true, false, ◌||◌, Option, none,
  some, List, [], ◌∷◌, ◌++◌, map, arith, length, get_elem?, Bool-cases, nat_eq, ◌==◌,
  get_elem?-middle, length-append,
}
use hermit_rs.Base.Panic.{◌>>=◌}
use hermit_rs.Base.Vectors.{set_elem?, set_elem?-middle, append_assoc, map-append, append_nil}
use hermit_rs.Collections.HashSet.{
  contains, contains-append, IsDistinct, IsDisjoint, IsDistinct-append,
}
use hermit_rs.Tableau.GroundDisjunctionHeader.{
  DisjunctIndexWithBacktrackings, GroundDisjunctionHeader, position, increment_entry, partition_end,
  increase_number_of_backtrackings,
}
use hermit_rs.Tableau.GroundDisjunctionHeader.Sinking.{index_of, sink_in, IsSorted, sink_lem}
use hermit_rs.Tableau.GroundDisjunctionHeader.Raising.{raise}
use hermit_rs.Tableau.GroundDisjunctionHeader.Order.{indexes_of, is_other, is_negative, is_positive}

abbrev pub disjuncts : List DisjunctIndexWithBacktrackings → List ℕ
disjuncts = map index_of

-- The entries stand in three partitions, each sorted by the number of backtrackings; together
-- they have each disjunct once, and each partition has the disjuncts of its group.
pub record IsValid (h : GroundDisjunctionHeader) : Type 0 where
  pub other : List DisjunctIndexWithBacktrackings
  pub negative : List DisjunctIndexWithBacktrackings
  pub positive : List DisjunctIndexWithBacktrackings
  pub entries : h.disjunct_indexes_with_backtrackings ≡ other ++ (negative ++ positive)
  pub first_negative : h.first_at_least_negative_index ≡ length other
  pub first_positive : h.first_at_least_positive_index ≡ length other + length negative
  pub distinct : IsDistinct (map index_of h.disjunct_indexes_with_backtrackings)
  pub other_sorted : IsSorted other
  pub negative_sorted : IsSorted negative
  pub positive_sorted : IsSorted positive
  pub other_members :
      (i : ℕ) → contains (map index_of other) i ≡ contains (indexes_of is_other 0 h.dl_predicates) i
  pub negative_members :
      (i : ℕ)
      → contains (map index_of negative) i ≡ contains (indexes_of is_negative 0 h.dl_predicates) i
  pub positive_members :
      (i : ℕ)
      → contains (map index_of positive) i ≡ contains (indexes_of is_positive 0 h.dl_predicates) i

position-absent :
    (d : ℕ) (v : List DisjunctIndexWithBacktrackings)
    → contains (disjuncts v) d ≡ false
    → position d v ≡ none
unfolding position
position-absent d [] h = refl
position-absent d (x ∷ v) h = ground (arith, position-absent d v)

raise-absent :
    (d : ℕ) (v : List DisjunctIndexWithBacktrackings)
    → contains (disjuncts v) d ≡ false
    → raise d v ≡ v
unfolding raise
raise-absent d [] h = refl
raise-absent d (x ∷ v) h = ground (arith, raise-absent d v)

position-middle :
    (d : ℕ) (pre : List DisjunctIndexWithBacktrackings) (x : DisjunctIndexWithBacktrackings)
    (suf : List DisjunctIndexWithBacktrackings)
    → contains (disjuncts pre) d ≡ false
    → (x.disjunct_index == d) ≡ true
    → position d (pre ++ x ∷ suf) ≡ some (length pre)
unfolding position
position-middle d [] x suf h e = ground arith
position-middle d (y ∷ pre) x suf h e = ground (arith, position-middle d pre x suf)

-- A list that has a disjunct is split at its entry.
record Found (d : ℕ) (g : List DisjunctIndexWithBacktrackings) : Type 0 where
  pre : List DisjunctIndexWithBacktrackings
  at : DisjunctIndexWithBacktrackings
  mid : List DisjunctIndexWithBacktrackings
  split : g ≡ pre ++ at ∷ mid
  raised : raise d g ≡ pre ++ sink_in (increment_entry at) mid
  absent : contains (disjuncts pre) d ≡ false
  same : (at.disjunct_index == d) ≡ true

find :
    (d : ℕ) (g : List DisjunctIndexWithBacktrackings) → contains (disjuncts g) d ≡ true → Found d g
unfolding raise
find d [] h = absurd (ground arith)
find d (x ∷ g) h = elim (Bool-cases (x.disjunct_index == d)) [
  | inl t ↦ record {
    pre = [];
    at = x;
    mid = g;
    split = refl;
    raised = rw (t, raise) refl;
    absent = refl;
    same = t;
  }
  | inr t ↦
      let f = find d g (ground arith) in
      record {
        pre = x ∷ f.pre;
        at = f.at;
        mid = f.mid;
        split = ap (◌∷◌ x) f.split;
        raised = rw (t, raise) (ap (◌∷◌ x) f.raised);
        absent = ground (arith, f.absent);
        same = f.same;
      }
]

-- The whole operation, at the place of the entry.
increase_at :
    (h : GroundDisjunctionHeader) (d : ℕ) (front : List DisjunctIndexWithBacktrackings)
    (x : DisjunctIndexWithBacktrackings) (mid post : List DisjunctIndexWithBacktrackings)
    → h.disjunct_indexes_with_backtrackings ≡ front ++ x ∷ (mid ++ post)
    → contains (disjuncts front) d ≡ false
    → (x.disjunct_index == d) ≡ true
    → partition_end h (length front) ≡ length front + suc (length mid)
    → increase_number_of_backtrackings h d
      ≡ some (record h {
        disjunct_indexes_with_backtrackings = front ++ (sink_in (increment_entry x) mid ++ post);
      })
unfolding increase_number_of_backtrackings
increase_at h d front x mid post e absent same end =
    let y = increment_entry x in
    let rest = mid ++ post in
    let v = h.disjunct_indexes_with_backtrackings in
    let at = ap (position d) e ∙ position-middle d front x rest absent same in
    let read = ap (λ l. get_elem? l (length front)) e ∙ get_elem?-middle front x rest in
    let write = ap (λ l. set_elem? l (length front) y) e ∙ set_elem?-middle front x y rest in
    let enough : length mid < suc (length v) =
      omega (arith, ap length e, length-append front (x ∷ rest), length-append mid post) in
    rw
      (
        increase_number_of_backtrackings,
        at,
        read,
        ◌>>=◌,
        write,
        end,
        sink_lem (suc (length v)) front y mid post enough,
      )
      refl

-- The whole operation, in a partition that has the disjunct.
increase_in :
    (h : GroundDisjunctionHeader) (d : ℕ) (before g post : List DisjunctIndexWithBacktrackings)
    → h.disjunct_indexes_with_backtrackings ≡ before ++ (g ++ post)
    → contains (disjuncts before) d ≡ false
    → contains (disjuncts g) d ≡ true
    → ((n : ℕ)
        → length before ≤ n
        → n < length before + length g
        → partition_end h n ≡ length before + length g)
    → increase_number_of_backtrackings h d
      ≡ some (record h { disjunct_indexes_with_backtrackings = before ++ (raise d g ++ post) })
increase_in h d before g post e absent present end =
    let f = find d g present in
    let y = increment_entry f.at in
    let front = before ++ f.pre in
    let size : length g ≡ length f.pre + suc (length f.mid) =
      ap length f.split ∙ length-append f.pre (f.at ∷ f.mid) in
    let size' : length front ≡ length before + length f.pre = length-append before f.pre in
    let here : h.disjunct_indexes_with_backtrackings ≡ front ++ f.at ∷ (f.mid ++ post) =
      e
      ∙ ap (λ l. before ++ (l ++ post)) f.split
      ∙ ap (λ l. before ++ l) (append_assoc f.pre (f.at ∷ f.mid) post)
      ∙ sym (append_assoc before f.pre (f.at ∷ (f.mid ++ post))) in
    let clear : contains (disjuncts front) d ≡ false =
      rw (map-append index_of before f.pre)
        (ground (arith, contains-append (disjuncts before) (disjuncts f.pre) d, f.absent)) in
    let there : front ++ (sink_in y f.mid ++ post) ≡ before ++ (raise d g ++ post) =
      append_assoc before f.pre (sink_in y f.mid ++ post)
      ∙ ap (λ l. before ++ l) (sym (append_assoc f.pre (sink_in y f.mid) post))
      ∙ ap (λ l. before ++ (l ++ post)) (sym f.raised) in
    increase_at h d front f.at f.mid post here clear f.same
      (end (length front) (omega arith) (omega arith) ∙ omega arith)
    ∙ ap (λ l. some (record h { disjunct_indexes_with_backtrackings = l })) there

increase_absent :
    (h : GroundDisjunctionHeader) (d : ℕ)
    → contains (disjuncts h.disjunct_indexes_with_backtrackings) d ≡ false
    → increase_number_of_backtrackings h d ≡ some h
unfolding increase_number_of_backtrackings
increase_absent h d absent =
    rw
      (
        increase_number_of_backtrackings,
        position-absent d h.disjunct_indexes_with_backtrackings absent,
      )
      refl

pub disjuncts_append :
    (a b c : List DisjunctIndexWithBacktrackings)
    → disjuncts (a ++ (b ++ c)) ≡ disjuncts a ++ (disjuncts b ++ disjuncts c)
disjuncts_append a b c =
    map-append index_of a (b ++ c) ∙ ap (λ l. disjuncts a ++ l) (map-append index_of b c)

pub disjuncts_eq :
    {h : GroundDisjunctionHeader} (v : IsValid h)
    → disjuncts h.disjunct_indexes_with_backtrackings
      ≡ disjuncts v.other ++ (disjuncts v.negative ++ disjuncts v.positive)
disjuncts_eq v = ap disjuncts v.entries ∙ disjuncts_append v.other v.negative v.positive

module _ (h : GroundDisjunctionHeader) (d : ℕ) (v : IsValid h) where
  abbrev pub raised : List DisjunctIndexWithBacktrackings
  raised = raise d v.other ++ (raise d v.negative ++ raise d v.positive)

  pub parts :
      IsDistinct (disjuncts v.other)
      × (IsDistinct (disjuncts v.negative)
          × (IsDistinct (disjuncts v.positive)
              × (IsDisjoint (disjuncts v.other) (disjuncts v.negative ++ disjuncts v.positive)
                  × IsDisjoint (disjuncts v.negative) (disjuncts v.positive))))
  parts =
      let all : IsDistinct (disjuncts v.other ++ (disjuncts v.negative ++ disjuncts v.positive)) =
        subst IsDistinct (disjuncts_eq v) v.distinct in
      let (a, (r, apart)) =
        IsDistinct-append (disjuncts v.other) (disjuncts v.negative ++ disjuncts v.positive) all in
      let (n, (q, apart')) = IsDistinct-append (disjuncts v.negative) (disjuncts v.positive) r in
      (a, (n, (q, (apart, apart'))))

  size :
      length h.disjunct_indexes_with_backtrackings
      ≡ length v.other + length v.negative + length v.positive
  size = omega (
    arith,
    ap length v.entries,
    length-append v.other (v.negative ++ v.positive),
    length-append v.negative v.positive,
  )

  abbrev pub with_entries : List DisjunctIndexWithBacktrackings → Option GroundDisjunctionHeader
  with_entries l = some (record h { disjunct_indexes_with_backtrackings = l })

  -- The three partitions of the result; a partition without the disjunct stays.
  pub increase_lem : increase_number_of_backtrackings h d ≡ with_entries raised
  unfolding partition_end
  increase_lem = elim (Bool-cases (contains (disjuncts v.other) d)) [
    | inl a ↦
        let no_negative = raise-absent d v.negative (ground (arith, apart d a, both d)) in
        let no_positive = raise-absent d v.positive (ground (arith, apart d a, both d)) in
        increase_in h d [] v.other (v.negative ++ v.positive) v.entries refl a
          (λ n low high. ground (arith, v.first_negative))
        ∙ ap (λ l. with_entries (raise d v.other ++ (l ++ v.positive))) (sym no_negative)
        ∙ ap (λ l. with_entries (raise d v.other ++ (raise d v.negative ++ l))) (sym no_positive)
    | inr a ↦ elim (Bool-cases (contains (disjuncts v.negative) d)) [
      | inl n ↦
          let no_positive = raise-absent d v.positive (apart' d n) in
          increase_in h d v.other v.negative v.positive v.entries a n
            (λ k low high. ground (arith, v.first_negative, v.first_positive))
          ∙ ap (λ l. with_entries (v.other ++ (raise d v.negative ++ l))) (sym no_positive)
          ∙ ap (λ l. with_entries (l ++ (raise d v.negative ++ raise d v.positive)))
              (sym (raise-absent d v.other a))
      | inr n ↦ elim (Bool-cases (contains (disjuncts v.positive) d)) [
        | inl q ↦
            increase_in h d (v.other ++ v.negative) v.positive []
              (v.entries ∙ shape v.other v.negative v.positive)
              (rw (map-append index_of v.other v.negative)
                (ground (arith, contains-append (disjuncts v.other) (disjuncts v.negative) d)))
              q
              (λ k low high.
                ground (
                  arith,
                  v.first_negative,
                  v.first_positive,
                  size,
                  length-append v.other v.negative,
                ))
            ∙ ap with_entries (sym (shape v.other v.negative (raise d v.positive)))
            ∙ ap (λ l. with_entries (v.other ++ (l ++ raise d v.positive)))
                (sym (raise-absent d v.negative n))
            ∙ ap (λ l. with_entries (l ++ (raise d v.negative ++ raise d v.positive)))
                (sym (raise-absent d v.other a))
        | inr q ↦
            increase_absent h d (
              rw (disjuncts_eq v) (
                ground (
                  arith,
                  contains-append (disjuncts v.other) (disjuncts v.negative ++ disjuncts v.positive)
                      d,
                  both d,
                )))
            ∙ ap with_entries v.entries
            ∙ ap (λ l. with_entries (v.other ++ (v.negative ++ l)))
                (sym (raise-absent d v.positive q))
            ∙ ap (λ l. with_entries (v.other ++ (l ++ raise d v.positive)))
                (sym (raise-absent d v.negative n))
            ∙ ap (λ l. with_entries (l ++ (raise d v.negative ++ raise d v.positive)))
                (sym (raise-absent d v.other a))
      ]
    ]
  ]
    where
      apart : IsDisjoint (disjuncts v.other) (disjuncts v.negative ++ disjuncts v.positive)
      apart = parts.1.1.1.0

      apart' : IsDisjoint (disjuncts v.negative) (disjuncts v.positive)
      apart' = parts.1.1.1.1

      both :
          (i : ℕ)
          → contains (disjuncts v.negative ++ disjuncts v.positive) i
            ≡ (contains (disjuncts v.negative) i || contains (disjuncts v.positive) i)
      both i = contains-append (disjuncts v.negative) (disjuncts v.positive) i

      shape : (a b c : List DisjunctIndexWithBacktrackings) → a ++ (b ++ c) ≡ (a ++ b) ++ (c ++ [])
      shape a b c = sym (append_assoc a b c) ∙ ap (λ l. (a ++ b) ++ l) (sym (append_nil c))
