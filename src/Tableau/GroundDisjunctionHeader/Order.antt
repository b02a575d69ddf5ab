-- ===== src/Tableau/GroundDisjunctionHeader/Order.antt =====
-- The order that `GroundDisjunctionHeader::new` gives to the disjuncts.
use hermit_rs.Base.{
  ℕ, suc, ◌+◌, ◌-◌, ◌≡◌, refl, sym, ap, ◌∙◌, Bool, true, false, Option, none, some, List, [], ◌∷◌,
  ◌++◌, map, arith, if◌then◌else◌, length, nat_eq, length-append,
}
use hermit_rs.Base.Vectors.{
  set_elem?, repeat, unwrap_all, set_elem?-append_left, set_elem?-append_right, repeat-add,
  unwrap_all-append, append_assoc, append_nil, map-append, length-repeat, unwrap_all-map_some,
}
use hermit_rs.Base.Int.{ℤ}
use hermit_rs.Model.Types.{DlPredicate, LiteralConcept, Role}
use hermit_rs.Tableau.GroundDisjunctionHeader.{
  DisjunctIndexWithBacktrackings, is_at_least_over_negated_atomic, collect_starts, count_at_least,
  new_entry, fill_slots, new,
}

-- The three groups of predicates: at-least concepts over the negation of an atomic concept, at-least
-- concepts over an atomic concept, and the other predicates.
abbrev pub is_negative : DlPredicate → Bool
is_negative (DlPredicate.at_least_concept p) = elim p.to_concept [
  | LiteralConcept.atomic_concept a ↦ false
  | LiteralConcept.atomic_negation_concept a ↦ true
]
is_negative _ = false

abbrev pub is_positive : DlPredicate → Bool
is_positive (DlPredicate.at_least_concept p) = elim p.to_concept [
  | LiteralConcept.atomic_concept a ↦ true
  | LiteralConcept.atomic_negation_concept a ↦ false
]
is_positive _ = false

abbrev pub is_other : DlPredicate → Bool
is_other (DlPredicate.at_least_concept p) = false
is_other _ = true

-- What `is_at_least_over_negated_atomic` says of the group of a predicate.
data Grouped (p : DlPredicate) : Type 0 where
  in_other :
      is_at_least_over_negated_atomic p ≡ none
      → is_other p ≡ true
      → is_negative p ≡ false
      → is_positive p ≡ false
      → Grouped p
  in_negative :
      is_at_least_over_negated_atomic p ≡ some true
      → is_other p ≡ false
      → is_negative p ≡ true
      → is_positive p ≡ false
      → Grouped p
  in_positive :
      is_at_least_over_negated_atomic p ≡ some false
      → is_other p ≡ false
      → is_negative p ≡ false
      → is_positive p ≡ true
      → Grouped p

at_least-Grouped :
    (n : ℤ) (r : Role) (c : LiteralConcept)
    → Grouped (DlPredicate.at_least_concept (record { number = n; on_role = r; to_concept = c }))
unfolding is_at_least_over_negated_atomic
at_least-Grouped n r (LiteralConcept.atomic_concept c) = Grouped.in_positive refl refl refl refl
at_least-Grouped n r (LiteralConcept.atomic_negation_concept c) =
    Grouped.in_negative refl refl refl refl

grouped : (p : DlPredicate) → Grouped p
unfolding is_at_least_over_negated_atomic
grouped (DlPredicate.at_least_concept p) = at_least-Grouped p.number p.on_role p.to_concept
grouped (DlPredicate.atomic_concept p) = Grouped.in_other refl refl refl refl
grouped (DlPredicate.atomic_role p) = Grouped.in_other refl refl refl refl
grouped (DlPredicate.at_least_data_range p) = Grouped.in_other refl refl refl refl
grouped (DlPredicate.annotated_equality p) = Grouped.in_other refl refl refl refl
grouped (DlPredicate.node_ids_ascending_or_equal p) = Grouped.in_other refl refl refl refl
grouped (DlPredicate.datatype_restriction p) = Grouped.in_other refl refl refl refl
grouped (DlPredicate.constant_enumeration p) = Grouped.in_other refl refl refl refl
grouped (DlPredicate.internal_datatype p) = Grouped.in_other refl refl refl refl
grouped (DlPredicate.atomic_negation_data_range p) = Grouped.in_other refl refl refl refl
grouped (DlPredicate.description_graph p) = Grouped.in_other refl refl refl refl
grouped (DlPredicate.exists_description_graph p) = Grouped.in_other refl refl refl refl
grouped DlPredicate.equality = Grouped.in_other refl refl refl refl
grouped DlPredicate.inequality = Grouped.in_other refl refl refl refl
grouped DlPredicate.node_id_less_equal_than = Grouped.in_other refl refl refl refl

-- The indexes, from `i` on, of the predicates in a group, in ascending order.
unfoldable pub indexes_of : (DlPredicate → Bool) → ℕ → List DlPredicate → List ℕ
indexes_of test i [] = []
indexes_of test i (p ∷ ps) =
    if test p then i ∷ indexes_of test (suc i) ps else indexes_of test (suc i) ps

-- The three groups together, one predicate after the other.
pub data Groups : ℕ → List DlPredicate → (other negative positive : List ℕ) → Type 0 where
  nil : {i : ℕ} → Groups i [] [] [] []
  put_other :
      {i : ℕ} {ps : List DlPredicate} {a n q : List ℕ} (p : DlPredicate)
      → is_at_least_over_negated_atomic p ≡ none
      → Groups (suc i) ps a n q
      → Groups i (p ∷ ps) (i ∷ a) n q
  put_negative :
      {i : ℕ} {ps : List DlPredicate} {a n q : List ℕ} (p : DlPredicate)
      → is_at_least_over_negated_atomic p ≡ some true
      → Groups (suc i) ps a n q
      → Groups i (p ∷ ps) a (i ∷ n) q
  put_positive :
      {i : ℕ} {ps : List DlPredicate} {a n q : List ℕ} (p : DlPredicate)
      → is_at_least_over_negated_atomic p ≡ some false
      → Groups (suc i) ps a n q
      → Groups i (p ∷ ps) a n (i ∷ q)

pub indexes_of-Groups :
    (i : ℕ) (ps : List DlPredicate)
    → Groups i ps
        (indexes_of is_other i ps)
        (indexes_of is_negative i ps)
        (indexes_of is_positive i ps)
unfolding indexes_of
indexes_of-Groups i [] = Groups.nil
indexes_of-Groups i (p ∷ ps) = elim (grouped p) [
  | Grouped.in_other e a b c ↦
      rw (indexes_of, a, b, c) (Groups.put_other p e (indexes_of-Groups (suc i) ps))
  | Grouped.in_negative e a b c ↦
      rw (indexes_of, a, b, c) (Groups.put_negative p e (indexes_of-Groups (suc i) ps))
  | Grouped.in_positive e a b c ↦
      rw (indexes_of, a, b, c) (Groups.put_positive p e (indexes_of-Groups (suc i) ps))
]

-- Filled slots, then empty ones.
abbrev block :
    List DisjunctIndexWithBacktrackings → ℕ → List (Option DisjunctIndexWithBacktrackings)
block ds r = map some ds ++ repeat r none

length-block :
    (ds : List DisjunctIndexWithBacktrackings) (r : ℕ) → length (block ds r) ≡ length ds + r
length-block [] r = omega (arith, length-repeat {A = Option DisjunctIndexWithBacktrackings} r none)
length-block (d ∷ ds) r = omega (arith, length-block ds r)

set_elem?-block :
    (ds : List DisjunctIndexWithBacktrackings) (r : ℕ) (d : DisjunctIndexWithBacktrackings)
    → set_elem? (block ds (suc r)) (length ds) (some d) ≡ some (block (ds ++ d ∷ []) r)
set_elem?-block [] r d = refl
set_elem?-block (e ∷ ds) r d = rw (set_elem?-block ds r d) refl

unwrap_all-block : (ds : List DisjunctIndexWithBacktrackings) → unwrap_all (block ds 0) ≡ some ds
unwrap_all-block ds = rw (append_nil (map some ds)) (unwrap_all-map_some ds)

count_at_least_lem :
    (x y : ℕ) {i : ℕ} {ps : List DlPredicate} {a n q : List ℕ}
    → Groups i ps a n q
    → count_at_least (x, y) ps ≡ (x + length q, y + length n)
unfolding count_at_least
count_at_least_lem x y Groups.nil = ground arith
count_at_least_lem x y (Groups.put_other p e g) = rw (e, count_at_least) (count_at_least_lem x y g)
count_at_least_lem x y (Groups.put_negative p e g) =
    rw (e, count_at_least, count_at_least_lem x (suc y) g) (ground arith)
count_at_least_lem x y (Groups.put_positive p e g) =
    rw (e, count_at_least, count_at_least_lem (suc x) y g) (ground arith)

length-Groups :
    {i : ℕ} {ps : List DlPredicate} {a n q : List ℕ}
    → Groups i ps a n q
    → length ps ≡ length a + length n + length q
length-Groups Groups.nil = refl
length-Groups (Groups.put_other p e g) = omega (arith, length-Groups g)
length-Groups (Groups.put_negative p e g) = omega (arith, length-Groups g)
length-Groups (Groups.put_positive p e g) = omega (arith, length-Groups g)

abbrev slots :
    (a n q : List DisjunctIndexWithBacktrackings) (ra rn rq : ℕ)
    → List (Option DisjunctIndexWithBacktrackings)
slots a n q ra rn rq = block a ra ++ (block n rn ++ block q rq)

abbrev entries : List ℕ → List DisjunctIndexWithBacktrackings
entries = map new_entry

fill_slots_lem :
    {i : ℕ} (l j k : ℕ) {ps : List DlPredicate} {a n q : List ℕ}
    → Groups i ps a n q
    → (u v w : List DisjunctIndexWithBacktrackings) → l ≡ length u
    → j ≡ length u + length a + length v
    → k ≡ length u + length a + length v + length n + length w
    → fill_slots i l j k ps (slots u v w (length a) (length n) (length q))
      ≡ some (slots (u ++ entries a) (v ++ entries n) (w ++ entries q) 0 0 0)
unfolding fill_slots
fill_slots_lem l j k Groups.nil u v w hl hj hk = rw (append_nil u, append_nil v, append_nil w) refl
fill_slots_lem {i} l j k (Groups.put_other {a} {n} {q} p e g) u v w hl hj hk =
    let d = new_entry i in
    let ih =
      fill_slots_lem (suc l) j k g (u ++ d ∷ []) v w (omega (arith, length-append u (d ∷ [])))
        (omega (arith, length-append u (d ∷ []))) (omega (arith, length-append u (d ∷ []))) in
    let rest = block v (length n) ++ block w (length q) in
    let write : set_elem? (slots u v w (length (i ∷ a)) (length n) (length q)) (length u) (some d)
        ≡ some (slots (u ++ d ∷ []) v w (length a) (length n) (length q)) =
      set_elem?-append_left (block u (suc (length a))) (block (u ++ d ∷ []) (length a)) rest
        (length u) (some d) (set_elem?-block u (length a) d) in
    rw (e, fill_slots, hl, write, sym hl, ih, append_assoc u (d ∷ []) (entries a)) refl
fill_slots_lem {i} l j k (Groups.put_negative {a} {n} {q} p e g) u v w hl hj hk =
    let d = new_entry i in
    let ih =
      fill_slots_lem l (suc j) k g u (v ++ d ∷ []) w hl (omega (arith, length-append v (d ∷ [])))
        (omega (arith, length-append v (d ∷ []))) in
    let write : set_elem? (slots u v w (length a) (length (i ∷ n)) (length q)) j (some d)
        ≡ some (slots u (v ++ d ∷ []) w (length a) (length n) (length q)) =
      set_elem?-append_right (block u (length a)) (block v (suc (length n)) ++ block w (length q))
        (block (v ++ d ∷ []) (length n) ++ block w (length q)) j (length v) (some d)
        (set_elem?-append_left (block v (suc (length n))) (block (v ++ d ∷ []) (length n))
          (block w (length q)) (length v) (some d) (set_elem?-block v (length n) d))
        (omega (arith, length-block u (length a))) in
    rw (e, fill_slots, write, ih, append_assoc v (d ∷ []) (entries n)) refl
fill_slots_lem {i} l j k (Groups.put_positive {a} {n} {q} p e g) u v w hl hj hk =
    let d = new_entry i in
    let ih =
      fill_slots_lem l j (suc k) g u v (w ++ d ∷ []) hl hj
        (omega (arith, length-append w (d ∷ []))) in
    let write : set_elem? (slots u v w (length a) (length n) (length (i ∷ q))) k (some d)
        ≡ some (slots u v (w ++ d ∷ []) (length a) (length n) (length q)) =
      set_elem?-append_right (block u (length a)) (block v (length n) ++ block w (suc (length q)))
        (block v (length n) ++ block (w ++ d ∷ []) (length q)) k (length v + length n + length w)
        (some d)
        (set_elem?-append_right (block v (length n)) (block w (suc (length q)))
          (block (w ++ d ∷ []) (length q)) (length v + length n + length w) (length w) (some d)
          (set_elem?-block w (length q) d) (omega (arith, length-block v (length n))))
        (omega (arith, length-block u (length a))) in
    rw (e, fill_slots, write, ih, append_assoc w (d ∷ []) (entries q)) refl

-- The constructor `new` does not panic, and orders the disjuncts in three partitions: those that
-- are no at-least concept, then at-least concepts over the negation of an atomic concept, then
-- at-least concepts over an atomic concept, each in the order of the predicates.
pub new_correct :
    (ps : List DlPredicate)
    → let other = indexes_of is_other 0 ps in
      let negative = indexes_of is_negative 0 ps in
      let positive = indexes_of is_positive 0 ps in
      new ps
      ≡ some (record {
        dl_predicates = ps;
        disjunct_start = collect_starts 0 ps;
        disjunct_indexes_with_backtrackings = map new_entry (other ++ (negative ++ positive));
        first_at_least_positive_index = length other + length negative;
        first_at_least_negative_index = length other;
      })
unfolding new
new_correct ps = go (indexes_of-Groups 0 ps)
  where
    empty : (a n q : ℕ) → repeat (a + n + q) none ≡ slots [] [] [] a n q
    empty a n q =
        repeat-add (a + n) q none
        ∙ ap (λ xs. xs ++ repeat q none) (repeat-add a n none)
        ∙ append_assoc (repeat a none) (repeat n none) (repeat q none)

    go :
        {a n q : List ℕ}
        → Groups 0 ps a n q
        → new ps
          ≡ some (record {
            dl_predicates = ps;
            disjunct_start = collect_starts 0 ps;
            disjunct_indexes_with_backtrackings = map new_entry (a ++ (n ++ q));
            first_at_least_positive_index = length a + length n;
            first_at_least_negative_index = length a;
          })
    go {a} {n} {q} g =
        let first : length ps - length q - length n ≡ length a = omega (arith, length-Groups g) in
        let second : length ps - length q ≡ length a + length n = omega (arith, length-Groups g) in
        let none_yet : repeat (length ps) none ≡ slots [] [] [] (length a) (length n) (length q) =
          ap (λ m. repeat m none) (length-Groups g) ∙ empty (length a) (length n) (length q) in
        let fill =
          fill_slots_lem 0 (length a) (length a + length n) g [] [] [] refl (omega arith)
            (omega arith) in
        let unwrap : unwrap_all (slots (entries a) (entries n) (entries q) 0 0 0)
            ≡ some (entries a ++ (entries n ++ entries q)) =
          unwrap_all-append (block (entries a) 0) (block (entries n) 0 ++ block (entries q) 0)
            (unwrap_all-block (entries a))
            (unwrap_all-append (block (entries n) 0) (block (entries q) 0)
              (unwrap_all-block (entries n)) (unwrap_all-block (entries q))) in
        let counts : count_at_least (0, 0) ps ≡ (length q, length n) =
          count_at_least_lem 0 0 g ∙ ground arith in
        rw
          (
            counts,
            first,
            second,
            none_yet,
            fill,
            unwrap,
            map-append new_entry a (n ++ q),
            map-append new_entry n q,
          )
          refl
