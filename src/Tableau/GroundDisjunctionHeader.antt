-- ===== src/Tableau/GroundDisjunctionHeader.antt =====
-- src/tableau/ground_disjunction_header.rs: the order in which the disjuncts of a ground
-- disjunction are tried.
pub mod Order
pub mod Sinking
pub mod Raising
pub mod Valid
pub mod Start
pub mod Backtracking
pub mod Offsets
use hermit_rs.Base.Panic.{◌>>=◌}
use hermit_rs.Base.Vectors.{set_elem?, repeat, unwrap_all}
use hermit_rs.Model.Types.{DlPredicate}
use hermit_rs.Model.Types.DlPredicate.{at_least_concept}
use hermit_rs.Model.Types.LiteralConcept.{atomic_concept, atomic_negation_concept}
use hermit_rs.Model.DlPredicate.{arity}
use hermit_rs.Base.{
  list_eq, ℕ, List, Option, Bool, some, ◌∷◌, length, get_elem?, ◌==◌, map, none, if◌then◌else◌,
  false, ◌+◌, suc, ◌-◌, ltb, true, zero, Ordering, [], nat_eq, ◌*◌, ◌≤◌, ◌<◌, ◌≡◌, refl, sym, ◌∙◌,
  subst, ◌⊎◌, inl, inr, ◌↔◌, not, ◌&&◌, ◌||◌, ◌++◌, arith, Bool-cases, Option-cases, List-cases,
  All, ==_refl, Eq, leb,
}
use hermit_rs.Base.Int.{ℤ, pos, compare_ℤ, negsuc}

pub record DisjunctIndexWithBacktrackings : Type 0 where
  pub disjunct_index : ℕ
  pub number_of_backtrackings : ℤ

pub record GroundDisjunctionHeader : Type 0 where
  pub dl_predicates : List DlPredicate
  pub disjunct_start : List ℕ
  pub disjunct_indexes_with_backtrackings : List DisjunctIndexWithBacktrackings
  pub first_at_least_positive_index : ℕ
  pub first_at_least_negative_index : ℕ

unfoldable pub is_at_least_over_negated_atomic : DlPredicate → Option Bool
is_at_least_over_negated_atomic (at_least_concept p) = elim p.to_concept [
  | atomic_concept c ↦ some false
  | atomic_negation_concept c ↦ some true
]
is_at_least_over_negated_atomic _ = none

-- The offsets of the arguments: the first loop of `new`, from an offset on.
unfoldable pub collect_starts : ℕ → List DlPredicate → List ℕ
collect_starts arguments_size [] = []
collect_starts arguments_size (p ∷ ps) =
    arguments_size ∷ collect_starts (arguments_size + arity p) ps

-- The second loop of `new`: the numbers of at-least predicates, positive ones first.
unfoldable pub count_at_least : ℕ × ℕ → List DlPredicate → ℕ × ℕ
count_at_least (positive, negative) [] = (positive, negative)
count_at_least (positive, negative) (p ∷ ps) = elim (is_at_least_over_negated_atomic p) [
  | none ↦ count_at_least (positive, negative) ps
  | some b ↦ elim b [
    | true ↦ count_at_least (positive, suc negative) ps
    | false ↦ count_at_least (suc positive, negative) ps
  ]
]

abbrev pub new_entry : ℕ → DisjunctIndexWithBacktrackings
new_entry index = record { disjunct_index = index; number_of_backtrackings = pos 0 }

-- The third loop of `new`, which fills the slots.
unfoldable pub fill_slots :
    (index next_atomic next_negative next_positive : ℕ)
    → List DlPredicate
    → List (Option DisjunctIndexWithBacktrackings)
    → Option (List (Option DisjunctIndexWithBacktrackings))
fill_slots index a n q [] slots = some slots
fill_slots index a n q (p ∷ ps) slots = elim (is_at_least_over_negated_atomic p) [
  | none ↦ set_elem? slots a (some (new_entry index)) >>= fill_slots (suc index) (suc a) n q ps
  | some b ↦ elim b [
    | true ↦ set_elem? slots n (some (new_entry index)) >>= fill_slots (suc index) a (suc n) q ps
    | false ↦ set_elem? slots q (some (new_entry index)) >>= fill_slots (suc index) a n (suc q) ps
  ]
]

-- `none` where the source panics: a slot out of range, or one that stayed empty.
unfoldable pub new : List DlPredicate → Option GroundDisjunctionHeader
new ps =
    let counts = count_at_least (0, 0) ps in
    let first_negative = length ps - counts.0 - counts.1 in
    let first_positive = length ps - counts.0 in
    fill_slots 0 0 first_negative first_positive ps (repeat (length ps) none) >>= λ slots.
    unwrap_all slots >>= λ entries. some (record {
      dl_predicates = ps;
      disjunct_start = collect_starts 0 ps;
      disjunct_indexes_with_backtrackings = entries;
      first_at_least_positive_index = first_positive;
      first_at_least_negative_index = first_negative;
    })

-- `disjunct_start(disjunct_index)`; out of range the source panics.
unfoldable pub disjunct_start : GroundDisjunctionHeader → ℕ → Option ℕ
disjunct_start h disjunct_index = get_elem? h.disjunct_start disjunct_index

unfoldable pub get_sorted_disjunct_indexes : GroundDisjunctionHeader → List ℕ
get_sorted_disjunct_indexes h = map (λ d. d.disjunct_index) h.disjunct_indexes_with_backtrackings

-- `position(|d| d.disjunct_index == disjunct_index)`.
unfoldable pub position : ℕ → List DisjunctIndexWithBacktrackings → Option ℕ
position i [] = none
position i (d ∷ ds) =
    if d.disjunct_index == i then some 0 else (position i ds >>= λ n. some (suc n))

-- `i32::MAX`.
abbrev pub max_i32 : ℕ
max_i32 = 2147483647

-- `n + 1` on `i32`, which wraps around.
unfoldable pub increment : ℤ → ℤ
increment (pos n) = if n == max_i32 then negsuc max_i32 else pos (suc n)
increment (negsuc zero) = pos 0
increment (negsuc (suc n)) = negsuc n

abbrev pub increment_entry : DisjunctIndexWithBacktrackings → DisjunctIndexWithBacktrackings
increment_entry d = record d { number_of_backtrackings = increment d.number_of_backtrackings }

-- Swapping two elements of a vector.
unfoldable pub swap :
    List DisjunctIndexWithBacktrackings → ℕ → ℕ → Option (List DisjunctIndexWithBacktrackings)
swap v i j = get_elem? v i >>= λ x. get_elem? v j >>= λ y. set_elem? v i y >>= λ w. set_elem? w j x

-- `a.number_of_backtrackings > b.number_of_backtrackings`.
unfoldable pub has_more : DisjunctIndexWithBacktrackings → DisjunctIndexWithBacktrackings → Bool
has_more a b = elim (compare_ℤ a.number_of_backtrackings b.number_of_backtrackings) [
  | Ordering.gt ↦ true
  | _ ↦ false
]

-- The loop, which moves the entry at `current` towards `partition_end`; it ends after at most
-- `partition_end - current` rounds, the fuel.
unfoldable pub sink :
    (fuel current partition_end : ℕ)
    → List DisjunctIndexWithBacktrackings
    → Option (List DisjunctIndexWithBacktrackings)
sink zero current partition_end v = none
sink (suc fuel) current partition_end v =
    if ltb (suc current) partition_end
    then (get_elem? v current >>= λ x. get_elem? v (suc current) >>= λ y. elim (has_more x y) [
      | true ↦ swap v current (suc current) >>= sink fuel (suc current) partition_end
      | false ↦ some v
    ])
    else some v

unfoldable pub partition_end : GroundDisjunctionHeader → ℕ → ℕ
partition_end h index =
    if ltb index h.first_at_least_negative_index
    then h.first_at_least_negative_index
    else if ltb index h.first_at_least_positive_index
    then h.first_at_least_positive_index
    else length h.disjunct_indexes_with_backtrackings

unfoldable pub increase_number_of_backtrackings :
    GroundDisjunctionHeader → ℕ → Option GroundDisjunctionHeader
increase_number_of_backtrackings h disjunct_index =
    let v = h.disjunct_indexes_with_backtrackings in
    elim (position disjunct_index v) [
      | none ↦ some h
      | some index ↦ get_elem? v index >>= λ d. set_elem? v index (increment_entry d) >>= λ w.
          sink (suc (length v)) index (partition_end h index) w >>= λ sorted.
          some (record h { disjunct_indexes_with_backtrackings = sorted })
    ]

-- The entry of a disjunct, `find(|d| d.disjunct_index == disjunct_index)`, and its number.
unfoldable pub find_number : List DisjunctIndexWithBacktrackings → ℕ → Option ℤ
find_number [] i = none
find_number (d ∷ ds) i =
    if d.disjunct_index == i then some d.number_of_backtrackings else find_number ds i
