-- ===== src/Tableau/GroundDisjunctionHeader/Offsets.antt =====
-- The offsets of the arguments in `GroundDisjunctionHeader::disjunct_start`.
use hermit_rs.Base.{
  ℕ, zero, suc, ◌+◌, ◌≤◌, ◌<◌, ◌≡◌, refl, some, List, [], ◌∷◌, arith, get_elem?, nat_eq,
}
use hermit_rs.Model.Types.{DlPredicate}
use hermit_rs.Model.DlPredicate.{arity}
use hermit_rs.Tableau.GroundDisjunctionHeader.{
  GroundDisjunctionHeader, collect_starts, new, disjunct_start,
}
use hermit_rs.Tableau.GroundDisjunctionHeader.Order.{new_correct}

-- The number of arguments of a ground disjunction.
abbrev pub total_arity : List DlPredicate → ℕ
total_arity [] = 0
total_arity (p ∷ ps) = arity p + total_arity ps

collect_starts-bounds :
    (n : ℕ) (ps : List DlPredicate) (i : ℕ) (p : DlPredicate)
    → get_elem? ps i ≡ some p
    → (s : ℕ) × ((get_elem? (collect_starts n ps) i ≡ some s)
        × ((n ≤ s) × (s + arity p ≤ n + total_arity ps)))
unfolding collect_starts
collect_starts-bounds n [] i p e = absurd (ground arith)
collect_starts-bounds n (q ∷ ps) zero p e = (n, (refl, (omega arith, ground arith)))
collect_starts-bounds n (q ∷ ps) (suc i) p e =
    let (s, (read, (low, high))) = collect_starts-bounds (n + arity q) ps i p e in
    (s, (read, (omega arith, omega arith)))

collect_starts-low :
    (n : ℕ) (ps : List DlPredicate) (j t : ℕ) → get_elem? (collect_starts n ps) j ≡ some t → n ≤ t
unfolding collect_starts
collect_starts-low n [] j t b = absurd (ground arith)
collect_starts-low n (q ∷ ps) zero t b = ground arith
collect_starts-low n (q ∷ ps) (suc j) t b = omega (arith, collect_starts-low (n + arity q) ps j t b)

collect_starts-apart :
    (n : ℕ) (ps : List DlPredicate) (i j : ℕ) (p : DlPredicate) (s t : ℕ)
    → i < j
    → get_elem? ps i ≡ some p
    → get_elem? (collect_starts n ps) i ≡ some s
    → get_elem? (collect_starts n ps) j ≡ some t
    → s + arity p ≤ t
unfolding collect_starts
collect_starts-apart n [] i j p s t h e a b = absurd (ground arith)
collect_starts-apart n (q ∷ ps) i zero p s t h e a b = absurd (omega arith)
collect_starts-apart n (q ∷ ps) zero (suc j) p s t h e a b =
    ground (arith, collect_starts-low (n + arity q) ps j t b)
collect_starts-apart n (q ∷ ps) (suc i) (suc j) p s t h e a b =
    collect_starts-apart (n + arity q) ps i j p s t (omega arith) e a b

-- In the header that `new` gives, each disjunct has an offset from which its arguments fit into
-- the arguments of the disjunction, and they end before those of every later disjunct start.
pub disjunct_start-new :
    (ps : List DlPredicate) (i : ℕ) (p : DlPredicate)
    → get_elem? ps i ≡ some p
    → (h : GroundDisjunctionHeader) × ((new ps ≡ some h)
        × ((s : ℕ) × ((disjunct_start h i ≡ some s)
              × ((s + arity p ≤ total_arity ps)
                  × ((j t : ℕ) → i < j → disjunct_start h j ≡ some t → s + arity p ≤ t)))))
unfolding disjunct_start
disjunct_start-new ps i p e =
    let (s, (read, (low, high))) = collect_starts-bounds 0 ps i p e in
    (
      _,
      (
        new_correct ps,
        (s, (read, (omega arith, λ j t h b. collect_starts-apart 0 ps i j p s t h e read b))),
      ),
    )
