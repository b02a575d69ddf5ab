-- ===== src/DependencySet/Canonical.antt =====
-- Canonical vectors of branching points: strictly descending ones.
use hermit_rs.Base.{
  ◌≡◌, refl, true, false, ◌||◌, List, [], ◌∷◌, ◌==◌, arith, Bool-cases, inl, inr, ◌⊎◌, Ordering,
  ◌∙◌,
}
use hermit_rs.Base.Int.{
  ℤ, int_eq, compare_ℤ, ◌<ℤ◌, beq_ℤ_iff, eq_of_compare, lt_of_compare, gt_of_compare, beq_ℤ,
}
use hermit_rs.Collections.HashSet.{contains}
use hermit_rs.DependencySet.Points.{
  insert_descending, sort_descending, dedup_from, dedup, canonical_form,
}

abbrev pub IsDescending : List ℤ → Type 0
IsDescending [] = Unit
IsDescending (x ∷ xs) = ((y : ℤ) → contains xs y ≡ true → y <ℤ x) × IsDescending xs

abbrev IsSorted : List ℤ → Type 0
IsSorted [] = Unit
IsSorted (x ∷ xs) = ((y : ℤ) → contains xs y ≡ true → ¬ (x <ℤ y)) × IsSorted xs

Ordering-cases : (o : Ordering) → (o ≡ Ordering.lt) ⊎ ((o ≡ Ordering.eq) ⊎ (o ≡ Ordering.gt))
Ordering-cases Ordering.lt = inl refl
Ordering-cases Ordering.eq = inr (inl refl)
Ordering-cases Ordering.gt = inr (inr refl)

pub compare-cases : (a b : ℤ) → (a <ℤ b) ⊎ ((a ≡ b) ⊎ (b <ℤ a))
compare-cases a b = ground (arith, eq_of_compare a b, lt_of_compare a b, gt_of_compare a b)

contains-insert_descending :
    (x : ℤ) (ys : List ℤ) (b : ℤ) → contains (insert_descending x ys) b ≡ (x == b || contains ys b)
unfolding insert_descending
contains-insert_descending x [] b = ground arith
contains-insert_descending x (y ∷ ys) b = ground (arith, contains-insert_descending x ys b)

contains-sort_descending : (xs : List ℤ) (b : ℤ) → contains (sort_descending xs) b ≡ contains xs b
unfolding sort_descending
contains-sort_descending [] b = refl
contains-sort_descending (x ∷ xs) b =
    ground
      (arith, contains-insert_descending x (sort_descending xs) b, contains-sort_descending xs b)

contains-dedup_from :
    (x : ℤ) (ys : List ℤ) (b : ℤ) → contains (dedup_from x ys) b ≡ (x == b || contains ys b)
unfolding dedup_from
contains-dedup_from x [] b = ground arith
contains-dedup_from x (y ∷ ys) b =
    ground (arith, contains-dedup_from x ys b, contains-dedup_from y ys b, beq_ℤ_iff x y)

contains-dedup : (xs : List ℤ) (b : ℤ) → contains (dedup xs) b ≡ contains xs b
unfolding dedup
contains-dedup [] b = refl
contains-dedup (x ∷ xs) b = contains-dedup_from x xs b

-- The canonical form has the points of the vector and no others.
pub contains-canonical_form : (xs : List ℤ) (b : ℤ) → contains (canonical_form xs) b ≡ contains xs b
unfolding canonical_form
contains-canonical_form xs b = contains-dedup (sort_descending xs) b ∙ contains-sort_descending xs b

insert_descending-IsSorted : (x : ℤ) (ys : List ℤ) → IsSorted ys → IsSorted (insert_descending x ys)
unfolding insert_descending
insert_descending-IsSorted x [] h = (λ y c. absurd (ground arith), tt)
insert_descending-IsSorted x (y ∷ ys) h = elim (Ordering-cases (compare_ℤ y x)) [
  | inl e ↦ rw (e, IsSorted) ((λ z c. above_lt z c e), h)
  | inr (inl e) ↦
      rw (e, IsSorted)
        (
          (λ z c. above_rest z c (ground (arith, eq_of_compare y x))),
          insert_descending-IsSorted x ys h.1,
        )
  | inr (inr e) ↦
      rw (e, IsSorted)
        (
          (λ z c. above_rest z c (ground (arith, gt_of_compare y x))),
          insert_descending-IsSorted x ys h.1,
        )
]
  where
    above_lt : (z : ℤ) → contains (y ∷ ys) z ≡ true → compare_ℤ y x ≡ Ordering.lt → ¬ (x <ℤ z)
    above_lt z c e = ground (arith, h.0 z, beq_ℤ_iff y z)

    above_rest : (z : ℤ) → contains (insert_descending x ys) z ≡ true → ¬ (y <ℤ x) → ¬ (y <ℤ z)
    above_rest z c n = ground (arith, h.0 z, contains-insert_descending x ys z, beq_ℤ_iff x z)

sort_descending-IsSorted : (xs : List ℤ) → IsSorted (sort_descending xs)
unfolding sort_descending
sort_descending-IsSorted [] = tt
sort_descending-IsSorted (x ∷ xs) =
    insert_descending-IsSorted x (sort_descending xs) (sort_descending-IsSorted xs)

dedup_from-IsDescending : (x : ℤ) (ys : List ℤ) → IsSorted (x ∷ ys) → IsDescending (dedup_from x ys)
unfolding dedup_from
dedup_from-IsDescending x [] h = (λ y c. absurd (ground arith), tt)
dedup_from-IsDescending x (y ∷ ys) h = elim (Bool-cases (beq_ℤ x y)) [
  | inl e ↦ rw (e, IsSorted) (dedup_from-IsDescending x ys (λ z c. h.0 z (ground arith), h.1.1))
  | inr n ↦ rw n (λ z c. below z c n, dedup_from-IsDescending y ys h.1)
]
  where
    below : (z : ℤ) → contains (dedup_from y ys) z ≡ true → beq_ℤ x y ≡ false → z <ℤ x
    below z c n = ground (
      arith,
      h.0 z,
      h.0 y,
      h.1.0 z,
      contains-dedup_from y ys z,
      beq_ℤ_iff x y,
      beq_ℤ_iff y z,
      beq_ℤ_iff y y,
      compare-cases x y,
      compare-cases x z,
      compare-cases y z,
    )

dedup-IsDescending : (xs : List ℤ) → IsSorted xs → IsDescending (dedup xs)
unfolding dedup
dedup-IsDescending [] h = tt
dedup-IsDescending (x ∷ xs) h = dedup_from-IsDescending x xs h

pub canonical_form-IsDescending : (xs : List ℤ) → IsDescending (canonical_form xs)
unfolding canonical_form
canonical_form-IsDescending xs =
    dedup-IsDescending (sort_descending xs) (sort_descending-IsSorted xs)

-- A canonical vector is determined by its points.
pub descending_unique :
    (xs ys : List ℤ)
    → IsDescending xs
    → IsDescending ys
    → ((b : ℤ) → contains xs b ≡ contains ys b)
    → xs ≡ ys
descending_unique [] [] hx hy same = refl
descending_unique [] (y ∷ ys) hx hy same = absurd (ground (arith, same y, beq_ℤ_iff y y))
descending_unique (x ∷ xs) [] hx hy same = absurd (ground (arith, same x, beq_ℤ_iff x x))
descending_unique (x ∷ xs) (y ∷ ys) hx hy same =
    let heads : x ≡ y = ground (
      arith,
      same x,
      same y,
      hx.0 y,
      hy.0 x,
      beq_ℤ_iff x x,
      beq_ℤ_iff y y,
      beq_ℤ_iff x y,
      beq_ℤ_iff y x,
    ) in
    let tails : xs ≡ ys =
      descending_unique xs ys hx.1 hy.1
        (λ b. ground (arith, same b, hx.0 b, hy.0 b, beq_ℤ_iff x b, beq_ℤ_iff y b)) in
    cc

-- A canonical vector is its own canonical form.
pub canonical_form-fixed : (xs : List ℤ) → IsDescending xs → canonical_form xs ≡ xs
canonical_form-fixed xs h =
    descending_unique (canonical_form xs) xs (canonical_form-IsDescending xs) h
      (contains-canonical_form xs)
