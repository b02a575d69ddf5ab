-- ===== src/Model/ConstantEnumeration/Equality.antt =====
-- `PartialEq` of an enumeration's data (datarange.rs) against sameness of the sets of constants.
use hermit_rs.Base.{
  suc, ◌≤◌, ◌≡◌, refl, ◌↔◌, true, false, List, [], ◌∷◌, arith, Eq, ◌==◌, if◌then◌else◌, length, all,
  Bool-cases, inl, inr, bool_ext, ◌≢◌, ==_iff,
}
use hermit_rs.Collections.HashSet.{contains, IsDistinct}
use hermit_rs.Model.ConstantEnumeration.{same_data, ConstantEnumeration}
use hermit_rs.Model.Sameness.{constant_eq}
use hermit_rs.Model.Types.{Constant}

module _ {ℓ} {A : Type ℓ} ⦃e : Eq A⦄ where
  -- Deleting the first occurrence.
  delete : List A → A → List A
  delete [] a = []
  delete (x ∷ xs) a = if x == a then xs else x ∷ delete xs a

  length-delete :
      (xs : List A) (a : A) → contains xs a ≡ true → suc (length (delete xs a)) ≡ length xs
  unfolding delete
  length-delete [] a h = ground arith
  length-delete (x ∷ xs) a h = ground (arith, length-delete xs a)

  contains-delete :
      (xs : List A) (a b : A)
      → contains xs b ≡ true
      → (b == a) ≡ false
      → contains (delete xs a) b ≡ true
  unfolding delete
  contains-delete [] a b h n = ground arith
  contains-delete (x ∷ xs) a b h n =
      ground (arith, contains-delete xs a b, e.beq_iff x a, e.beq_iff x b, e.beq_iff b a)

  abbrev IsSubset : List A → List A → Type ℓ
  IsSubset xs ys = (b : A) → contains xs b ≡ true → contains ys b ≡ true

  IsSubset-delete :
      (x : A) (xs ys : List A)
      → contains xs x ≡ false
      → IsSubset (x ∷ xs) ys
      → IsSubset xs (delete ys x)
  IsSubset-delete x xs ys n s b h =
      contains-delete ys x b (s b (ground arith)) (ground (arith, e.beq_iff b x))

  -- The pigeonhole principle: distinct elements fill a list that is no longer than theirs.
  IsSubset-of_length :
      (xs ys : List A) → IsDistinct xs → IsSubset xs ys → length ys ≤ length xs → IsSubset ys xs
  IsSubset-of_length [] [] d s l b h = h
  IsSubset-of_length [] (y ∷ ys) d s l b h = absurd (omega arith)
  IsSubset-of_length (x ∷ xs) ys d s l b h = elim (Bool-cases (b == x)) [
    | inl same ↦ ground (arith, e.beq_iff b x, e.beq_iff x b)
    | inr other ↦ ground (
      arith,
      IsSubset-of_length xs (delete ys x) d.1 (IsSubset-delete x xs ys d.0 s)
          (omega (arith, length-delete ys x (s x (ground (arith, e.beq_iff x x))))) b,
      contains-delete ys x b h other,
    )
  ]

  all-contains_iff : (xs ys : List A) → (all (contains ys) xs ≡ true) ↔ IsSubset xs ys
  all-contains_iff [] ys = (λ _ b h. ground arith, λ _. refl)
  all-contains_iff (x ∷ xs) ys = (
    λ h b m. ground (arith, (all-contains_iff xs ys).0 (ground arith) b, e.beq_iff x b),
    λ s. ground (
      arith,
      (all-contains_iff xs ys).1 (λ b h. s b (ground arith)),
      s x (ground (arith, e.beq_iff x x)),
    ),
  )

  length-le_of_IsSubset : (xs ys : List A) → IsDistinct xs → IsSubset xs ys → length xs ≤ length ys
  length-le_of_IsSubset [] ys d s = omega arith
  length-le_of_IsSubset (x ∷ xs) ys d s = omega (
    arith,
    length-delete ys x (s x (ground (arith, e.beq_iff x x))),
    length-le_of_IsSubset xs (delete ys x) d.1 (IsSubset-delete x xs ys d.0 s),
  )

-- For enumerations without repetition the equality test holds exactly if the two enumerate the
-- same set of constants, in whatever order.
pub same_data_iff :
    (r s : ConstantEnumeration)
    → IsDistinct r.constants
    → IsDistinct s.constants
    → (same_data r s ≡ true) ↔ ((c : Constant) → contains r.constants c ≡ contains s.constants c)
unfolding same_data
same_data_iff r s dr ds = (
  λ h.
      let sub = (all-contains_iff r.constants s.constants).0 (ground arith) in
      let back = IsSubset-of_length r.constants s.constants dr sub (ground arith) in
      λ c. bool_ext (contains r.constants c) (contains s.constants c) (sub c) (back c),
  λ same. ground (
    arith,
    (all-contains_iff r.constants s.constants).1 (λ c h. rw (same c) at h),
    length-le_of_IsSubset r.constants s.constants dr (λ c h. rw (same c) at h),
    length-le_of_IsSubset s.constants r.constants ds (λ c h. rw (← same c) at h),
  ),
)

-- With repetition the equality test is not symmetric: for any two different constants it says
-- that {a a} equals {a b}, and that {a b} does not equal {a a}.
pub same_data_asymmetric :
    (a b : Constant)
    → a ≢ b
    → (same_data (record { constants = a ∷ a ∷ [] }) (record { constants = a ∷ b ∷ [] }) ≡ true)
      × (same_data (record { constants = a ∷ b ∷ [] }) (record { constants = a ∷ a ∷ [] }) ≡ false)
unfolding same_data
same_data_asymmetric a b n = ground (arith, ==_iff a b, ==_iff a a)
