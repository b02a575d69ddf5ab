-- ===== src/Collections/HashSet.antt =====
-- `HashSet`: a list without repetition. The source never relies on the order of iteration; here
-- it is the order of insertion.
use hermit_rs.Base.{
  ◌≡◌, refl, Bool, false, not, ◌&&◌, ◌||◌, List, [], ◌∷◌, ◌++◌, arith, Eq, ◌==◌, if◌then◌else◌,
  true, ==_refl, nat_eq,
}

module _ {ℓ} {A : Type ℓ} ⦃e : Eq A⦄ where
  abbrev pub contains : List A → A → Bool
  contains [] a = false
  contains (x ∷ xs) a = x == a || contains xs a

  unfoldable pub insert : List A → A → List A
  insert s a = if contains s a then s else s ++ a ∷ []

  unfoldable pub remove : List A → A → List A
  remove [] a = []
  remove (x ∷ xs) a = if x == a then remove xs a else x ∷ remove xs a

  -- Inserting the elements of a list one after the other.
  unfoldable pub extend : List A → List A → List A
  extend s [] = s
  extend s (x ∷ xs) = extend (insert s x) xs

  -- Removing the elements of a list one after the other.
  unfoldable pub remove_all : List A → List A → List A
  remove_all s [] = s
  remove_all s (x ∷ xs) = remove_all (remove s x) xs

  -- No element occurs twice.
  abbrev pub IsDistinct : List A → Type 0
  IsDistinct [] = Unit
  IsDistinct (x ∷ xs) = (contains xs x ≡ false) × IsDistinct xs

  pub contains-append :
      (xs ys : List A) (a : A) → contains (xs ++ ys) a ≡ (contains xs a || contains ys a)
  contains-append [] ys a = refl
  contains-append (x ∷ xs) ys a = ground (arith, contains-append xs ys a)

  pub contains-insert : (s : List A) (a b : A) → contains (insert s a) b ≡ (contains s b || a == b)
  unfolding insert
  contains-insert s a b = ground (arith, contains-append s (a ∷ []) b, e.beq_iff a b)

  pub contains-remove :
      (s : List A) (a b : A) → contains (remove s a) b ≡ (contains s b && not (a == b))
  unfolding remove
  contains-remove [] a b = refl
  contains-remove (x ∷ xs) a b =
      ground (arith, contains-remove xs a b, e.beq_iff x a, e.beq_iff a b, e.beq_iff x b)

  pub contains-extend :
      (s xs : List A) (b : A) → contains (extend s xs) b ≡ (contains s b || contains xs b)
  unfolding extend
  contains-extend s [] b = ground arith
  contains-extend s (x ∷ xs) b =
      ground (arith, contains-extend (insert s x) xs b, contains-insert s x b)

  pub contains-remove_all :
      (s xs : List A) (b : A) → contains (remove_all s xs) b ≡ (contains s b && not (contains xs b))
  unfolding remove_all
  contains-remove_all s [] b = ground arith
  contains-remove_all s (x ∷ xs) b =
      ground (arith, contains-remove_all (remove s x) xs b, contains-remove s x b)

-- Two lists that have nothing in common.
abbrev pub IsDisjoint {ℓ} : {A : Type ℓ} ⦃e : Eq A⦄ → List A → List A → Type ℓ
IsDisjoint {A} xs ys = (a : A) → contains xs a ≡ true → contains ys a ≡ false

module _ {ℓ} {A : Type ℓ} ⦃e : Eq A⦄ where
  pub append-IsDistinct :
      (xs ys : List A) → IsDistinct xs → IsDistinct ys → IsDisjoint xs ys → IsDistinct (xs ++ ys)
  append-IsDistinct [] ys h k d = k
  append-IsDistinct (x ∷ xs) ys (h, hs) k d = (
    ground (arith, contains-append xs ys x, d x, ==_refl x),
    append-IsDistinct xs ys hs k (λ a c. d a (ground arith)),
  )

  pub IsDistinct-append :
      (xs ys : List A) → IsDistinct (xs ++ ys) → IsDistinct xs × (IsDistinct ys × IsDisjoint xs ys)
  IsDistinct-append [] ys d = (tt, (d, λ a c. absurd (ground arith)))
  IsDistinct-append (x ∷ xs) ys (d, r) =
      let (hx, (hy, apart)) = IsDistinct-append xs ys r in
      (
        (ground (arith, contains-append xs ys x), hx),
        (hy, λ a c. ground (arith, e.beq_iff x a, apart a, contains-append xs ys x)),
      )

  -- What is disjoint from a concatenation.
  pub IsDisjoint-append :
      (xs ys zs : List A) → IsDisjoint xs ys → IsDisjoint xs zs → IsDisjoint xs (ys ++ zs)
  IsDisjoint-append xs ys zs h k a c = ground (arith, h a c, k a c, contains-append ys zs a)

  -- Lists with the same elements are disjoint from the same lists.
  pub IsDisjoint-same :
      (xs ys us vs : List A)
      → ((a : A) → contains us a ≡ contains xs a)
      → ((a : A) → contains vs a ≡ contains ys a)
      → IsDisjoint xs ys
      → IsDisjoint us vs
  IsDisjoint-same xs ys us vs hx hy d a c = ground (arith, hx a, hy a, d a)
