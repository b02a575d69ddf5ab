-- ===== src/Collections/HashMap.antt =====
-- `HashMap`: an association list in which the first entry of a key counts.
use hermit_rs.Collections.HashSet.{contains, IsDistinct}
use hermit_rs.Base.{
  ◌≡◌, refl, Bool, List, [], ◌∷◌, Option, none, some, arith, Eq, ◌==◌, if◌then◌else◌, true,
  Bool-cases, inl, inr, ◌||◌, false, subst, ap, ==_symm,
}

abbrev pub HashMap {ℓ κ} : Type ℓ → Type κ → Type (ℓ ⊔ κ)
HashMap K V = List (K × V)

module _ {ℓ κ} {K : Type ℓ} {V : Type κ} where
  abbrev pub keys : List (K × V) → List K
  keys [] = []
  keys ((k, v) ∷ m) = k ∷ keys m

module _ {ℓ κ} {K : Type ℓ} {V : Type κ} ⦃e : Eq K⦄ where
  abbrev pub get : List (K × V) → K → Option V
  get [] k = none
  get ((j, v) ∷ m) k = if j == k then some v else get m k

  unfoldable pub insert : List (K × V) → K → V → List (K × V)
  insert [] k v = (k, v) ∷ []
  insert ((j, w) ∷ m) k v = if j == k then (k, v) ∷ m else (j, w) ∷ insert m k v

  unfoldable pub remove : List (K × V) → K → List (K × V)
  remove [] k = []
  remove ((j, w) ∷ m) k = if j == k then remove m k else (j, w) ∷ remove m k

  -- `retain` with a test on the key and the value.
  unfoldable pub retain : (K → V → Bool) → List (K × V) → List (K × V)
  retain p [] = []
  retain p ((j, w) ∷ m) = if p j w then (j, w) ∷ retain p m else retain p m

  pub get-insert :
      (m : List (K × V)) (k j : K) (v : V)
      → get (insert m k v) j ≡ (if k == j then some v else get m j)
  unfolding insert
  get-insert [] k j v = refl
  get-insert ((i, w) ∷ m) k j v =
      ground (arith, get-insert m k j v, e.beq_iff i k, e.beq_iff i j, e.beq_iff k j)

  pub get-remove :
      (m : List (K × V)) (k j : K) → get (remove m k) j ≡ (if k == j then none else get m j)
  unfolding remove
  get-remove [] k j = ground arith
  get-remove ((i, w) ∷ m) k j =
      ground (arith, get-remove m k j, e.beq_iff i k, e.beq_iff i j, e.beq_iff k j)

  pub contains-keys :
      (m : List (K × V)) (k : K) {v : V} → get m k ≡ some v → contains (keys m) k ≡ true
  contains-keys [] k {v} h = ground arith
  contains-keys ((j, w) ∷ m) k {v} h = ground (arith, contains-keys m k {v = v})

  pub get-of_keys :
      (m : List (K × V)) (k : K) → contains (keys m) k ≡ true → (v : V) × (get m k ≡ some v)
  get-of_keys [] k h = absurd (ground arith)
  get-of_keys ((j, w) ∷ m) k h = elim (Bool-cases (j == k)) [
    | inl e' ↦ (w, ground arith)
    | inr n ↦ let (v, found) = get-of_keys m k (ground arith) in (v, ground arith)
  ]

  pub contains-keys-insert :
      (m : List (K × V)) (k j : K) (v : V)
      → contains (keys (insert m k v)) j ≡ (contains (keys m) j || k == j)
  unfolding insert
  contains-keys-insert [] k j v = ground arith
  contains-keys-insert ((i, w) ∷ m) k j v =
      ground (arith, contains-keys-insert m k j v, e.beq_iff i k, e.beq_iff i j, e.beq_iff k j)

  pub insert-IsDistinct :
      (m : List (K × V)) (k : K) (v : V) → IsDistinct (keys m) → IsDistinct (keys (insert m k v))
  unfolding insert
  insert-IsDistinct [] k v d = (refl, tt)
  insert-IsDistinct ((j, w) ∷ m) k v d = elim (Bool-cases (j == k)) [
    | inl t ↦ rw t (subst (λ i. contains (keys m) i ≡ false) ((e.beq_iff j k).0 t) d.0, d.1)
    | inr n ↦ rw n (
      ground (arith, d.0, contains-keys-insert m k j v, ==_symm k j),
      insert-IsDistinct m k v d.1,
    )
  ]

  get-absent : (m : List (K × V)) (k : K) → contains (keys m) k ≡ false → get m k ≡ none
  get-absent [] k h = refl
  get-absent ((j, w) ∷ m) k h = ground (arith, get-absent m k)

  pub contains-keys-retain :
      (p : K → V → Bool) (m : List (K × V)) (k : K)
      → contains (keys m) k ≡ false
      → contains (keys (retain p m)) k ≡ false
  unfolding retain
  contains-keys-retain p [] k h = refl
  contains-keys-retain p ((j, w) ∷ m) k h = ground (arith, contains-keys-retain p m k)

  pub retain-IsDistinct :
      (p : K → V → Bool) (m : List (K × V)) → IsDistinct (keys m) → IsDistinct (keys (retain p m))
  unfolding retain
  retain-IsDistinct p [] d = tt
  retain-IsDistinct p ((j, w) ∷ m) d = elim (Bool-cases (p j w)) [
    | inl t ↦ rw t (contains-keys-retain p m j d.0, retain-IsDistinct p m d.1)
    | inr n ↦ rw n (retain-IsDistinct p m d.1)
  ]

  pub get-retain :
      (p : K → V → Bool) (m : List (K × V)) (k : K)
      → IsDistinct (keys m)
      → get (retain p m) k
        ≡ (elim (get m k) [ none ↦ none | some v ↦ if p k v then some v else none ])
  unfolding retain
  get-retain p [] k d = refl
  get-retain p ((j, w) ∷ m) k d = elim (Bool-cases (j == k)) [
    | inl t ↦
        let same : p j w ≡ p k w = ap (λ i. p i w) ((e.beq_iff j k).0 t) in
        let gone : get (retain p m) k ≡ none = get-absent (retain p m) k (
          contains-keys-retain p m k
            (subst (λ i. contains (keys m) i ≡ false) ((e.beq_iff j k).0 t) d.0)) in
        ground (arith, same, gone)
    | inr n ↦ ground (arith, get-retain p m k d.1)
  ]
