-- ===== src/Base/Vectors.antt =====
-- `Vec`: writing an element, growing, and slices. Where the source panics the result is `none`.
use hermit_rs.Base.Panic.{◌>>=◌}
use hermit_rs.Base.{
  List, ℕ, Option, [], ◌++◌, map, length, none, suc, some, ◌∷◌, ◌≡◌, ap, zero, refl, nat_eq, ◌+◌,
  ◌∙◌, subst, inl, inr, arith, Option-cases, ◌<◌, if◌then◌else◌, get_elem?, ◌==◌,
}

module _ {ℓ} {A : Type ℓ} where
  -- `v[i] = x`.
  abbrev pub set_elem? : List A → ℕ → A → Option (List A)
  set_elem? [] i x = none
  set_elem? (y ∷ ys) zero x = some (x ∷ ys)
  set_elem? (y ∷ ys) (suc i) x = set_elem? ys i x >>= λ rest. some (y ∷ rest)

  -- `n` copies of an element.
  abbrev pub repeat : ℕ → A → List A
  repeat zero x = []
  repeat (suc n) x = x ∷ repeat n x

  -- `v.into_iter().map(|x| x.unwrap()).collect()`.
  unfoldable pub unwrap_all : List (Option A) → Option (List A)
  unwrap_all [] = some []
  unwrap_all (none ∷ xs) = none
  unwrap_all (some x ∷ xs) = unwrap_all xs >>= λ rest. some (x ∷ rest)

  pub set_elem?-middle :
      (pre : List A) (x y : A) (xs : List A)
      → set_elem? (pre ++ x ∷ xs) (length pre) y ≡ some (pre ++ y ∷ xs)
  set_elem?-middle [] x y xs = refl
  set_elem?-middle (z ∷ pre) x y xs = rw (set_elem?-middle pre x y xs) refl

  pub unwrap_all-map_some : (xs : List A) → unwrap_all (map some xs) ≡ some xs
  unfolding unwrap_all
  unwrap_all-map_some [] = refl
  unwrap_all-map_some (x ∷ xs) = rw (unwrap_all-map_some xs) refl

  pub append_assoc : (xs ys zs : List A) → (xs ++ ys) ++ zs ≡ xs ++ (ys ++ zs)
  append_assoc [] ys zs = refl
  append_assoc (x ∷ xs) ys zs = ap (◌∷◌ x) (append_assoc xs ys zs)

  pub length-repeat : (n : ℕ) (x : A) → length (repeat n x) ≡ n
  length-repeat zero x = refl
  length-repeat (suc n) x = ap suc (length-repeat n x)

pub map-append {ℓ κ} :
    {A : Type ℓ} {B : Type κ} (f : A → B) (xs ys : List A) → map f (xs ++ ys) ≡ map f xs ++ map f ys
map-append f [] ys = refl
map-append f (x ∷ xs) ys = ap (◌∷◌ (f x)) (map-append f xs ys)

module _ {ℓ} {A : Type ℓ} where
  pub set_elem?-append_left :
      (xs ys post : List A) (i : ℕ) (x : A)
      → set_elem? xs i x ≡ some ys
      → set_elem? (xs ++ post) i x ≡ some (ys ++ post)
  set_elem?-append_left [] ys post i x h = absurd (ground arith)
  set_elem?-append_left (y ∷ xs) ys post zero x h = ground (arith, h)
  set_elem?-append_left (y ∷ xs) ys post (suc i) x h = elim (Option-cases (set_elem? xs i x)) [
    | inl e ↦ absurd (ground arith)
    | inr (zs, e) ↦ rw (set_elem?-append_left xs zs post i x e) (ground arith)
  ]

  pub set_elem?-append_right :
      (pre xs ys : List A) (n i : ℕ) (x : A)
      → set_elem? xs i x ≡ some ys
      → n ≡ length pre + i
      → set_elem? (pre ++ xs) n x ≡ some (pre ++ ys)
  set_elem?-append_right [] xs ys n i x h e =
      subst (λ k. set_elem? xs k x ≡ some ys) (omega arith) h
  set_elem?-append_right (y ∷ pre) xs ys zero i x h e = absurd (omega arith)
  set_elem?-append_right (y ∷ pre) xs ys (suc n) i x h e =
      rw (set_elem?-append_right pre xs ys n i x h (omega arith)) refl

  pub repeat-add : (m n : ℕ) (x : A) → repeat (m + n) x ≡ repeat m x ++ repeat n x
  repeat-add zero n x = ap (λ k. repeat k x) (omega arith)
  repeat-add (suc m) n x = ap (λ k. repeat k x) (shift m n) ∙ ap (◌∷◌ x) (repeat-add m n x)
    where
      shift : (m n : ℕ) → suc m + n ≡ suc (m + n)
      shift m n = omega arith

  pub unwrap_all-append :
      (xs ys : List (Option A)) {us vs : List A}
      → unwrap_all xs ≡ some us
      → unwrap_all ys ≡ some vs
      → unwrap_all (xs ++ ys) ≡ some (us ++ vs)
  unfolding unwrap_all
  unwrap_all-append [] ys {us} {vs} h k = ground (arith, k)
  unwrap_all-append (none ∷ xs) ys {us} {vs} h k = absurd (ground arith)
  unwrap_all-append (some x ∷ xs) ys {us} {vs} h k = elim (Option-cases (unwrap_all xs)) [
    | inl e ↦ absurd (ground arith)
    | inr (cs, e) ↦ rw (unwrap_all-append xs ys e k) (ground arith)
  ]

  pub append_nil : (xs : List A) → xs ++ [] ≡ xs
  append_nil [] = refl
  append_nil (x ∷ xs) = ap (◌∷◌ x) (append_nil xs)

-- Reading after a write.
module _ {ℓ} {A : Type ℓ} where
  pub set_elem?-some :
      (v : List A) (i : ℕ) (x : A)
      → i < length v
      → (w : List A) × ((set_elem? v i x ≡ some w) × (length w ≡ length v))
  set_elem?-some [] i x h = absurd (omega arith)
  set_elem?-some (y ∷ v) zero x h = (x ∷ v, (refl, refl))
  set_elem?-some (y ∷ v) (suc i) x h =
      let (w, (e, same)) = set_elem?-some v i x (omega arith) in (y ∷ w, (rw e refl, ap suc same))

  set_elem?-suc :
      (y : A) (v w : List A) (i : ℕ) (x : A)
      → set_elem? (y ∷ v) (suc i) x ≡ some w
      → (u : List A) × ((set_elem? v i x ≡ some u) × (w ≡ y ∷ u))
  set_elem?-suc y v w i x e = elim (Option-cases (set_elem? v i x)) [
    | inl n ↦ absurd (ground arith)
    | inr (u, s) ↦ (u, (s, ground arith))
  ]

  pub get_elem?-set_elem? :
      (v w : List A) (i j : ℕ) (x : A)
      → set_elem? v i x ≡ some w
      → get_elem? w j ≡ (if i == j then some x else get_elem? v j)
  get_elem?-set_elem? [] w i j x e = absurd (ground arith)
  get_elem?-set_elem? (y ∷ v) w zero zero x e = ground arith
  get_elem?-set_elem? (y ∷ v) w zero (suc j) x e = ground arith
  get_elem?-set_elem? (y ∷ v) w (suc i) zero x e =
      let (u, (s, same)) = set_elem?-suc y v w i x e in ground arith
  get_elem?-set_elem? (y ∷ v) w (suc i) (suc j) x e =
      let (u, (s, same)) = set_elem?-suc y v w i x e in
      ap (λ l. get_elem? l (suc j)) same ∙ get_elem?-set_elem? v u i j x s ∙ ground arith

  pub length-set_elem? :
      (v w : List A) (i : ℕ) (x : A) → set_elem? v i x ≡ some w → length w ≡ length v
  length-set_elem? [] w i x e = absurd (ground arith)
  length-set_elem? (y ∷ v) w zero x e = ground arith
  length-set_elem? (y ∷ v) w (suc i) x e =
      let (u, (s, same)) = set_elem?-suc y v w i x e in
      ap length same ∙ ap suc (length-set_elem? v u i x s)
