-- ===== src/Tableau/TupleTable/Comparison.antt =====
-- The comparison of a buffer with a stored tuple: `TupleTable::tuple_equals` and its indexed form.
use hermit_rs.Base.{
  ◌*◌, ℕ, zero, suc, ◌+◌, ◌≤◌, ◌<◌, ◌≡◌, refl, sym, ap, ◌∙◌, subst, inl, inr, ◌↔◌, Bool, true,
  false, Option, some, List, [], ◌∷◌, ◌++◌, map, arith, if◌then◌else◌, length, get_elem?,
  Bool-cases, All, nat_eq, Eq, ◌==◌, get_elem?-append_left, get_elem?-some, get_elem?-lt,
  length-map,
}
use hermit_rs.Base.Panic.{◌>>=◌}
use hermit_rs.Base.Vectors.{append_assoc}
use hermit_rs.Tableau.TupleTable.{
  TupleTable, slots_equal, tuple_equals, slots_equal_indexed, tuple_equals_indexed,
  get_tuple_object, slot,
}
use hermit_rs.Tableau.TupleTable.Stored.{Stores, place}

get_elem?-append_right {ℓ} :
    {A : Type ℓ} (xs ys : List A) (n i : ℕ)
    → n ≡ length xs + i
    → get_elem? (xs ++ ys) n ≡ get_elem? ys i
get_elem?-append_right [] ys n i e = ap (get_elem? ys) (omega arith)
get_elem?-append_right (x ∷ xs) ys zero i e = absurd (omega arith)
get_elem?-append_right (x ∷ xs) ys (suc n) i e = get_elem?-append_right xs ys n i (omega arith)

All-get_elem? {ℓ κ} :
    {A : Type ℓ} (P : A → Type κ) (xs : List A) (i : ℕ) (x : A)
    → All P xs
    → get_elem? xs i ≡ some x
    → P x
All-get_elem? P [] i x h e = absurd (ground arith)
All-get_elem? P (y ∷ xs) zero x (h, hs) e = subst P (ground arith) h
All-get_elem? P (y ∷ xs) (suc i) x (h, hs) e = All-get_elem? P xs i x hs e

get_elem?-map_some {ℓ} :
    {A : Type ℓ} (xs : List A) (i : ℕ) (x : A)
    → get_elem? xs i ≡ some x
    → get_elem? (map some xs) i ≡ some (some x)
get_elem?-map_some [] i x e = absurd (ground arith)
get_elem?-map_some (y ∷ xs) zero x e = ap some e
get_elem?-map_some (y ∷ xs) (suc i) x e = get_elem?-map_some xs i x e

module _ {ℓ} {T : Type ℓ} where
  slot_of_tuple :
      (t : TupleTable T) (us : List (List T)) (i : ℕ) (u : List T) (k : ℕ) (x : T)
      → Stores t us
      → get_elem? us i ≡ some u
      → get_elem? u k ≡ some x
      → get_elem? t.objects (i * t.arity + k) ≡ some (some x)
  slot_of_tuple t us i u k x s e f =
      let p = place t us i u s.arities e in
      ap (λ l. get_elem? l (i * t.arity + k))
        (s.objects
          ∙ ap (λ l. l ++ s.rest) p.split
          ∙ append_assoc p.pre (map some u ++ p.post) s.rest
          ∙ ap (λ l. p.pre ++ l) (append_assoc (map some u) p.post s.rest))
      ∙ get_elem?-append_right p.pre (map some u ++ (p.post ++ s.rest)) (i * t.arity + k) k
          (omega (arith, p.start))
      ∙ get_elem?-append_left (map some u) (p.post ++ s.rest) k
          (omega (arith, get_elem?-lt u k f, length-map {B = Option T} some u))
      ∙ get_elem?-map_some u k x f

  -- Reading one object of a stored tuple.
  pub get_tuple_object_lem :
      (t : TupleTable T) (us : List (List T)) (i : ℕ) (u : List T) (k : ℕ) (x : T)
      → Stores t us
      → get_elem? us i ≡ some u
      → get_elem? u k ≡ some x
      → get_tuple_object t i k ≡ some (some x)
  unfolding get_tuple_object slot
  get_tuple_object_lem t us i u k x s e f = slot_of_tuple t us i u k x s e f

module _ {ℓ} {T : Type ℓ} ⦃e : Eq T⦄ where
  -- A tuple agrees with given values on the first positions.
  abbrev pub Agree : List T → (ℕ → Option T) → ℕ → Type ℓ
  Agree u f n = (k : ℕ) → k < n → get_elem? u k ≡ f k

  Agree-suc :
      (u : List T) (f : ℕ → Option T) (n : ℕ) (x y : T)
      → get_elem? u n ≡ some x
      → f n ≡ some y
      → Agree u f (suc n) ↔ (Agree u f n × (x ≡ y))
  Agree-suc u f n x y ex ey = (
    λ h. ((λ k l. h k (omega arith)), same (sym ex ∙ h n (omega arith) ∙ ey)),
    λ (h, s) k l. elim (Bool-cases (k == n)) [
      | inl t ↦
          let p = (nat_eq.beq_iff k n).0 t in
          ap (get_elem? u) p ∙ ex ∙ ap some s ∙ sym ey ∙ ap f (sym p)
      | inr t ↦ h k (ground arith)
    ],
  )
    where
      same : some x ≡ some y → x ≡ y
      same h = ground arith

  -- One round of the loops, from the last position down.
  Agree-round :
      (u : List T) (f : ℕ → Option T) (n : ℕ) (x y : T) (b : Bool)
      → get_elem? u n ≡ some x
      → f n ≡ some y
      → ((b ≡ true) ↔ Agree u f n)
      → ((if x == y then b else false) ≡ true) ↔ Agree u f (suc n)
  Agree-round u f n x y b ex ey agree = (
    λ h. (Agree-suc u f n x y ex ey).1 (agree.0 (ground arith), (e.beq_iff x y).0 (ground arith)),
    λ h.
        let (rest, same) = (Agree-suc u f n x y ex ey).0 h in
        ground (arith, (e.beq_iff x y).1 same, agree.1 rest),
  )

  abbrev Reads : List (Option T) → List T → ℕ → Type ℓ
  Reads objects u start =
      (k : ℕ) (x : T) → get_elem? u k ≡ some x → get_elem? objects (start + k) ≡ some (some x)

  slots_equal_lem :
      (objects : List (Option T)) (buffer u : List T) (start n : ℕ)
      → Reads objects u start
      → n ≤ length u
      → n ≤ length buffer
      → (b : Bool) × ((slots_equal objects buffer start n ≡ some b)
          × ((b ≡ true) ↔ Agree u (get_elem? buffer) n))
  unfolding slots_equal
  slots_equal_lem objects buffer u start zero at h h' =
      (true, (refl, ((λ _ k l. absurd (omega arith)), λ _. refl)))
  slots_equal_lem objects buffer u start (suc n) at h h' =
      let (x, ex) = get_elem?-some u n h in
      let (y, ey) = get_elem?-some buffer n h' in
      let (b, (run, agree)) =
        slots_equal_lem objects buffer u start n at (omega arith) (omega arith) in
      let read = at n x ex in
      (
        if x == y then b else false,
        (rw (read, ey, run) (ground arith), Agree-round u (get_elem? buffer) n x y b ex ey agree),
      )

  -- The value that the indexed form compares with.
  abbrev pub projected : List T → List ℕ → ℕ → Option T
  projected buffer positions k = get_elem? positions k >>= get_elem? buffer

  slots_equal_indexed_lem :
      (objects : List (Option T)) (buffer : List T) (positions : List ℕ) (u : List T) (start n : ℕ)
      → Reads objects u start
      → n ≤ length u
      → n ≤ length positions
      → All (λ k. k < length buffer) positions
      → (b : Bool) × ((slots_equal_indexed objects buffer positions start n ≡ some b)
          × ((b ≡ true) ↔ Agree u (projected buffer positions) n))
  unfolding slots_equal_indexed
  slots_equal_indexed_lem objects buffer positions u start zero at h h' bound =
      (true, (refl, ((λ _ k l. absurd (omega arith)), λ _. refl)))
  slots_equal_indexed_lem objects buffer positions u start (suc n) at h h' bound =
      let (x, ex) = get_elem?-some u n h in
      let (k, ek) = get_elem?-some positions n h' in
      let (y, ey) =
        get_elem?-some buffer k (All-get_elem? (λ k. k < length buffer) positions n k bound ek) in
      let (b, (run, agree)) =
        slots_equal_indexed_lem objects buffer positions u start n at (omega arith) (omega arith)
          bound in
      let read = at n x ex in
      let there : projected buffer positions n ≡ some y = rw (ek, ◌>>=◌) ey in
      (
        if x == y then b else false,
        (
          rw (read, ek, ◌>>=◌, ey, run) (ground arith),
          Agree-round u (projected buffer positions) n x y b ex there agree,
        ),
      )

  -- The plain comparison: it agrees with the buffer itself.
  pub tuple_equals_correct :
      (t : TupleTable T) (us : List (List T)) (buffer : List T) (i n : ℕ) (u : List T)
      → Stores t us
      → get_elem? us i ≡ some u
      → n ≤ length u
      → n ≤ length buffer
      → (b : Bool) × ((tuple_equals t buffer i n ≡ some b)
          × ((b ≡ true) ↔ Agree u (get_elem? buffer) n))
  unfolding tuple_equals
  tuple_equals_correct t us buffer i n u s found h h' =
      slots_equal_lem t.objects buffer u (i * t.arity) n
        (λ k x f. slot_of_tuple t us i u k x s found f) h h'

  -- For a stored tuple, a length that it has and the positions have, and positions inside the
  -- buffer, `tuple_equals_indexed` does not panic, and says yes exactly if the tuple agrees
  -- with the buffer at the positions, on the first places up to the length.
  pub tuple_equals_indexed_correct :
      (t : TupleTable T) (us : List (List T)) (buffer : List T) (positions : List ℕ) (i n : ℕ)
      (u : List T)
      → Stores t us
      → get_elem? us i ≡ some u
      → n ≤ length u
      → n ≤ length positions
      → All (λ k. k < length buffer) positions
      → (b : Bool) × ((tuple_equals_indexed t buffer positions i n ≡ some b)
          × ((b ≡ true) ↔ Agree u (projected buffer positions) n))
  unfolding tuple_equals_indexed
  tuple_equals_indexed_correct t us buffer positions i n u s found h h' bound =
      slots_equal_indexed_lem t.objects buffer positions u (i * t.arity) n
        (λ k x f. slot_of_tuple t us i u k x s found f) h h' bound
