-- ===== src/Tableau/TupleTable/Stored.antt =====
-- What a `TupleTable` stores: a list of tuples, and that its operations are those of the list.
use native.Mathlib.Nat.{suc-mul, zero-mul, le-div_iff_mul-le}
use hermit_rs.Base.{
  ◌/◌, ℕ, ◌+◌, ◌*◌, ◌≤◌, ◌<◌, ◌≡◌, refl, sym, ap, ◌∙◌, subst, inl, inr, false, Option, none, some,
  List, [], ◌∷◌, ◌++◌, map, arith, length, get_elem?, Bool-cases, All, nat_eq, ◌==◌, length-append,
  suc, All-append, length-map, zero,
}
use hermit_rs.Base.Panic.{◌>>=◌}
use hermit_rs.Base.Vectors.{
  set_elem?, repeat, append_nil, append_assoc, set_elem?-append_right, length-repeat,
}
use hermit_rs.Tableau.TupleTable.{
  TupleTable, page_size, slice?, write_slots, grow, add_tuple, retrieve_tuple,
}

module _ {ℓ} {T : Type ℓ} where
  abbrev pub flatten : List (List T) → List (Option T)
  flatten [] = []
  flatten (u ∷ us) = map some u ++ flatten us

  -- The first slots of the table are those of the tuples.
  pub record Stores (t : TupleTable T) (us : List (List T)) : Type ℓ where
    pub has_columns : 0 < t.arity
    pub arities : All (λ u. length u ≡ t.arity) us
    pub rest : List (Option T)
    pub objects : t.objects ≡ flatten us ++ rest

  -- The tuples are all that the table stores.
  pub record Holds (t : TupleTable T) (us : List (List T)) : Type ℓ where
    pub stores : Stores t us
    pub first_free : t.first_free_tuple_index ≡ length us

  pub length-flatten :
      (a : ℕ) (us : List (List T))
      → All (λ u. length u ≡ a) us
      → length (flatten us) ≡ length us * a
  length-flatten a [] h = sym (zero-mul a)
  length-flatten a (u ∷ us) (h, hs) = omega (
    arith,
    length-append (map some u) (flatten us),
    length-map {B = Option T} some u,
    length-flatten a us hs,
    suc-mul (length us) a,
  )

  pub flatten-append : (us vs : List (List T)) → flatten (us ++ vs) ≡ flatten us ++ flatten vs
  flatten-append [] vs = refl
  flatten-append (u ∷ us) vs =
      ap (λ l. map some u ++ l) (flatten-append us vs)
      ∙ sym (append_assoc (map some u) (flatten us) (flatten vs))

  -- Writing over slots that are there.
  write_slots_lem :
      (n : ℕ) (xs : List T) (pre rest : List (Option T))
      → n ≡ length pre
      → length xs ≤ length rest
      → (post : List (Option T)) × (write_slots n xs (pre ++ rest)
          ≡ some (pre ++ (map some xs ++ post)))
  unfolding write_slots
  write_slots_lem n [] pre rest e h = (rest, refl)
  write_slots_lem n (x ∷ xs) pre [] e h = absurd (omega arith)
  write_slots_lem n (x ∷ xs) pre (o ∷ rest) e h =
      let (post, written) =
        write_slots_lem (suc n) xs (pre ++ some x ∷ []) rest
          (omega (arith, length-append pre (some x ∷ []))) (omega arith) in
      let first : set_elem? (pre ++ o ∷ rest) n (some x) ≡ some (pre ++ some x ∷ rest) =
        set_elem?-append_right pre (o ∷ rest) (some x ∷ rest) n 0 (some x) refl (omega arith) in
      (
        post,
        rw (first, ◌>>=◌)
            (rw
              (
                append_assoc pre (some x ∷ []) rest,
                append_assoc pre (some x ∷ []) (map some xs ++ post),
              )
              at written),
      )

  -- The room that `add_tuple` makes.
  grow_lem :
      (t : TupleTable T) (us : List (List T))
      → Holds t us
      → (rest : List (Option T)) × ((grow t ≡ flatten us ++ rest) × (t.arity ≤ length rest))
  unfolding grow
  grow_lem t us h =
      let a = t.arity in
      let k = length t.objects in
      let s = h.stores in
      let size : k ≡ length us * a + length s.rest =
        ap length s.objects
        ∙ omega (arith, length-append (flatten us) s.rest, length-flatten a us s.arities) in
      let fits : t.first_free_tuple_index ≤ k / a =
        (le-div_iff_mul-le s.has_columns).1
          (subst (λ n. n * a ≤ k) (sym h.first_free) (omega arith)) in
      elim (Bool-cases (t.first_free_tuple_index == k / a)) [
        | inl e ↦ (
          s.rest ++ repeat (a * page_size) none,
          (
            rw (e, grow)
                (ap (λ l. l ++ repeat (a * page_size) none) s.objects
                  ∙ append_assoc (flatten us) s.rest (repeat (a * page_size) none)),
            omega (
              arith,
              length-append s.rest (repeat (a * page_size) none),
              length-repeat {A = Option T} (a * page_size) none,
            ),
          ),
        )
        | inr e ↦
            let next : suc t.first_free_tuple_index ≤ k / a = ground arith in
            let room : suc (length us) * a ≤ k =
              (le-div_iff_mul-le s.has_columns).0 (subst (λ n. suc n ≤ k / a) h.first_free next) in
            (s.rest, (rw (e, grow) s.objects, omega (arith, suc-mul (length us) a)))
      ]

  -- Adding a tuple of the arity puts it after the tuples that the table holds.
  pub add_tuple_lem :
      (t : TupleTable T) (us : List (List T)) (u : List T)
      → Holds t us
      → length u ≡ t.arity
      → (r : TupleTable T) × ((add_tuple t u ≡ some (r, length us))
          × (Holds r (us ++ u ∷ []) × (r.arity ≡ t.arity)))
  unfolding add_tuple
  add_tuple_lem t us u h e =
      let (rest, (grown, room)) = grow_lem t us h in
      let (post, written) =
        write_slots_lem (t.first_free_tuple_index * t.arity) u (flatten us) rest
          (ap (λ n. n * t.arity) h.first_free ∙ sym (length-flatten t.arity us h.stores.arities))
          (omega arith) in
      let columns : (t.arity == 0) ≡ false = ground (arith, h.stores.has_columns) in
      let r : TupleTable T = record t {
        objects = flatten us ++ (map some u ++ post);
        first_free_tuple_index = suc t.first_free_tuple_index;
      } in
      (
        r,
        (
          rw (add_tuple, columns, grown, written, ◌>>=◌) (ap (λ n. some (r, n)) h.first_free),
          (
            record {
              stores = record {
                has_columns = h.stores.has_columns;
                arities = All-append (λ v. length v ≡ t.arity) us (u ∷ []) h.stores.arities (e, tt);
                rest = post;
                objects =
                    sym (append_assoc (flatten us) (map some u) post)
                    ∙ ap (λ l. (flatten us ++ l) ++ post) (sym (append_nil (map some u)))
                    ∙ ap (λ l. l ++ post) (sym (flatten-append us (u ∷ [])));
              };
              first_free = omega (arith, h.first_free, length-append us (u ∷ []));
            },
            refl,
          ),
        ),
      )

  slice?-middle :
      (pre xs post : List (Option T)) (start len : ℕ)
      → start ≡ length pre
      → len ≡ length xs
      → slice? (pre ++ (xs ++ post)) start len ≡ some xs
  slice?-middle [] [] post zero zero e h = refl
  slice?-middle [] [] post zero (suc len) e h = absurd (omega arith)
  slice?-middle [] xs post (suc start) len e h = absurd (omega arith)
  slice?-middle [] (x ∷ xs) post zero zero e h = absurd (omega arith)
  slice?-middle [] (x ∷ xs) post zero (suc len) e h =
      rw (slice?-middle [] xs post 0 len refl (omega arith)) refl
  slice?-middle (y ∷ pre) xs post zero len e h = absurd (omega arith)
  slice?-middle (y ∷ pre) xs post (suc start) len e h =
      slice?-middle pre xs post start len (omega arith) h

  -- The place of a tuple.
  pub record Place (t : TupleTable T) (us : List (List T)) (i : ℕ) (u : List T) : Type ℓ where
    pub pre : List (Option T)
    pub post : List (Option T)
    pub split : flatten us ≡ pre ++ (map some u ++ post)
    pub start : i * t.arity ≡ length pre
    pub columns : length u ≡ t.arity

  pub place :
      (t : TupleTable T) (us : List (List T)) (i : ℕ) (u : List T)
      → All (λ v. length v ≡ t.arity) us
      → get_elem? us i ≡ some u
      → Place t us i u
  place t [] i u h e = absurd (ground arith)
  place t (v ∷ us) zero u (h, hs) e =
      let same : v ≡ u = ground arith in
      record {
        pre = [];
        post = flatten us;
        split = ap (λ w. map some w ++ flatten us) same;
        start = zero-mul t.arity;
        columns = ap length (sym same) ∙ h;
      }
  place t (v ∷ us) (suc i) u (h, hs) e =
      let p = place t us i u hs e in
      record {
        pre = map some v ++ p.pre;
        post = p.post;
        split =
            ap (λ l. map some v ++ l) p.split
            ∙ sym (append_assoc (map some v) p.pre (map some u ++ p.post));
        start = omega (
          arith,
          p.start,
          h,
          suc-mul i t.arity,
          length-append (map some v) p.pre,
          length-map {B = Option T} some v,
        );
        columns = p.columns;
      }

  -- Reading gives the tuple that the table stores.
  pub retrieve_tuple_lem :
      (t : TupleTable T) (us : List (List T)) (i : ℕ) (u : List T)
      → Stores t us
      → get_elem? us i ≡ some u
      → retrieve_tuple t i ≡ some (map some u)
  unfolding retrieve_tuple
  retrieve_tuple_lem t us i u s e =
      let p = place t us i u s.arities e in
      ap (λ l. slice? l (i * t.arity) t.arity)
        (s.objects
          ∙ ap (λ l. l ++ s.rest) p.split
          ∙ append_assoc p.pre (map some u ++ p.post) s.rest
          ∙ ap (λ l. p.pre ++ l) (append_assoc (map some u) p.post s.rest))
      ∙ slice?-middle p.pre (map some u) (p.post ++ s.rest) (i * t.arity) t.arity p.start
          (omega (arith, p.columns, length-map {B = Option T} some u))
