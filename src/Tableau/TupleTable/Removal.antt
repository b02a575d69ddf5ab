-- ===== src/Tableau/TupleTable/Removal.antt =====
-- The operations of a `TupleTable` that remove tuples, and the round trip of adding and reading.
use hermit_rs.Base.{
  ◌*◌, ℕ, zero, suc, ◌≤◌, ◌<◌, ◌≡◌, refl, sym, ap, ◌∙◌, Option, none, some, List, [], ◌∷◌, ◌++◌,
  map, arith, length, All, nat_eq, length-append, get_elem?-push, get_elem?-some,
  get_elem?-append_left, length-map,
}
use hermit_rs.Base.Panic.{◌>>=◌}
use hermit_rs.Base.Vectors.{set_elem?, append_assoc, append_nil, set_elem?-append_right}
use hermit_rs.Tableau.TupleTable.{
  TupleTable, new, clear, truncate, nullify_slots, nullify_tuple, add_tuple, retrieve_tuple,
}
use hermit_rs.Tableau.TupleTable.Stored.{
  Stores, Holds, flatten, length-flatten, flatten-append, add_tuple_lem, retrieve_tuple_lem,
}

All-front {ℓ κ} :
    {A : Type ℓ} (P : A → Type κ) (xs ys : List A) → All P (xs ++ ys) → All P xs × All P ys
All-front P [] ys h = (tt, h)
All-front P (x ∷ xs) ys (h, hs) = let (a, b) = All-front P xs ys hs in ((h, a), b)

module _ {ℓ} {T : Type ℓ} where
  nullify_slots_lem :
      (n len : ℕ) (pre rest : List (Option T))
      → n ≡ length pre
      → len ≤ length rest
      → (post : List (Option T)) × (nullify_slots n len (pre ++ rest) ≡ some (pre ++ post))
  unfolding nullify_slots
  nullify_slots_lem n zero pre rest e h = (rest, refl)
  nullify_slots_lem n (suc len) pre [] e h = absurd (omega arith)
  nullify_slots_lem n (suc len) pre (o ∷ rest) e h =
      let (post, written) =
        nullify_slots_lem (suc n) len (pre ++ none ∷ []) rest
          (omega (arith, length-append pre (none ∷ []))) (omega arith) in
      let first : set_elem? (pre ++ o ∷ rest) n none ≡ some (pre ++ none ∷ rest) =
        set_elem?-append_right pre (o ∷ rest) (none ∷ rest) n 0 none refl (omega arith) in
      (
        none ∷ post,
        rw (first, ◌>>=◌)
            (rw (append_assoc pre (none ∷ []) rest, append_assoc pre (none ∷ []) post) at written),
      )

  -- Nullifying the last tuple leaves the others.
  pub nullify_tuple_lem :
      (t : TupleTable T) (us : List (List T)) (u : List T)
      → Stores t (us ++ u ∷ [])
      → (r : TupleTable T) × ((nullify_tuple t (length us) ≡ some r)
          × (Stores r us
              × ((r.arity ≡ t.arity) × (r.first_free_tuple_index ≡ t.first_free_tuple_index))))
  unfolding nullify_tuple
  nullify_tuple_lem t us u s =
      let (old, (last, _)) = All-front (λ v. length v ≡ t.arity) us (u ∷ []) s.arities in
      let tail = map some u ++ s.rest in
      let split : t.objects ≡ flatten us ++ tail =
        s.objects
        ∙ ap (λ l. l ++ s.rest) (flatten-append us (u ∷ []))
        ∙ append_assoc (flatten us) (flatten (u ∷ [])) s.rest
        ∙ ap (λ l. flatten us ++ (l ++ s.rest)) (append_nil (map some u)) in
      let (post, written) =
        nullify_slots_lem (length us * t.arity) t.arity (flatten us) tail
          (sym (length-flatten t.arity us old))
          (omega
            (arith, last, length-append (map some u) s.rest, length-map {B = Option T} some u)) in
      let r : TupleTable T = record t { objects = flatten us ++ post } in
      (
        r,
        (
          rw (nullify_tuple, split, written) refl,
          (
            record { has_columns = s.has_columns; arities = old; rest = post; objects = refl },
            (refl, refl),
          ),
        ),
      )

  pub truncate_lem :
      (t : TupleTable T) (us : List (List T)) → Stores t us → Holds (truncate t (length us)) us
  unfolding truncate
  truncate_lem t us s = record {
    stores = record {
      has_columns = s.has_columns;
      arities = s.arities;
      rest = s.rest;
      objects = s.objects;
    };
    first_free = refl;
  }

  pub clear-Holds : (t : TupleTable T) → 0 < t.arity → Holds (clear t) []
  unfolding clear
  clear-Holds t h = record {
    stores = record { has_columns = h; arities = tt; rest = _; objects = refl };
    first_free = refl;
  }

  pub new-Holds : (arity : ℕ) → 0 < arity → Holds (new {T = T} arity) []
  unfolding new
  new-Holds arity h =
      clear-Holds (record { arity = arity; objects = []; first_free_tuple_index = 0 }) h

  -- In a table that holds a list of tuples, to add a tuple of the arity does not panic, and
  -- gives the next index; to read the tuple at that index gives the tuple, and to read at a
  -- smaller one gives what it gave before.
  pub retrieve_tuple-add_tuple :
      (t : TupleTable T) (us : List (List T)) (u : List T)
      → Holds t us
      → length u ≡ t.arity
      → (r : TupleTable T) × ((add_tuple t u ≡ some (r, length us))
          × ((retrieve_tuple r (length us) ≡ some (map some u))
              × ((i : ℕ) → i < length us → retrieve_tuple r i ≡ retrieve_tuple t i)))
  retrieve_tuple-add_tuple t us u h e =
      let (r, (added, (holds, _))) = add_tuple_lem t us u h e in
      (
        r,
        (
          added,
          (
            retrieve_tuple_lem r (us ++ u ∷ []) (length us) u holds.stores (get_elem?-push us u),
            λ i low.
                let (w, found) = get_elem?-some us i low in
                retrieve_tuple_lem r (us ++ u ∷ []) i w holds.stores
                  (get_elem?-append_left us (u ∷ []) i low ∙ found)
                ∙ sym (retrieve_tuple_lem t us i w h.stores found),
          ),
        ),
      )
