-- ===== src/Tableau/ExtensionTable/Indexed.antt =====
-- A tuple index over the tuples of a table: it finds each of them at its index, and no other tuple.
use hermit_rs.Base.{
  list_eq, ℕ, zero, suc, ◌<◌, ◌≡◌, refl, sym, ap, ◌∙◌, subst, ◌⊎◌, inl, inr, ◌↔◌, none, some, List,
  [], ◌∷◌, ◌++◌, arith, if◌then◌else◌, length, get_elem?, Bool-cases, Option-cases, nat_eq, ◌==◌,
  get_elem?-push, get_elem?-append_left, get_elem?-lt,
}
use hermit_rs.Base.Panic.{◌>>=◌}
use hermit_rs.Tableau.TupleIndex.{TupleIndex, EdgeKey, keys_of, add_tuple, get_tuple_index}
use hermit_rs.Tableau.TupleIndex.Valid.{IsValid}
use hermit_rs.Tableau.TupleIndex.Content.{some_eq}
use hermit_rs.Tableau.TupleIndex.Adding.{answered, add_tuple_lem, get_tuple_index-add_tuple}

get_elem?-snoc {ℓ} :
    {A : Type ℓ} (us : List A) (u w : A) (i : ℕ)
    → get_elem? (us ++ u ∷ []) i ≡ some w
    → (get_elem? us i ≡ some w) ⊎ ((i ≡ length us) × (u ≡ w))
get_elem?-snoc [] u w zero h = inr (refl, some_eq u w h)
get_elem?-snoc [] u w (suc i) h = absurd (ground arith)
get_elem?-snoc (v ∷ us) u w zero h = inl h
get_elem?-snoc (v ∷ us) u w (suc i) h = elim (get_elem?-snoc us u w i h) [
  | inl a ↦ inl a
  | inr (a, b) ↦ inr (ap suc a, b)
]

no_value {ℓ} : {A : Type ℓ} (a : A) → none ≡ some a → ⊥
no_value a h = ground arith

same_elements {ℓ} :
    {A : Type ℓ} (u w : List A)
    → length u ≡ length w
    → ((c : ℕ) → c < length u → get_elem? u c ≡ get_elem? w c)
    → u ≡ w
same_elements [] [] size h = refl
same_elements [] (y ∷ w) size h = absurd (omega arith)
same_elements (x ∷ u) [] size h = absurd (omega arith)
same_elements (x ∷ u) (y ∷ w) size h =
    let head : x ≡ y = some_eq x y (h 0 (omega arith)) in
    let tail : u ≡ w = same_elements u w (omega arith) (λ c low. h (suc c) (omega arith)) in
    ap (λ z. z ∷ u) head ∙ ap (λ l. y ∷ l) tail

module _ {ℓ} {T : Type ℓ} ⦃e : EdgeKey T⦄ where
  -- The key at a place of the indexing sequence.
  keys_of-at :
      (seq : List ℕ) (u : List T) (ks : List ℕ) (j c : ℕ)
      → keys_of seq u ≡ some ks
      → get_elem? seq j ≡ some c
      → (x : T) × ((k : ℕ) × ((get_elem? u c ≡ some x)
            × ((e.unique_key x ≡ some k) × (get_elem? ks j ≡ some k))))
  unfolding keys_of
  keys_of-at [] u ks j c h p = absurd (ground arith)
  keys_of-at (d ∷ seq) u ks j c h p = elim (Option-cases (get_elem? u d)) [
    | inl a ↦ absurd (no_value ks (rw (a, keys_of, ◌>>=◌) at h))
    | inr (x, a) ↦ elim (Option-cases (e.unique_key x)) [
      | inl k ↦ absurd (no_value ks (rw (a, keys_of, ◌>>=◌, k, ◌>>=◌) at h))
      | inr (key, k) ↦ elim (Option-cases (keys_of seq u)) [
        | inl b ↦ absurd (no_value ks (rw (a, keys_of, ◌>>=◌, k, ◌>>=◌, b, ◌>>=◌) at h))
        | inr (js, b) ↦
            let made : key ∷ js ≡ ks =
              some_eq (key ∷ js) ks (rw (a, keys_of, ◌>>=◌, k, ◌>>=◌, b, ◌>>=◌) at h) in
            at j x key js a k b made p (λ i q. keys_of-at seq u js i c b q)
      ]
    ]
  ]
    where
      at :
          (j : ℕ) (x : T) (key : ℕ) (js : List ℕ)
          → get_elem? u d ≡ some x
          → e.unique_key x ≡ some key
          → keys_of seq u ≡ some js
          → key ∷ js ≡ ks
          → get_elem? (d ∷ seq) j ≡ some c
          → ((i : ℕ)
              → get_elem? seq i ≡ some c
              → (y : T) × ((k : ℕ) × ((get_elem? u c ≡ some y)
                    × ((e.unique_key y ≡ some k) × (get_elem? js i ≡ some k)))))
          → (y : T) × ((k : ℕ) × ((get_elem? u c ≡ some y)
                × ((e.unique_key y ≡ some k) × (get_elem? ks j ≡ some k))))
      at zero x key js a k b made q later = (
        x,
        (
          key,
          (
            subst (λ i. get_elem? u i ≡ some x) (some_eq d c q) a,
            (k, ap (λ l. get_elem? l 0) (sym made)),
          ),
        ),
      )
      at (suc i) x key js a k b made q later =
          let (y, (l, (found, (has, here)))) = later i q in
          (y, (l, (found, (has, ap (λ l. get_elem? l (suc i)) (sym made) ∙ here))))

  -- Over all columns the keys tell the tuple.
  keys_of_inj :
      (a : ℕ) (seq : List ℕ) (u w : List T) (ks : List ℕ)
      → ((c : ℕ) → c < a → (j : ℕ) × (get_elem? seq j ≡ some c))
      → length u ≡ a
      → length w ≡ a
      → keys_of seq u ≡ some ks
      → keys_of seq w ≡ some ks
      → u ≡ w
  keys_of_inj a seq u w ks covers p q h k = same_elements u w (p ∙ sym q) (λ c low.
      let (j, at) = covers c (subst (λ n. c < n) p low) in
      let (x, (key, (fx, (kx, ex)))) = keys_of-at seq u ks j c h at in
      let (y, (key', (fy, (ky, ey)))) = keys_of-at seq w ks j c k at in
      let same : key' ≡ key = some_eq key' key (sym ey ∙ ex) in
      fx ∙ ap some (e.unique_key_inj x y key kx (ky ∙ ap some same)) ∙ sym fy)

  -- The index finds the tuples of a list at their places, and no others.
  pub record Indexed (a : ℕ) (us : List (List T)) (t : TupleIndex) : Type ℓ where
    pub valid : IsValid t
    pub covers : (c : ℕ) → c < a → (j : ℕ) × (get_elem? t.indexing_sequence j ≡ some c)
    pub found :
        (u : List T) (ks : List ℕ) (i : ℕ)
        → length u ≡ a
        → keys_of t.indexing_sequence u ≡ some ks
        → (get_tuple_index t u ≡ some (some i)) ↔ (get_elem? us i ≡ some u)

  found_after :
      (a : ℕ) (us : List (List T)) (t : TupleIndex) (u : List T) (ks : List ℕ)
      → Indexed a us t
      → length u ≡ a
      → keys_of t.indexing_sequence u ≡ some ks
      → ((i : ℕ) → ¬ (get_elem? us i ≡ some u))
      → (t' : TupleIndex) (w : List T) (js : List ℕ) (i : ℕ) → length w ≡ a
      → keys_of t.indexing_sequence w ≡ some js
      → get_tuple_index t' w ≡ (if ks == js then some (some (length us)) else get_tuple_index t w)
      → (get_tuple_index t' w ≡ some (some i)) ↔ (get_elem? (us ++ u ∷ []) i ≡ some w)
  found_after a us t u ks x size h absent t' w js i p k look = elim (Bool-cases (ks == js)) [
    | inl b ↦
        let keys : ks ≡ js = (list_eq.beq_iff ks js).0 b in
        let same : w ≡ u =
          keys_of_inj a t.indexing_sequence w u ks x.covers p size (k ∙ ap some (sym keys)) h in
        let here : get_tuple_index t' w ≡ some (some (length us)) =
          look ∙ ap (λ c. if c then some (some (length us)) else get_tuple_index t w) b in
        (
          λ q.
              let n : length us ≡ i =
                some_eq (length us) i (some_eq (some (length us)) (some i) (sym here ∙ q)) in
              subst (λ z. get_elem? (us ++ u ∷ []) z ≡ some w) n
                (get_elem?-push us u ∙ ap some (sym same)),
          λ q. elim (get_elem?-snoc us u w i q) [
            | inl g ↦ absurd (absent i (g ∙ ap some same))
            | inr (n, _) ↦ here ∙ ap (λ z. some (some z)) (sym n)
          ],
        )
    | inr b ↦
        let there : get_tuple_index t' w ≡ get_tuple_index t w =
          look ∙ ap (λ c. if c then some (some (length us)) else get_tuple_index t w) b in
        (
          λ q.
              let g = (x.found w js i p k).0 (sym there ∙ q) in
              get_elem?-append_left us (u ∷ []) i (get_elem?-lt us i g) ∙ g,
          λ q. elim (get_elem?-snoc us u w i q) [
            | inl g ↦ there ∙ (x.found w js i p k).1 g
            | inr (n, s) ↦
                let keys : ks ≡ js =
                  some_eq ks js (sym h ∙ ap (keys_of t.indexing_sequence) s ∙ k) in
                let yes = (list_eq.beq_iff ks js).1 keys in absurd (ground arith)
          ],
        )
  ]

  -- A tuple that is not there goes behind the others.
  pub Indexed-added :
      (a : ℕ) (us : List (List T)) (t : TupleIndex) (u : List T) (ks : List ℕ)
      → Indexed a us t
      → length u ≡ a
      → keys_of t.indexing_sequence u ≡ some ks
      → ((i : ℕ) → ¬ (get_elem? us i ≡ some u))
      → (t' : TupleIndex) × ((add_tuple t u (length us) ≡ some (t', length us))
          × Indexed a (us ++ u ∷ []) t')
  Indexed-added a us t u ks x size h absent =
      let (r, (run, adds)) = add_tuple_lem t x.valid u ks (length us) h in
      let (t', (o, (v', (look, (run', after))))) =
        get_tuple_index-add_tuple t u ks (length us) x.valid h in
      let sequence : t'.indexing_sequence ≡ t.indexing_sequence =
        ap (λ z. z.0.indexing_sequence) (some_eq (t', answered (length us) o) r (sym run' ∙ run))
        ∙ adds.sequence in
      elim (Option-cases o) [
        | inl q ↦
            let answer : answered (length us) o ≡ length us = ap (answered (length us)) q in
            (
              t',
              (
                run' ∙ ap (λ n. some (t', n)) answer,
                record {
                  valid = v';
                  covers = λ c low.
                      subst (λ s. (j : ℕ) × (get_elem? s j ≡ some c)) (sym sequence)
                        (x.covers c low);
                  found = λ w js i p k.
                      let k' = subst (λ s. keys_of s w ≡ some js) sequence k in
                      found_after a us t u ks x size h absent t' w js i p k' (
                        after w js k'
                        ∙ ap (λ n. if ks == js then some (some n) else get_tuple_index t w) answer);
                },
              ),
            )
        | inr (i, q) ↦ absurd (absent i ((x.found u ks i size h).0 (look ∙ ap some q)))
      ]

  -- A tuple that is there keeps its place.
  pub Indexed-present :
      (a : ℕ) (us : List (List T)) (t : TupleIndex) (u : List T) (ks : List ℕ) (potential i : ℕ)
      → Indexed a us t
      → length u ≡ a
      → keys_of t.indexing_sequence u ≡ some ks
      → get_elem? us i ≡ some u
      → (t' : TupleIndex) × ((add_tuple t u potential ≡ some (t', i)) × Indexed a us t')
  Indexed-present a us t u ks potential i x size h there =
      let (r, (run, adds)) = add_tuple_lem t x.valid u ks potential h in
      let (t', (o, (v', (look, (run', after))))) =
        get_tuple_index-add_tuple t u ks potential x.valid h in
      let sequence : t'.indexing_sequence ≡ t.indexing_sequence =
        ap (λ z. z.0.indexing_sequence) (some_eq (t', answered potential o) r (sym run' ∙ run))
        ∙ adds.sequence in
      let old : get_tuple_index t u ≡ some (some i) = (x.found u ks i size h).1 there in
      let answer : answered potential o ≡ i =
        ap (answered potential) (some_eq o (some i) (sym look ∙ old)) in
      (
        t',
        (
          run' ∙ ap (λ n. some (t', n)) answer,
          record {
            valid = v';
            covers = λ c low.
                subst (λ s. (j : ℕ) × (get_elem? s j ≡ some c)) (sym sequence) (x.covers c low);
            found = λ w js n p k.
                let k' = subst (λ s. keys_of s w ≡ some js) sequence k in
                let kept : get_tuple_index t' w ≡ get_tuple_index t w =
                  after w js k'
                  ∙ ap (λ m. if ks == js then some (some m) else get_tuple_index t w) answer
                  ∙ unchanged w js p k' old in
                subst (λ z. (z ≡ some (some n)) ↔ (get_elem? us n ≡ some w)) (sym kept)
                  (x.found w js n p k');
          },
        ),
      )
    where
      unchanged :
          (w : List T) (js : List ℕ)
          → length w ≡ a
          → keys_of t.indexing_sequence w ≡ some js
          → get_tuple_index t u ≡ some (some i)
          → (if ks == js then some (some i) else get_tuple_index t w) ≡ get_tuple_index t w
      unchanged w js p k old = elim (Bool-cases (ks == js)) [
        | inl b ↦
            let same : u ≡ w =
              keys_of_inj a t.indexing_sequence u w ks x.covers size p h
                (k ∙ ap some (sym ((list_eq.beq_iff ks js).0 b))) in
            ap (λ c. if c then some (some i) else get_tuple_index t w) b
            ∙ sym old
            ∙ ap (get_tuple_index t) same
        | inr b ↦ ap (λ c. if c then some (some i) else get_tuple_index t w) b
      ]
