-- ===== src/Tableau/Object/Keys.antt =====
-- The keys of `TableauObject::unique_key` are different for different objects.
use native.Mathlib.Nat.{mod-eq_of_lt}
use hermit_rs.Base.{
  ◌^◌, ◌%◌, ltb→lt, ℕ, ◌+◌, ◌*◌, ◌<◌, ◌≡◌, refl, sym, ap, ◌∙◌, subst, inl, inr, Option, none, some,
  arith, if◌then◌else◌, Bool-cases, Option-cases, ltb, nat_eq, subst,
}
use hermit_rs.Base.Panic.{◌>>=◌}
use hermit_rs.Model.Types.{Concept, DlPredicate}
use hermit_rs.Tableau.TupleIndex.{EdgeKey}
use hermit_rs.Tableau.Object.{
  TableauObject, Allocations, concept_raw_key, dl_predicate_raw_key, tag_and_inner, unique_key,
}
use hermit_rs.Tableau.Object.Sources.{
  some_eq, Source, IsOf, concept_source, predicate_source, object_tag, object_source, source_object,
  source_object-object_source, object_source-IsOf,
}

module _ (m : Allocations) where
  abbrev number : Source → Option ℕ
  number (Source.constant n) = some n
  number (Source.allocated x) = m.address x

  number_inj :
      (t : ℕ) (x y : Source) (k : ℕ)
      → IsOf t x
      → IsOf t y
      → number x ≡ some k
      → number y ≡ some k
      → x ≡ y
  number_inj t (Source.constant a) (Source.constant b) k h l p q =
      ap Source.constant (some_eq a b (p ∙ sym q))
  number_inj t (Source.constant a) (Source.allocated y) k h l p q = elim h [
    | inl e ↦ absurd (l e)
    | inr small ↦ absurd (omega (arith, some_eq a k p, m.above y k q))
  ]
  number_inj t (Source.allocated x) (Source.constant b) k h l p q = elim l [
    | inl e ↦ absurd (h e)
    | inr small ↦ absurd (omega (arith, some_eq b k q, m.above x k p))
  ]
  number_inj t (Source.allocated x) (Source.allocated y) k h l p q =
      ap Source.allocated (m.apart x y k p q)

  concept_raw_key-eq : (c : Concept) → concept_raw_key m c ≡ m.address (concept_source c)
  unfolding concept_raw_key
  concept_raw_key-eq (Concept.atomic_concept c) = refl
  concept_raw_key-eq (Concept.atomic_negation_concept c) = refl
  concept_raw_key-eq (Concept.at_least_concept c) = refl
  concept_raw_key-eq (Concept.at_least_data_range c) = refl
  concept_raw_key-eq (Concept.exists_description_graph c) = refl

  predicate_raw_key-eq : (p : DlPredicate) → dl_predicate_raw_key m p ≡ number (predicate_source p)
  unfolding dl_predicate_raw_key
  predicate_raw_key-eq (DlPredicate.atomic_concept p) = refl
  predicate_raw_key-eq (DlPredicate.atomic_role p) = refl
  predicate_raw_key-eq (DlPredicate.at_least_concept p) = refl
  predicate_raw_key-eq (DlPredicate.at_least_data_range p) = refl
  predicate_raw_key-eq (DlPredicate.annotated_equality p) = refl
  predicate_raw_key-eq (DlPredicate.node_ids_ascending_or_equal p) = refl
  predicate_raw_key-eq (DlPredicate.datatype_restriction p) = refl
  predicate_raw_key-eq (DlPredicate.constant_enumeration p) = refl
  predicate_raw_key-eq (DlPredicate.internal_datatype p) = refl
  predicate_raw_key-eq (DlPredicate.atomic_negation_data_range p) = refl
  predicate_raw_key-eq (DlPredicate.description_graph p) = refl
  predicate_raw_key-eq (DlPredicate.exists_description_graph p) = refl
  predicate_raw_key-eq DlPredicate.equality = refl
  predicate_raw_key-eq DlPredicate.inequality = refl
  predicate_raw_key-eq DlPredicate.node_id_less_equal_than = refl

  abbrev tagged : Option ℕ → ℕ → Option (ℕ × ℕ)
  tagged o g = o >>= λ x. some (g, x)

  tag_and_inner-eq :
      (x : TableauObject) → tag_and_inner m x ≡ tagged (number (object_source x)) (object_tag x)
  unfolding tag_and_inner
  tag_and_inner-eq (TableauObject.concept c) = ap (λ o. tagged o 0) (concept_raw_key-eq c)
  tag_and_inner-eq (TableauObject.dl_predicate p) = ap (λ o. tagged o 1) (predicate_raw_key-eq p)
  tag_and_inner-eq (TableauObject.negated_atomic_role r) = refl
  tag_and_inner-eq (TableauObject.description_graph g) = refl
  tag_and_inner-eq (TableauObject.node id) = refl

  tagged-eq : (o : Option ℕ) (g t k : ℕ) → tagged o g ≡ some (t, k) → (g ≡ t) × (o ≡ some k)
  tagged-eq none g t k h = absurd (ground arith)
  tagged-eq (some x) g t k h = (ground arith, ground arith)

  -- The tag and the value tell the object.
  tag_and_inner_inj :
      (x y : TableauObject) (t k : ℕ)
      → tag_and_inner m x ≡ some (t, k)
      → tag_and_inner m y ≡ some (t, k)
      → x ≡ y
  tag_and_inner_inj x y t k p q =
      let (a, n) =
        tagged-eq (number (object_source x)) (object_tag x) t k (sym (tag_and_inner-eq x) ∙ p) in
      let (b, l) =
        tagged-eq (number (object_source y)) (object_tag y) t k (sym (tag_and_inner-eq y) ∙ q) in
      let tags : object_tag y ≡ object_tag x = b ∙ sym a in
      let same =
        number_inj (object_tag x) (object_source x) (object_source y) k (object_source-IsOf x)
          (subst (λ g. IsOf g (object_source y)) tags (object_source-IsOf y)) n l in
      some_eq x y (
        sym (source_object-object_source x)
        ∙ ap (source_object (object_tag x)) same
        ∙ ap (λ g. source_object g (object_source y)) (sym tags)
        ∙ source_object-object_source y)

  -- What a key is made of.
  unique_key-parts :
      (x : TableauObject) (k : ℕ)
      → unique_key m x ≡ some k
      → (t : ℕ) × ((i : ℕ) × ((tag_and_inner m x ≡ some (t, i))
            × ((i < 2 ^ 61) × (k ≡ t * 2 ^ 61 + i))))
  unfolding unique_key
  unique_key-parts x k p = elim (Option-cases (tag_and_inner m x)) [
    | inl e ↦ absurd (nothing (rw (e, unique_key, ◌>>=◌) at p))
    | inr ((t, i), e) ↦
        let (low, eq) = made t i (ap (λ o. o >>= pack) (sym e) ∙ p) in (t, (i, (e, (low, eq))))
  ]
    where
      nothing : none ≡ some k → ⊥
      nothing h = ground arith

      pack : ℕ × ℕ → Option ℕ
      pack t = if ltb t.1 (2 ^ 61) then some (t.0 * 2 ^ 61 + t.1 % 2 ^ 61) else none

      made : (t i : ℕ) → pack (t, i) ≡ some k → (i < 2 ^ 61) × (k ≡ t * 2 ^ 61 + i)
      made t i h = elim (Bool-cases (ltb i (2 ^ 61))) [
        | inl b ↦
            let low = ltb→lt i (2 ^ 61) b in
            (
              low,
              some_eq k (t * 2 ^ 61 + i)
                  (sym (rw b at h) ∙ ap (λ j. some (t * 2 ^ 61 + j)) (mod-eq_of_lt low)),
            )
        | inr b ↦ absurd (nothing (rw b at h))
      ]

  -- Two objects for which `unique_key` gives the same key are the same object, whatever
  -- addresses the allocator chose.
  pub unique_key_inj :
      (x y : TableauObject) (k : ℕ) → unique_key m x ≡ some k → unique_key m y ≡ some k → x ≡ y
  unique_key_inj x y k p q =
      let (t, (i, (e, (low, a)))) = unique_key-parts x k p in
      let (u, (j, (e', (low', b)))) = unique_key-parts y k q in
      let tags : u ≡ t = omega arith in
      let inner : j ≡ i = omega arith in
      tag_and_inner_inj x y t i e (e' ∙ ap (λ v. some (v, j)) tags ∙ ap (λ v. some (t, v)) inner)

  -- The implementation of the trait for the objects of the tables.
  instance abbrev pub object_key : EdgeKey TableauObject
  object_key = record { unique_key = unique_key m; unique_key_inj = unique_key_inj }
