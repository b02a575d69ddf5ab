-- ===== src/DependencySet/Usage.antt =====
-- Usage counting and the removal of unused sets.
use hermit_rs.Base.{
  list_eq, ◌-◌, is_empty, subst, ℕ, suc, ◌≡◌, refl, true, false, List, [], ◌∷◌, none, some, ◌==◌,
  arith, Option-cases, Bool-cases, inl, inr, ap, sym, ◌∙◌, ==_refl,
}
use hermit_rs.Base.Int.{ℤ, int_eq}
use hermit_rs.Collections.HashMap
use hermit_rs.DependencySet.{PermanentDependencySet}
use hermit_rs.DependencySet.Points.{canonical_form}
use hermit_rs.DependencySet.Permanent
use hermit_rs.DependencySet.Permanent.{minus_one, same_set}
use hermit_rs.DependencySet.Factory.{CanonicalEntry, DependencySetFactory, intern_key, intern}
use hermit_rs.DependencySet.Valid.{IsValid, IsInterned, key_eq}
use hermit_rs.DependencySet.Valid.{key_eq}
use hermit_rs.DependencySet.Canonical.{canonical_form-fixed}
use hermit_rs.DependencySet.Factory.{
  in_use, add_usage, remove_usage, change_usage, remove_unused_sets,
}
use hermit_rs.Collections.HashMap.{insert-IsDistinct, get-retain, get-insert}

-- Replacing an entry and putting it back leaves the map as it was.
insert-insert_back :
    (m : HashMap.HashMap (List ℤ) CanonicalEntry) (k : List ℤ) (v w : CanonicalEntry)
    → HashMap.get m k ≡ some v
    → HashMap.insert (HashMap.insert m k w) k v ≡ m
unfolding HashMap.insert
insert-insert_back [] k v w h = absurd (ground arith)
insert-insert_back ((j, u) ∷ m) k v w h = elim (Bool-cases (j == k)) [
  | inl t ↦
      let p : j ≡ k = key_eq j k t in
      let q : u ≡ v = ground arith in rw (t, HashMap.insert, ==_refl k) cc
  | inr n ↦ ground (arith, insert-insert_back m k v w)
]

change_usage-absent :
    (f : DependencySetFactory) (s : PermanentDependencySet) (change : ℕ → ℕ)
    → HashMap.get f.canonical s.points ≡ none
    → change_usage f s change ≡ f
unfolding change_usage
change_usage-absent f s change absent = rw (absent, change_usage) refl

change_usage-found :
    (f : DependencySetFactory) (s : PermanentDependencySet) (change : ℕ → ℕ) (e : CanonicalEntry)
    → HashMap.get f.canonical s.points ≡ some e
    → change_usage f s change ≡ record f {
      canonical = HashMap.insert f.canonical s.points (record e { usage = change e.usage });
    }
unfolding change_usage
change_usage-found f s change e found = rw (found, change_usage) refl

-- To add a use of a set and remove it again leaves the factory as it was.
pub remove_usage-add_usage :
    (f : DependencySetFactory) (s : PermanentDependencySet) → remove_usage (add_usage f s) s ≡ f
unfolding remove_usage add_usage change_usage
remove_usage-add_usage f s = elim (Option-cases (HashMap.get f.canonical s.points)) [
  | inl absent ↦
      ap (λ h. change_usage h s (λ n. n - 1)) (change_usage-absent f s suc absent)
      ∙ change_usage-absent f s (λ n. n - 1) absent
  | inr (e, found) ↦
      let added : CanonicalEntry = record e { usage = suc e.usage } in
      let g : DependencySetFactory = record f {
        canonical = HashMap.insert f.canonical s.points added;
      } in
      let back : suc e.usage - 1 ≡ e.usage = omega arith in
      ap (λ h. change_usage h s (λ n. n - 1)) (change_usage-found f s suc e found)
      ∙ change_usage-found g s (λ n. n - 1) added
          (ground (arith, get-insert f.canonical s.points s.points added, ==_refl s.points))
      ∙ ap
          (λ n. record f {
            canonical =
                HashMap.insert (HashMap.insert f.canonical s.points added) s.points
                  (record e { usage = n });
          })
          back
      ∙ ap (λ m. record f { canonical = m }) (insert-insert_back f.canonical s.points e added found)
]

-- A set that a well-formed factory holds is still held after a use of it is added and the unused
-- sets are removed.
pub remove_unused_sets-add_usage :
    (f : DependencySetFactory) (s : PermanentDependencySet)
    → IsValid f
    → IsInterned f s
    → IsInterned (remove_unused_sets (add_usage f s)) s
unfolding remove_unused_sets add_usage change_usage
remove_unused_sets-add_usage f s v (e, (found, same)) =
    let added : CanonicalEntry = record e { usage = suc e.usage } in
    subst (λ g. IsInterned (remove_unused_sets g) s) (sym (change_usage-found f s suc e found))
      (
        added,
        (
          ground (
            arith,
            get-retain in_use (HashMap.insert f.canonical s.points added) s.points
                (insert-IsDistinct f.canonical s.points added v.distinct),
            get-insert f.canonical s.points s.points added,
            ==_refl s.points,
          ),
          same,
        ),
      )

-- If a well-formed factory holds a set that is not empty and has no use, then after the removal
-- of unused sets the interning of its points gives an equal set in another allocation, so that
-- `ptr_eq` fails on equal sets.
pub intern-remove_unused_sets :
    (f : DependencySetFactory) (s : PermanentDependencySet) (e : CanonicalEntry)
    → IsValid f
    → HashMap.get f.canonical s.points ≡ some e
    → e.set ≡ s
    → e.usage ≡ 0
    → is_empty s.points ≡ false
    → let again = (intern (remove_unused_sets f) s.points).1 in
      (same_set s again ≡ true) × (Permanent.ptr_eq s again ≡ false)
unfolding intern intern_key remove_unused_sets
intern-remove_unused_sets f s e v found same unused nonempty =
    let gone : HashMap.get (HashMap.retain in_use f.canonical) s.points ≡ none =
      ground (arith, get-retain in_use f.canonical s.points v.distinct) in
    let fixed : canonical_form s.points ≡ s.points =
      canonical_form-fixed s.points (v.descending s.points e found) in
    rw (fixed, gone, intern_key)
      (ground (arith, ==_refl s.points, fixed), ground (arith, v.allocated s.points e found))
