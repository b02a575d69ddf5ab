-- ===== src/DependencySet/Valid.antt =====
-- The well-formedness of a factory, and that every operation keeps it.
use hermit_rs.Base.{
  ◌<◌, ℕ, suc, ◌≡◌, refl, true, List, [], none, some, ◌==◌, arith, Option-cases, Bool-cases, inl,
  inr, ap, list_eq, ◌⊎◌, subst, sym, ◌∙◌, ==_refl,
}
use hermit_rs.Base.Int.{ℤ, int_eq}
use hermit_rs.Collections.HashMap
use hermit_rs.Collections.HashMap.{get-insert, get-retain, insert-IsDistinct, retain-IsDistinct}
use hermit_rs.Collections.HashSet.{IsDistinct}
use hermit_rs.DependencySet.{PermanentDependencySet}
use hermit_rs.DependencySet.Canonical.{IsDescending}
use hermit_rs.DependencySet.Factory.{
  CanonicalEntry, DependencySetFactory, new, intern_key, change_usage, remove_unused_sets, fresh,
  in_use,
}

pub record IsValid (f : DependencySetFactory) : Type 0 where
  pub distinct : IsDistinct (HashMap.keys f.canonical)
  pub points :
      (k : List ℤ) (e : CanonicalEntry) → HashMap.get f.canonical k ≡ some e → e.set.points ≡ k
  pub descending :
      (k : List ℤ) (e : CanonicalEntry) → HashMap.get f.canonical k ≡ some e → IsDescending k
  pub allocated :
      (k : List ℤ) (e : CanonicalEntry)
      → HashMap.get f.canonical k ≡ some e
      → e.set.address < f.next
  pub apart :
      (k k' : List ℤ) (e e' : CanonicalEntry)
      → HashMap.get f.canonical k ≡ some e
      → HashMap.get f.canonical k' ≡ some e'
      → e.set.address ≡ e'.set.address
      → k ≡ k'
  pub empty : (e : CanonicalEntry) × ((HashMap.get f.canonical [] ≡ some e) × (e.set ≡ f.empty_set))

-- A set that the table of the factory holds.
abbrev pub IsInterned : DependencySetFactory → PermanentDependencySet → Type 0
IsInterned f s = (e : CanonicalEntry) × ((HashMap.get f.canonical s.points ≡ some e) × (e.set ≡ s))

-- What the interning of a key gives.
pub record InternsKey (f : DependencySetFactory) (key : List ℤ)
    (r : DependencySetFactory × PermanentDependencySet) : Type 0 where
  pub valid : IsValid r.0
  pub points : r.1.points ≡ key
  pub interned : IsInterned r.0 r.1
  pub kept : (s : PermanentDependencySet) → IsInterned f s → IsInterned r.0 s

pub key_eq : (k j : List ℤ) → (k == j) ≡ true → k ≡ j
key_eq k j = (list_eq.beq_iff k j).0

fresh-entry :
    (a : ℕ) (k : List ℤ) (e : CanonicalEntry)
    → HashMap.get (fresh a).canonical k ≡ some e
    → ([] ≡ k) × (e ≡ record { set = record { address = a; points = [] }; usage = 1 })
fresh-entry a k e h = elim (Bool-cases ([] == k)) [
  | inl t ↦ (((list_eq.beq_iff [] k).0 t), ground (arith, list_eq.beq_iff [] k))
  | inr n ↦ absurd (ground arith)
]

pub fresh-IsValid : (a : ℕ) → IsValid (fresh a)
fresh-IsValid a = record {
  distinct = (refl, tt);
  points = λ k e h. let (p, q) = fresh-entry a k e h in ground arith;
  descending = λ k e h. subst IsDescending (fresh-entry a k e h).0 tt;
  allocated = λ k e h. let (p, q) = fresh-entry a k e h in ground arith;
  apart = λ k k' e e' h h' same. sym (fresh-entry a k e h).0 ∙ (fresh-entry a k' e' h').0;
  empty = (record { set = record { address = a; points = [] }; usage = 1 }, (refl, refl));
}

pub insert-entry :
    (m : HashMap.HashMap (List ℤ) CanonicalEntry) (key k : List ℤ) (new e : CanonicalEntry)
    → HashMap.get (HashMap.insert m key new) k ≡ some e
    → ((key ≡ k) × (e ≡ new)) ⊎ (HashMap.get m k ≡ some e)
insert-entry m key k new e h = elim (Bool-cases (key == k)) [
  | inl t ↦ inl ((list_eq.beq_iff key k).0 t, ground (arith, get-insert m key k new))
  | inr n ↦ inr (ground (arith, get-insert m key k new))
]

get-insert_other :
    (m : HashMap.HashMap (List ℤ) CanonicalEntry) (key k : List ℤ) (new e : CanonicalEntry)
    → HashMap.get m key ≡ none
    → HashMap.get m k ≡ some e
    → HashMap.get (HashMap.insert m key new) k ≡ some e
get-insert_other m key k entry e absent h = elim (Bool-cases (key == k)) [
  | inl t ↦ absurd (conflict (sym (ap (HashMap.get m) (key_eq key k t)) ∙ absent) h)
  | inr n ↦ ground (arith, get-insert m key k entry)
]
  where
    conflict : HashMap.get m k ≡ none → HashMap.get m k ≡ some e → ⊥
    conflict a b = ground arith

insert-IsValid :
    (f : DependencySetFactory) (key : List ℤ)
    → HashMap.get f.canonical key ≡ none
    → IsValid f
    → IsDescending key
    → IsValid (record f {
      canonical =
          HashMap.insert f.canonical key
            (record { set = record { address = f.next; points = key }; usage = 0 });
      next = suc f.next;
    })
insert-IsValid f key absent v d = record {
  distinct = insert-IsDistinct f.canonical key new v.distinct;
  points = λ k e h. elim (insert-entry f.canonical key k new e h) [
    | inl (p, q) ↦ ground arith
    | inr old ↦ v.points k e old
  ];
  descending = λ k e h. elim (insert-entry f.canonical key k new e h) [
    | inl (p, q) ↦ subst IsDescending p d
    | inr old ↦ v.descending k e old
  ];
  allocated = λ k e h. elim (insert-entry f.canonical key k new e h) [
    | inl (p, q) ↦ ground arith
    | inr old ↦ ground (arith, v.allocated k e old)
  ];
  apart = λ k k' e e' h h' same. ground (
    arith,
    insert-entry f.canonical key k new e h,
    insert-entry f.canonical key k' new e' h',
    v.allocated k e,
    v.allocated k' e',
    v.apart k k' e e',
  );
  empty =
      let (e, (held, same)) = v.empty in
      (e, (get-insert_other f.canonical key [] new e absent held, same));
}
  where
    new : CanonicalEntry
    new = record { set = record { address = f.next; points = key }; usage = 0 }

-- Replacing the usage of an entry.
replace-IsValid :
    (f : DependencySetFactory) (key : List ℤ) (old : CanonicalEntry) (usage : ℕ)
    → IsValid f
    → HashMap.get f.canonical key ≡ some old
    → IsValid
        (record f { canonical = HashMap.insert f.canonical key (record old { usage = usage }) })
replace-IsValid f key old usage v found = record {
  distinct = insert-IsDistinct f.canonical key new v.distinct;
  points = λ k e h. let (o, (held, same)) = before k e h in ground (arith, v.points k o held);
  descending = λ k e h. let (o, (held, same)) = before k e h in v.descending k o held;
  allocated = λ k e h. let (o, (held, same)) = before k e h in ground (arith, v.allocated k o held);
  apart = λ k k' e e' h h' same.
      let (o, (held, eq)) = before k e h in
      let (o', (held', eq')) = before k' e' h' in v.apart k k' o o' held held' (ground arith);
  empty =
      let (e, (held, same)) = v.empty in
      elim (Bool-cases (key == [])) [
        | inl t ↦ (
          new,
          (
            ground (arith, get-insert f.canonical key [] new),
            same_entry (sym (ap (HashMap.get f.canonical) (key_eq key [] t)) ∙ found) held ∙ same,
          ),
        )
        | inr n ↦ (e, (ground (arith, get-insert f.canonical key [] new), same))
      ];
}
  where
    new : CanonicalEntry
    new = record old { usage = usage }

    same_entry :
        {o e : CanonicalEntry}
        → HashMap.get f.canonical [] ≡ some o
        → HashMap.get f.canonical [] ≡ some e
        → o.set ≡ e.set
    same_entry a b = ground arith

    before :
        (k : List ℤ) (e : CanonicalEntry)
        → HashMap.get (HashMap.insert f.canonical key new) k ≡ some e
        → (o : CanonicalEntry) × ((HashMap.get f.canonical k ≡ some o) × (o.set ≡ e.set))
    before k e h = elim (insert-entry f.canonical key k new e h) [
      | inl (p, q) ↦ (old, (ap (HashMap.get f.canonical) (sym p) ∙ found, ground arith))
      | inr held ↦ (e, (held, refl))
    ]

-- Interning a key in canonical form.
pub intern_key_lem :
    (f : DependencySetFactory) (key : List ℤ)
    → IsValid f
    → IsDescending key
    → InternsKey f key (intern_key f key)
unfolding intern_key
intern_key_lem f key v d = elim (Option-cases (HashMap.get f.canonical key)) [
  | inl absent ↦
      rw (absent, intern_key)
        (record {
          valid = insert-IsValid f key absent v d;
          points = refl;
          interned = (new, (ground (arith, get-insert f.canonical key key new, ==_refl key), refl));
          kept = λ s (e, (held, same)).
              (e, (get-insert_other f.canonical key s.points new e absent held, same));
        })
  | inr (e, found) ↦
      rw (found, intern_key)
        (record {
          valid = v;
          points = v.points key e found;
          interned = (e, (ap (HashMap.get f.canonical) (v.points key e found) ∙ found, refl));
          kept = λ s held. held;
        })
]
  where
    new : CanonicalEntry
    new = record { set = record { address = f.next; points = key }; usage = 0 }

pub change_usage-IsValid :
    (f : DependencySetFactory) (s : PermanentDependencySet) (change : ℕ → ℕ)
    → IsValid f
    → IsValid (change_usage f s change)
unfolding change_usage
change_usage-IsValid f s change v = elim (Option-cases (HashMap.get f.canonical s.points)) [
  | inl absent ↦ rw (absent, change_usage) v
  | inr (e, found) ↦
      rw (found, change_usage) (replace-IsValid f s.points e (change e.usage) v found)
]

pub remove_unused_sets-IsValid :
    (f : DependencySetFactory) → IsValid f → IsValid (remove_unused_sets f)
unfolding remove_unused_sets
remove_unused_sets-IsValid f v = record {
  distinct = retain-IsDistinct in_use f.canonical v.distinct;
  points = λ k e h. v.points k e (before k e h);
  descending = λ k e h. v.descending k e (before k e h);
  allocated = λ k e h. v.allocated k e (before k e h);
  apart = λ k k' e e' h h' same. v.apart k k' e e' (before k e h) (before k' e' h') same;
  empty =
      let (e, (held, same)) = v.empty in
      (e, (ground (arith, get-retain in_use f.canonical [] v.distinct), same));
}
  where
    before :
        (k : List ℤ) (e : CanonicalEntry)
        → HashMap.get (HashMap.retain in_use f.canonical) k ≡ some e
        → HashMap.get f.canonical k ≡ some e
    before k e h = ground (arith, get-retain in_use f.canonical k v.distinct)
