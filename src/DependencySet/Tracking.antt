-- ===== src/DependencySet/Tracking.antt =====
-- What a factory remembers of a set that it allocated: no other set gets its address.
use hermit_rs.Base.{
  ℕ, suc, ◌-◌, ◌<◌, ◌⊎◌, inl, inr, ◌≡◌, refl, List, [], ◌∷◌, Option, some, arith, sym, ap, ◌∙◌,
  nat_eq, list_eq, subst, Option-cases,
}
use hermit_rs.Base.Int.{ℤ, int_eq}
use hermit_rs.DependencySet.{PermanentDependencySet}
use hermit_rs.DependencySet.Points.{canonical_form}
use hermit_rs.DependencySet.Factory.{
  CanonicalEntry, DependencySetFactory, intern_key, intern, gather, permanent_union_of, add_usage,
  remove_usage, change_usage, remove_unused_sets, in_use,
}
use hermit_rs.Collections.HashMap
use hermit_rs.Collections.HashMap.{get-retain}
use hermit_rs.DependencySet.Valid.{
  IsValid, IsInterned, intern_key_lem, insert-entry, change_usage-IsValid,
  remove_unused_sets-IsValid,
}
use hermit_rs.DependencySet.Canonical.{IsDescending, canonical_form-IsDescending}

-- What may happen to a factory between two unions.
pub data Event : Type 0 where
  unite : List (Option PermanentDependencySet) → Event
  use_set : PermanentDependencySet → Event
  release : PermanentDependencySet → Event
  collect : Event

abbrev pub run_event : DependencySetFactory → Event → DependencySetFactory
run_event f (Event.unite cs) = (permanent_union_of f cs).0
run_event f (Event.use_set s) = add_usage f s
run_event f (Event.release s) = remove_usage f s
run_event f Event.collect = remove_unused_sets f

abbrev pub run_events : DependencySetFactory → List Event → DependencySetFactory
run_events f [] = f
run_events f (e ∷ es) = run_events (run_event f e) es

-- A set was allocated in the past of a factory, which gives its address to no other set.
pub record Tracks (s : PermanentDependencySet) (f : DependencySetFactory) : Type 0 where
  pub valid : IsValid f
  pub older : s.address < f.next
  pub only :
      (k : List ℤ) (e : CanonicalEntry)
      → HashMap.get f.canonical k ≡ some e
      → e.set.address ≡ s.address
      → e.set ≡ s

Tracks-intern_key :
    (s : PermanentDependencySet) (f : DependencySetFactory) (key : List ℤ)
    → IsDescending key
    → Tracks s f
    → Tracks s (intern_key f key).0
unfolding intern_key
Tracks-intern_key s f key d t = elim (Option-cases (HashMap.get f.canonical key)) [
  | inr (e, found) ↦ rw (found, intern_key) t
  | inl absent ↦ record {
    valid = (intern_key_lem f key t.valid d).valid;
    older = rw (absent, intern_key) (omega (arith, t.older));
    only = λ k e h same. fresh_only k e (rw (absent, intern_key) at h) same;
  }
]
  where
    new : CanonicalEntry
    new = record { set = record { address = f.next; points = key }; usage = 0 }

    fresh_only :
        (k : List ℤ) (e : CanonicalEntry)
        → HashMap.get (HashMap.insert f.canonical key new) k ≡ some e
        → e.set.address ≡ s.address
        → e.set ≡ s
    fresh_only k e h same = elim (insert-entry f.canonical key k new e h) [
      | inl (p, q) ↦ absurd (omega (arith, t.older, sym same ∙ ap (λ x. x.set.address) q))
      | inr old ↦ t.only k e old same
    ]

pub Tracks-permanent_union_of :
    (s : PermanentDependencySet) (f : DependencySetFactory)
    (cs : List (Option PermanentDependencySet))
    → Tracks s f
    → Tracks s (permanent_union_of f cs).0
unfolding permanent_union_of intern
Tracks-permanent_union_of s f cs t =
    Tracks-intern_key s f (canonical_form (gather [] cs))
      (canonical_form-IsDescending (gather [] cs)) t

Tracks-change_usage :
    (s : PermanentDependencySet) (f : DependencySetFactory) (u : PermanentDependencySet)
    (change : ℕ → ℕ)
    → Tracks s f
    → Tracks s (change_usage f u change)
unfolding change_usage
Tracks-change_usage s f u change t = elim (Option-cases (HashMap.get f.canonical u.points)) [
  | inl absent ↦ rw (absent, change_usage) t
  | inr (old, found) ↦ record {
    valid = change_usage-IsValid f u change t.valid;
    older = rw (found, change_usage) t.older;
    only = λ k e h same. kept old found k e (rw (found, change_usage) at h) same;
  }
]
  where
    kept :
        (old : CanonicalEntry)
        → HashMap.get f.canonical u.points ≡ some old
        → (k : List ℤ) (e : CanonicalEntry)
        → HashMap.get
            (HashMap.insert f.canonical u.points (record old { usage = change old.usage }))
            k
          ≡ some e
        → e.set.address ≡ s.address
        → e.set ≡ s
    kept old found k e h same =
        elim (insert-entry f.canonical u.points k (record old { usage = change old.usage }) e h) [
          | inl (p, q) ↦
              let sets : e.set ≡ old.set = ap (λ x. x.set) q in
              sets ∙ t.only u.points old found (sym (ap (λ x. x.address) sets) ∙ same)
          | inr before ↦ t.only k e before same
        ]

Tracks-collect :
    (s : PermanentDependencySet) (f : DependencySetFactory)
    → Tracks s f
    → Tracks s (remove_unused_sets f)
unfolding remove_unused_sets
Tracks-collect s f t = record {
  valid = remove_unused_sets-IsValid f t.valid;
  older = t.older;
  only = λ k e h same.
      t.only k e (ground (arith, get-retain in_use f.canonical k t.valid.distinct)) same;
}

pub Tracks-run :
    (s : PermanentDependencySet) (f : DependencySetFactory) (es : List Event)
    → Tracks s f
    → Tracks s (run_events f es)
unfolding add_usage remove_usage
Tracks-run s f [] t = t
Tracks-run s f (Event.unite cs ∷ es) t =
    Tracks-run s (permanent_union_of f cs).0 es (Tracks-permanent_union_of s f cs t)
Tracks-run s f (Event.use_set u ∷ es) t =
    Tracks-run s (add_usage f u) es (Tracks-change_usage s f u suc t)
Tracks-run s f (Event.release u ∷ es) t =
    Tracks-run s (remove_usage f u) es (Tracks-change_usage s f u (λ n. n - 1) t)
Tracks-run s f (Event.collect ∷ es) t =
    Tracks-run s (remove_unused_sets f) es (Tracks-collect s f t)

pub IsInterned-Tracks :
    (f : DependencySetFactory) (s : PermanentDependencySet)
    → IsValid f
    → IsInterned f s
    → Tracks s f
IsInterned-Tracks f s v (e, (held, same)) = record {
  valid = v;
  older = subst (λ x. x.address < f.next) same (v.allocated s.points e held);
  only = λ k e' held' address.
      let keys : k ≡ s.points =
        v.apart k s.points e' e held' held (address ∙ sym (ap (λ x. x.address) same)) in
      ap (λ x. x.set) (one e' e (sym held' ∙ ap (HashMap.get f.canonical) keys ∙ held)) ∙ same;
}
  where
    one : (a b : CanonicalEntry) → some a ≡ some b → a ≡ b
    one a b h = ground arith

-- A union gives a set that the factory holds, or a new allocation.
pub permanent_union_of-cases :
    (f : DependencySetFactory) (cs : List (Option PermanentDependencySet))
    → IsValid f
    → (IsInterned f (permanent_union_of f cs).1) ⊎ ((permanent_union_of f cs).1.address ≡ f.next)
unfolding permanent_union_of intern intern_key
permanent_union_of-cases f cs v =
    let key = canonical_form (gather [] cs) in
    elim (Option-cases (HashMap.get f.canonical key)) [
      | inl absent ↦ inr (rw (absent, intern_key) refl)
      | inr (e, found) ↦ inl (
          rw (found, intern_key)
            (e, (ap (HashMap.get f.canonical) (v.points key e found) ∙ found, refl)))
    ]
