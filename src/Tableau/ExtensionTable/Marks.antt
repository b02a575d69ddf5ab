-- ===== src/Tableau/ExtensionTable/Marks.antt =====
-- The core flags and the dependency sets after a tuple is stored.
use hermit_rs.Base.{
  ℕ, zero, suc, ◌-◌, ◌<◌, ◌≡◌, refl, inl, inr, ◌⊎◌, Bool, false, not, ◌&&◌, ◌||◌, Option, none,
  some, List, [], ◌∷◌, ◌++◌, arith, if◌then◌else◌, length, get_elem?, Bool-cases, ltb, nat_eq, ◌==◌,
  length-append, ltb→lt,
}
use hermit_rs.Base.Vectors.{set_elem?, repeat, set_elem?-some, length-repeat, get_elem?-set_elem?}
use hermit_rs.DependencySet.{PermanentDependencySet}
use hermit_rs.Tableau.ExtensionTable.{
  ExtensionTable, extend, note_dependency_set, note_core, is_core, get_dependency_set,
}

-- Reading a vector that was extended.
Extended {ℓ} : {A : Type ℓ} → List A → List A → A → ℕ → Type ℓ
Extended v w x j =
    (get_elem? w j ≡ get_elem? v j) ⊎ ((get_elem? v j ≡ none) × (get_elem? w j ≡ some x))

append_repeat-Extended {ℓ} :
    {A : Type ℓ} (v : List A) (m : ℕ) (x : A) (j : ℕ) → Extended v (v ++ repeat m x) x j
unfolding Extended
append_repeat-Extended [] zero x j = inl refl
append_repeat-Extended [] (suc m) x zero = inr (refl, refl)
append_repeat-Extended [] (suc m) x (suc j) = append_repeat-Extended [] m x j
append_repeat-Extended (y ∷ v) m x zero = inl refl
append_repeat-Extended (y ∷ v) m x (suc j) = append_repeat-Extended v m x j

extend-Extended {ℓ} :
    {A : Type ℓ} (v : List A) (n : ℕ) (x : A) (j : ℕ) → Extended v (extend v n x) x j
unfolding Extended
extend-Extended v n x j = elim (Bool-cases (ltb (length v) n)) [
  | inl b ↦ rw b (append_repeat-Extended v (n - length v) x j)
  | inr b ↦ rw b (inl refl)
]

-- Writing into a vector that was extended.
extend-total {ℓ} :
    {A : Type ℓ} (v : List A) (i : ℕ) (x y : A)
    → (w : List A) × (set_elem? (extend v (suc i) x) i y ≡ some w)
extend-total v i x y = let (w, (run, _)) = set_elem?-some (extend v (suc i) x) i y long in (w, run)
  where
    long : i < length (extend v (suc i) x)
    long = elim (Bool-cases (ltb (length v) (suc i))) [
      | inl b ↦
          let low = ltb→lt (length v) (suc i) b in
          rw b (
            omega (
              arith,
              length-append v (repeat (suc i - length v) x),
              length-repeat (suc i - length v) x,
            ))
      | inr b ↦ rw b (ground arith)
    ]

-- The core flags with that of one tuple; the others are as before.
pub note_core_lem :
    (x : ExtensionTable) (i : ℕ) (core : Bool)
    → (v : List Bool) × ((note_core x i core ≡ some v)
        × ((j : ℕ)
            → is_core (record x { core_flags = v }) j
              ≡ (if i == j then core || not x.is_real_core else is_core x j)))
unfolding note_core is_core Extended
note_core_lem x i core = elim (Bool-cases x.is_real_core) [
  | inl b ↦
      let (v, run) = extend-total x.core_flags i false core in
      (
        v,
        (
          rw (b, note_core) run,
          λ j. ground (
            arith,
            b,
            get_elem?-set_elem? (extend x.core_flags (suc i) false) v i j core run,
            extend-Extended x.core_flags (suc i) false j,
          ),
        ),
      )
  | inr b ↦ (x.core_flags, (rw (b, note_core) refl, λ j. ground (arith, b)))
]

-- The dependency sets with that of one tuple; the others are as before.
pub note_dependency_set_lem :
    (x : ExtensionTable) (i : ℕ) (d : PermanentDependencySet)
    → (v : List (Option PermanentDependencySet)) × ((note_dependency_set x i d ≡ some v)
        × ((j : ℕ) (empty_set : PermanentDependencySet)
            → get_dependency_set (record x { dependency_sets = v }) j empty_set ≡ (
                if i == j && x.needs_dependency_sets then d else get_dependency_set x j empty_set)))
unfolding note_dependency_set get_dependency_set Extended
note_dependency_set_lem x i d = elim (Bool-cases x.needs_dependency_sets) [
  | inl b ↦
      let (v, run) = extend-total x.dependency_sets i none (some d) in
      (
        v,
        (
          rw (b, note_dependency_set) run,
          λ j empty_set. ground (
            arith,
            b,
            get_elem?-set_elem? (extend x.dependency_sets (suc i) none) v i j (some d) run,
            extend-Extended x.dependency_sets (suc i) none j,
          ),
        ),
      )
  | inr b ↦
      (x.dependency_sets, (rw (b, note_dependency_set) refl, λ j empty_set. ground (arith, b)))
]
