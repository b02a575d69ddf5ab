-- ===== src/DependencySet/Capacity.antt =====
-- The memory that the factory reports.
use native.Mathlib.Omega.{pow_step}
use native.Mathlib.Nat.{mul_assoc}
use hermit_rs.Base.{
  list_eq, ◌⊎◌, ◌*◌, ◌^◌, length, ◌≤◌, ◌<◌, ◌+◌, ℕ, zero, suc, ◌≡◌, refl, true, some, arith,
  Bool-cases, inl, inr, ap, sym, ◌∙◌, leb, List-cases,
}
use hermit_rs.Base.Int.{int_eq}
use hermit_rs.DependencySet.Factory.{DependencySetFactory}
use hermit_rs.DependencySet.Valid.{IsValid}
use hermit_rs.DependencySet.Factory.{grow_capacity, size_in_memory}

double_pow : (c k : ℕ) → c * 2 ^ suc k ≡ c * 2 * 2 ^ k
double_pow c k = ap (λ p. c * p) (pow_step 2 k) ∙ sym (mul_assoc c 2 (2 ^ k))

-- The capacity is the first doubling at which the load is below 0.75, and the fuel reaches it.
grow_capacity_lem :
    (fuel m_size c : ℕ)
    → 16 ≤ c
    → m_size * 2 < c + fuel * 16
    → (k : ℕ) × ((grow_capacity (suc fuel) m_size c ≡ some (c * 2 ^ k))
        × ((m_size * 4 < c * 2 ^ k * 3) × ((k ≡ 0) ⊎ (c * 2 ^ k * 3 ≤ m_size * 8))))
unfolding grow_capacity
grow_capacity_lem zero m_size c big h = (0, (ground arith, (omega arith, inl refl)))
grow_capacity_lem (suc fuel) m_size c big h = elim (Bool-cases (leb (c * 3) (m_size * 4))) [
  | inl t ↦
      let (k, (found, (below, low))) =
        grow_capacity_lem fuel m_size (c * 2) (omega arith) (omega arith) in
      (
        suc k,
        (
          ground (arith, ap (λ n. some n) (double_pow c k)),
          (omega (arith, double_pow c k), inr (doubled k t low)),
        ),
      )
  | inr n ↦ (0, (ground arith, (ground arith, inl refl)))
]
  where
    doubled :
        (k : ℕ)
        → leb (c * 3) (m_size * 4) ≡ true
        → (k ≡ 0) ⊎ (c * 2 * 2 ^ k * 3 ≤ m_size * 8)
        → c * 2 ^ suc k * 3 ≤ m_size * 8
    doubled k t (inl e) =
        let one : c * 2 * 2 ^ k ≡ c * 2 = ap (λ j. c * 2 * 2 ^ j) e ∙ omega arith in
        let load : c * 3 ≤ m_size * 4 = ground arith in omega (arith, double_pow c k, one, load)
    doubled k t (inr le) = omega (arith, double_pow c k)

size_in_memory-grown :
    (f : DependencySetFactory) (m_size capacity : ℕ)
    → length f.canonical ≡ suc m_size
    → grow_capacity (suc m_size) m_size 16 ≡ some capacity
    → size_in_memory f ≡ some (capacity * 4 + m_size * 20)
unfolding size_in_memory
size_in_memory-grown f m_size capacity counted grown =
    rw (counted, size_in_memory) (rw (grown, size_in_memory) refl)

-- For a well-formed factory, `size_in_memory` ends and does not underflow: it is four bytes for
-- each place of the smallest doubling of 16 at which the load is below 0.75, and twenty for each
-- set besides the empty one.
pub size_in_memory_lem :
    (f : DependencySetFactory)
    → IsValid f
    → (m_size : ℕ) × (k : ℕ) × ((length f.canonical ≡ suc m_size)
        × (size_in_memory f ≡ some (16 * 2 ^ k * 4 + m_size * 20))
        × (m_size * 4 < 16 * 2 ^ k * 3)
        × ((k ≡ 0) ⊎ (16 * 2 ^ k * 3 ≤ m_size * 8)))
unfolding size_in_memory
size_in_memory_lem f v = elim (List-cases f.canonical) [
  | inl none_held ↦ absurd (let (e, (held, same)) = v.empty in ground arith)
  | inr (entry, rest, held) ↦
      let m_size = length rest in
      let (k, (grown, (below, low))) =
        grow_capacity_lem m_size m_size 16 (omega arith) (omega arith) in
      (
        m_size,
        k,
        (
          ap length held,
          size_in_memory-grown f m_size (16 * 2 ^ k) (ap length held) grown,
          below,
          low,
        ),
      )
]
