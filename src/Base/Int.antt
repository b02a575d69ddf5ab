-- ===== src/Base/Int.antt =====
-- Signed integers (`i32` values) over the native numbers, with their order.
use Prim.Native.Nat.{ℕ, suc, ◌+◌, ◌<◌, ◌≤◌, compare, Ordering}
use mathlib.Core.Path.{◌≡◌}
use mathlib.Core.Logic.{◌↔◌}
use mathlib.Core.Bool.{Bool, true, false}
use native.Mathlib.Omega.{arith}
use hermit_rs.Base.Tests.{nat_beq}
use hermit_rs.Base.Equality.{Eq}

-- `negsuc n` is -(n + 1).
pub data ℤ : Type 0 where
  pos : ℕ → ℤ
  negsuc : ℕ → ℤ

abbrev pub pos_part : ℤ → ℕ
pos_part (pos n) = n
pos_part (negsuc n) = 0

abbrev pub neg_part : ℤ → ℕ
neg_part (pos n) = 0
neg_part (negsuc n) = suc n

infix 50 ◌<ℤ◌
abbrev pub ◌<ℤ◌ : ℤ → ℤ → Type 0
a <ℤ b = pos_part a + neg_part b < pos_part b + neg_part a

infix 50 ◌≤ℤ◌
abbrev pub ◌≤ℤ◌ : ℤ → ℤ → Type 0
a ≤ℤ b = pos_part a + neg_part b ≤ pos_part b + neg_part a

-- `i32::cmp`.
abbrev pub compare_ℤ : ℤ → ℤ → Ordering
compare_ℤ a b = compare (pos_part a + neg_part b) (pos_part b + neg_part a)

abbrev pub beq_ℤ : ℤ → ℤ → Bool
beq_ℤ (pos a) (pos b) = nat_beq a b
beq_ℤ (pos a) (negsuc b) = false
beq_ℤ (negsuc a) (pos b) = false
beq_ℤ (negsuc a) (negsuc b) = nat_beq a b

pub beq_ℤ_iff : (a b : ℤ) → (beq_ℤ a b ≡ true) ↔ (a ≡ b)
beq_ℤ_iff (pos a) (pos b) = ground arith
beq_ℤ_iff (pos a) (negsuc b) = ground arith
beq_ℤ_iff (negsuc a) (pos b) = ground arith
beq_ℤ_iff (negsuc a) (negsuc b) = ground arith

instance abbrev pub int_eq : Eq ℤ
int_eq = record { beq = beq_ℤ; beq_iff = beq_ℤ_iff }

pub eq_of_compare : (a b : ℤ) → compare_ℤ a b ≡ Ordering.eq → a ≡ b
eq_of_compare a b h = ground arith

pub lt_of_compare : (a b : ℤ) → compare_ℤ a b ≡ Ordering.lt → a <ℤ b
lt_of_compare a b h = ground arith

pub gt_of_compare : (a b : ℤ) → compare_ℤ a b ≡ Ordering.gt → b <ℤ a
gt_of_compare a b h = ground arith
