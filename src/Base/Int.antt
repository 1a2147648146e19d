-- ===== src/Base/Int.antt =====
-- Signed integers over the native numbers, and the checked i128 operations of the source.
use stellar_stream_hive_cont.Base.{
  ℕ, suc, ◌+◌, ◌-◌, ◌*◌, ◌/◌, ◌^◌, ◌≤◌, ◌≡◌, ◌⊎◌, Bool, true, false, ◌&&◌, Option, none, some,
  arith, ltb, leb, ◌==◌, if◌then◌else◌,
}

-- `negsuc n` is -(n + 1).
pub data ℤ : Type 0 where
  pos : ℕ → ℤ
  negsuc : ℕ → ℤ

abbrev pub pos_part : ℤ → ℕ
pos_part (pos n) = n
pos_part (negsuc n) = 0

abbrev pub neg_part : ℤ → ℕ
neg_part (pos n) = 0
neg_part (negsuc n) = suc n

-- a - b, as an integer.
abbrev pub sub_ℕ : ℕ → ℕ → ℤ
sub_ℕ a b = if leb b a then pos (a - b) else negsuc (b - a - 1)

infixl 65 ◌+ℤ◌ ◌-ℤ◌
infixl 70 ◌*ℤ◌
infix 50 ◌≤ℤ◌ ◌<ℤ◌
unfoldable pub ◌+ℤ◌ : ℤ → ℤ → ℤ
a +ℤ b = sub_ℕ (pos_part a + pos_part b) (neg_part a + neg_part b)

unfoldable pub ◌-ℤ◌ : ℤ → ℤ → ℤ
a -ℤ b = sub_ℕ (pos_part a + neg_part b) (neg_part a + pos_part b)

unfoldable pub ◌*ℤ◌ : ℤ → ℤ → ℤ
a *ℤ b =
    sub_ℕ (pos_part a * pos_part b + neg_part a * neg_part b)
      (pos_part a * neg_part b + neg_part a * pos_part b)

abbrev pub ◌≤ℤ◌ : ℤ → ℤ → Type 0
a ≤ℤ b = pos_part a + neg_part b ≤ pos_part b + neg_part a

abbrev pub ◌<ℤ◌ : ℤ → ℤ → Type 0
a <ℤ b = suc (pos_part a + neg_part b) ≤ pos_part b + neg_part a

abbrev pub ltb_ℤ : ℤ → ℤ → Bool
ltb_ℤ a b = ltb (pos_part a + neg_part b) (pos_part b + neg_part a)

abbrev pub leb_ℤ : ℤ → ℤ → Bool
leb_ℤ a b = leb (pos_part a + neg_part b) (pos_part b + neg_part a)

abbrev pub eqb_ℤ : ℤ → ℤ → Bool
eqb_ℤ a b = (pos_part a + neg_part b) == (pos_part b + neg_part a)

-- `core::cmp::min` and `core::cmp::max`.
abbrev pub min_ℤ : ℤ → ℤ → ℤ
min_ℤ a b = if leb_ℤ a b then a else b

abbrev pub max_ℤ : ℤ → ℤ → ℤ
max_ℤ a b = if leb_ℤ a b then b else a

-- `i128::MAX`; `i128::MIN` is -(i128_max + 1), which is `negsuc i128_max`.
abbrev pub i128_max : ℕ
i128_max = 2 ^ 127 - 1

-- Whether an integer is an i128.
abbrev pub fits_i128 : ℤ → Bool
fits_i128 (pos n) = leb n i128_max
fits_i128 (negsuc n) = leb n i128_max

abbrev pub IsI128 : ℤ → Type 0
IsI128 a = (pos_part a ≤ i128_max) × (neg_part a ≤ suc i128_max)

abbrev checked : ℤ → Option ℤ
checked a = if fits_i128 a then some a else none

-- `i128::checked_add`, `checked_sub` and `checked_mul`: `None` where the result is no i128.
unfoldable pub checked_add : ℤ → ℤ → Option ℤ
checked_add a b = checked (a +ℤ b)

unfoldable pub checked_sub : ℤ → ℤ → Option ℤ
checked_sub a b = checked (a -ℤ b)

unfoldable pub checked_mul : ℤ → ℤ → Option ℤ
checked_mul a b = checked (a *ℤ b)

-- The integer with parts `a` and `b`, of which one is 0.
abbrev quotient : ℤ → ℤ → ℤ
quotient (pos a) (pos b) = pos (a / b)
quotient (pos a) (negsuc b) = sub_ℕ 0 (a / suc b)
quotient (negsuc a) (pos b) = sub_ℕ 0 (suc a / b)
quotient (negsuc a) (negsuc b) = pos (suc a / suc b)

-- `i128::checked_div` rounds towards zero; it is `None` at a zero divisor and at MIN / -1.
unfoldable pub checked_div : ℤ → ℤ → Option ℤ
checked_div a b = if eqb_ℤ b (pos 0) then none else checked (quotient a b)

-- With these the operations can stay shut.
pub +ℤ_parts :
    (a b : ℤ)
    → pos_part (a +ℤ b) + neg_part a + neg_part b ≡ neg_part (a +ℤ b) + pos_part a + pos_part b
unfolding ◌+ℤ◌
+ℤ_parts a b = ground arith

pub -ℤ_parts :
    (a b : ℤ)
    → pos_part (a -ℤ b) + neg_part a + pos_part b ≡ neg_part (a -ℤ b) + pos_part a + neg_part b
unfolding ◌-ℤ◌
-ℤ_parts a b = ground arith

pub eq_of_parts : (a b : ℤ) → pos_part a + neg_part b ≡ pos_part b + neg_part a → a ≡ b
eq_of_parts a b h = ground arith

-- An equation between integers, as `omega` reads it.
pub parts_of_eq : {a b : ℤ} → a ≡ b → pos_part a + neg_part b ≡ pos_part b + neg_part a
parts_of_eq {a} h = rw h

pub ruleset int_laws = (arith, +ℤ_parts, -ℤ_parts, eq_of_parts)

pub checked_add_ok : (a b : ℤ) {c : ℤ} → checked_add a b ≡ some c → (c ≡ a +ℤ b) × IsI128 c
unfolding checked_add
checked_add_ok a b h = ground arith

pub checked_sub_ok : (a b : ℤ) {c : ℤ} → checked_sub a b ≡ some c → (c ≡ a -ℤ b) × IsI128 c
unfolding checked_sub
checked_sub_ok a b h = ground arith

pub checked_add_fits : (a b : ℤ) → IsI128 (a +ℤ b) → checked_add a b ≡ some (a +ℤ b)
unfolding checked_add
checked_add_fits a b h = ground arith

pub checked_sub_fits : (a b : ℤ) → IsI128 (a -ℤ b) → checked_sub a b ≡ some (a -ℤ b)
unfolding checked_sub
checked_sub_fits a b h = ground arith

-- The product of numbers, and its quotient, as the accrual computes them.
pub checked_mul-pos :
    (a b : ℕ)
    → checked_mul (pos a) (pos b) ≡ (if leb (a * b) i128_max then some (pos (a * b)) else none)
unfolding checked_mul ◌*ℤ◌
checked_mul-pos a b = ground arith

pub checked_div-pos :
    (a b : ℕ) → a ≤ i128_max → 1 ≤ b → checked_div (pos a) (pos b) ≡ some (pos (a / b))
unfolding checked_div
checked_div-pos a b h k = grind arith

-- A difference of two i128 that is not negative is an i128.
pub -ℤ_IsI128 : (a b : ℤ) → pos 0 ≤ℤ b → b ≤ℤ a → a ≤ℤ pos i128_max → IsI128 (a -ℤ b)
unfolding ◌-ℤ◌
-ℤ_IsI128 a b h k m = ground arith

-- A sum of two that are not negative is an i128 if it is at most the largest.
pub +ℤ_IsI128 : (a b : ℤ) → pos 0 ≤ℤ a → pos 0 ≤ℤ b → a +ℤ b ≤ℤ pos i128_max → IsI128 (a +ℤ b)
unfolding ◌+ℤ◌
+ℤ_IsI128 a b h k m = ground arith

pub -ℤ_pos : (n : ℕ) (b : ℤ) → pos 0 ≤ℤ b → pos n -ℤ b ≡ sub_ℕ n (pos_part b)
unfolding ◌-ℤ◌
-ℤ_pos n b h = ground arith

pub +ℤ_pos : (a : ℤ) (n : ℕ) → pos 0 ≤ℤ a → a +ℤ pos n ≡ pos (pos_part a + n)
unfolding ◌+ℤ◌
+ℤ_pos a n h = ground arith

pub +ℤ_nonneg : (a b : ℤ) → pos 0 ≤ℤ a → pos 0 ≤ℤ b → a +ℤ b ≡ pos (pos_part a + pos_part b)
unfolding ◌+ℤ◌
+ℤ_nonneg a b h k = ground arith

-- One part of an integer is 0.
pub parts_apart : (a : ℤ) → (pos_part a ≡ 0) ⊎ (neg_part a ≡ 0)
parts_apart a = ground arith
