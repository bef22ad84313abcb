-- ===== src/Prelude/Words.antt =====
-- `u64` and `i64` arithmetic of a release build, where an overflow wraps around.
use Prim.Native.Nat.{ℕ, ◌+◌, ◌-◌, ◌*◌, ◌%◌, ◌^◌, ◌<◌, min}
use mathlib.Core.Bool.{Bool, true, false}
use mathlib.Core.List.{List, [], ◌∷◌}
use mathlib.Core.Path.{◌≡◌}
use native.Mathlib.Omega.{arith}
use better_call_chain.Prelude.Tests.{ltb, if◌then◌else◌}

abbrev pub u32_mod : ℕ
u32_mod = 2 ^ 32

abbrev pub u64_mod : ℕ
u64_mod = 2 ^ 64

-- `a + b` and `a.saturating_add(b)` on `u64`.
abbrev pub add_u64 : ℕ → ℕ → ℕ
add_u64 a b = (a + b) % u64_mod

abbrev pub saturating_add : ℕ → ℕ → ℕ
saturating_add a b = min (a + b) (u64_mod - 1)

-- `iter().sum::<u64>()`, from the left.
unfoldable pub sum_from : ℕ → List ℕ → ℕ
sum_from acc [] = acc
sum_from acc (x ∷ xs) = sum_from (add_u64 acc x) xs

abbrev pub sum_u64 : List ℕ → ℕ
sum_u64 xs = sum_from 0 xs

-- The sum without a bound.
unfoldable pub total : List ℕ → ℕ
total [] = 0
total (x ∷ xs) = x + total xs

pub sum_from-mod :
    (acc : ℕ) (xs : List ℕ) → acc < u64_mod → sum_from acc xs ≡ (acc + total xs) % u64_mod
unfolding sum_from total
sum_from-mod acc [] h = omega arith
sum_from-mod acc (x ∷ xs) h = omega (arith, sum_from-mod (add_u64 acc x) xs (omega arith))

-- A sum that fits is the true sum.
pub sum_u64-total : (xs : List ℕ) → total xs < u64_mod → sum_u64 xs ≡ total xs
sum_u64-total xs h = omega (arith, sum_from-mod 0 xs (omega arith))

-- `negsuc n` is -(n + 1).
pub data ℤ : Type 0 where
  pos : ℕ → ℤ
  negsuc : ℕ → ℤ

-- The bits of an `i64`, and the `i64` of 64 bits.
abbrev pub to_bits : ℤ → ℕ
to_bits (pos n) = n % u64_mod
to_bits (negsuc n) = (u64_mod - 1) - n % u64_mod

abbrev pub of_bits : ℕ → ℤ
of_bits b = if ltb b (2 ^ 63) then pos b else negsuc (u64_mod - 1 - b)

-- `x as i64`, and `+`, `*` on `i64`.
abbrev pub as_i64 : ℕ → ℤ
as_i64 x = of_bits (x % u64_mod)

abbrev pub add_i64 : ℤ → ℤ → ℤ
add_i64 a b = of_bits ((to_bits a + to_bits b) % u64_mod)

abbrev pub sub_i64 : ℤ → ℤ → ℤ
sub_i64 x y = of_bits ((to_bits x + (u64_mod - to_bits y)) % u64_mod)

abbrev pub mul_i64 : ℤ → ℤ → ℤ
mul_i64 a b = of_bits ((to_bits a * to_bits b) % u64_mod)

-- `a < b` on `i64`.
abbrev pub ltb_i64 : ℤ → ℤ → Bool
ltb_i64 (pos a) (pos b) = ltb a b
ltb_i64 (pos a) (negsuc b) = false
ltb_i64 (negsuc a) (pos b) = true
ltb_i64 (negsuc a) (negsuc b) = ltb b a
