-- ===== src/Base/Words.antt =====
-- Go's fixed-width integers as bit patterns below the modulus; the signed readings of an int64.
use Prim.Native.Nat.{ℕ, ◌+◌, ◌-◌, ◌%◌, ◌^◌, ◌<◌}
use mathlib.Core.Path.{◌≡◌}
use mathlib.Core.Bool.{Bool, true}
use native.Mathlib.Omega.{arith}
use load_balancer.Base.Tests.{ltb, leb, ◌==◌, if◌then◌else◌}

abbrev pub u32_mod : ℕ
u32_mod = 2 ^ 32

abbrev pub u64_mod : ℕ
u64_mod = 2 ^ 64

abbrev pub i64_half : ℕ
i64_half = 2 ^ 63

-- a + b and a - b on uint32, and on uint64 or int64 (the same bit patterns).
abbrev pub add32 : ℕ → ℕ → ℕ
add32 a b = (a + b) % u32_mod

abbrev pub add64 : ℕ → ℕ → ℕ
add64 a b = (a + b) % u64_mod

abbrev pub sub64 : ℕ → ℕ → ℕ
sub64 a b = (a + u64_mod - b) % u64_mod

-- The pattern of the int64 -1.
abbrev pub minus_one : ℕ
minus_one = 2 ^ 64 - 1

-- Signed tests: x < 0, x <= 0 and a < b.
abbrev pub is_neg : ℕ → Bool
is_neg x = leb i64_half x

abbrev pub is_nonpos : ℕ → Bool
is_nonpos x = if x == 0 then true else is_neg x

abbrev pub slt : ℕ → ℕ → Bool
slt a b = ltb ((a + i64_half) % u64_mod) ((b + i64_half) % u64_mod)

abbrev pub neg64 : ℕ → ℕ
neg64 x = (u64_mod - x) % u64_mod

-- Go's `a % b` on int64 for a positive b: the remainder has the sign of a.
abbrev pub srem : ℕ → ℕ → ℕ
srem a b = if is_neg a then neg64 (neg64 a % b) else a % b

pub slt_nonneg : (a b : ℕ) → a < i64_half → b < i64_half → slt a b ≡ ltb a b
slt_nonneg a b h k = ground arith

pub sub64-add64 : (a : ℕ) → a < u64_mod → sub64 (add64 a 1) 1 ≡ a
sub64-add64 a h = omega arith
