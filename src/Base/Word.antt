-- ===== src/Base/Word.antt =====
-- 64-bit words (core/types.h): `u64` arithmetic with its wrap-around written out, and the page
-- constants and rounding functions.
use Prim.Native.Nat.{ℕ, ◌+◌, ◌-◌, ◌%◌, ◌^◌, ◌≤◌, ◌<◌}
use mathlib.Core.Path.{◌≡◌}
use native.Mathlib.Omega.{arith}

abbrev pub u64_mod : ℕ
u64_mod = 2 ^ 64

abbrev pub add64 : ℕ → ℕ → ℕ
add64 a b = (a + b) % u64_mod

-- `-` on ℕ stops at 0, so the modulus is added first.
abbrev pub sub64 : ℕ → ℕ → ℕ
sub64 a b = (a + (u64_mod - b % u64_mod)) % u64_mod

pub add64-eq : (a b : ℕ) → a + b < u64_mod → add64 a b ≡ a + b
add64-eq a b h = omega arith

pub sub64-eq : (a b : ℕ) → b ≤ a → a < u64_mod → sub64 a b ≡ a - b
sub64-eq a b h k = omega arith
