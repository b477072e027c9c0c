-- ===== src/Prelude/Divide.antt =====
-- Mixed radix: the digits of `a + m * b`, and carries.
use Prim.Native.Nat.{ℕ, ◌+◌, ◌*◌, ◌/◌, ◌%◌, ◌<◌}
use mathlib.Core.Path.{◌≡◌}
use native.Mathlib.Omega.{arith}

pub add_mul-mod : (a m b : ℕ) → a < m → (a + m * b) % m ≡ a
add_mul-mod a m b h = grind arith

pub add_mul-div : (a m b : ℕ) → a < m → (a + m * b) / m ≡ b
add_mul-div a m b h = grind arith

pub add_mul-lt : (a m b n : ℕ) → a < m → b < n → a + m * b < m * n
add_mul-lt a m b n h k = grind arith

-- The last digit overflows into the next.
pub carry : (a m b : ℕ) → a + 1 ≡ m → a + m * b + 1 ≡ m * (b + 1)
carry a m b h = grind arith
