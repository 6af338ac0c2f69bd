-- ===== src/Base/Words.antt =====
-- Arithmetic of std::uint64_t and std::size_t, with its wrap-around written out.
use Prim.Native.Nat.{ℕ, ◌+◌, ◌-◌, ◌*◌, ◌%◌, ◌^◌, ◌≤◌, ◌<◌}
use mathlib.Core.Path.{◌≡◌}
use native.Mathlib.Omega.{arith}

abbrev pub add64 : ℕ → ℕ → ℕ
add64 a b = (a + b) % 2 ^ 64

abbrev pub sub64 : ℕ → ℕ → ℕ
sub64 a b = (a + 2 ^ 64 - b % 2 ^ 64) % 2 ^ 64

abbrev pub mul64 : ℕ → ℕ → ℕ
mul64 a b = (a * b) % 2 ^ 64

pub sub64-add64 : (a b : ℕ) → a < 2 ^ 64 → sub64 (add64 a b) b ≡ a
sub64-add64 a b h = omega arith

pub sub64_le : (a b : ℕ) → a < 2 ^ 64 → b ≤ a → sub64 a b ≡ a - b
sub64_le a b h k = omega arith

-- A wrapped sum that loses a summand.
pub sub64_mod : (a b c : ℕ) → a ≡ (b + c) % 2 ^ 64 → sub64 a b ≡ c % 2 ^ 64
sub64_mod a b c h = omega arith
