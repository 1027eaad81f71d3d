-- ===== src/Prelude/Words.antt =====
-- `u64` arithmetic as release builds compute it: addition wraps.
use Prim.Native.Nat.{ℕ, ◌+◌, ◌%◌, ◌^◌, ◌<◌}
use mathlib.Core.Path.{◌≡◌}
use native.Mathlib.Omega.{arith}

abbrev pub u64_mod : ℕ
u64_mod = 2 ^ 64

unfoldable pub wrapping_add : ℕ → ℕ → ℕ
wrapping_add a b = (a + b) % u64_mod

pub wrapping_add_lem : (a b : ℕ) → a + b < u64_mod → wrapping_add a b ≡ a + b
unfolding wrapping_add
wrapping_add_lem a b h = omega arith

pub wrapping_add-lt : (a b : ℕ) → wrapping_add a b < u64_mod
unfolding wrapping_add
wrapping_add-lt a b = omega arith
