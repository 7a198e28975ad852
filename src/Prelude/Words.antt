-- ===== src/Prelude/Words.antt =====
-- Machine words. An `int` counter is kept as its 32-bit pattern, an address or an `unsigned long`
-- as a number below 2 ^ 64.
use Prim.Native.Nat.{ℕ, ◌+◌, ◌-◌, ◌%◌, ◌^◌}
use mathlib.Core.Path.{◌≡◌}
use native.Mathlib.Omega.{arith}

abbrev pub page_size : ℕ
page_size = 4096

abbrev pub add32 : ℕ → ℕ → ℕ
add32 a b = (a + b) % 2 ^ 32

abbrev pub sub32 : ℕ → ℕ → ℕ
sub32 a b = (a + 2 ^ 32 - b) % 2 ^ 32

abbrev pub add64 : ℕ → ℕ → ℕ
add64 a b = (a + b) % 2 ^ 64

abbrev pub sub64 : ℕ → ℕ → ℕ
sub64 a b = (a + 2 ^ 64 - b) % 2 ^ 64

-- Steps that each wrap add up to one sum that wraps.
pub add32-add32 : (a b c : ℕ) → add32 (add32 a b) c ≡ add32 a (b + c)
add32-add32 a b c = omega arith
