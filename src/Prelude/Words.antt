-- ===== src/Prelude/Words.antt =====
-- Machine words: `usize` and `u64` of the 64-bit targets. In the release profile `+` and `-` wrap
-- around.
use Prim.Native.Nat.{ℕ, ◌+◌, ◌-◌, ◌%◌, ◌^◌, ◌≤◌, ◌<◌}
use mathlib.Core.Path.{◌≡◌}
use native.Mathlib.Omega.{arith}

abbrev pub word : ℕ
word = 2 ^ 64

abbrev pub add64 : ℕ → ℕ → ℕ
add64 a b = (a + b) % word

abbrev pub sub64 : ℕ → ℕ → ℕ
sub64 a b = (a + word - b) % word

-- The page sizes of the x86 crate.
abbrev pub base_page_size : ℕ
base_page_size = 4096

abbrev pub large_page_size : ℕ
large_page_size = 2097152

pub sub64-eq_sub : (a b : ℕ) → b ≤ a → a < word → sub64 a b ≡ a - b
sub64-eq_sub a b h k = omega arith

pub add64-eq_add : (a b : ℕ) → a + b < word → add64 a b ≡ a + b
add64-eq_add a b h = omega arith
