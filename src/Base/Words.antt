-- ===== src/Base/Words.antt =====
-- Machine words: `size_t` and `unsigned long` have 64 bits, `unsigned int` has 32.
use Prim.Native.Nat.{ℕ, ◌+◌, ◌-◌, ◌*◌, ◌%◌, ◌^◌}

abbrev pub word_mod : ℕ
word_mod = 2 ^ 64

abbrev pub add_size : ℕ → ℕ → ℕ
add_size a b = (a + b) % word_mod

-- `-` on ℕ stops at 0, so the modulus is added first.
abbrev pub sub_size : ℕ → ℕ → ℕ
sub_size a b = (a + word_mod - b) % word_mod

abbrev pub mul_size : ℕ → ℕ → ℕ
mul_size a b = (a * b) % word_mod

-- the conversion to `unsigned int`
abbrev pub to_uint : ℕ → ℕ
to_uint a = a % 2 ^ 32
