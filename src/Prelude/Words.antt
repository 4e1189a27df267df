-- ===== src/Prelude/Words.antt =====
-- Machine words as native numbers; a signed 32-bit value is an integer of `Int`.
use Prim.Native.Nat.{ℕ, ◌+◌, ◌-◌, ◌%◌}

abbrev pub u32_mod : ℕ
u32_mod = 4294967296

abbrev pub u64_mod : ℕ
u64_mod = 18446744073709551616

-- UINT32_MAX
abbrev pub u32_max : ℕ
u32_max = 4294967295

-- a conversion to uint32_t
abbrev pub to_u32 : ℕ → ℕ
to_u32 n = n % u32_mod

-- `fetch_add` and `+=` on a uint64_t
unfoldable pub add64 : ℕ → ℕ → ℕ
add64 a b = (a + b) % u64_mod

-- `a - b` on uint64_t
unfoldable pub sub64 : ℕ → ℕ → ℕ
sub64 a b = (a + u64_mod - b) % u64_mod
