-- ===== src/Cpu/Mapper/Codes.antt =====
-- The 5-bit codes of src/cpu/HASH_REGISTER.hpp: numbers below 32, one to one.
use multicore_simulator.Prelude.{ℕ, List, [], ◌∷◌, some, ◌≡◌, ◌<◌, ◌⊎◌, arith, ◌+◌, ◌*◌, ◌-◌}
use multicore_simulator.Cpu.Mapper.{bin_from_index, bin_digits, index_digits, index_from_binary}

-- '0' or '1'
abbrev Bits : List ℕ → Type 0
Bits [] = Unit
Bits (b ∷ bs) = ((b ≡ 48) ⊎ (b ≡ 49)) × Bits bs

abbrev value : List ℕ → ℕ → ℕ
value [] r = r
value (b ∷ bs) r = value bs (r * 2 + (b - 48))

index_digits-Bits :
    (bs : List ℕ) (r i : ℕ) → index_digits bs r ≡ some i → Bits bs × (i ≡ value bs r)
unfolding index_digits
index_digits-Bits [] r i h = (tt, ground arith)
index_digits-Bits (b ∷ bs) r i h = ground (arith, index_digits-Bits bs (r * 2 + (b - 48)) i)

five :
    (a b c d e : ℕ)
    → Bits (a ∷ b ∷ c ∷ d ∷ e ∷ [])
    → bin_digits 5 (value (a ∷ b ∷ c ∷ d ∷ e ∷ []) 0) [] ≡ a ∷ b ∷ c ∷ d ∷ e ∷ []
unfolding bin_digits
five a b c d e h = ground arith

five_lt : (a b c d e : ℕ) → Bits (a ∷ b ∷ c ∷ d ∷ e ∷ []) → value (a ∷ b ∷ c ∷ d ∷ e ∷ []) 0 < 32
five_lt a b c d e h = omega arith

-- `binFromIndex` undoes `indexFromBinary`: what the latter accepts is the code of one number below 32.
bin_from_index-index_from_binary :
    (binary : List ℕ) (i : ℕ)
    → index_from_binary binary ≡ some i
    → (i < 32) × (bin_from_index i ≡ some binary)
unfolding index_from_binary bin_from_index
bin_from_index-index_from_binary (a ∷ b ∷ c ∷ d ∷ e ∷ []) i h =
    let (bits, v) = index_digits-Bits (a ∷ b ∷ c ∷ d ∷ e ∷ []) 0 i h in
    ground (arith, five a b c d e bits, five_lt a b c d e bits)
bin_from_index-index_from_binary [] i h = cc
bin_from_index-index_from_binary (a ∷ []) i h = cc
bin_from_index-index_from_binary (a ∷ b ∷ []) i h = cc
bin_from_index-index_from_binary (a ∷ b ∷ c ∷ []) i h = cc
bin_from_index-index_from_binary (a ∷ b ∷ c ∷ d ∷ []) i h = cc
bin_from_index-index_from_binary (a ∷ b ∷ c ∷ d ∷ e ∷ f ∷ rest) i h = ground arith
