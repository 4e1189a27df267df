-- ===== src/Control/Bits.antt =====
-- The bit strings of src/cpu/CONTROL_UNIT.cpp, as lists of characters, and the fields of a word.
pub mod Laws
use multicore_simulator.Prelude.{
  ℕ, zero, suc, Bool, true, false, List, [], ◌∷◌, Option, none, some, ◌+◌, ◌-◌, ◌*◌, ◌/◌, ◌%◌, ◌^◌,
  ◌==◌, ltb, if◌then◌else◌, u32_mod,
}
use multicore_simulator.Prelude.Int.{ℤ, pos, negsuc}
use multicore_simulator.Cpu.Mapper.{digit}

-- The loop of `binaryStringToUint`; `none` is the invalid_argument. The last bit of `value << 1` is 0,
-- so `|= 1u` adds 1.
unfoldable pub uint_digits : List ℕ → ℕ → Option ℕ
uint_digits [] value = some value
uint_digits (c ∷ rest) value =
    let shifted = value * 2 % u32_mod in
    let next = uint_digits rest (if c == 49 then shifted + 1 else shifted) in
    if c == 49 then next else (if c == 48 then next else none)

unfoldable pub binary_string_to_uint : List ℕ → Option ℕ
unfolding uint_digits
binary_string_to_uint bin = uint_digits bin 0

-- signExtend16 of a uint16_t: the bits 16 to 31 are set, so the word is v - 2 ^ 16.
unfoldable pub sign_extend16 : ℕ → ℤ
sign_extend16 v = if ltb v 32768 then pos v else negsuc (65535 - v)

-- toBinStr: the characters of the bits `width - 1` to 0.
unfoldable pub to_bin_str : ℕ → ℕ → List ℕ
to_bin_str v zero = []
to_bin_str v (suc width) = digit (v / 2 ^ width % 2) ∷ to_bin_str v width

unfoldable pub reg_index_to_bit_string : ℕ → List ℕ
unfolding to_bin_str
reg_index_to_bit_string idx = to_bin_str idx 5

-- (instruction >> 11) & 0x1F, and so on.
abbrev pub rd_field : ℕ → ℕ
rd_field instruction = instruction / 2048 % 32

abbrev pub rt_field : ℕ → ℕ
rt_field instruction = instruction / 65536 % 32

abbrev pub rs_field : ℕ → ℕ
rs_field instruction = instruction / 2097152 % 32

abbrev pub imm_field : ℕ → ℕ
imm_field instruction = instruction % 65536

unfoldable pub get_immediate : ℕ → List ℕ
unfolding to_bin_str
get_immediate instruction = to_bin_str (imm_field instruction) 16

unfoldable pub get_destination_register : ℕ → List ℕ
unfolding reg_index_to_bit_string
get_destination_register instruction = reg_index_to_bit_string (rd_field instruction)

unfoldable pub get_target_register : ℕ → List ℕ
unfolding reg_index_to_bit_string
get_target_register instruction = reg_index_to_bit_string (rt_field instruction)

unfoldable pub get_source_register : ℕ → List ℕ
unfolding reg_index_to_bit_string
get_source_register instruction = reg_index_to_bit_string (rs_field instruction)
