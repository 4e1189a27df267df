-- ===== src/Cpu/Alu.antt =====
-- src/cpu/ULA.hpp and ULA.cpp. The operands are uint32_t words; `result` is an int32_t, as an
-- integer; the int64_t intermediates are exact.
pub mod Arithmetic
pub mod Division
pub mod Compare
use multicore_simulator.Prelude.{
  ℕ, Bool, true, false, ◌+◌, ◌-◌, ◌%◌, ◌&&◌, ltb, leb, ◌==◌, if◌then◌else◌, bit_and, not, u32_mod,
}
use multicore_simulator.Prelude.Int.{
  ℤ, pos, negsuc, pos_part, neg_part, ◌+ℤ◌, ◌-ℤ◌, ◌*ℤ◌, ◌/ℤ◌, ltb_ℤ, leb_ℤ, eqb_ℤ,
}

pub data Operation : Type 0 where
  add sub mul div and_op beq bne blt bgt bgti blti lw la st : Operation

pub record Alu : Type 0 where
  pub a : ℕ
  pub b : ℕ
  pub op : Operation
  pub result : ℤ
  pub overflow : Bool

-- ALU alu;
abbrev pub new_alu : Alu
new_alu = record { a = 0; b = 0; op = add; result = pos 0; overflow = false }

abbrev pub i32_min : ℤ
i32_min = negsuc 2147483647

abbrev pub i32_max : ℤ
i32_max = pos 2147483647

-- static_cast<int32_t> of a uint32_t
unfoldable pub as_i32 : ℕ → ℤ
as_i32 x = if ltb x 2147483648 then pos x else negsuc (u32_mod - 1 - x)

-- static_cast<uint32_t> of an int32_t or an int64_t: the integer modulo 2 ^ 32
unfoldable pub to_word : ℤ → ℕ
to_word (pos n) = n % u32_mod
to_word (negsuc n) = u32_mod - 1 - n % u32_mod

-- static_cast<int32_t> of an int64_t
abbrev pub to_i32 : ℤ → ℤ
to_i32 x = as_i32 (to_word x)

unfoldable pub fits_in_i32 : ℤ → Bool
fits_in_i32 x = leb_ℤ x i32_max && leb_ℤ i32_min x

-- The two results that `calculate` sets.
abbrev pub checked : ℤ → ℤ × Bool
checked exact = (to_i32 exact, not (fits_in_i32 exact))

abbrev pub flag : Bool → ℤ × Bool
flag true = (pos 1, false)
flag false = (pos 0, false)

unfoldable pub divide : ℤ → ℤ → ℤ × Bool
divide dividend divisor =
    if eqb_ℤ divisor (pos 0)
    then (pos 0, true)
    else (if eqb_ℤ dividend i32_min && eqb_ℤ divisor (negsuc 0)
        then (i32_min, true)
        else (dividend /ℤ divisor, false))

-- The switch of `calculate`; its `default` is not reached, since every operation has a case.
unfoldable pub compute : Operation → ℕ → ℕ → ℤ × Bool
compute add a b = checked (as_i32 a +ℤ as_i32 b)
compute sub a b = checked (as_i32 a -ℤ as_i32 b)
compute mul a b = checked (as_i32 a *ℤ as_i32 b)
compute div a b = divide (as_i32 a) (as_i32 b)
compute and_op a b = (as_i32 (bit_and a b), false)
compute beq a b = flag (eqb_ℤ (as_i32 a) (as_i32 b))
compute bne a b = flag (not (eqb_ℤ (as_i32 a) (as_i32 b)))
compute blt a b = flag (ltb_ℤ (as_i32 a) (as_i32 b))
compute bgt a b = flag (ltb_ℤ (as_i32 b) (as_i32 a))
compute bgti a b = flag (ltb_ℤ (as_i32 b) (as_i32 a))
compute blti a b = flag (ltb_ℤ (as_i32 a) (as_i32 b))
compute lw a b = checked (as_i32 a +ℤ as_i32 b)
compute la a b = checked (as_i32 a +ℤ as_i32 b)
compute st a b = checked (as_i32 a +ℤ as_i32 b)

unfoldable pub calculate : Alu → Alu
calculate alu =
    let (result, overflow) = compute alu.op alu.a alu.b in
    record alu { result = result; overflow = overflow }

unfoldable pub execute : Alu → Operation → ℕ → ℕ → Alu
execute alu op a b = calculate (record alu { op = op; a = a; b = b })
