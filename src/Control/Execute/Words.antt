-- ===== src/Control/Execute/Words.antt =====
-- Words of src/parser_json/parser_json.cpp on their way through Decode, Execute and Memory_Acess of
-- src/cpu/CONTROL_UNIT.cpp.
use multicore_simulator.Prelude.{
  ℕ, true, some, ◌≡◌, ◌<◌, ◌+◌, ◌-◌, ◌*◌, ◌%◌, refl, ap, ◌∙◌, arith, u32_mod, ==_refl,
}
use multicore_simulator.Process.{modify}
use multicore_simulator.Cpu.Registers.{RegisterBank}
use multicore_simulator.Cpu.Registers.Laws.{
  register_name, read_register_lem, after_write, write_register_lem,
}
use multicore_simulator.Cpu.Mapper.Table.{gpr, gpr-Mapped}
use multicore_simulator.Control.Bits.{
  rs_field, rt_field, rd_field, get_source_register, get_target_register, get_destination_register,
  reg_index_to_bit_string, to_bin_str, binary_string_to_uint,
}
use multicore_simulator.Control.Bits.Laws.{binary_string_to_uint-to_bin_str}
use multicore_simulator.Control.Decode.{
  Op, add, sub, mult, div, InstructionData, decoded, decode_fields, decode_registers,
  identify_r_type, is_arithmetic, identify, is_idle,
}
use multicore_simulator.Cpu.Alu.Arithmetic.{calculate-Computes}
use multicore_simulator.Parser.Encode.{build_binary_instruction}
use multicore_simulator.Parser.Encode.Fields.{build_r_type-fields}
use multicore_simulator.Control.Core.{
  Core, registers, set_registers, account_stage, name_of, register_value, assign,
}
use multicore_simulator.Control.Execute.{
  assign_if, arithmetic_result, execute_aritmetic_operation, execute, dispatch,
}

-- The code of a register leads to its name, its word, and the write of its word.
pub name_of-register :
    (i : ℕ) → i < 32 → name_of (reg_index_to_bit_string i) ≡ some (register_name (gpr i))
unfolding name_of reg_index_to_bit_string
name_of-register i h =
    let number : binary_string_to_uint (to_bin_str i 5) ≡ some i =
      binary_string_to_uint-to_bin_str i 5 (omega arith) ∙ ap some (omega arith) in
    rw number (gpr-Mapped i h).0

pub register_value-register :
    (bank : RegisterBank) (i : ℕ)
    → i < 32
    → register_value bank (reg_index_to_bit_string i) ≡ some (bank (gpr i))
unfolding register_value
register_value-register bank i h = rw (name_of-register i h) (read_register_lem bank (gpr i))

assign-register :
    (c : Core) (i value : ℕ)
    → i < 32
    → assign c (reg_index_to_bit_string i) value
      ≡ some (set_registers (after_write (registers c) (gpr i) value) c)
unfolding assign
assign-register c i value h =
    rw (name_of-register i h, write_register_lem (registers c) (gpr i) value) refl

pub registers-account_stage : (c : Core) → registers (account_stage c) ≡ registers c
unfolding modify
registers-account_stage c = rw (==_refl c.process, registers) refl

-- The core after `Execute` has written a word to a register.
abbrev pub executed : Core → ℕ → ℕ → Core
executed c rd value = set_registers (after_write (registers c) (gpr rd) value) (account_stage c)

-- An operation of the four is decoded from the three register fields, and handed to the ALU's helper.
pub decoded-arithmetic :
    (d : InstructionData) (w : ℕ) (op : Op)
    → identify w ≡ op
    → is_arithmetic op ≡ true
    → decoded w d ≡ record d {
      raw_instruction = w;
      op = op;
      source_register = reg_index_to_bit_string (rs_field w);
      target_register = reg_index_to_bit_string (rt_field w);
      destination_register = reg_index_to_bit_string (rd_field w);
    }
unfolding decoded decode_fields decode_registers get_source_register get_target_register
    get_destination_register is_arithmetic is_idle
decoded-arithmetic d w add e group = rw e refl
decoded-arithmetic d w sub e group = rw e refl
decoded-arithmetic d w mult e group = rw e refl
decoded-arithmetic d w div e group = rw e refl
decoded-arithmetic d w _ e group = cc group

pub dispatch-arithmetic :
    (op : Op) (c : Core) (d : InstructionData)
    → is_arithmetic op ≡ true
    → dispatch op c d ≡ execute_aritmetic_operation c d
unfolding dispatch is_arithmetic
dispatch-arithmetic add c d group = refl
dispatch-arithmetic sub c d group = refl
dispatch-arithmetic mult c d group = refl
dispatch-arithmetic div c d group = refl
dispatch-arithmetic _ c d group = cc group

module _ (c : Core) (rs rt rd : ℕ) (hs : rs < 32) (ht : rt < 32) (hd : rd < 32) where
  pub arithmetic-executed :
      (d : InstructionData) (op : Op) (value : ℕ)
      → arithmetic_result op (registers c (gpr rs)) (registers c (gpr rt)) ≡ some value
      → execute_aritmetic_operation (account_stage c) (record d {
        op = op;
        source_register = reg_index_to_bit_string rs;
        target_register = reg_index_to_bit_string rt;
        destination_register = reg_index_to_bit_string rd;
      })
        ≡ some (executed c rd value)
  unfolding execute_aritmetic_operation assign_if
  arithmetic-executed d op value e =
      rw
        (
          name_of-register rd hd,
          register_value-register (registers (account_stage c)) rs hs,
          register_value-register (registers (account_stage c)) rt ht,
          registers-account_stage c,
          e,
        )
        (assign-register (account_stage c) rd value hd ∙ rw (registers-account_stage c) refl)

  abbrev word : ℕ → ℕ → ℕ
  word shamt funct = build_binary_instruction 0 rs rt rd shamt funct 0 0

  -- An R-type word of one of the four operations, decoded and executed.
  r_type-executed :
      (d : InstructionData) (shamt funct value : ℕ) (op : Op)
      → identify_r_type (funct % 64) ≡ op
      → is_arithmetic op ≡ true
      → arithmetic_result op (registers c (gpr rs)) (registers c (gpr rt)) ≡ some value
      → execute c (decoded (word shamt funct) d) ≡ some (executed c rd value)
  unfolding execute
  r_type-executed d shamt funct value op which group e =
      let w = word shamt funct in
      let (_, fs, ft, fd, seen) = build_r_type-fields rs rt rd shamt funct 0 0 hs ht hd in
      let form = decoded-arithmetic d w op (seen ∙ which) group in
      rw (form, fs, ft, fd)
        (dispatch-arithmetic op (account_stage c) _ group
          ∙ arithmetic-executed (record d { raw_instruction = w }) op value e)

  -- A word that the parser builds for ADD, SUB or MULT and three register numbers, decoded and
  -- executed, writes the sum, the difference or the product of two registers, modulo 2 ^ 32, to the
  -- third, if the two hold 32-bit words. Otherwise it counts the stage and nothing else; a write to
  -- register 0 is dropped.
  pub execute-decoded :
      (d : InstructionData) (shamt : ℕ)
      → registers c (gpr rs) < u32_mod
      → registers c (gpr rt) < u32_mod
      → let a = registers c (gpr rs) in
        let b = registers c (gpr rt) in
        (execute c (decoded (word shamt 0x20) d) ≡ some (executed c rd ((a + b) % u32_mod)))
        × (execute c (decoded (word shamt 0x22) d)
            ≡ some (executed c rd ((a + u32_mod - b) % u32_mod)))
        × (execute c (decoded (word shamt 0x18) d) ≡ some (executed c rd ((a * b) % u32_mod)))
  unfolding arithmetic_result is_arithmetic identify_r_type
  execute-decoded d shamt ha hb =
      let (sum, difference, product) =
        calculate-Computes (registers c (gpr rs)) (registers c (gpr rt)) ha hb in
      (
        r_type-executed d shamt 0x20 _ add refl refl (ap some sum.0),
        r_type-executed d shamt 0x22 _ sub refl refl (ap some difference.0),
        r_type-executed d shamt 0x18 _ mult refl refl (ap some product.0),
      )
