-- ===== src/Control/Execute/Loads.antt =====
-- LW of src/cpu/CONTROL_UNIT.cpp, with the words that src/parser_json/parser_json.cpp builds for it.
use multicore_simulator.Prelude.{ℕ, ◌≡◌, ◌<◌, ◌/◌, ◌%◌, refl, arith}
use multicore_simulator.Control.Bits.{
  rs_field, rt_field, imm_field, reg_index_to_bit_string, to_bin_str, sign_extend16, get_immediate,
  get_source_register, get_target_register,
}
use multicore_simulator.Control.Decode.{
  lw, InstructionData, decoded, decode_fields, decode_immediate, identify, identify_code, is_idle,
}
use multicore_simulator.Control.Core.{Core}
use multicore_simulator.Control.Execute.{memory_acess, access, load_word}
use multicore_simulator.Parser.Encode.{build_binary_instruction}
use multicore_simulator.Parser.Encode.Fields.{build_i_type-fields}

decoded-lw :
    (d : InstructionData) (w : ℕ)
    → identify w ≡ lw
    → decoded w d ≡ record d {
      raw_instruction = w;
      op = lw;
      source_register = reg_index_to_bit_string (rs_field w);
      target_register = reg_index_to_bit_string (rt_field w);
      address_ram_result = to_bin_str (imm_field w) 16;
      immediate = sign_extend16 (imm_field w);
    }
unfolding decoded decode_fields decode_immediate get_source_register get_target_register
    get_immediate is_idle
decoded-lw d w e = rw e refl

abbrev lw_word : ℕ → ℕ → ℕ → ℕ
lw_word rs rt immediate = build_binary_instruction 35 rs rt 0 0 0 immediate 0

identify-lw : (w : ℕ) → w / 67108864 % 64 ≡ 35 → identify w ≡ lw
unfolding identify identify_code
identify-lw w e = rw e refl

-- LW does not look at its base register: two words that the parser builds for it, and that differ
-- in that register number alone, load the same word into the same register.
pub memory_acess-base :
    (c : Core) (d : InstructionData) (rs other rt immediate : ℕ)
    → rs < 32
    → other < 32
    → rt < 32
    → memory_acess c (decoded (lw_word rs rt immediate) d)
      ≡ memory_acess c (decoded (lw_word other rt immediate) d)
unfolding memory_acess access load_word is_idle
memory_acess-base c d rs other rt immediate hs ho ht =
    let (_, opcode, _, target, imm) =
      build_i_type-fields 35 rs rt 0 0 0 immediate 0 (omega arith) (omega arith) (omega arith)
        (omega arith) hs ht in
    let (_, opcode', _, target', imm') =
      build_i_type-fields 35 other rt 0 0 0 immediate 0 (omega arith) (omega arith) (omega arith)
        (omega arith) ho ht in
    rw
      (
        decoded-lw d (lw_word rs rt immediate) (identify-lw _ opcode),
        decoded-lw d (lw_word other rt immediate) (identify-lw _ opcode'),
        target,
        target',
        imm,
        imm',
      )
      refl
