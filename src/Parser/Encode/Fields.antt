-- ===== src/Parser/Encode/Fields.antt =====
-- The words of src/parser_json/parser_json.cpp as src/cpu/CONTROL_UNIT.cpp takes them apart.
use multicore_simulator.Prelude.{ℕ, ◌/◌, ◌%◌, ◌≡◌, ◌≢◌, ◌<◌, refl, ap, ◌∙◌, arith, u32_mod}
use multicore_simulator.Parser.Encode.{build_r_type, build_i_type, build_binary_instruction}
use multicore_simulator.Control.Bits.{rd_field, rt_field, rs_field, imm_field}
use multicore_simulator.Control.Decode.{identify, identify_code, identify_r_type}

identify-r_type : (w : ℕ) → w / 67108864 % 64 ≡ 0 → identify w ≡ identify_r_type (w % 64)
unfolding identify identify_code
identify-r_type w h = rw h refl

-- An R-type word of three register numbers is a 32-bit word, and the control unit reads from it the
-- registers and the function code from which it was built.
pub build_r_type-fields :
    (rs rt rd shamt funct immediate address : ℕ)
    → rs < 32
    → rt < 32
    → rd < 32
    → let w = build_binary_instruction 0 rs rt rd shamt funct immediate address in
      (w < u32_mod)
      × (rs_field w ≡ rs)
      × (rt_field w ≡ rt)
      × (rd_field w ≡ rd)
      × (identify w ≡ identify_r_type (funct % 64))
unfolding build_binary_instruction build_r_type
build_r_type-fields rs rt rd shamt funct immediate address hs ht hd =
    let w = build_binary_instruction 0 rs rt rd shamt funct immediate address in
    let opcode : w / 67108864 % 64 ≡ 0 = omega arith in
    let code : w % 64 ≡ funct % 64 = omega arith in
    (
      omega arith,
      omega arith,
      omega arith,
      omega arith,
      identify-r_type w opcode ∙ ap identify_r_type code,
    )

-- A word with a 6-bit opcode other than 0, 2 and 3 and two register numbers is a 32-bit word, and
-- the control unit reads from it the opcode, the registers and the low 16 bits of the immediate
-- from which it was built.
pub build_i_type-fields :
    (opcode rs rt rd shamt funct immediate address : ℕ)
    → opcode < 64
    → opcode ≢ 0
    → opcode ≢ 2
    → opcode ≢ 3
    → rs < 32
    → rt < 32
    → let w = build_binary_instruction opcode rs rt rd shamt funct immediate address in
      (w < u32_mod)
      × (w / 67108864 % 64 ≡ opcode)
      × (rs_field w ≡ rs)
      × (rt_field w ≡ rt)
      × (imm_field w ≡ immediate % 65536)
unfolding build_binary_instruction build_i_type
build_i_type-fields opcode rs rt rd shamt funct immediate address ho h0 h2 h3 hs ht =
    let w = build_binary_instruction opcode rs rt rd shamt funct immediate address in
    let built : w ≡ build_i_type opcode rs rt immediate = ground arith in
    rw built (omega arith, omega arith, omega arith, omega arith, omega arith)
