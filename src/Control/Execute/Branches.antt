-- ===== src/Control/Execute/Branches.antt =====
-- BEQ and BNE of src/cpu/CONTROL_UNIT.cpp, with the words that src/parser_json/parser_json.cpp builds
-- for them.
use multicore_simulator.Prelude.{
  ℕ, Bool, true, false, Option, some, ◌≡◌, ◌≢◌, ◌<◌, inl, inr, ◌%◌, ◌∙◌, refl, ap, ==_refl, arith,
  u32_mod, if◌then◌else◌,
}
use multicore_simulator.Prelude.Int.{ℤ}
use multicore_simulator.Process.{modify}
use multicore_simulator.Cpu.Registers.{pc, write, position}
use multicore_simulator.Cpu.Alu as Alu
use multicore_simulator.Cpu.Alu.{to_word}
use multicore_simulator.Cpu.Alu.Compare.{Decides, calculate-Decides}
use multicore_simulator.Cpu.Mapper.Table.{gpr}
use multicore_simulator.Control.Bits.{
  rs_field, rt_field, imm_field, reg_index_to_bit_string, to_bin_str, sign_extend16, get_immediate,
  get_source_register, get_target_register,
}
use multicore_simulator.Control.Decode.{
  Op, beq, bne, InstructionData, decoded, decode_fields, decode_immediate, identify, identify_code,
  is_idle,
}
use multicore_simulator.Control.Core.{Core, registers, account_stage}
use multicore_simulator.Control.Execute.{
  execute, dispatch, execute_loop_operation, jumps, take_branch, alu_result, is_one,
}
use multicore_simulator.Control.Execute.Words.{register_value-register, registers-account_stage}
use multicore_simulator.Parser.Encode.{build_binary_instruction}
use multicore_simulator.Parser.Encode.Fields.{build_i_type-fields}

abbrev is_equality : Op → Bool
is_equality beq = true
is_equality bne = true
is_equality _ = false

abbrev branch_data : Op → ℕ → InstructionData → InstructionData
branch_data op w d = record d {
  raw_instruction = w;
  op = op;
  source_register = reg_index_to_bit_string (rs_field w);
  target_register = reg_index_to_bit_string (rt_field w);
  address_ram_result = to_bin_str (imm_field w) 16;
  immediate = sign_extend16 (imm_field w);
}

decoded-branch :
    (d : InstructionData) (w : ℕ) (op : Op)
    → identify w ≡ op
    → is_equality op ≡ true
    → decoded w d ≡ branch_data op w d
unfolding decoded decode_fields decode_immediate get_source_register get_target_register
    get_immediate is_idle
decoded-branch d w beq e group = rw e refl
decoded-branch d w bne e group = rw e refl
decoded-branch d w _ e group = cc group

dispatch-branch :
    (op : Op) (c : Core) (d : InstructionData)
    → is_equality op ≡ true
    → dispatch op c d ≡ execute_loop_operation c d
unfolding dispatch
dispatch-branch beq c d group = refl
dispatch-branch bne c d group = refl
dispatch-branch _ c d group = cc group

-- The branch was taken to an address.
abbrev pub Taken : Option Core → ℕ → Type 0
Taken result address = (c : Core) × (result ≡ some c) × (registers c pc ≡ address)

take_branch-pc :
    (c : Core) (d : InstructionData) → registers (take_branch c d) pc ≡ to_word d.immediate
unfolding take_branch write modify position
take_branch-pc c d = rw (==_refl c.process, registers, modify) refl

decided-yes : {P : Type 0} (r : ℤ) → Decides P r → P → is_one r ≡ true
decided-yes r (inl (_, e)) h = rw e refl
decided-yes r (inr (refused, _)) h = absurd (refused h)

decided-no : {P : Type 0} (r : ℤ) → Decides P r → ¬ P → is_one r ≡ false
decided-no r (inl (h, _)) refused = absurd (refused h)
decided-no r (inr (_, e)) refused = rw e refl

abbrev pub branch_word : ℕ → ℕ → ℕ → ℕ → ℕ
branch_word code rs rt address = build_binary_instruction code rs rt 0 0 0 address 0

module _ (c : Core) (rs rt : ℕ) (hs : rs < 32) (ht : rt < 32) where
  loop-branches :
      (d : InstructionData) (taken : Bool)
      → d.source_register ≡ reg_index_to_bit_string rs
      → d.target_register ≡ reg_index_to_bit_string rt
      → jumps d.op (registers c (gpr rs)) (registers c (gpr rt)) ≡ taken
      → execute_loop_operation (account_stage c) d
        ≡ some (if taken then take_branch (account_stage c) d else account_stage c)
  unfolding execute_loop_operation
  loop-branches d taken es et e =
      rw
        (
          es,
          et,
          register_value-register (registers (account_stage c)) rs hs,
          register_value-register (registers (account_stage c)) rt ht,
          registers-account_stage c,
          e,
        )
        refl

  module _ (d : InstructionData) (code address : ℕ) (op : Op) (small : code < 64) (high : 3 < code)
      (seen : (funct : ℕ) → identify_code code funct ≡ op) (group : is_equality op ≡ true) where
    branch-executed :
        (taken : Bool)
        → jumps op (registers c (gpr rs)) (registers c (gpr rt)) ≡ taken
        → let w = branch_word code rs rt address in
          execute c (decoded w d)
          ≡ some (
              if taken then take_branch (account_stage c) (branch_data op w d) else account_stage c)
    unfolding execute identify
    branch-executed taken e =
        let w = branch_word code rs rt address in
        let (_, opcode, fs, ft, _) =
          build_i_type-fields code rs rt 0 0 0 address 0 small (omega arith) (omega arith)
            (omega arith) hs ht in
        let which : identify w ≡ op = rw opcode (seen (w % 64)) in
        rw (decoded-branch d w op which group) (
          dispatch-branch op (account_stage c) (branch_data op w d) group
          ∙ loop-branches (branch_data op w d) taken (ap reg_index_to_bit_string fs)
              (ap reg_index_to_bit_string ft) e)

    branch-Taken :
        jumps op (registers c (gpr rs)) (registers c (gpr rt)) ≡ true
        → address < 32768
        → Taken (execute c (decoded (branch_word code rs rt address) d)) address
    unfolding sign_extend16 to_word
    branch-Taken e near =
        let w = branch_word code rs rt address in
        let (_, _, _, _, imm) =
          build_i_type-fields code rs rt 0 0 0 address 0 small (omega arith) (omega arith)
            (omega arith) hs ht in
        let whole : imm_field w ≡ address = omega (arith, imm) in
        let target : to_word (sign_extend16 address) ≡ address = ground arith in
        (
          take_branch (account_stage c) (branch_data op w d),
          branch-executed true e,
          take_branch-pc (account_stage c) (branch_data op w d)
              ∙ ap (λ v. to_word (sign_extend16 v)) whole
              ∙ target,
        )

  -- A branch goes to the address that the parser wrote into its word. Of the words that the parser builds for
  -- BEQ and BNE, two register numbers and an address below 2 ^ 15, decoded and executed on registers
  -- that hold 32-bit words, BEQ sets the PC to the address if the two registers are equal, and BNE if
  -- they are not; otherwise they count the stage and nothing else.
  pub execute-branch :
      (d : InstructionData) (address : ℕ)
      → registers c (gpr rs) < u32_mod
      → registers c (gpr rt) < u32_mod
      → address < 32768
      → let beq_run = execute c (decoded (branch_word 4 rs rt address) d) in
        let bne_run = execute c (decoded (branch_word 5 rs rt address) d) in
        (registers c (gpr rs) ≡ registers c (gpr rt)
          → Taken beq_run address × (bne_run ≡ some (account_stage c)))
        × (registers c (gpr rs) ≢ registers c (gpr rt)
            → (beq_run ≡ some (account_stage c)) × Taken bne_run address)
  unfolding identify_code jumps
  execute-branch d address ha hb near =
      let a : ℕ = registers c (gpr rs) in
      let b : ℕ = registers c (gpr rt) in
      let (same, differ, _, _, _, _) = calculate-Decides a b ha hb in
      (
        λ equal. (
          branch-Taken d 4 address beq (omega arith) (omega arith) (λ f. refl) refl
              (decided-yes (alu_result Alu.beq a b) same equal) near,
          branch-executed d 5 address bne (omega arith) (omega arith) (λ f. refl) refl false
              (decided-no (alu_result Alu.bne a b) differ (λ n. n equal)),
        ),
        λ apart. (
          branch-executed d 4 address beq (omega arith) (omega arith) (λ f. refl) refl false
              (decided-no (alu_result Alu.beq a b) same apart),
          branch-Taken d 5 address bne (omega arith) (omega arith) (λ f. refl) refl
              (decided-yes (alu_result Alu.bne a b) differ apart) near,
        ),
      )
