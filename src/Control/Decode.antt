-- ===== src/Control/Decode.antt =====
-- `Identificacao_instrucao` and `Decode` of src/cpu/CONTROL_UNIT.cpp. The text `op` of the source is a
-- constructor of `Op`, with `nop` for the empty text.
use multicore_simulator.Prelude.{
  ℕ, Bool, true, false, List, [], ◌∷◌, ◌+◌, ◌-◌, ◌/◌, ◌%◌, ◌==◌, leb, if◌then◌else◌, ◌&&◌, ◌||◌,
  not, u32_mod, length, get_or,
}
use multicore_simulator.Prelude.Int.{ℤ, pos}
use multicore_simulator.Cpu.Mapper.{same_code}
use multicore_simulator.Cpu.Registers.{RegisterBank, pc, ir, write}
use multicore_simulator.Control.Bits.{
  sign_extend16, to_bin_str, imm_field, get_immediate, get_destination_register,
  get_target_register, get_source_register,
}

pub data Op : Type 0 where
  nop bubble add sub mult div j jal beq bne addi addiu lui andi slti lw sw li la print end : Op
  bgt blt bgti blti : Op

pub record InstructionData : Type 0 where
  pub source_register : List ℕ
  pub target_register : List ℕ
  pub destination_register : List ℕ
  pub op : Op
  pub address_ram_result : List ℕ
  pub raw_instruction : ℕ
  pub immediate : ℤ

-- Instruction_Data data;
abbrev pub empty_instruction : InstructionData
empty_instruction = record {
  source_register = [];
  target_register = [];
  destination_register = [];
  op = nop;
  address_ram_result = [];
  raw_instruction = 0;
  immediate = pos 0;
}

-- The function codes of opcode 0.
unfoldable pub identify_r_type : ℕ → Op
identify_r_type funct =
    if funct == 0x20
    then add
    else (if funct == 0x22
        then sub
        else (if funct == 0x18 then mult else (if funct == 0x1a then div else nop)))

-- Identificacao_instrucao, by the opcode and the function code of the word.
unfoldable pub identify_code : ℕ → ℕ → Op
unfolding identify_r_type
identify_code opcode funct =
    if opcode == 0x00
    then identify_r_type funct
    else (if opcode == 0x02
        then j
        else (if opcode == 0x03
            then jal
            else (if opcode == 0x04
                then beq
                else (if opcode == 0x05
                    then bne
                    else (if opcode == 0x08
                        then addi
                        else (if opcode == 0x09
                            then addiu
                            else (if opcode == 0x0f
                                then lui
                                else (if opcode == 0x0c
                                    then andi
                                    else (if opcode == 0x0a
                                        then slti
                                        else (if opcode == 0x23
                                            then lw
                                            else (if opcode == 0x2b
                                                then sw
                                                else (if opcode == 0x0e
                                                    then li
                                                    else (if opcode == 0x10
                                                        then print
                                                        else (if opcode == 0x3f
                                                            then end
                                                            else (if opcode == 0x07
                                                            then bgt
                                                            else (if opcode == 0x01
                                                            then blt
                                                            else nop))))))))))))))))

unfoldable pub identify : ℕ → Op
unfolding identify_code
identify instruction = identify_code (instruction / 67108864 % 64) (instruction % 64)

-- The groups of texts that the stages test for.
unfoldable pub is_arithmetic : Op → Bool
is_arithmetic add = true
is_arithmetic sub = true
is_arithmetic mult = true
is_arithmetic div = true
is_arithmetic _ = false

unfoldable pub is_idle : Op → Bool
is_idle nop = true
is_idle bubble = true
is_idle _ = false

-- get_dest_reg_for_hazard
unfoldable pub get_dest_reg_for_hazard : InstructionData → List ℕ
get_dest_reg_for_hazard d = elim d.op [
  | add ↦ d.destination_register
  | sub ↦ d.destination_register
  | mult ↦ d.destination_register
  | div ↦ d.destination_register
  | addi ↦ d.target_register
  | addiu ↦ d.target_register
  | lw ↦ d.target_register
  | li ↦ d.target_register
  | lui ↦ d.target_register
  | slti ↦ d.target_register
  | la ↦ d.target_register
  | _ ↦ []
]

-- The branch of `Decode` for the operations with an immediate.
unfoldable pub decode_immediate : ℕ → InstructionData → InstructionData
decode_immediate instruction d = record d {
  source_register = get_source_register instruction;
  target_register = get_target_register instruction;
  address_ram_result = get_immediate instruction;
  immediate = sign_extend16 (imm_field instruction);
}

unfoldable pub decode_registers : ℕ → InstructionData → InstructionData
decode_registers instruction d = record d {
  source_register = get_source_register instruction;
  target_register = get_target_register instruction;
  destination_register = get_destination_register instruction;
}

unfoldable pub decode_jump : ℕ → InstructionData → InstructionData
decode_jump instruction d =
    let instr26 = instruction % 67108864 in
    record d { address_ram_result = to_bin_str instr26 26; immediate = pos instr26 }

-- The bit string of the immediate is all zero exactly when the immediate is 0.
unfoldable pub decode_print : ℕ → InstructionData → InstructionData
decode_print instruction d =
    let imm = imm_field instruction in
    if imm == 0
    then record d {
      target_register = get_target_register instruction;
      address_ram_result = [];
      immediate = pos 0;
    }
    else record d {
      target_register = get_target_register instruction;
      address_ram_result = get_immediate instruction;
      immediate = sign_extend16 imm;
    }

unfoldable pub decode_fields : Op → ℕ → InstructionData → InstructionData
decode_fields add i d = decode_registers i d
decode_fields sub i d = decode_registers i d
decode_fields mult i d = decode_registers i d
decode_fields div i d = decode_registers i d
decode_fields addi i d = decode_immediate i d
decode_fields addiu i d = decode_immediate i d
decode_fields li i d = decode_immediate i d
decode_fields lw i d = decode_immediate i d
decode_fields la i d = decode_immediate i d
decode_fields sw i d = decode_immediate i d
decode_fields bgti i d = decode_immediate i d
decode_fields blti i d = decode_immediate i d
decode_fields beq i d = decode_immediate i d
decode_fields bne i d = decode_immediate i d
decode_fields bgt i d = decode_immediate i d
decode_fields blt i d = decode_immediate i d
decode_fields slti i d = decode_immediate i d
decode_fields lui i d = decode_immediate i d
decode_fields j i d = decode_jump i d
decode_fields print i d = decode_print i d
decode_fields _ i d = d

-- read_reg1 and read_reg2
unfoldable pub read_registers : InstructionData → List ℕ × List ℕ
read_registers d = elim d.op [
  | add ↦ (d.source_register, d.target_register)
  | sub ↦ (d.source_register, d.target_register)
  | mult ↦ (d.source_register, d.target_register)
  | div ↦ (d.source_register, d.target_register)
  | beq ↦ (d.source_register, d.target_register)
  | bne ↦ (d.source_register, d.target_register)
  | bgt ↦ (d.source_register, d.target_register)
  | blt ↦ (d.source_register, d.target_register)
  | sw ↦ (d.source_register, d.target_register)
  | addi ↦ (d.source_register, [])
  | addiu ↦ (d.source_register, [])
  | lw ↦ (d.source_register, [])
  | slti ↦ (d.source_register, [])
  | print ↦ (d.target_register, [])
  | _ ↦ ([], [])
]

unfoldable pub is_empty_text : List ℕ → Bool
is_empty_text [] = true
is_empty_text (c ∷ rest) = false

-- "00000"
abbrev pub zero_code : List ℕ
zero_code = 48 ∷ 48 ∷ 48 ∷ 48 ∷ 48 ∷ []

-- Whether an older instruction is still to write a register that this one reads.
unfoldable pub conflicts : InstructionData → InstructionData → Bool
conflicts older d =
    let dest = get_dest_reg_for_hazard older in
    let reads = read_registers d in
    not (is_idle older.op)
    && (not (is_empty_text dest) && not (same_code dest zero_code))
    && ((not (is_empty_text reads.0) && same_code reads.0 dest)
        || (not (is_empty_text reads.1) && same_code reads.1 dest))

-- The instruction `distance` places before the last one, if there is one.
unfoldable pub hazard : List InstructionData → ℕ → InstructionData → Bool
hazard instructions distance d =
    if leb (distance + 1) (length instructions)
    then conflicts (get_or instructions (length instructions - 1 - distance) empty_instruction) d
    else false

-- The instruction as `Decode` leaves it, before the search for hazards.
unfoldable pub decoded : ℕ → InstructionData → InstructionData
decoded instruction d =
    let op = identify instruction in
    let named = record d { raw_instruction = instruction; op = op } in
    if is_idle op then named else decode_fields op instruction named

-- `registers.pc.write(registers.pc.read() - 4)` on a uint32_t
unfoldable pub step_back : RegisterBank → RegisterBank
step_back bank = write pc ((bank pc + u32_mod - 4) % u32_mod) bank

-- `Decode` of the instruction `d` of the list.
unfoldable pub decode :
    List InstructionData → RegisterBank → InstructionData → RegisterBank × InstructionData
decode instructions bank d =
    let d' = decoded (bank ir) d in
    if is_idle d'.op
    then (bank, d')
    else (if hazard instructions 1 d' || hazard instructions 2 d'
        then (step_back bank, record d' { op = bubble; raw_instruction = 0 })
        else (bank, d'))
