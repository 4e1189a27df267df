-- ===== src/Control/Execute.antt =====
-- The stages of src/cpu/CONTROL_UNIT.cpp other than Decode. `none` is an exception.
pub mod Run
pub mod Words
pub mod Coded
pub mod Keeps
pub mod Total
pub mod Loads
pub mod Branches
use multicore_simulator.Prelude.{
  ℕ, Bool, true, false, List, [], ◌∷◌, ◌++◌, String, Option, none, some, ◌+◌, ◌-◌, ◌*◌, ◌%◌, ◌==◌,
  ltb, leb, if◌then◌else◌, ◌&&◌, u32_mod, length, get_or, set, add64,
}
use multicore_simulator.Prelude.Int.{ℤ, pos, negsuc, ltb_ℤ}
use multicore_simulator.Process.{Pcb, State, blocked, modify}
use multicore_simulator.Cpu.Alu.{Operation, beq, bne, blt, bgt, new_alu, as_i32, to_word, calculate}
use multicore_simulator.Cpu.Alu
use multicore_simulator.Cpu.Registers.{
  RegisterBank, pc, mar, ir, write, read_register, write_register,
}
use multicore_simulator.Cpu.Mapper.{get_register_name}
use multicore_simulator.Cpu.Mapper.Table.{register_mapper}
use multicore_simulator.Memory.Manager.{System, on_process}
use multicore_simulator.Memory.Manager
use multicore_simulator.Control.Bits.{binary_string_to_uint}
use multicore_simulator.Control.Decode.{
  Op, bubble, add, sub, mult, div, j, beq as beq_op, bne as bne_op, addi, addiu, lui, slti, lw, sw,
  li, la, print, bgt as bgt_op, blt as blt_op, bgti as bgti_op, blti as blti_op, InstructionData,
  empty_instruction, is_idle, is_arithmetic, is_empty_text, decode,
}
use multicore_simulator.Control.Core.{
  ◌>>=◌, IoRequest, Core, registers, on_block, set_registers, account_stage, account_pipeline_cycle,
  instruction_at, name_of, register_value, assign,
}

abbrev pub alu_result : Operation → ℕ → ℕ → ℤ
alu_result op a b = (calculate (record new_alu { a = a; b = b; op = op })).result

-- The word that an operation with an immediate writes, if it is one of those that write.
unfoldable pub immediate_result : Op → ℕ → ℤ → Option ℕ
immediate_result addi val_rs imm = some (to_word (alu_result Alu.add val_rs (to_word imm)))
immediate_result addiu val_rs imm = some (to_word (alu_result Alu.add val_rs (to_word imm)))
immediate_result slti val_rs imm = some (if ltb_ℤ (as_i32 val_rs) imm then 1 else 0)
immediate_result lui val_rs imm = some (to_word imm % 65536 * 65536)
immediate_result li val_rs imm = some (to_word imm)
immediate_result _ val_rs imm = none

unfoldable pub assign_if : Core → List ℕ → Option ℕ → Option Core
unfolding assign
assign_if c code none = some c
assign_if c code (some value) = assign c code value

unfoldable pub execute_immediate_operation : Core → InstructionData → Option Core
unfolding immediate_result assign_if register_value
execute_immediate_operation c d = do
  val_rs ← register_value (registers c) d.source_register
  name_rt ← name_of d.target_register
  assign_if c d.target_register (immediate_result d.op val_rs d.immediate)

unfoldable pub arithmetic_result : Op → ℕ → ℕ → Option ℕ
arithmetic_result add a b = some (to_word (alu_result Alu.add a b))
arithmetic_result sub a b = some (to_word (alu_result Alu.sub a b))
arithmetic_result mult a b = some (to_word (alu_result Alu.mul a b))
arithmetic_result div a b = some (to_word (alu_result Alu.div a b))
arithmetic_result _ a b = none

unfoldable pub execute_aritmetic_operation : Core → InstructionData → Option Core
unfolding arithmetic_result assign_if register_value
execute_aritmetic_operation c d = do
  name_rd ← name_of d.destination_register
  val_rs ← register_value (registers c) d.source_register
  val_rt ← register_value (registers c) d.target_register
  assign_if c d.destination_register (arithmetic_result d.op val_rs val_rt)

-- A PRINT request, and what `printLock` makes of it.
unfoldable pub request_print : Core → ℕ → Core
request_print c value =
    let requested = record c {
      io_requests = c.io_requests ++ record { value = as_i32 value; process = c.process } ∷ [];
    } in
    if c.print_lock
    then record (on_block requested (λ p. record p { state = blocked })) { end_execution = true }
    else requested

unfoldable pub execute_operation : Core → InstructionData → Option Core
unfolding request_print register_value
execute_operation c d =
    if is_empty_text d.target_register
    then some c
    else (do value ← register_value (registers c) d.target_register; some (request_print c value))

abbrev pub is_one : ℤ → Bool
is_one (pos n) = n == 1
is_one (negsuc n) = false

-- Whether a branch is taken.
unfoldable pub jumps : Op → ℕ → ℕ → Bool
jumps beq_op a b = is_one (alu_result beq a b)
jumps bne_op a b = is_one (alu_result bne a b)
jumps j a b = true
jumps blt_op a b = is_one (alu_result blt a b)
jumps bgt_op a b = is_one (alu_result bgt a b)
jumps _ a b = false

-- `this->data[i].op = "BUBBLE"`
unfoldable pub make_bubble : List InstructionData → ℕ → List InstructionData
make_bubble instructions i =
    set instructions i (record (get_or instructions i empty_instruction) { op = bubble })

-- A taken branch: the new PC, a bubble for the instruction that was fetched last, and an empty IR.
unfoldable pub take_branch : Core → InstructionData → Core
unfolding make_bubble
take_branch c d =
    let flushed = record c {
      instructions =
          if leb 1 c.counter && ltb (c.counter - 1) (length c.instructions)
          then make_bubble c.instructions (c.counter - 1)
          else c.instructions;
    } in
    set_registers (write ir 0 (write pc (to_word d.immediate) (registers c))) flushed

unfoldable pub execute_loop_operation : Core → InstructionData → Option Core
unfolding jumps take_branch register_value
execute_loop_operation c d = do
  a ← register_value (registers c) d.source_register
  b ← register_value (registers c) d.target_register
  some (if jumps d.op a b then take_branch c d else c)

-- Which of its helpers `Execute` calls.
unfoldable pub dispatch : Op → Core → InstructionData → Option Core
unfolding execute_immediate_operation execute_aritmetic_operation execute_loop_operation
    execute_operation
dispatch addi c d = execute_immediate_operation c d
dispatch addiu c d = execute_immediate_operation c d
dispatch slti c d = execute_immediate_operation c d
dispatch lui c d = execute_immediate_operation c d
dispatch li c d = execute_immediate_operation c d
dispatch add c d = execute_aritmetic_operation c d
dispatch sub c d = execute_aritmetic_operation c d
dispatch mult c d = execute_aritmetic_operation c d
dispatch div c d = execute_aritmetic_operation c d
dispatch beq_op c d = execute_loop_operation c d
dispatch j c d = execute_loop_operation c d
dispatch bne_op c d = execute_loop_operation c d
dispatch bgt_op c d = execute_loop_operation c d
dispatch bgti_op c d = execute_loop_operation c d
dispatch blt_op c d = execute_loop_operation c d
dispatch blti_op c d = execute_loop_operation c d
dispatch print c d = execute_operation c d
dispatch _ c d = some c

unfoldable pub execute : Core → InstructionData → Option Core
unfolding dispatch
execute c d = dispatch d.op (account_stage c) d

-- `memManager.read(addr, process)`
abbrev pub load : Core → ℕ → Core × ℕ
load c address =
    let (system, value) = Manager.read c.system address c.process in
    (record c { system = system }, value)

unfoldable pub load_word : Core → InstructionData → Option Core
unfolding assign
load_word c d = do
  address ← binary_string_to_uint d.address_ram_result
  let (c', value) = load c address
  assign c' d.target_register value

unfoldable pub load_immediate : Core → InstructionData → Option Core
unfolding assign
load_immediate c d = do
  value ← binary_string_to_uint d.address_ram_result
  assign c d.target_register value

unfoldable pub print_word : Core → InstructionData → Option Core
unfolding request_print
print_word c d =
    if is_empty_text d.target_register
    then (do
      address ← binary_string_to_uint d.address_ram_result
      let (c', value) = load c address
      some (request_print c' value))
    else some c

unfoldable pub access : Op → Core → InstructionData → Option Core
unfolding load_word load_immediate print_word
access lw c d = load_word c d
access la c d = load_immediate c d
access li c d = load_immediate c d
access print c d = print_word c d
access _ c d = some c

-- Memory_Acess
unfoldable pub memory_acess : Core → InstructionData → Option Core
unfolding access name_of
memory_acess c d =
    let counted = account_stage c in
    if is_idle d.op
    then some counted
    else (do name_rt ← name_of d.target_register; access d.op counted d)

unfoldable pub store_word : Core → InstructionData → Option Core
unfolding register_value
store_word c d = do
  address ← binary_string_to_uint d.address_ram_result
  value ← register_value (registers c) d.target_register
  some (record c { system = Manager.write c.system address value c.process })

unfoldable pub write_back : Core → InstructionData → Option Core
unfolding store_word
write_back c d = elim d.op [ sw ↦ store_word (account_stage c) d | _ ↦ some (account_stage c) ]

abbrev pub end_sentinel : ℕ
end_sentinel = 0b11111100000000000000000000000000

-- The end of `Fetch`, with the word that was read.
unfoldable pub fetched : Core → ℕ → Core
fetched c instr =
    let bank = registers c in
    if instr == 0 && ltb 10000 (bank pc)
    then record c { end_program = true }
    else (if instr == end_sentinel
        then record c { end_program = true }
        else set_registers (write pc ((bank pc + 4) % u32_mod) bank) c)

unfoldable pub fetch : Core → Core
unfolding fetched
fetch c =
    let counted = account_stage c in
    let addressed = set_registers (write mar (registers c pc) (registers c)) counted in
    let (c', instr) = load addressed (registers addressed mar) in
    fetched (set_registers (write ir instr (registers c')) c') instr

-- `account_stage` and `UC.Decode(context.registers, UC.data[i])`
unfoldable pub decode_at : Core → ℕ → Core
decode_at c i =
    let counted = account_stage c in
    let (bank, d) = decode c.instructions (registers counted) (instruction_at c i) in
    set_registers bank (record counted { instructions = set c.instructions i d })
