-- ===== src/Control/Core.antt =====
-- The control unit of src/cpu/CONTROL_UNIT.hpp with the `ControlContext` of the call; the registers are
-- those of the process's block. `none` is an exception.
use multicore_simulator.Prelude.{ℕ, Bool, List, String, Option, none, some, get_or, add64}
use multicore_simulator.Prelude.Int.{ℤ}
use multicore_simulator.Process.{Pcb}
use multicore_simulator.Cpu.Registers.{RegisterBank, read_register, write_register}
use multicore_simulator.Cpu.Mapper.{get_register_name}
use multicore_simulator.Cpu.Mapper.Table.{register_mapper}
use multicore_simulator.Memory.Manager.{System, on_process}
use multicore_simulator.Control.Bits.{binary_string_to_uint}
use multicore_simulator.Control.Decode.{InstructionData, empty_instruction}

infixl 5 ◌>>=◌
abbrev pub ◌>>=◌ {ℓ κ} : {A : Type ℓ} {B : Type κ} → Option A → (A → Option B) → Option B
none >>= f = none
some a >>= f = f a

-- What the control unit fills in of an IORequest: the number of which `msg` is the text, and the
-- process.
pub record IoRequest : Type 0 where
  pub value : ℤ
  pub process : ℕ

pub record Core : Type 0 where
  pub instructions : List InstructionData
  pub system : System
  pub io_requests : List IoRequest
  pub print_lock : Bool
  pub process : ℕ
  pub counter : ℕ
  pub counter_for_end : ℕ
  pub end_program : Bool
  pub end_execution : Bool

abbrev pub registers : Core → RegisterBank
registers c = (c.system.processes c.process).reg_bank

-- A change of the process's own block.
abbrev pub on_block : Core → (Pcb → Pcb) → Core
on_block c f = record c { system = on_process c.system c.process f }

abbrev pub set_registers : RegisterBank → Core → Core
set_registers bank c = on_block c (λ p. record p { reg_bank = bank })

abbrev pub account_stage : Core → Core
account_stage c = on_block c (λ p. record p { stage_invocations = add64 p.stage_invocations 1 })

abbrev pub account_pipeline_cycle : Core → Core
account_pipeline_cycle c =
    on_block c (λ p. record p { pipeline_cycles = add64 p.pipeline_cycles 1 })

abbrev pub instruction_at : Core → ℕ → InstructionData
instruction_at c i = get_or c.instructions i empty_instruction

-- map.getRegisterName(binaryStringToUint(code))
unfoldable pub name_of : List ℕ → Option String
unfolding binary_string_to_uint get_register_name
name_of code = binary_string_to_uint code >>= get_register_name register_mapper

unfoldable pub register_value : RegisterBank → List ℕ → Option ℕ
unfolding name_of
register_value bank code = name_of code >>= read_register bank

-- `registers.writeRegister(name, value)` for the name of a code.
unfoldable pub assign : Core → List ℕ → ℕ → Option Core
unfolding name_of
assign c code value = do
  name ← name_of code
  bank ← write_register (registers c) name value
  some (set_registers bank c)
