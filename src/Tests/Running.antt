-- ===== src/Tests/Running.antt =====
-- The properties of `Core` and of the stages of src/cpu/CONTROL_UNIT.cpp on a machine with two frames.
use multicore_simulator.Prelude.{true, [], ◌∷◌, some, ◌≡◌, arith}
use multicore_simulator.Process.{new_pcb}
use multicore_simulator.Memory.Manager.{System, new_memory_manager}
use multicore_simulator.Control.Decode.{empty_instruction, decoded}
use multicore_simulator.Control.Core.{Core}
use multicore_simulator.Control.Execute.{execute, memory_acess}
use multicore_simulator.Control.Execute.Run.{new_core, run_core}
use multicore_simulator.Control.Execute.Run.Termination.{run_core-ends}
use multicore_simulator.Control.Execute.Words.{executed, execute-decoded}
use multicore_simulator.Control.Execute.Loads.{memory_acess-base}
use multicore_simulator.Parser.Encode.{build_binary_instruction}

-- Every register of every process holds 7, and the quantum is 2.
abbrev sevens : System
sevens = record {
  memory = new_memory_manager 64 64;
  processes = λ p. record new_pcb { quantum = 2; reg_bank = λ r. 7 };
}

abbrev core : Core
core = record (new_core sevens 3 [] true) { instructions = empty_instruction ∷ [] }

run_core-ends_example :
    (c : Core) × (run_core 8 sevens 3 [] true ≡ some c) × (c.counter_for_end ≡ 0)
run_core-ends_example = run_core-ends 8 sevens 3 [] true (omega arith)

execute-decoded_example :
    (execute core (decoded (build_binary_instruction 0 8 9 10 0 0x20 0 0) empty_instruction)
      ≡ some (executed core 10 14))
    × (execute core (decoded (build_binary_instruction 0 8 9 10 0 0x22 0 0) empty_instruction)
        ≡ some (executed core 10 0))
    × (execute core (decoded (build_binary_instruction 0 8 9 10 0 0x18 0 0) empty_instruction)
        ≡ some (executed core 10 49))
unfolding new_core
execute-decoded_example =
    execute-decoded core 8 9 10 (omega arith) (omega arith) (omega arith) empty_instruction 0
      (omega arith) (omega arith)

memory_acess-base_example :
    memory_acess core (decoded (build_binary_instruction 35 8 9 0 0 0 16 0) empty_instruction)
    ≡ memory_acess core (decoded (build_binary_instruction 35 29 9 0 0 0 16 0) empty_instruction)
memory_acess-base_example =
    memory_acess-base core empty_instruction 8 29 9 16 (omega arith) (omega arith) (omega arith)
