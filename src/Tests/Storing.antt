-- ===== src/Tests/Storing.antt =====
-- SW of a register that the next instruction changes, in the pipeline of src/cpu/CONTROL_UNIT.cpp.
use multicore_simulator.Prelude.{zero, suc, true, List, [], ◌∷◌, some, ◌≡◌, refl, arith, get_or}
use multicore_simulator.Process.{new_pcb}
use multicore_simulator.Memory.Manager.{System, new_memory_manager, write}
use multicore_simulator.Control.Decode.{InstructionData, empty_instruction, decoded}
use multicore_simulator.Control.Core.{Core}
use multicore_simulator.Control.Execute.Coded.{empty_instruction-Coded, decoded-Coded}
use multicore_simulator.Control.Execute.Keeps.{AllCoded}
use multicore_simulator.Control.Execute.Run.{new_core, stages, write_back_stage, end_round}
use multicore_simulator.Pipeline.Stored.{sw_word, add_word, stages-write_back_stage}

-- SW $t0 to address 16, then ADD $t0, $t1, $t2, where every register holds 7.
abbrev in_pipeline : List InstructionData
in_pipeline =
    decoded (sw_word 0 8 16) empty_instruction
    ∷ decoded (add_word 9 10 8) empty_instruction
    ∷ empty_instruction
    ∷ []

abbrev core : Core
core =
    record (new_core
      (record {
        memory = new_memory_manager 64 64;
        processes = λ p. record new_pcb { quantum = 20; reg_bank = λ r. 7 };
      })
      3 [] true) { instructions = in_pipeline; counter = 3 }

in_pipeline-AllCoded : AllCoded in_pipeline
unfolding get_or
in_pipeline-AllCoded zero = decoded-Coded _ empty_instruction empty_instruction-Coded
in_pipeline-AllCoded (suc zero) = decoded-Coded _ empty_instruction empty_instruction-Coded
in_pipeline-AllCoded (suc (suc zero)) = empty_instruction-Coded
in_pipeline-AllCoded (suc (suc (suc i))) = empty_instruction-Coded

stages-write_back_stage_example :
    (c' : Core) × (stages core ≡ some c')
    × ((e : Core) × (s : System) × (write_back_stage (end_round 4 c') ≡ some e)
        × (e.system ≡ write s 16 14 3))
unfolding new_core get_or
stages-write_back_stage_example =
    stages-write_back_stage core 4 0 8 16 9 10 empty_instruction empty_instruction (omega arith)
      (omega arith) (omega arith) (omega arith) (omega arith) (omega arith) in_pipeline-AllCoded
      (omega arith) (omega arith) refl refl (omega arith) (omega arith)
