-- ===== src/Tests/Ending.antt =====
-- A branch right ahead of the end word, in `Core` of src/cpu/CONTROL_UNIT.cpp.
use multicore_simulator.Prelude.{
  ℕ, [], ◌∷◌, Option, none, some, ◌≡◌, refl, arith, length, get_or, set, replicate, true,
}
use multicore_simulator.Prelude.Assoc.{nat_eq}
use multicore_simulator.Process.{State, finished, new_pcb, modify, contabiliza_cache}
use multicore_simulator.Cpu.Registers.{
  pc, ir, write as write_bank, position, new_register_bank, read_register,
}
use multicore_simulator.Cpu.Alu.{calculate, compute, as_i32, to_word}
use multicore_simulator.Cpu.Mapper.Table.{register_mapper}
use multicore_simulator.Control.Bits.{get_source_register, get_target_register, sign_extend16}
use multicore_simulator.Memory.Cache.{get, put, new_cache}
use multicore_simulator.Memory.Manager.Quantum.{state_of}
use multicore_simulator.Memory.Manager.{
  System, new_memory_manager, read, write, translate_address, translate_page, translate_miss,
  allocate_frame, first_free, own_frame, map_page, read_physical, write_physical, write_memory,
  write_to_file, put_cached, count_write, count_read, charge_primary, charge_cache,
}
use multicore_simulator.Control.Decode.{
  empty_instruction, decode, decode_fields, decode_immediate, decoded, hazard, identify, is_idle,
}
use multicore_simulator.Control.Core.{Core, registers}
use multicore_simulator.Control.Execute.{
  end_sentinel, decode_at, execute, fetch, memory_acess, write_back,
}
use multicore_simulator.Control.Execute.Coded.{empty_instruction-Coded}
use multicore_simulator.Control.Execute.Run.{
  new_core, stages, rounds, finish, run_core, fetch_stage, decode_stage,
}
use multicore_simulator.Control.Execute.Run.Termination.{AllCoded-append_empty}
use multicore_simulator.Control.Execute.Run.Ending.{rounds-ended}

-- BEQ $zero, $zero, 0 and the end word, at address 0 of process 3.
abbrev loop_word : ℕ
loop_word = 268435456

abbrev looping : System
looping =
    let s : System = record {
      memory = new_memory_manager 128 128;
      processes = λ p. record new_pcb { quantum = 20 };
    } in
    write (write s 0 loop_word 3) 4 end_sentinel 3

abbrev outcome : Option Core → Option (State × ℕ)
outcome none = none
outcome (some c) = some (state_of c.system c.process, registers c pc)

-- The program branches to itself for ever; Core takes the branch once, and ends the process.
loop-ends : outcome (run_core 26 looping 3 [] true) ≡ some (finished, 0)
unfolding run_core execute decode_at decode decoded decode_fields identify is_idle hazard
    memory_acess write_back fetch position write_bank get put new_cache new_memory_manager
    first_free own_frame allocate_frame map_page translate_miss translate_page translate_address
    write_to_file put_cached count_read count_write charge_cache charge_primary read_physical read
    write write_memory write_physical contabiliza_cache get_or set replicate modify
    new_register_bank decode_immediate get_source_register read_register register_mapper
    get_target_register calculate compute as_i32 to_word sign_extend16
loop-ends = refl

-- The branch has been fetched.
abbrev core : Core
core =
    let bank = (looping.processes 3).reg_bank in
    record (new_core
      (record looping {
        processes = λ p. record new_pcb {
          quantum = 20;
          reg_bank = write_bank ir loop_word (write_bank pc 4 bank);
          page_table = (looping.processes p).page_table;
        };
      })
      3 [] true) { instructions = empty_instruction ∷ []; counter = 1 }

fetched_end : (fetch_stage (decode_stage core)).end_program ≡ true
unfolding stages execute decode_at decode decoded decode_fields identify is_idle hazard fetch_stage
    decode_stage new_core memory_acess write_back fetch position write_bank get put new_cache
    new_memory_manager first_free own_frame allocate_frame map_page translate_miss translate_page
    translate_address write_to_file put_cached count_read count_write charge_cache charge_primary
    read_physical read write write_memory write_physical contabiliza_cache get_or set replicate
    modify decode_immediate
fetched_end = refl

rounds-ended_example :
    (last : Core) × (rounds 6 1 core ≡ some last)
    × (length last.instructions ≡ 2)
    × (state_of (finish last).system 3 ≡ finished)
unfolding new_core stages get_or
rounds-ended_example =
    rounds-ended 6 1 core (fetch_stage (decode_stage core))
      (AllCoded-append_empty [] (λ i. empty_instruction-Coded)) refl refl fetched_end (omega arith)
