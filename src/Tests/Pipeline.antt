-- ===== src/Tests/Pipeline.antt =====
-- A program of two instructions, of which the second waits for the first, in the pipeline of
-- src/cpu/CONTROL_UNIT.cpp.
use multicore_simulator.Prelude.{
  ℕ, zero, suc, true, List, [], ◌∷◌, some, ◌≡◌, ◌<◌, ◌∙◌, refl, ap, arith, length, get_or,
  replicate,
}
use multicore_simulator.Process.{Processes, finished, new_pcb}
use multicore_simulator.Cpu.Registers.{
  RegisterBank, pc, t0, t1, write as write_register, position, new_register_bank,
}
use multicore_simulator.Memory.Manager.{System, write, new_memory_manager}
use multicore_simulator.Memory.Manager.Quantum.{state_of, bank_of, quantum_of, write-Same}
use multicore_simulator.Memory.Manager.Ideal.{
  Ideal, nothing_written, ideal_write, touch, assign, free_frames,
}
use multicore_simulator.Memory.Manager.Ideal.Frame.{Simulates}
use multicore_simulator.Memory.Manager.Ideal.Refines.{started, started-Simulates, write-room}
use multicore_simulator.Control.Core.{Core}
use multicore_simulator.Control.Decode.{identify, is_arithmetic}
use multicore_simulator.Control.Execute.{end_sentinel}
use multicore_simulator.Control.Execute.Run.{run_core}
use multicore_simulator.Pipeline.{after, word_at}
use multicore_simulator.Pipeline.Back.{AllArithmetic}
use multicore_simulator.Pipeline.Loaded.{IsLoaded, StandsAt, run_core-after}

-- ADD $t2, $t0, $t1 and SUB $t3, $t2, $t0.
abbrev program : List ℕ
program = 17387552 ∷ 21518370 ∷ []

processes : Processes
processes p = record new_pcb {
  quantum = 20;
  reg_bank = write_register t0 5 (write_register t1 7 new_register_bank);
}

abbrev first_word : System
first_word = write (started 128 128 processes) 0 17387552 3

abbrev second_word : System
second_word = write first_word 4 21518370 3

abbrev loaded : System
loaded = write second_word 8 end_sentinel 3

abbrev one_word : Ideal
one_word = ideal_write 3 0 17387552 nothing_written

abbrev two_words : Ideal
two_words = ideal_write 3 1 21518370 one_word

abbrev memory : Ideal
memory = ideal_write 3 2 end_sentinel two_words

loaded-Simulates : Simulates loaded memory
unfolding processes ideal_write touch assign nothing_written new_memory_manager free_frames
    replicate
loaded-Simulates =
    let begun = started-Simulates 128 128 processes (omega arith) (omega arith) (λ p. refl) in
    let (one, _) =
      write-room (started 128 128 processes) nothing_written 3 0 17387552 0 begun (omega arith)
        (λ e. omega (arith, e)) (omega arith) in
    let (two, _) =
      write-room first_word one_word 3 1 21518370 0 one (omega arith) (λ e. omega (arith, e))
        (omega arith) in
    (write-room second_word two_words 3 2 end_sentinel 0 two (omega arith) (λ e. omega (arith, e))
      (omega arith)).0

program-IsLoaded : IsLoaded memory 3 program
unfolding ideal_write touch assign nothing_written get_or
program-IsLoaded zero low = (refl, refl)
program-IsLoaded (suc zero) low = (refl, refl)
program-IsLoaded (suc (suc zero)) low = (refl, refl)
program-IsLoaded (suc (suc (suc i))) low = absurd (omega (arith, low))

program-AllArithmetic : AllArithmetic program
unfolding get_or identify is_arithmetic
program-AllArithmetic = record { words = words; small = omega arith }
  where
    words : (i : ℕ) → i < 2 → is_arithmetic (identify (word_at program i)) ≡ true
    words zero low = refl
    words (suc zero) low = refl
    words (suc (suc i)) low = absurd (omega (arith, low))

-- The writes leave the process's block.
same_block :
    (quantum_of loaded 3 ≡ quantum_of (started 128 128 processes) 3)
    × (bank_of loaded 3 ≡ bank_of (started 128 128 processes) 3)
same_block =
    let (q1, _, b1) = write-Same (started 128 128 processes) 0 17387552 3 3 in
    let (q2, _, b2) = write-Same first_word 4 21518370 3 3 in
    let (q3, _, b3) = write-Same second_word 8 end_sentinel 3 3 in (q3 ∙ q2 ∙ q1, b3 ∙ b2 ∙ b1)

loaded-StandsAt : StandsAt loaded memory 3 program (bank_of loaded 3) 0
unfolding after processes write_register new_register_bank position
loaded-StandsAt = record {
  memory = loaded-Simulates;
  agree = λ i. refl;
  at_pc = ap (λ (b : RegisterBank). b pc) same_block.1;
  inside = omega arith;
}

run_core-after_example :
    (c : Core) × (k : ℕ) × (run_core 30 loaded 3 [] true ≡ some c)
    × StandsAt c.system memory 3 program (bank_of loaded 3) k
    × (0 < length program → 0 < k)
    × (zero ≡ length program → c.end_program ≡ true)
    × (c.end_program ≡ true → (k ≡ length program) × (state_of c.system 3 ≡ finished))
unfolding processes
run_core-after_example =
    run_core-after loaded memory 3 program (bank_of loaded 3) 0 30 [] true program-IsLoaded
      program-AllArithmetic loaded-StandsAt (omega (arith, same_block.0))
