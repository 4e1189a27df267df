-- ===== src/Tests/Remembering.antt =====
-- Reads and writes of three processes of src/memory/MemoryManager.cpp over a memory of two frames.
use multicore_simulator.Prelude.{List, [], ◌∷◌, ◌≡◌, refl, arith}
use multicore_simulator.Process.{new_pcb}
use multicore_simulator.Memory.Manager.Ideal.{
  Call, reading, writing, run, ideal_run, new_pages, nothing_written,
}
use multicore_simulator.Memory.Manager.Ideal.Refines.{started, run-refines}

-- Processes 0 and 1 write to a word of their own with the same address; process 2 writes nothing.
abbrev calls : List Call
calls =
    writing 0 2 5
    ∷ writing 1 2 6
    ∷ reading 0 2
    ∷ reading 1 2
    ∷ writing 0 2 7
    ∷ reading 0 2
    ∷ reading 0 3
    ∷ reading 2 2
    ∷ []

run-refines_example : run calls (started 64 64 (λ p. new_pcb)) ≡ 5 ∷ 6 ∷ 7 ∷ 4294967295 ∷ 0 ∷ []
unfolding ideal_run nothing_written new_pages
run-refines_example =
    run-refines 64 64 (λ p. new_pcb) calls (omega arith) (omega arith) (λ p. refl) (omega arith)
      (omega arith)
