-- ===== src/Pipeline/Loaded.antt =====
-- A program of arithmetic instructions in the memory of src/memory/MemoryManager.cpp, run by `Core` of
-- src/cpu/CONTROL_UNIT.cpp.
use multicore_simulator.Prelude.{
  ℕ, Bool, true, List, some, ◌≡◌, ◌≤◌, ◌<◌, ◌+◌, ◌*◌, ◌/◌, ◌∙◌, refl, length,
}
use multicore_simulator.Process.{finished}
use multicore_simulator.Cpu.Registers.{RegisterBank, pc}
use multicore_simulator.Memory.Manager.{System, words_per_page}
use multicore_simulator.Memory.Manager.Quiet.{Quiet-on_process}
use multicore_simulator.Memory.Manager.Quantum.{quantum_of, state_of, bank_of}
use multicore_simulator.Memory.Manager.Ideal.{Ideal}
use multicore_simulator.Memory.Manager.Ideal.Frame.{Simulates, Quiet-Simulates}
use multicore_simulator.Memory.Manager.Ideal.Refines.{read-old}
use multicore_simulator.Control.Core.{Core, IoRequest}
use multicore_simulator.Control.Execute.Run.{run_core}
use multicore_simulator.Pipeline.{word_at, after, Agree}
use multicore_simulator.Pipeline.Back.{Setting, Serves, AllArithmetic}
use multicore_simulator.Pipeline.Turn.{run_core-Left}

-- The program and its end word are the first words of the process.
abbrev pub IsLoaded : Ideal → ℕ → List ℕ → Type 0
IsLoaded m process program =
    (i : ℕ)
    → i ≤ length program
    → (m.pages process (i / words_per_page) ≡ true) × (m.words process i ≡ word_at program i)

-- The process has executed the first words of its program, from the registers of a bank, and the PC is at
-- the next.
pub record StandsAt (s : System) (m : Ideal) (process : ℕ) (program : List ℕ) (bank : RegisterBank)
    (n : ℕ) : Type 0 where
  pub memory : Simulates s m
  pub agree : Agree (bank_of s process) (after program n bank)
  pub at_pc : bank_of s process pc ≡ n * 4
  pub inside : n ≤ length program

Simulates-Serves :
    (m : Ideal) (process : ℕ) (program : List ℕ)
    → IsLoaded m process program
    → Serves process program (λ s. Simulates s m)
Simulates-Serves m process program loaded = record {
  blocks =
      λ s q f keep h. Quiet-Simulates s _ m (Quiet-on_process s q f keep) h.coherent (λ i. refl) h;
  reads = λ s i low h.
      let (written, word) = loaded i low in
      let (after_read, answer, _) = read-old s m process i h written in (after_read, answer ∙ word);
}

-- The pipeline runs a program as its words one after the other, whatever the quantum. Take a program of
-- ADD, SUB, MULT and DIV words with its end word behind it, from address 0 of a process, in a system whose
-- memory answers as an ideal memory that holds it; the program is short enough for 32-bit addresses. If the
-- process has executed the first n words, so that its general registers are those that the words leave when
-- each is performed on the registers that the one before has left, and its PC is at the next word, then a
-- call of Core on fuel above the quantum and five returns with the process in the same position for some
-- number of words and the memory as it was. The number is greater, if a word was left; if none was left, the
-- end word is fetched; and if it is fetched, all words have been executed and the process is finished.
pub run_core-after :
    (s : System) (m : Ideal) (process : ℕ) (program : List ℕ) (bank : RegisterBank) (n fuel : ℕ)
    (requests : List IoRequest) (print_lock : Bool)
    → IsLoaded m process program
    → AllArithmetic program
    → StandsAt s m process program bank n
    → quantum_of s process + 5 < fuel
    → (c : Core) × (k : ℕ) × (run_core fuel s process requests print_lock ≡ some c)
      × StandsAt c.system m process program bank k
      × (n < length program → n < k)
      × (n ≡ length program → c.end_program ≡ true)
      × (c.end_program ≡ true → (k ≡ length program) × (state_of c.system process ≡ finished))
run_core-after s m process program bank n fuel requests print_lock loaded arithmetic h enough =
    let g : Setting = record {
      process = process;
      program = program;
      in_memory = λ t. Simulates t m;
      serves = Simulates-Serves m process program loaded;
      arithmetic = arithmetic;
      bank = bank;
    } in
    let (c, k, e, left) =
      run_core-Left g s requests print_lock n
        (record { served = h.memory; agree = h.agree; at_pc = h.at_pc; inside = h.inside }) fuel
        enough in
    (
      c,
      k,
      e,
      record {
        memory = left.stands.served;
        agree = left.stands.agree;
        at_pc = left.stands.at_pc;
        inside = left.stands.inside;
      },
      left.further,
      left.ends,
      left.over,
    )
