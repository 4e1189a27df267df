-- ===== src/Pipeline/Rounds.antt =====
-- The rounds of `Core` of src/cpu/CONTROL_UNIT.cpp in a program of arithmetic instructions: what holds while
-- the pipeline is filled, and while it is emptied.
use multicore_simulator.Prelude.{
  ℕ, zero, suc, true, false, List, [], ◌∷◌, ◌++◌, ◌≡◌, ◌⊎◌, ◌≤◌, ◌<◌, ◌+◌, ◌-◌, ◌*◌, ◌==◌, ◌∙◌, inl,
  inr, refl, ap, arith, length, length-append, get_or,
}
use multicore_simulator.Cpu.Registers.{pc}
use multicore_simulator.Control.Decode.{InstructionData, empty_instruction}
use multicore_simulator.Control.Core.{Core, registers, instruction_at}
use multicore_simulator.Control.Execute.{fetch}
use multicore_simulator.Control.Execute.Run.{fetch_stage}
use multicore_simulator.Control.Execute.Run.Termination.{AllCoded-append_empty}
use multicore_simulator.Pipeline.Back.{Setting, Flow, Pending}
use multicore_simulator.Pipeline.Front.{Fetched, Next}
use multicore_simulator.Pipeline.Fetching.{fetch-Fetching}

-- The instruction that Fetch appends is the one that is read past the end.
pub instruction-append :
    (xs : List InstructionData) (i : ℕ)
    → get_or (xs ++ empty_instruction ∷ []) i empty_instruction ≡ get_or xs i empty_instruction
unfolding get_or
instruction-append [] zero = refl
instruction-append [] (suc i) = refl
instruction-append (x ∷ xs) zero = refl
instruction-append (x ∷ xs) (suc i) = instruction-append xs i

unfoldable pub grown : Core → Core
grown c = record c { instructions = c.instructions ++ empty_instruction ∷ [] }

module _ (g : Setting) where
  -- A core of which the stages before Fetch have been done.
  pub record Decoding (c : Core) (m p : ℕ) : Type 0 where
    pub flow : Flow g c m
    pub next : Next g c (c.counter - 1) m p
    pub begun : p ≡ 1 → 1 ≤ c.counter
    pub pc_next : registers c pc ≡ (m + p) * 4
    pub inside : m + p ≤ length g.program
    pub sized : length c.instructions ≡ c.counter

  -- The same after Fetch.
  pub record Filled (c : Core) (m p : ℕ) : Type 0 where
    pub flow : Flow g c m
    pub next : Next g c (c.counter - 1) m p
    pub begun : p ≡ 1 → 1 ≤ c.counter
    pub fetched : Fetched g c (m + p)
    pub sized : length c.instructions ≡ c.counter + 1
    pub full : c.counter_for_end ≡ 5

  pub fetch_stage-Filled :
      (c : Core) (m p : ℕ)
      → Decoding c m p
      → c.counter_for_end ≡ 5
      → c.end_program ≡ false
      → Filled (fetch_stage c) m p
  unfolding fetch_stage grown
  fetch_stage-Filled c m p h full going =
      let test : (c.counter_for_end == 5) ≡ true = ground (arith, full) in
      let k = fetch-Fetching g (grown c) (m + p) h.flow.own h.flow.served h.pc_next h.inside in
      let same : (i : ℕ) → instruction_at (fetch (grown c)) i ≡ instruction_at c i = λ i.
        ap (λ (xs : List InstructionData). get_or xs i empty_instruction) k.instructions
        ∙ instruction-append c.instructions i in
      rw test (record {
        flow = record {
          own = k.own ∙ h.flow.own;
          served = k.served;
          coded = rw k.instructions (AllCoded-append_empty c.instructions h.flow.coded);
          plain = λ i. rw (same i) (h.flow.plain i);
          agree = λ i. k.agree i ∙ h.flow.agree i;
        };
        next = rw (k.counter, same (c.counter - 1)) h.next;
        begun = λ e. rw k.counter (h.begun e);
        fetched = (k.word, kept k.next);
        sized =
            ap (λ (xs : List InstructionData). length xs) k.instructions
            ∙ length-append c.instructions (empty_instruction ∷ [])
            ∙ omega (arith, h.sized, k.counter);
        full = k.counter_for_end ∙ full;
      })
    where
      kept :
          (((m + p < length g.program)
              × (registers (fetch (grown c)) pc ≡ (m + p + 1) * 4)
              × ((fetch (grown c)).end_program ≡ c.end_program))
            ⊎ ((m + p ≡ length g.program)
                × (registers (fetch (grown c)) pc ≡ (m + p) * 4)
                × ((fetch (grown c)).end_program ≡ true)))
          → (((m + p < length g.program)
                × (registers (fetch (grown c)) pc ≡ (m + p + 1) * 4)
                × ((fetch (grown c)).end_program ≡ false))
              ⊎ ((m + p ≡ length g.program)
                  × (registers (fetch (grown c)) pc ≡ (m + p) * 4)
                  × ((fetch (grown c)).end_program ≡ true)))
      kept (inl (more, at_pc, e)) = inl (more, at_pc, e ∙ going)
      kept (inr done) = inr done

  -- A core at the head of the loop while the pipeline is filled, or in the first round after that.
  pub record Filling (c : Core) (n p : ℕ) : Type 0 where
    pub flow : Flow g c n
    pub pending : Pending g c n p
    pub fetched : Fetched g c (n + p)
    pub sized : length c.instructions ≡ c.counter
    pub begun : 1 ≤ c.counter
    pub pace :
        ((c.counter_for_end ≡ 5) × (c.end_program ≡ false))
        ⊎ ((c.counter_for_end ≡ 4) × (c.end_execution ≡ true))

  -- In the second.
  pub record Emptying (c : Core) (n p : ℕ) : Type 0 where
    pub flow : Flow g c n
    pub pending : Pending g c n p
    pub pc_next : registers c pc ≡ (n + p) * 4
    pub inside : n + p ≤ length g.program
    pub over : c.end_program ≡ true → n + p ≡ length g.program
    pub pace : c.counter_for_end ≡ 3
    pub stopping : c.end_execution ≡ true

  -- Later: the PC is at the first instruction that has not been executed.
  pub record Emptied (c : Core) (n : ℕ) : Type 0 where
    pub flow : Flow g c n
    pub pc_next : registers c pc ≡ n * 4
    pub inside : n ≤ length g.program
    pub over : c.end_program ≡ true → n ≡ length g.program
    pub pace : c.counter_for_end < 3
    pub stopping : c.end_execution ≡ true
