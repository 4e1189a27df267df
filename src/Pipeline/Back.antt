-- ===== src/Pipeline/Back.antt =====
-- Write_Back, Memory_Acess and Execute of a round of src/cpu/CONTROL_UNIT.cpp in a program of arithmetic
-- instructions.
use multicore_simulator.Prelude.{
  ℕ, suc, true, false, List, some, ◌≡◌, ◌⊎◌, ◌≤◌, ◌<◌, ◌+◌, ◌-◌, ◌*◌, ◌∙◌, Option, u32_mod, ◌&&◌,
  inl, inr, refl, ap, arith, leb, Bool-cases, length, ==_refl, subst,
}
use multicore_simulator.Process.{Pcb, modify}
use multicore_simulator.Cpu.Registers.{RegisterBank, Register, pc, ir, position}
use multicore_simulator.Memory.Manager.{System, on_process, read}
use multicore_simulator.Control.Decode.{InstructionData, decoded, identify, is_arithmetic}
use multicore_simulator.Control.Core.{Core, registers, account_stage, set_registers, instruction_at}
use multicore_simulator.Control.Execute.Words.{registers-account_stage}
use multicore_simulator.Control.Execute.Keeps.{AllCoded}
use multicore_simulator.Control.Execute.Run.{
  write_back_stage, memory_stage, execute_stage, decode_stage, fetch_stage, stages,
}
use multicore_simulator.Pipeline.{word_at, after, Agree, perform, perform-Agree, perform-low}
use multicore_simulator.Pipeline.Plain.{
  is_plain, write_back-plain, memory_acess-plain, execute-plain, execute-word,
}

-- A set of systems that the calls of a process for the words of its program do not leave, and in which they
-- answer those words.
pub record Serves (process : ℕ) (program : List ℕ) (P : System → Type 0) : Type 0 where
  pub blocks :
      (s : System) (q : ℕ) (f : Pcb → Pcb)
      → ((b : Pcb) → (f b).page_table ≡ b.page_table)
      → P s
      → P (on_process s q f)
  pub reads :
      (s : System) (i : ℕ)
      → i ≤ length program
      → P s
      → P (read s (i * 4) process).0 × ((read s (i * 4) process).1 ≡ word_at program i)

-- Every word of the program is an arithmetic one, and has an address.
pub record AllArithmetic (program : List ℕ) : Type 0 where
  pub words : (i : ℕ) → i < length program → is_arithmetic (identify (word_at program i)) ≡ true
  pub small : length program * 4 + 4 < u32_mod

pub registers-set_registers :
    (c : Core) (bank : RegisterBank) → registers (set_registers bank c) ≡ bank
unfolding modify
registers-set_registers c bank = rw (==_refl c.process, registers) refl

-- A process with its program, the systems that hold it, and the registers that it starts with.
pub record Setting : Type 1 where
  pub process : ℕ
  pub program : List ℕ
  pub in_memory : System → Type 0
  pub serves : Serves process program in_memory
  pub arithmetic : AllArithmetic program
  pub bank : RegisterBank

module _ (g : Setting) where
  -- The first words have been executed.
  pub record Flow (c : Core) (n : ℕ) : Type 0 where
    pub own : c.process ≡ g.process
    pub served : g.in_memory c.system
    pub coded : AllCoded c.instructions
    pub plain : (i : ℕ) → is_plain (instruction_at c i).op ≡ true
    pub agree : Agree (registers c) (after g.program n g.bank)

  -- The instruction that Execute has next is the one behind them, or not arithmetic.
  abbrev pub Pending : Core → ℕ → ℕ → Type 0
  Pending c n p =
      ((p ≡ 0) × (is_arithmetic (instruction_at c (c.counter - 2)).op ≡ false))
      ⊎ ((p ≡ 1)
          × (2 ≤ c.counter)
          × (n < length g.program)
          × ((d : InstructionData) × (instruction_at c (c.counter - 2)
                ≡ decoded (word_at g.program n) d)))

  -- What the three stages do to a core.
  pub record Back (c c' : Core) (n m : ℕ) : Type 0 where
    pub process_kept : c'.process ≡ c.process
    pub instructions : c'.instructions ≡ c.instructions
    pub counter : c'.counter ≡ c.counter
    pub counter_for_end : c'.counter_for_end ≡ c.counter_for_end
    pub end_program : c'.end_program ≡ c.end_program
    pub end_execution : c'.end_execution ≡ c.end_execution
    pub served : g.in_memory c.system → g.in_memory c'.system
    pub pc_kept : registers c' pc ≡ registers c pc
    pub ir_kept : registers c' ir ≡ registers c ir
    pub agree :
        Agree (registers c) (after g.program n g.bank)
        → Agree (registers c') (after g.program m g.bank)

  Back-refl : (c : Core) (n : ℕ) → Back c c n n
  Back-refl c n = record {
    process_kept = refl;
    instructions = refl;
    counter = refl;
    counter_for_end = refl;
    end_program = refl;
    end_execution = refl;
    served = λ h. h;
    pc_kept = refl;
    ir_kept = refl;
    agree = λ h. h;
  }

  pub Back-trans : (a b c : Core) (n m k : ℕ) → Back a b n m → Back b c m k → Back a c n k
  Back-trans a b c n m k h g = record {
    process_kept = g.process_kept ∙ h.process_kept;
    instructions = g.instructions ∙ h.instructions;
    counter = g.counter ∙ h.counter;
    counter_for_end = g.counter_for_end ∙ h.counter_for_end;
    end_program = g.end_program ∙ h.end_program;
    end_execution = g.end_execution ∙ h.end_execution;
    served = λ x. g.served (h.served x);
    pc_kept = g.pc_kept ∙ h.pc_kept;
    ir_kept = g.ir_kept ∙ h.ir_kept;
    agree = λ x. g.agree (h.agree x);
  }

  account_stage-Back : (c : Core) (n : ℕ) → Back c (account_stage c) n n
  account_stage-Back c n = record {
    process_kept = refl;
    instructions = refl;
    counter = refl;
    counter_for_end = refl;
    end_program = refl;
    end_execution = refl;
    served = g.serves.blocks c.system c.process _ (λ b. refl);
    pc_kept = ap (λ (b : RegisterBank). b pc) (registers-account_stage c);
    ir_kept = ap (λ (b : RegisterBank). b ir) (registers-account_stage c);
    agree = λ h. rw (registers-account_stage c) h;
  }

  pub Back-Flow : (c c' : Core) (n m : ℕ) → Back c c' n m → Flow c n → Flow c' m
  Back-Flow c c' n m k h = record {
    own = k.process_kept ∙ h.own;
    served = k.served h.served;
    coded = rw k.instructions h.coded;
    plain = rw k.instructions h.plain;
    agree = k.agree h.agree;
  }

  abbrev Reaches : Core → Option Core → ℕ → ℕ → Type 0
  Reaches c o n m = (c' : Core) × (o ≡ some c') × Back c c' n m

  write_back_stage-Reaches : (c : Core) (n : ℕ) → Flow c n → Reaches c (write_back_stage c) n n
  unfolding write_back_stage
  write_back_stage-Reaches c n h = elim (Bool-cases (leb 4 c.counter && leb 1 c.counter_for_end)) [
    | inl e ↦
        rw e
          (account_stage c, write_back-plain c _ (h.plain (c.counter - 4)), account_stage-Back c n)
    | inr e ↦ rw e (c, refl, Back-refl c n)
  ]

  memory_stage-Reaches : (c : Core) (n : ℕ) → Flow c n → Reaches c (memory_stage c) n n
  unfolding memory_stage
  memory_stage-Reaches c n h = elim (Bool-cases (leb 3 c.counter && leb 2 c.counter_for_end)) [
    | inl e ↦ rw e (
      account_stage c,
      memory_acess-plain c _ (h.coded (c.counter - 3)) (h.plain (c.counter - 3)),
      account_stage-Back c n,
    )
    | inr e ↦ rw e (c, refl, Back-refl c n)
  ]

  -- The word is performed.
  performed : Core → ℕ → Core
  performed c n = set_registers (perform (word_at g.program n) (registers c)) (account_stage c)

  performed-Back : (c : Core) (n : ℕ) → Back c (performed c n) n (suc n)
  unfolding performed after position
  performed-Back c n =
      let bank' : RegisterBank = perform (word_at g.program n) (registers c) in
      let now : registers (performed c n) ≡ bank' =
        registers-set_registers (account_stage c) bank' in
      let low : (r : Register) → position r < 8 → registers (performed c n) r ≡ registers c r =
        λ r below.
          ap (λ (b : RegisterBank). b r) now
          ∙ perform-low (word_at g.program n) (registers c) r below in
      record {
        process_kept = refl;
        instructions = refl;
        counter = refl;
        counter_for_end = refl;
        end_program = refl;
        end_execution = refl;
        served = λ h.
            g.serves.blocks (account_stage c).system c.process _ (λ b. refl)
              (g.serves.blocks c.system c.process _ (λ b. refl) h);
        pc_kept = low pc (omega arith);
        ir_kept = low ir (omega arith);
        agree = λ h.
            rw now (perform-Agree (word_at g.program n) (registers c) (after g.program n g.bank) h);
      }

  execute_stage-Reaches :
      (c : Core) (n p : ℕ)
      → Flow c n
      → Pending c n p
      → 3 ≤ c.counter_for_end
      → Reaches c (execute_stage c) n (n + p)
  unfolding execute_stage performed
  execute_stage-Reaches c n p h (inl (none, other)) early =
      let same : n ≡ n + p = omega (arith, none) in
      subst (Reaches c (execute_stage c) n) same
        (elim (Bool-cases (leb 2 c.counter && leb 3 c.counter_for_end)) [
          | inl e ↦ rw e (
            account_stage c,
            execute-plain c _ (h.plain (c.counter - 2)) other,
            account_stage-Back c n,
          )
          | inr e ↦ rw e (c, refl, Back-refl c n)
        ])
  execute_stage-Reaches c n p h (inr (one, two, inside, (d, e))) early =
      let test : (leb 2 c.counter && leb 3 c.counter_for_end) ≡ true = ground arith in
      let next : suc n ≡ n + p = omega (arith, one) in
      subst (Reaches c (execute_stage c) n) next (
        performed c n,
        rw (test, e) (execute-word c d (word_at g.program n) (g.arithmetic.words n inside)),
        performed-Back c n,
      )

  -- The stages before Decode, of a round in which Execute takes part, and of one in which it does not.
  abbrev pub Halfway : Core → ℕ → ℕ → Type 0
  Halfway c n m = (c' : Core) × (stages c ≡ some (fetch_stage (decode_stage c'))) × Back c c' n m

  halfway :
      (c : Core) (n m : ℕ)
      → Flow c n
      → ((b : Core) → Flow b n → Back c b n n → Reaches b (execute_stage b) n m)
      → Halfway c n m
  unfolding stages
  halfway c n m h executes =
      let (c1, e1, k1) = write_back_stage-Reaches c n h in
      let h1 : Flow c1 n = Back-Flow c c1 n n k1 h in
      let (c2, e2, k2) = memory_stage-Reaches c1 n h1 in
      let k = Back-trans c c1 c2 n n n k1 k2 in
      let (c3, e3, k3) = executes c2 (Back-Flow c1 c2 n n k2 h1) k in
      (c3, rw (e1, e2, e3) refl, Back-trans c c2 c3 n n m k k3)

  Back-Pending : (c c' : Core) (n p : ℕ) → Back c c' n n → Pending c n p → Pending c' n p
  Back-Pending c c' n p k h = rw (k.counter, k.instructions) h

  pub early-Halfway :
      (c : Core) (n p : ℕ) → Flow c n → Pending c n p → 3 ≤ c.counter_for_end → Halfway c n (n + p)
  early-Halfway c n p h pending early = halfway c n (n + p) h λ b hb k.
      execute_stage-Reaches b n p hb (Back-Pending c b n p k pending)
        (omega (arith, k.counter_for_end))

  pub late-Halfway : (c : Core) (n : ℕ) → Flow c n → c.counter_for_end < 3 → Halfway c n n
  unfolding execute_stage
  late-Halfway c n h late = halfway c n n h λ b hb k.
      let test : (leb 2 b.counter && leb 3 b.counter_for_end) ≡ false =
        ground (arith, k.counter_for_end) in
      rw test (b, refl, Back-refl b n)
