-- ===== src/Pipeline/Fetching.antt =====
-- Fetch of src/cpu/CONTROL_UNIT.cpp of a word of a program of arithmetic instructions.
use multicore_simulator.Prelude.{
  ℕ, true, false, ◌≡◌, ◌≢◌, ◌⊎◌, ◌≤◌, ◌<◌, ◌+◌, ◌*◌, ◌%◌, ◌==◌, ltb, ◌∙◌, inl, inr, refl, sym, ap,
  arith, length, u32_mod, subst, get_or-past, Bool-cases,
}
use multicore_simulator.Cpu.Registers.{RegisterBank, Register, pc, mar, ir, position, write}
use multicore_simulator.Cpu.Mapper.Table.{gpr}
use multicore_simulator.Memory.Manager.{System, read}
use multicore_simulator.Memory.Manager.Quantum.{read-Same}
use multicore_simulator.Control.Decode.{identify, is_arithmetic}
use multicore_simulator.Control.Core.{Core, registers, account_stage, set_registers}
use multicore_simulator.Control.Execute.{end_sentinel, load, fetch, fetched}
use multicore_simulator.Pipeline.{word_at, Agree, write-Agree}
use multicore_simulator.Pipeline.Back.{Setting, registers-set_registers}

-- An arithmetic word is none of the words that are not.
arithmetic_apart :
    (w v : ℕ)
    → is_arithmetic (identify w) ≡ true
    → is_arithmetic (identify v) ≡ false
    → (w == v) ≡ false
arithmetic_apart w v h other = elim (Bool-cases (w == v)) [
  | inl e ↦ let same : w ≡ v = ground (arith, e) in cc (h, other, same)
  | inr e ↦ e
]

-- Neither 0 nor the end word is one.
special : (is_arithmetic (identify 0) ≡ false) × (is_arithmetic (identify end_sentinel) ≡ false)
unfolding identify is_arithmetic
special = (refl, refl)

unfoldable pub addressed : Core → Core
addressed c = set_registers (write mar (registers c pc) (registers c)) (account_stage c)

unfoldable pub loaded : Core → Core × ℕ
loaded c = load (addressed c) (registers (addressed c) mar)

unfoldable pub filled : Core → Core
filled c = set_registers (write ir (loaded c).1 (registers (loaded c).0)) (loaded c).0

pub fetch-filled : (c : Core) → fetch c ≡ fetched (filled c) (loaded c).1
unfolding fetch filled loaded addressed
fetch-filled c = refl

module _ (g : Setting) where
  -- What Fetch of the word at an index does.
  pub record Fetching (c c' : Core) (q : ℕ) : Type 0 where
    pub own : c'.process ≡ c.process
    pub served : g.in_memory c'.system
    pub instructions : c'.instructions ≡ c.instructions
    pub counter : c'.counter ≡ c.counter
    pub counter_for_end : c'.counter_for_end ≡ c.counter_for_end
    pub end_execution : c'.end_execution ≡ c.end_execution
    pub agree : Agree (registers c') (registers c)
    pub word : registers c' ir ≡ word_at g.program q
    pub next :
        ((q < length g.program)
          × (registers c' pc ≡ (q + 1) * 4)
          × (c'.end_program ≡ c.end_program))
        ⊎ ((q ≡ length g.program) × (registers c' pc ≡ q * 4) × (c'.end_program ≡ true))

  module _ (c : Core) (q : ℕ) (own : c.process ≡ g.process) (served : g.in_memory c.system)
      (at_pc : registers c pc ≡ q * 4) (low : q ≤ length g.program) where
    abbrev Answers : System → ℕ → ℕ → Type 0
    Answers s va r = g.in_memory (read s va r).0 × ((read s va r).1 ≡ word_at g.program q)

    bank-addressed : registers (addressed c) ≡ write mar (registers c pc) (registers c)
    unfolding addressed
    bank-addressed = registers-set_registers (account_stage c) _

    address : registers (addressed c) mar ≡ q * 4
    unfolding write position
    address = ap (λ (b : RegisterBank). b mar) bank-addressed ∙ at_pc

    loaded-Serves : g.in_memory (loaded c).0.system × ((loaded c).1 ≡ word_at g.program q)
    unfolding loaded addressed
    loaded-Serves =
        let before : g.in_memory (addressed c).system =
          g.serves.blocks (account_stage c).system c.process _ (λ b. refl)
            (g.serves.blocks c.system c.process _ (λ b. refl) served) in
        let s : System = (addressed c).system in
        subst (λ va. Answers s va c.process) (sym address)
          (subst (Answers s (q * 4)) (sym own) (g.serves.reads s q low before))

    bank-loaded : registers (loaded c).0 ≡ write mar (registers c pc) (registers c)
    unfolding loaded addressed
    bank-loaded =
        (read-Same (addressed c).system (registers (addressed c) mar) c.process c.process).2
        ∙ bank-addressed

    bank-filled :
        registers (filled c)
        ≡ write ir (word_at g.program q) (write mar (registers c pc) (registers c))
    unfolding filled
    bank-filled =
        registers-set_registers (loaded c).0 _
        ∙ ap (λ w. write ir w (registers (loaded c).0)) loaded-Serves.1
        ∙ ap (write ir (word_at g.program q)) bank-loaded

    filled-at :
        (r : Register)
        → position r < 8
        → position r ≢ 1
        → position r ≢ 7
        → registers (filled c) r ≡ registers c r
    unfolding write position
    filled-at r low a b = ap (λ (k : RegisterBank). k r) bank-filled ∙ ground (arith, a, b)

    filled-Agree : Agree (registers (filled c)) (registers c)
    unfolding position
    filled-Agree i =
        ap (λ (k : RegisterBank). k (gpr i)) bank-filled
        ∙ write-Agree ir _ (write mar (registers c pc) (registers c)) (omega arith) i
        ∙ write-Agree mar _ (registers c) (omega arith) i

    filled-word : registers (filled c) ir ≡ word_at g.program q
    unfolding write position
    filled-word = ap (λ (k : RegisterBank). k ir) bank-filled

    filled-served : g.in_memory (filled c).system
    unfolding filled
    filled-served =
        g.serves.blocks (loaded c).0.system (loaded c).0.process _ (λ b. refl) loaded-Serves.0

    -- The program goes on.
    went_on : Core
    went_on =
        set_registers (write pc ((registers (filled c) pc + 4) % u32_mod) (registers (filled c)))
          (filled c)

    filled-kept :
        ((filled c).process ≡ c.process)
        × ((filled c).instructions ≡ c.instructions)
        × ((filled c).counter ≡ c.counter)
        × ((filled c).counter_for_end ≡ c.counter_for_end)
        × ((filled c).end_program ≡ c.end_program)
        × ((filled c).end_execution ≡ c.end_execution)
    unfolding filled loaded addressed
    filled-kept = (refl, refl, refl, refl, refl, refl)

    pub fetch-Fetching : Fetching c (fetch c) q
    unfolding fetched position went_on
    fetch-Fetching = elim (Bool-cases (ltb q (length g.program))) [
      | inl e ↦
          let more : q < length g.program = ground (arith, e) in
          let kind = g.arithmetic.words q more in
          let zero_not = arithmetic_apart (word_at g.program q) 0 kind special.0 in
          let end_not = arithmetic_apart (word_at g.program q) end_sentinel kind special.1 in
          let whole : fetch c ≡ went_on =
            fetch-filled c ∙ rw (loaded-Serves.1, zero_not, end_not) refl in
          let now =
            registers-set_registers (filled c)
              (write pc ((registers (filled c) pc + 4) % u32_mod) (registers (filled c))) in
          let here : registers (filled c) pc ≡ q * 4 =
            filled-at pc (omega arith) (λ x. omega (arith, x)) (λ x. omega (arith, x)) ∙ at_pc in
          let (own', instructions, counter, counter_for_end, end_program, end_execution) =
            filled-kept in
          subst (λ b. Fetching c b q) (sym whole)
            (record {
              own = own';
              served =
                  g.serves.blocks (filled c).system (filled c).process _ (λ b. refl) filled-served;
              instructions = instructions;
              counter = counter;
              counter_for_end = counter_for_end;
              end_execution = end_execution;
              agree = λ i.
                  ap (λ (k : RegisterBank). k (gpr i)) now
                  ∙ write-Agree pc _ (registers (filled c)) (omega arith) i
                  ∙ filled-Agree i;
              word = ap (λ (k : RegisterBank). k ir) now ∙ (unfold write in filled-word);
              next = inl (
                more,
                ap (λ (k : RegisterBank). k pc) now
                    ∙ (unfold write in ground (arith, here, g.arithmetic.small)),
                end_program,
              );
            })
      | inr e ↦
          let done : q ≡ length g.program = ground (arith, e) in
          let last : word_at g.program q ≡ end_sentinel =
            get_or-past g.program q end_sentinel (omega (arith, done)) in
          let whole : fetch c ≡ record (filled c) { end_program = true } =
            fetch-filled c ∙ rw (loaded-Serves.1, last) refl in
          let here : registers (filled c) pc ≡ q * 4 =
            filled-at pc (omega arith) (λ x. omega (arith, x)) (λ x. omega (arith, x)) ∙ at_pc in
          let (own', instructions, counter, counter_for_end, end_program, end_execution) =
            filled-kept in
          subst (λ b. Fetching c b q) (sym whole)
            (record {
              own = own';
              served = filled-served;
              instructions = instructions;
              counter = counter;
              counter_for_end = counter_for_end;
              end_execution = end_execution;
              agree = filled-Agree;
              word = filled-word;
              next = inr (done, here, refl);
            })
    ]
