-- ===== src/Pipeline/Front.antt =====
-- Decode and Fetch of a round of src/cpu/CONTROL_UNIT.cpp in a program of arithmetic instructions: Decode
-- turns an instruction that waits for a register into a bubble, and Fetch reads its word again.
use multicore_simulator.Prelude.{
  ℕ, Bool, true, false, List, ◌≡◌, ◌⊎◌, ◌≤◌, ◌<◌, ◌+◌, ◌*◌, ◌∙◌, ◌||◌, ◌==◌, inl, inr, refl, sym,
  ap, arith, Bool-cases, length, ==_refl, subst, set, get_or, get_or-set, get_or-past, length-set,
  if◌then◌else◌,
}
use multicore_simulator.Cpu.Registers.{RegisterBank, pc, ir, position, write}
use multicore_simulator.Control.Decode.{
  Op, add, sub, mult, div, end, bubble, InstructionData, empty_instruction, decoded, decode,
  decode_fields, identify, is_arithmetic, is_idle, hazard, conflicts, read_registers, step_back,
  is_empty_text,
}
use multicore_simulator.Control.Core.{Core, registers, account_stage, set_registers, instruction_at}
use multicore_simulator.Control.Execute.{end_sentinel, decode_at}
use multicore_simulator.Control.Execute.Words.{registers-account_stage, decoded-arithmetic}
use multicore_simulator.Control.Execute.Total.{decode_at-Keeps}
use multicore_simulator.Pipeline.{word_at, Agree, write-Agree}
use multicore_simulator.Pipeline.Plain.{is_plain}
use multicore_simulator.Pipeline.Back.{Setting, Flow, registers-set_registers}
use multicore_simulator.Control.Execute.Keeps.{AllCoded}
use multicore_simulator.Cpu.Mapper.Table.{gpr}

-- The op of a word stays with the instruction.
decoded-op :
    (w : ℕ) (d : InstructionData)
    → is_arithmetic (identify w) ≡ true
    → (decoded w d).op ≡ identify w
decoded-op w d h = rw (decoded-arithmetic d w (identify w) refl h) refl

arithmetic-plain : (op : Op) → is_arithmetic op ≡ true → (is_idle op ≡ false) × (is_plain op ≡ true)
unfolding is_arithmetic is_idle is_plain
arithmetic-plain add h = (refl, refl)
arithmetic-plain sub h = (refl, refl)
arithmetic-plain mult h = (refl, refl)
arithmetic-plain div h = (refl, refl)
arithmetic-plain _ h = cc h

-- What Decode makes of an arithmetic word: it waits, or it is decoded.
decode-word :
    (xs : List InstructionData) (bank : RegisterBank) (d : InstructionData)
    → is_arithmetic (identify (bank ir)) ≡ true
    → ((1 < length xs)
        × (decode xs bank d
            ≡ (step_back bank, record (decoded (bank ir) d) { op = bubble; raw_instruction = 0 })))
      ⊎ (decode xs bank d ≡ (bank, decoded (bank ir) d))
unfolding decode
decode-word xs bank d h =
    let d' : InstructionData = decoded (bank ir) d in
    let active : is_idle d'.op ≡ false =
      rw (decoded-op (bank ir) d h) (arithmetic-plain (identify (bank ir)) h).0 in
    elim (Bool-cases (hazard xs 1 d' || hazard xs 2 d')) [
      | inl e ↦ inl (unfold hazard in ground (arith, e), rw (active, e) refl)
      | inr e ↦ inr (rw (active, e) refl)
    ]

abbrev ended : InstructionData → InstructionData
ended d = record d { raw_instruction = end_sentinel; op = end }

decoded-end : (d : InstructionData) → decoded end_sentinel d ≡ ended d
unfolding decoded identify is_idle decode_fields
decoded-end d = refl

no_hazard :
    (xs : List InstructionData) (k : ℕ) (d : InstructionData) → hazard xs k (ended d) ≡ false
unfolding hazard conflicts read_registers is_empty_text
no_hazard xs k d = ground arith

decode-end :
    (xs : List InstructionData) (bank : RegisterBank) (d : InstructionData)
    → bank ir ≡ end_sentinel
    → decode xs bank d ≡ (bank, ended d)
unfolding decode is_idle
decode-end xs bank d h = rw (h, decoded-end d, no_hazard xs 1 d, no_hazard xs 2 d) refl

module _ (g : Setting) where
  -- Fetch has read the word behind the first words, or the one that ends the program.
  abbrev pub Fetched : Core → ℕ → Type 0
  Fetched c m =
      (registers c ir ≡ word_at g.program m)
      × (((m < length g.program) × (registers c pc ≡ (m + 1) * 4) × (c.end_program ≡ false))
          ⊎ ((m ≡ length g.program) × (registers c pc ≡ m * 4) × (c.end_program ≡ true)))

  -- What Execute has next, at an index of the list: the word behind the first words, or nothing.
  abbrev pub Next : Core → ℕ → ℕ → ℕ → Type 0
  Next c i m p =
      ((p ≡ 0) × (is_arithmetic (instruction_at c i).op ≡ false))
      ⊎ ((p ≡ 1)
          × (m < length g.program)
          × ((d : InstructionData) × (instruction_at c i ≡ decoded (word_at g.program m) d)))

  -- Decode has been at an index of the list.
  pub record Decoded (c c' : Core) (i m p : ℕ) : Type 0 where
    pub flow : Flow g c' m
    pub next : Next c' i m p
    pub pc_next : registers c' pc ≡ (m + p) * 4
    pub inside : m + p ≤ length g.program
    pub first : length c.instructions ≤ 1 → m < length g.program → p ≡ 1
    pub counter : c'.counter ≡ c.counter
    pub counter_for_end : c'.counter_for_end ≡ c.counter_for_end
    pub end_program : c'.end_program ≡ c.end_program
    pub end_execution : c'.end_execution ≡ c.end_execution
    pub sized : length c'.instructions ≡ length c.instructions

  abbrev placed : Core → ℕ → InstructionData → Core
  placed c i d' = record (account_stage c) { instructions = set c.instructions i d' }

  abbrev with_decoded : Core → ℕ → RegisterBank × InstructionData → Core
  with_decoded c i (bank', d') = set_registers bank' (placed c i d')

  with_decoded-Flow :
      (c : Core) (i m : ℕ) (bank' : RegisterBank) (d' : InstructionData)
      → Flow g c m
      → AllCoded (set c.instructions i d')
      → i < length c.instructions
      → Agree bank' (registers c)
      → is_plain d'.op ≡ true
      → Flow g (with_decoded c i (bank', d')) m
  with_decoded-Flow c i m bank' d' h coded inside same plain = record {
    own = h.own;
    served =
        g.serves.blocks (account_stage c).system c.process _ (λ b. refl)
          (g.serves.blocks c.system c.process _ (λ b. refl) h.served);
    coded = coded;
    plain = λ j.
        rw (get_or-set c.instructions i j d' empty_instruction inside)
          (chosen (i == j) (get_or c.instructions j empty_instruction) (h.plain j));
    agree = λ j.
        ap (λ (b : RegisterBank). b (gpr j)) (registers-set_registers (placed c i d') bank')
        ∙ same j
        ∙ h.agree j;
  }
    where
      chosen :
          (b : Bool) (old : InstructionData)
          → is_plain old.op ≡ true
          → is_plain (if b then d' else old).op ≡ true
      chosen true old e = plain
      chosen false old e = e

  module _ (c : Core) (i m : ℕ) (h : Flow g c m) (inside : i < length c.instructions) where
    -- The core after Decode, from its two results.
    from_results :
        (bank' : RegisterBank) (d' : InstructionData) (p : ℕ)
        → decode c.instructions (registers (account_stage c)) (instruction_at c i) ≡ (bank', d')
        → Agree bank' (registers c)
        → is_plain d'.op ≡ true
        → (((p ≡ 0) × (is_arithmetic d'.op ≡ false))
            ⊎ ((p ≡ 1)
                × (m < length g.program)
                × ((d : InstructionData) × (d' ≡ decoded (word_at g.program m) d))))
        → bank' pc ≡ (m + p) * 4
        → m + p ≤ length g.program
        → (length c.instructions ≤ 1 → m < length g.program → p ≡ 1)
        → Decoded c (decode_at c i) i m p
    unfolding decode_at
    from_results bank' d' p e same plain next at_pc low first =
        let whole : decode_at c i ≡ with_decoded c i (bank', d') = rw e refl in
        let own : instruction_at (with_decoded c i (bank', d')) i ≡ d' =
          rw (get_or-set c.instructions i i d' empty_instruction inside, ==_refl i) refl in
        let codes : AllCoded (with_decoded c i (bank', d')).instructions =
          subst (λ (b : Core). AllCoded b.instructions) whole
            ((decode_at-Keeps c i).coded h.coded) in
        subst (λ b. Decoded c b i m p) (sym whole)
          (record {
            flow = with_decoded-Flow c i m bank' d' h codes inside same plain;
            next = rw own next;
            pc_next =
                ap (λ (b : RegisterBank). b pc) (registers-set_registers (placed c i d') bank')
                ∙ at_pc;
            inside = low;
            first = first;
            counter = refl;
            counter_for_end = refl;
            end_program = refl;
            end_execution = refl;
            sized = length-set c.instructions i d';
          })

    pub decode_at-Decoded : Fetched c m → (p : ℕ) × Decoded c (decode_at c i) i m p
    unfolding step_back write position is_arithmetic is_plain
    decode_at-Decoded (word, inl (more, at_pc, going)) =
        let b : RegisterBank = registers (account_stage c) in
        let same : b ≡ registers c = registers-account_stage c in
        let ir_word : b ir ≡ word_at g.program m = ap (λ (r : RegisterBank). r ir) same ∙ word in
        let b_pc : b pc ≡ (m + 1) * 4 = ap (λ (r : RegisterBank). r pc) same ∙ at_pc in
        let d = instruction_at c i in
        let kind : is_arithmetic (identify (b ir)) ≡ true =
          rw ir_word (g.arithmetic.words m more) in
        let op : (decoded (b ir) d).op ≡ identify (b ir) = decoded-op (b ir) d kind in
        let agree : Agree b (registers c) = λ j. ap (λ (r : RegisterBank). r (gpr j)) same in
        elim (decode-word c.instructions b d kind) [
          | inl (behind, e) ↦ (
            0,
            from_results (step_back b)
                (record (decoded (b ir) d) { op = bubble; raw_instruction = 0 }) 0 e
                (λ j. write-Agree pc _ b (omega arith) j ∙ agree j) refl (inl (refl, refl))
                (ground (arith, b_pc, g.arithmetic.small)) (omega (arith, more))
                (λ few _. absurd (omega (arith, few, behind))),
          )
          | inr e ↦ (
            1,
            from_results b (decoded (b ir) d) 1 e agree
                (rw op (arithmetic-plain (identify (b ir)) kind).1)
                (inr (refl, more, (d, ap (λ w. decoded w d) ir_word))) b_pc (omega (arith, more))
                (λ _ _. refl),
          )
        ]
    decode_at-Decoded (word, inr (done, at_pc, over)) =
        let b : RegisterBank = registers (account_stage c) in
        let same : b ≡ registers c = registers-account_stage c in
        let last : word_at g.program m ≡ end_sentinel =
          get_or-past g.program m end_sentinel (omega (arith, done)) in
        let ir_end : b ir ≡ end_sentinel = ap (λ (r : RegisterBank). r ir) same ∙ word ∙ last in
        let d = instruction_at c i in
        (
          0,
          from_results b (ended d) 0 (decode-end c.instructions b d ir_end)
              (λ j. ap (λ (r : RegisterBank). r (gpr j)) same) refl (inl (refl, refl))
              (ap (λ (r : RegisterBank). r pc) same ∙ at_pc ∙ omega arith) (omega (arith, done))
              (λ _ more. absurd (omega (arith, more, done))),
        )
