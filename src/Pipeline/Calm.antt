-- ===== src/Pipeline/Calm.antt =====
-- What the stages of src/cpu/CONTROL_UNIT.cpp do to the general registers and to the instructions in the
-- pipeline, of any program.
use multicore_simulator.Prelude.{
  ℕ, Bool, true, false, List, some, ◌≡◌, ◌≤◌, ◌<◌, ◌+◌, ◌-◌, ◌%◌, ◌==◌, ◌&&◌, ◌||◌, ltb, leb, ◌∙◌,
  refl, sym, ap, arith, ==_refl, if◌then◌else◌, u32_mod, set, get_or-set_ne, subst,
}
use multicore_simulator.Process.{modify}
use multicore_simulator.Cpu.Registers.{RegisterBank, pc, mar, ir, position, write}
use multicore_simulator.Cpu.Mapper.Table.{gpr}
use multicore_simulator.Memory.Manager.Quantum.{read-Same, write-Same}
use multicore_simulator.Memory.Manager
use multicore_simulator.Control.Decode.{
  Op, sw, InstructionData, empty_instruction, decode, decoded, hazard, is_idle, step_back,
}
use multicore_simulator.Control.Core.{
  Core, registers, account_stage, account_pipeline_cycle, instruction_at,
}
use multicore_simulator.Control.Execute.{
  write_back, store_word, decode_at, fetch, fetched, end_sentinel,
}
use multicore_simulator.Control.Execute.Coded.{Coded, address-IsBits, register_value-IsCode}
use multicore_simulator.Control.Execute.Words.{registers-account_stage}
use multicore_simulator.Control.Execute.Run.{
  decode_stage, fetch_stage, end_round, is_over, count_down,
}
use multicore_simulator.Pipeline.{Agree, write-Agree}
use multicore_simulator.Pipeline.Back.{registers-set_registers}
use multicore_simulator.Pipeline.Fetching.{addressed, loaded, filled, fetch-filled}
use multicore_simulator.Pipeline.Rounds.{grown, instruction-append}

-- The general registers and one of the instructions stay.
pub record Calm (c c' : Core) (i : ℕ) : Type 0 where
  pub process : c'.process ≡ c.process
  pub counter : c'.counter ≡ c.counter
  pub counter_for_end : c'.counter_for_end ≡ c.counter_for_end
  pub instruction : instruction_at c' i ≡ instruction_at c i
  pub agree : Agree (registers c') (registers c)

pub Calm-trans : (a b c : Core) (i : ℕ) → Calm a b i → Calm b c i → Calm a c i
Calm-trans a b c i h g = record {
  process = g.process ∙ h.process;
  counter = g.counter ∙ h.counter;
  counter_for_end = g.counter_for_end ∙ h.counter_for_end;
  instruction = g.instruction ∙ h.instruction;
  agree = λ r. g.agree r ∙ h.agree r;
}

pub Calm-refl : (c : Core) (i : ℕ) → Calm c c i
Calm-refl c i = record {
  process = refl;
  counter = refl;
  counter_for_end = refl;
  instruction = refl;
  agree = λ r. refl;
}

pub account_stage-Calm : (c : Core) (i : ℕ) → Calm c (account_stage c) i
account_stage-Calm c i = record {
  process = refl;
  counter = refl;
  counter_for_end = refl;
  instruction = refl;
  agree = λ r. ap (λ (b : RegisterBank). b (gpr r)) (registers-account_stage c);
}

-- Write_Back changes the memory at most.
pub write_back-Calm :
    (c : Core) (d : InstructionData)
    → Coded d
    → (c' : Core) × (write_back c d ≡ some c') × ((i : ℕ) → Calm c c' i)
unfolding write_back store_word
write_back-Calm c d h = by_op d.op refl
  where
    stored : d.op ≡ sw → (c' : Core) × (write_back c d ≡ some c') × ((i : ℕ) → Calm c c' i)
    stored e =
        let b : Core = account_stage c in
        let (address, f) = address-IsBits d.address_ram_result h.address in
        let (value, g) = register_value-IsCode (registers b) d.target_register h.target in
        (
          record b { system = Manager.write b.system address value b.process },
          rw (e, write_back, f, g) refl,
          λ i. record {
            process = refl;
            counter = refl;
            counter_for_end = refl;
            instruction = refl;
            agree = λ r.
                ap (λ (k : RegisterBank). k (gpr r))
                  (write-Same b.system address value b.process b.process).2
                ∙ (account_stage-Calm c i).agree r;
          },
        )

    by_op :
        (op : Op) → d.op ≡ op → (c' : Core) × (write_back c d ≡ some c') × ((i : ℕ) → Calm c c' i)
    by_op sw e = stored e
    by_op _ e = (account_stage c, rw (e, write_back) refl, account_stage-Calm c)

decode-bank :
    (xs : List InstructionData) (bank : RegisterBank) (d : InstructionData)
    → Agree (decode xs bank d).0 bank
unfolding decode step_back position
decode-bank xs bank d r =
    choose (is_idle (decoded (bank ir) d).op)
      (hazard xs 1 (decoded (bank ir) d) || hazard xs 2 (decoded (bank ir) d))
  where
    d' : InstructionData
    d' = decoded (bank ir) d

    results : Bool → Bool → RegisterBank × InstructionData
    results idle waits =
        if idle
        then (bank, d')
        else (if waits
            then (step_back bank, record d' { op = Op.bubble; raw_instruction = 0 })
            else (bank, d'))

    choose : (idle waits : Bool) → (results idle waits).0 (gpr r) ≡ bank (gpr r)
    choose true waits = refl
    choose false true = write-Agree pc _ bank (omega arith) r
    choose false false = refl

pub decode_stage-Calm : (c : Core) (i : ℕ) → i < c.counter - 1 → Calm c (decode_stage c) i
unfolding decode_stage decode_at
decode_stage-Calm c i behind = choose (leb 1 c.counter && leb 4 c.counter_for_end)
  where
    b : Core
    b = account_stage c

    results : RegisterBank × InstructionData
    results = decode c.instructions (registers b) (instruction_at c (c.counter - 1))

    choose : (test : Bool) → Calm c (if test then decode_at c (c.counter - 1) else c) i
    choose false = Calm-refl c i
    choose true = record {
      process = refl;
      counter = refl;
      counter_for_end = refl;
      instruction =
          get_or-set_ne c.instructions (c.counter - 1) i results.1 empty_instruction
            (λ e. omega (arith, behind, e));
      agree = λ r.
          ap (λ (k : RegisterBank). k (gpr r))
            (registers-set_registers
              (record b { instructions = set c.instructions (c.counter - 1) results.1 }) results.0)
          ∙ decode-bank c.instructions (registers b) (instruction_at c (c.counter - 1)) r
          ∙ ap (λ (k : RegisterBank). k (gpr r)) (registers-account_stage c);
    }

filled-Calm : (c : Core) (i : ℕ) → Calm c (filled c) i
unfolding filled loaded addressed position
filled-Calm c i =
    let a : Core = addressed c in
    let l : Core = (loaded c).0 in
    record {
      process = refl;
      counter = refl;
      counter_for_end = refl;
      instruction = refl;
      agree = λ r.
          ap (λ (k : RegisterBank). k (gpr r)) (registers-set_registers l _)
          ∙ write-Agree ir _ (registers l) (omega arith) r
          ∙ ap (λ (k : RegisterBank). k (gpr r))
              (read-Same a.system (registers a mar) c.process c.process).2
          ∙ ap (λ (k : RegisterBank). k (gpr r))
              (registers-set_registers (account_stage c) (write mar (registers c pc) (registers c)))
          ∙ write-Agree mar _ (registers c) (omega arith) r;
    }

ending-Calm : (c : Core) (i : ℕ) → Calm c (record c { end_program = true }) i
ending-Calm c i = record {
  process = refl;
  counter = refl;
  counter_for_end = refl;
  instruction = refl;
  agree = λ r. refl;
}

choice-Calm :
    (c a b : Core) (i : ℕ) (test : Bool)
    → Calm c a i
    → Calm c b i
    → Calm c (if test then a else b) i
choice-Calm c a b i true h k = h
choice-Calm c a b i false h k = k

fetched-Calm : (c : Core) (instr i : ℕ) → Calm c (fetched c instr) i
unfolding fetched position
fetched-Calm c instr i =
    let bank : RegisterBank = write pc ((registers c pc + 4) % u32_mod) (registers c) in
    choice-Calm c _ _ i (instr == 0 && ltb 10000 (registers c pc)) (ending-Calm c i) (
      choice-Calm c _ _ i (instr == end_sentinel) (ending-Calm c i) (record {
        process = refl;
        counter = refl;
        counter_for_end = refl;
        instruction = refl;
        agree = λ r.
            ap (λ (k : RegisterBank). k (gpr r)) (registers-set_registers c bank)
            ∙ write-Agree pc _ (registers c) (omega arith) r;
      }))

pub fetch_stage-Calm : (c : Core) (i : ℕ) → Calm c (fetch_stage c) i
unfolding fetch_stage grown
fetch_stage-Calm c i =
    let more : Calm c (grown c) i = record {
      process = refl;
      counter = refl;
      counter_for_end = refl;
      instruction = instruction-append c.instructions i;
      agree = λ r. refl;
    } in
    let fetching : Calm (grown c) (fetch (grown c)) i =
      subst (λ b. Calm (grown c) b i) (sym (fetch-filled (grown c)))
        (Calm-trans (grown c) (filled (grown c)) _ i (filled-Calm (grown c) i)
          (fetched-Calm (filled (grown c)) (loaded (grown c)).1 i)) in
    choice-Calm c (fetch (grown c)) c i (c.counter_for_end == 5)
      (Calm-trans c (grown c) _ i more fetching) (Calm-refl c i)

-- The end of a round: one round more, and at most one of the last ones less.
pub end_round-Calm :
    (clock : ℕ) (c : Core) (i : ℕ)
    → let e = end_round clock c in
      (e.process ≡ c.process)
      × (e.counter ≡ c.counter + 1)
      × (c.counter_for_end ≤ e.counter_for_end + 1)
      × (instruction_at e i ≡ instruction_at c i)
      × (registers e ≡ registers c)
unfolding end_round count_down
end_round-Calm clock c i = choose (is_over clock counted)
  where
    counted : Core
    counted = account_pipeline_cycle (record c { counter = c.counter + 1 })

    same : registers counted ≡ registers c
    same = unfold modify in rw (==_refl c.process, registers) refl

    choose :
        (b : Bool)
        → ((count_down b counted).process ≡ c.process)
          × ((count_down b counted).counter ≡ c.counter + 1)
          × (c.counter_for_end ≤ (count_down b counted).counter_for_end + 1)
          × (instruction_at (count_down b counted) i ≡ instruction_at c i)
          × (registers (count_down b counted) ≡ registers c)
    choose true = (refl, refl, omega arith, refl, same)
    choose false = (refl, refl, omega arith, refl, same)
