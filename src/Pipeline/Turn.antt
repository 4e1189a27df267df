-- ===== src/Pipeline/Turn.antt =====
-- A call of `Core` of src/cpu/CONTROL_UNIT.cpp in a program of arithmetic instructions.
use mathlib.Core.Option.{some_inj}
use multicore_simulator.Prelude.{
  ℕ, zero, suc, Bool, true, false, List, some, ◌≡◌, ◌⊎◌, ◌≤◌, ◌<◌, ◌+◌, ◌*◌, ◌==◌, ltb, ◌∙◌, ◌&&◌,
  inl, inr, refl, sym, ap, arith, Option-cases, Bool-cases, length, get_or, subst, leb,
  if◌then◌else◌,
}
use multicore_simulator.Process.{finished, modify}
use multicore_simulator.Cpu.Registers.{RegisterBank, pc}
use multicore_simulator.Memory.Manager.{System}
use multicore_simulator.Memory.Manager.Quantum.{quantum_of, state_of, bank_of}
use multicore_simulator.Control.Decode.{is_arithmetic}
use multicore_simulator.Control.Core.{Core, IoRequest, registers, on_block}
use multicore_simulator.Control.Execute.Coded.{empty_instruction-Coded}
use multicore_simulator.Control.Execute.Run.{
  new_core, decode_stage, fetch_stage, stages, end_round, rounds, finish, run_core,
}
use multicore_simulator.Control.Execute.Run.Termination.{run_core-ends}
use multicore_simulator.Control.Execute.Run.Ending.{finish-finished, stages-Fetched, rounds-Emptied}
use multicore_simulator.Pipeline.{after, Agree}
use multicore_simulator.Pipeline.Plain.{is_plain}
use multicore_simulator.Pipeline.Back.{Setting, Flow, Back-Flow, early-Halfway}
use multicore_simulator.Pipeline.Rounds.{Decoding, Emptied, Filling, fetch_stage-Filled}
use multicore_simulator.Pipeline.Count.{Filled-Filling, end_round-Counted}
use multicore_simulator.Pipeline.Loop.{Filling-Rested}

module _ (g : Setting) where
  -- The process is at an instruction of the program: its registers are those after the words ahead of it,
  -- and its PC is the address of the word.
  pub record Stands (s : System) (n : ℕ) : Type 0 where
    pub served : g.in_memory s
    pub agree : Agree (bank_of s g.process) (after g.program n g.bank)
    pub at_pc : bank_of s g.process pc ≡ n * 4
    pub inside : n ≤ length g.program

  module _ (system : System) (requests : List IoRequest) (print_lock : Bool) (n : ℕ)
      (h' : Stands system n) where
    start : Core
    start = new_core system g.process requests print_lock

    start-Flow : Flow g start n
    unfolding start new_core get_or is_plain
    start-Flow = record {
      own = refl;
      served = h'.served;
      coded = λ i. empty_instruction-Coded;
      plain = λ i. refl;
      agree = h'.agree;
    }

    -- The first round only fetches.
    first_round :
        (c : Core) × (stages start ≡ some c)
        × Filling g (end_round 1 c) n 0
        × (length (end_round 1 c).instructions ≡ 1)
    unfolding start new_core get_or is_arithmetic decode_stage
    first_round =
        let (b, e, k) = early-Halfway g start n 0 start-Flow (inl (refl, refl)) (omega arith) in
        let flow = Back-Flow g start b n (n + 0) k start-Flow in
        let test : (leb 1 b.counter && leb 4 b.counter_for_end) ≡ false =
          ground (arith, k.counter) in
        let same : n + 0 ≡ n = omega arith in
        let ready : Decoding g b n 0 = record {
          flow = rw same at flow;
          next = inl (refl, rw k.instructions refl);
          begun = λ e. omega (arith, e);
          pc_next = k.pc_kept ∙ h'.at_pc ∙ omega arith;
          inside = omega (arith, h'.inside);
          sized = ap (λ xs. length xs) k.instructions ∙ sym k.counter;
        } in
        let filled = fetch_stage-Filled g b n 0 ready k.counter_for_end k.end_program in
        let whole : stages start ≡ some (fetch_stage b) = e ∙ rw test refl in
        let (_, _, _, one) = stages-Fetched start (fetch_stage b) start-Flow.coded refl whole in
        let count = end_round-Counted g 1 (fetch_stage b) in
        (
          fetch_stage b,
          whole,
          Filled-Filling g 1 (fetch_stage b) n 0 filled,
          ap (λ xs. length xs) count.instructions ∙ one,
        )

    -- How the call leaves the process.
    pub record Left (c : Core) (m : ℕ) : Type 0 where
      pub stands : Stands c.system m
      pub further : n < length g.program → n < m
      pub ends : n ≡ length g.program → c.end_program ≡ true
      pub over :
          c.end_program ≡ true → (m ≡ length g.program) × (state_of c.system g.process ≡ finished)

    after_loop :
        (fuel : ℕ) (last : Core)
        → 5 < fuel
        → rounds fuel 0 start ≡ some last
        → (m : ℕ) × Emptied g last m
          × (n < length g.program → n < m)
          × (n ≡ length g.program → last.end_program ≡ true)
    unfolding rounds
    after_loop zero last enough e = cc e
    after_loop (suc fuel) last enough e =
        let (c, k, h, one) = first_round in
        let going : (start.counter_for_end == 0) ≡ false =
          unfold start in unfold new_core in refl in
        let rest : rounds fuel 1 (end_round 1 c) ≡ some last = rw (going, k) at e in
        elim (Bool-cases (ltb n (length g.program))) [
          | inl more ↦
              let (m, low, emptied) =
                Filling-Rested g fuel 1 (end_round 1 c) last n 0 (n + 1) h
                  (λ q first. omega (arith, first (omega (arith, one)) (ground (arith, more))))
                  rest in
              (m, emptied, λ _. omega (arith, low), λ x. absurd (ground (arith, more, x)))
          | inr none_left ↦
              let (m, low, emptied) =
                Filling-Rested g fuel 1 (end_round 1 c) last n 0 n h (λ q _. omega arith) rest in
              let (over, few) = stopped (end_round 1 c) h (ground (arith, none_left, h'.inside)) in
              let (other, f, (ends, _, _)) =
                rounds-Emptied fuel 1 (end_round 1 c) h.flow.coded over (omega (arith, few))
                  (omega (arith, few, enough)) in
              let same : other ≡ last = some_inj.0 (sym f ∙ rest) in
              (
                m,
                emptied,
                λ more. absurd (ground (arith, none_left, more)),
                λ _. subst (λ (b : Core). b.end_program ≡ true) same ends,
              )
        ]
      where
        -- The end word was fetched in the first round.
        stopped :
            (c : Core)
            → Filling g c n 0
            → n ≡ length g.program
            → (c.end_program ≡ true) × (c.counter_for_end ≡ 4)
        stopped c h last_word = found h.fetched.1 h.pace
          where
            found :
                (((n + 0 < length g.program)
                    × (registers c pc ≡ (n + 0 + 1) * 4)
                    × (c.end_program ≡ false))
                  ⊎ ((n + 0 ≡ length g.program)
                      × (registers c pc ≡ (n + 0) * 4)
                      × (c.end_program ≡ true)))
                → (((c.counter_for_end ≡ 5) × (c.end_program ≡ false))
                    ⊎ ((c.counter_for_end ≡ 4) × (c.end_execution ≡ true)))
                → (c.end_program ≡ true) × (c.counter_for_end ≡ 4)
            found (inl (more, _, _)) _ = absurd (omega (arith, more, last_word))
            found (inr (_, _, over)) (inl (_, going)) = cc (over, going)
            found (inr (_, _, over)) (inr (four, _)) = (over, four)

    -- The end of the call, of a core with an empty pipeline.
    Emptied-Stands : (c : Core) (m : ℕ) → Emptied g c m → Stands c.system m
    Emptied-Stands c m e =
        let own : bank_of c.system g.process ≡ registers c =
          ap (bank_of c.system) (sym e.flow.own) in
        record {
          served = e.flow.served;
          agree = rw own e.flow.agree;
          at_pc = ap (λ (b : RegisterBank). b pc) own ∙ e.pc_next;
          inside = e.inside;
        }

    finish-Stands : (c : Core) (m : ℕ) → Stands c.system m → Stands (finish c).system m
    unfolding finish
    finish-Stands c m e = choose c.end_program
      where
        over : Core
        over = on_block c (λ p. record p { state = finished })

        same : bank_of over.system g.process ≡ bank_of c.system g.process
        same = unfold modify in ground arith

        choose : (b : Bool) → Stands (if b then over else c).system m
        choose true = record {
          served = g.serves.blocks c.system c.process _ (λ b. refl) e.served;
          agree = rw same e.agree;
          at_pc = ap (λ (b : RegisterBank). b pc) same ∙ e.at_pc;
          inside = e.inside;
        }
        choose false = e

    finish-end_program : (c : Core) → (finish c).end_program ≡ c.end_program
    unfolding finish
    finish-end_program c = choose c.end_program refl
      where
        choose :
            (b : Bool)
            → c.end_program ≡ b
            → (if b then on_block c (λ p. record p { state = finished }) else c).end_program
              ≡ c.end_program
        choose true e = refl
        choose false e = refl

    -- A call of Core, on fuel above the quantum and five, returns and leaves the process at an instruction.
    pub run_core-Left :
        (fuel : ℕ)
        → quantum_of system g.process + 5 < fuel
        → (c : Core) × (m : ℕ) × (run_core fuel system g.process requests print_lock ≡ some c)
          × Left c m
    unfolding run_core
    run_core-Left fuel enough =
        let (c, e, _) = run_core-ends fuel system g.process requests print_lock enough in
        elim (Option-cases (rounds fuel 0 start)) [
          | inl none_back ↦ absurd (unfold start in cc (none_back, e))
          | inr (last, k) ↦
              let (m, emptied, further, ends) = after_loop fuel last (omega (arith, enough)) k in
              let kept = finish-end_program last in
              (
                finish last,
                m,
                unfold start in rw k refl,
                record {
                  stands = finish-Stands last m (Emptied-Stands last m emptied);
                  further = further;
                  ends = λ x. kept ∙ ends x;
                  over = λ x. (
                    emptied.over (sym kept ∙ x),
                    ap (state_of (finish last).system) (sym emptied.flow.own)
                        ∙ finish-finished last (sym kept ∙ x),
                  );
                },
              )
        ]
