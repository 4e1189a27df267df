-- ===== src/Pipeline/Count.antt =====
-- The end of a round of `Core` of src/cpu/CONTROL_UNIT.cpp in a program of arithmetic instructions.
use multicore_simulator.Prelude.{
  ℕ, true, false, List, ◌≡◌, ◌⊎◌, ◌≤◌, ◌<◌, ◌+◌, ◌-◌, ◌*◌, ◌∙◌, inl, inr, refl, sym, ap, arith,
  Bool-cases, length, ==_refl,
}
use multicore_simulator.Cpu.Registers.{pc}
use multicore_simulator.Process.{modify}
use multicore_simulator.Control.Decode.{InstructionData}
use multicore_simulator.Control.Core.{Core, registers, instruction_at, account_pipeline_cycle}
use multicore_simulator.Control.Execute.Run.{end_round, is_over, count_down}
use multicore_simulator.Pipeline.Back.{Setting, Flow, Pending}
use multicore_simulator.Pipeline.Front.{Next}
use multicore_simulator.Pipeline.Rounds.{Decoding, Filled, Filling, Emptying, Emptied}

module _ (g : Setting) where
  -- How the counter of the last rounds changes.
  abbrev pub Pace : Core → Core → Type 0
  Pace c e =
      ((e.counter_for_end ≡ c.counter_for_end)
        × (c.end_execution ≡ false)
        × (c.end_program ≡ false))
      ⊎ ((e.counter_for_end ≡ c.counter_for_end - 1) × (e.end_execution ≡ true))

  -- What the end of a round does.
  pub record Counted (c e : Core) : Type 0 where
    pub own : e.process ≡ c.process
    pub instructions : e.instructions ≡ c.instructions
    pub counter : e.counter ≡ c.counter + 1
    pub end_program : e.end_program ≡ c.end_program
    pub kept : registers e ≡ registers c
    pub served : g.in_memory c.system → g.in_memory e.system
    pub pace : Pace c e

  pub end_round-Counted : (clock : ℕ) (c : Core) → Counted c (end_round clock c)
  unfolding end_round
  end_round-Counted clock c = elim (Bool-cases (is_over clock counted)) [
    | inl e ↦
        rw (e, count_down)
          (record {
            own = refl;
            instructions = refl;
            counter = refl;
            end_program = refl;
            kept = same;
            served = g.serves.blocks c.system c.process _ (λ b. refl);
            pace = inr (refl, refl);
          })
    | inr e ↦
        rw (e, count_down)
          (record {
            own = refl;
            instructions = refl;
            counter = refl;
            end_program = refl;
            kept = same;
            served = g.serves.blocks c.system c.process _ (λ b. refl);
            pace = let (running, unfinished) = going e in inl (refl, running, unfinished);
          })
  ]
    where
      counted : Core
      counted = account_pipeline_cycle (record c { counter = c.counter + 1 })

      same : registers counted ≡ registers c
      same = unfold modify in rw (==_refl c.process, registers) refl

      going : is_over clock counted ≡ false → (c.end_execution ≡ false) × (c.end_program ≡ false)
      going e = unfold is_over in ground (arith, e)

  Counted-Flow : (c e : Core) (n : ℕ) → Counted c e → Flow g c n → Flow g e n
  Counted-Flow c e n k h = record {
    own = k.own ∙ h.own;
    served = k.served h.served;
    coded = rw k.instructions h.coded;
    plain = rw k.instructions h.plain;
    agree = rw k.kept h.agree;
  }

  -- What Decode has left is what Execute has next.
  Counted-Pending :
      (c e : Core) (n p : ℕ)
      → Counted c e
      → Next g c (c.counter - 1) n p
      → (p ≡ 1 → 1 ≤ c.counter)
      → Pending g e n p
  Counted-Pending c e n p k next begun =
      let at : e.counter - 2 ≡ c.counter - 1 = omega (arith, k.counter) in
      let same : instruction_at e (e.counter - 2) ≡ instruction_at c (c.counter - 1) =
        rw (at, k.instructions) refl in
      moved same next
    where
      moved :
          instruction_at e (e.counter - 2) ≡ instruction_at c (c.counter - 1)
          → Next g c (c.counter - 1) n p
          → Pending g e n p
      moved same (inl (zero_left, other)) = inl (zero_left, rw same other)
      moved same (inr (one, more, (d, f))) =
          inr (one, omega (arith, begun one, k.counter), more, (d, same ∙ f))

  pub Filled-Filling :
      (clock : ℕ) (c : Core) (m p : ℕ) → Filled g c m p → Filling g (end_round clock c) m p
  Filled-Filling clock c m p h =
      let e : Core = end_round clock c in
      let k : Counted c e = end_round-Counted clock c in
      record {
        flow = Counted-Flow c e m k h.flow;
        pending = Counted-Pending c e m p k h.next h.begun;
        fetched = rw (k.kept, k.end_program) h.fetched;
        sized =
            ap (λ (xs : List InstructionData). length xs) k.instructions ∙ h.sized ∙ sym k.counter;
        begun = omega (arith, k.counter);
        pace = go k.pace;
      }
    where
      go :
          Pace c (end_round clock c)
          → (((end_round clock c).counter_for_end ≡ 5) × ((end_round clock c).end_program ≡ false))
            ⊎ (((end_round clock c).counter_for_end ≡ 4)
                × ((end_round clock c).end_execution ≡ true))
      go (inl (same, _, going)) =
          inl (same ∙ h.full, (end_round-Counted clock c).end_program ∙ going)
      go (inr (less, ended)) = inr (omega (arith, less, h.full), ended)

  -- A core that has stopped counts down.
  counted_down :
      (clock : ℕ) (c : Core)
      → c.end_execution ≡ true
      → ((end_round clock c).counter_for_end ≡ c.counter_for_end - 1)
        × ((end_round clock c).end_execution ≡ true)
  counted_down clock c stopped = go (end_round-Counted clock c).pace
    where
      go :
          Pace c (end_round clock c)
          → ((end_round clock c).counter_for_end ≡ c.counter_for_end - 1)
            × ((end_round clock c).end_execution ≡ true)
      go (inl (_, running, _)) = cc (stopped, running)
      go (inr down) = down

  pub Decoding-Emptying :
      (clock : ℕ) (c : Core) (m p : ℕ)
      → Decoding g c m p
      → c.counter_for_end ≡ 4
      → c.end_execution ≡ true
      → (c.end_program ≡ true → m + p ≡ length g.program)
      → Emptying g (end_round clock c) m p
  Decoding-Emptying clock c m p h four stopped over =
      let e : Core = end_round clock c in
      let k : Counted c e = end_round-Counted clock c in
      let (less, ended) = counted_down clock c stopped in
      record {
        flow = Counted-Flow c e m k h.flow;
        pending = Counted-Pending c e m p k h.next h.begun;
        pc_next = rw k.kept h.pc_next;
        inside = h.inside;
        over = λ x. over (sym k.end_program ∙ x);
        pace = omega (arith, less, four);
        stopping = ended;
      }

  pub Flow-Emptied :
      (clock : ℕ) (c : Core) (m : ℕ)
      → Flow g c m
      → registers c pc ≡ m * 4
      → m ≤ length g.program
      → c.counter_for_end < 4
      → c.end_execution ≡ true
      → (c.end_program ≡ true → m ≡ length g.program)
      → Emptied g (end_round clock c) m
  Flow-Emptied clock c m h at_pc inside late stopped over =
      let e : Core = end_round clock c in
      let k : Counted c e = end_round-Counted clock c in
      let (less, ended) = counted_down clock c stopped in
      record {
        flow = Counted-Flow c e m k h;
        pc_next = rw k.kept at_pc;
        inside = inside;
        over = λ x. over (sym k.end_program ∙ x);
        pace = omega (arith, less, late);
        stopping = ended;
      }
