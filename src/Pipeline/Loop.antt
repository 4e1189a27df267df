-- ===== src/Pipeline/Loop.antt =====
-- The loop of `Core` of src/cpu/CONTROL_UNIT.cpp in a program of arithmetic instructions.
use mathlib.Core.Option.{some_inj}
use multicore_simulator.Prelude.{
  ℕ, zero, suc, true, false, some, ◌≡◌, ◌⊎◌, ◌≤◌, ◌+◌, ◌==◌, inl, inr, arith, Bool-cases, subst,
}
use multicore_simulator.Control.Core.{Core}
use multicore_simulator.Control.Execute.Run.{end_round, rounds}
use multicore_simulator.Pipeline.Back.{Setting}
use multicore_simulator.Pipeline.Steps.{
  Running, filling, emptying, emptied, Bound, Filling-Steps, Running-Steps,
}
use multicore_simulator.Pipeline.Rounds.{Emptied, Filling}

module _ (g : Setting) where
  -- How many words have been executed when the pipeline is empty.
  abbrev pub Rested : Core → ℕ → Type 0
  Rested c k = (m : ℕ) × (k ≤ m) × Emptied g c m

  abbrev IsRunning : Core → ℕ → Type 0
  IsRunning = Running g

  early : (c : Core) (n p : ℕ) → Filling g c n p → 4 ≤ c.counter_for_end
  early c n p h = go h.pace
    where
      go :
          (((c.counter_for_end ≡ 5) × (c.end_program ≡ false))
            ⊎ ((c.counter_for_end ≡ 4) × (c.end_execution ≡ true)))
          → 4 ≤ c.counter_for_end
      go (inl (five, _)) = omega (arith, five)
      go (inr (four, _)) = omega (arith, four)

  Running-Rested : (c : Core) (k : ℕ) → IsRunning c k → c.counter_for_end ≡ 0 → Rested c k
  Running-Rested c k (filling m p low h) stop = absurd (omega (arith, stop, early c m p h))
  Running-Rested c k (emptying m p low h) stop = absurd (omega (arith, stop, h.pace))
  Running-Rested c k (emptied m low h) stop = (m, low, h)

  -- The loop ends with the pipeline emptied.
  pub rounds-Rested :
      (fuel clock : ℕ) (c last : Core) (k : ℕ)
      → IsRunning c k
      → rounds fuel clock c ≡ some last
      → Rested last k
  unfolding rounds
  rounds-Rested zero clock c last k h e = cc e
  rounds-Rested (suc fuel) clock c last k h e = elim (Bool-cases (c.counter_for_end == 0)) [
    | inl stop ↦
        let same : c ≡ last = some_inj.0 (rw stop at e) in
        subst (λ b. Rested b k) same (Running-Rested c k h (ground (arith, stop)))
    | inr more ↦
        let (c', f, next) = Running-Steps g (clock + 1) c k h in
        rounds-Rested fuel (clock + 1) (end_round (clock + 1) c') last k next (rw (more, f) at e)
  ]

  -- The same from a core that fills its pipeline, with what its next round adds.
  pub Filling-Rested :
      (fuel clock : ℕ) (c last : Core) (n p k : ℕ)
      → Filling g c n p
      → Bound g c n p k
      → rounds fuel clock c ≡ some last
      → Rested last k
  unfolding rounds
  Filling-Rested zero clock c last n p k h bound e = cc e
  Filling-Rested (suc fuel) clock c last n p k h bound e =
      let more : (c.counter_for_end == 0) ≡ false = ground (arith, early c n p h) in
      let (c', f, next) = Filling-Steps g (clock + 1) c n p k h bound in
      rounds-Rested fuel (clock + 1) (end_round (clock + 1) c') last k next (rw (more, f) at e)
