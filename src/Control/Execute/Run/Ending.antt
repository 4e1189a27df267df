-- ===== src/Control/Execute/Run/Ending.antt =====
-- The end of a program in `Core` of src/cpu/CONTROL_UNIT.cpp: the rounds after the one in which Fetch has
-- read the end word.
use mathlib.Core.Option.{some_inj}
use multicore_simulator.Prelude.{
  ℕ, zero, suc, true, false, some, ◌≡◌, ◌<◌, ◌+◌, ◌-◌, ◌==◌, ◌∙◌, refl, sym, ap, arith, Bool-cases,
  inl, inr, ==_refl, if◌then◌else◌, length, length-append, ◌++◌, subst, ◌∷◌, [],
}
use multicore_simulator.Process.{finished, modify}
use multicore_simulator.Memory.Manager.Quantum.{state_of}
use multicore_simulator.Control.Decode.{empty_instruction}
use multicore_simulator.Control.Core.{Core, account_pipeline_cycle, on_block}
use multicore_simulator.Control.Execute.{fetch}
use multicore_simulator.Control.Execute.Keeps.{AllCoded, Keeps}
use multicore_simulator.Control.Execute.Total.{fetch-Keeps}
use multicore_simulator.Control.Execute.Run.{
  fetch_stage, stages, is_over, count_down, end_round, rounds, finish,
}
use multicore_simulator.Control.Execute.Run.Termination.{
  before_fetch, end_round-AllCoded, AllCoded-append_empty,
}

-- A round of a core that has begun to empty its pipeline fetches nothing.
drained-round :
    (c : Core)
    → AllCoded c.instructions
    → c.counter_for_end < 5
    → (c' : Core) × (stages c ≡ some c') × Keeps c c'
unfolding fetch_stage
drained-round c h low =
    let (c', e, k) = before_fetch c h in
    let idle : (c'.counter_for_end == 5) ≡ false = ground (arith, k.counter_for_end) in
    (c', e ∙ rw idle refl, k)

-- The end of a round of a program that is over.
end_round-ended :
    (clock : ℕ) (c : Core)
    → c.end_program ≡ true
    → ((end_round clock c).counter_for_end ≡ c.counter_for_end - 1)
      × ((end_round clock c).end_program ≡ true)
      × ((end_round clock c).instructions ≡ c.instructions)
      × ((end_round clock c).process ≡ c.process)
unfolding end_round
end_round-ended clock c e =
    let counted = account_pipeline_cycle (record c { counter = c.counter + 1 }) in
    let over : is_over clock counted ≡ true = unfold is_over in ground (arith, e) in
    rw (over, count_down) (refl, e, refl, refl)

-- The core at the end of the loop, when nothing was fetched.
abbrev pub Emptied : Core → ℕ → ℕ → Type 0
Emptied last process size =
    (last.end_program ≡ true) × (last.process ≡ process) × (length last.instructions ≡ size)

pub rounds-Emptied :
    (fuel clock : ℕ) (c : Core)
    → AllCoded c.instructions
    → c.end_program ≡ true
    → c.counter_for_end < 5
    → c.counter_for_end < fuel
    → (last : Core) × (rounds fuel clock c ≡ some last)
      × Emptied last c.process (length c.instructions)
unfolding rounds
rounds-Emptied zero clock c h over low enough = absurd (omega arith)
rounds-Emptied (suc fuel) clock c h over low enough = elim (Bool-cases (c.counter_for_end == 0)) [
  | inl e ↦ (c, rw e refl, (over, refl, refl))
  | inr e ↦
      let (c', k, keeps) = drained-round c h low in
      let (counted, over', same, own) = end_round-ended (clock + 1) c' (keeps.finishing over) in
      let (last, f, (ends, process, size)) =
        rounds-Emptied fuel (clock + 1) (end_round (clock + 1) c')
          (end_round-AllCoded (clock + 1) c' (keeps.coded h)) over'
          (omega (arith, counted, keeps.counter_for_end))
          (ground (arith, counted, keeps.counter_for_end)) in
      (
        last,
        rw (e, k) f,
        (ends, process ∙ own ∙ keeps.process, size ∙ ap length same ∙ keeps.sized),
      )
]

pub finish-finished :
    (c : Core) → c.end_program ≡ true → state_of (finish c).system c.process ≡ finished
unfolding finish modify
finish-finished c e =
    let over : Core = on_block c (λ p. record p { state = finished }) in
    ap (λ b. state_of (if b then over else c).system c.process) e
    ∙ rw (==_refl c.process, state_of) refl

-- A round in which Fetch has taken part.
abbrev pub Fetched : Core → Core → Type 0
Fetched c c' =
    AllCoded c'.instructions
    × (c'.counter_for_end ≡ 5)
    × (c'.process ≡ c.process)
    × (length c'.instructions ≡ length c.instructions + 1)

pub stages-Fetched :
    (c c' : Core)
    → AllCoded c.instructions
    → c.counter_for_end ≡ 5
    → stages c ≡ some c'
    → Fetched c c'
unfolding fetch_stage
stages-Fetched c c' h full k =
    let (b, e, keeps) = before_fetch c h in
    let grown : Core = record b { instructions = b.instructions ++ empty_instruction ∷ [] } in
    let fetching : (b.counter_for_end == 5) ≡ true = ground (arith, keeps.counter_for_end) in
    let found : fetch grown ≡ c' = some_inj.0 (sym (e ∙ rw fetching refl) ∙ k) in
    let fetched = fetch-Keeps grown in
    subst (Fetched c) found (
      fetched.coded (AllCoded-append_empty b.instructions (keeps.coded h)),
      fetched.counter_for_end ∙ keeps.counter_for_end ∙ full,
      fetched.process ∙ keeps.process,
      fetched.sized
          ∙ length-append b.instructions (empty_instruction ∷ [])
          ∙ ap (λ n. n + 1) keeps.sized,
    )

-- The end word ends the process, whatever is still in the pipeline. Take a core that still fetches, and a
-- round of it, in which Fetch reads the end word. Then Core fetches nothing more, throws nothing and ends
-- within five more rounds, and the process is finished, also when one of the instructions ahead of the end
-- word is a branch that is taken in one of these rounds.
pub rounds-ended :
    (fuel clock : ℕ) (c c' : Core)
    → AllCoded c.instructions
    → c.counter_for_end ≡ 5
    → stages c ≡ some c'
    → c'.end_program ≡ true
    → 5 < fuel
    → (last : Core) × (rounds fuel clock c ≡ some last)
      × (length last.instructions ≡ length c.instructions + 1)
      × (state_of (finish last).system c.process ≡ finished)
unfolding rounds
rounds-ended zero clock c c' h full k over enough = absurd (omega arith)
rounds-ended (suc fuel) clock c c' h full k over enough =
    let (coded, full', own, size) = stages-Fetched c c' h full k in
    let going : (c.counter_for_end == 0) ≡ false = ground (arith, full) in
    let (counted, over', same, own') = end_round-ended (clock + 1) c' over in
    let (last, f, (ends, process, size')) =
      rounds-Emptied fuel (clock + 1) (end_round (clock + 1) c')
        (end_round-AllCoded (clock + 1) c' coded) over' (omega (arith, counted))
        (omega (arith, counted)) in
    (
      last,
      rw (going, k) f,
      size' ∙ ap length same ∙ size,
      ap (state_of (finish last).system) (sym (process ∙ own' ∙ own)) ∙ finish-finished last ends,
    )
