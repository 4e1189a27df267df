-- ===== src/Machine/Call.antt =====
-- The rest of `coreWorker` of src/main.cpp: the call of Core and what follows it.
use multicore_simulator.Prelude.{
  ℕ, Bool, true, false, [], ◌∷◌, some, ◌≡◌, ◌≢◌, ◌<◌, ◌+◌, ◌==◌, refl, sym, subst, ap, ◌∙◌, arith,
  length, get_or, if◌then◌else◌,
}
use mathlib.Core.Option.{some_inj}
use multicore_simulator.Prelude.Sorting.{Sorter}
use multicore_simulator.Process.{finished, modify}
use multicore_simulator.Memory.Manager.Quantum.{state_of}
use multicore_simulator.Control.Core.{Core, ◌>>=◌}
use multicore_simulator.Control.Execute.Keeps.{AllCoded}
use multicore_simulator.Control.Execute.Run.Termination.{stages-Paced, end_round-AllCoded}
use multicore_simulator.Control.Execute.Run.{count_down, is_over, end_round, finish}
use multicore_simulator.Machine.{
  Phase, looking, stopped, executing, parking, Worker, new_worker, Machine, end_call, end_of_round,
  run_round, step_phase, core_step,
}
use multicore_simulator.Machine.Held.{holds}
use multicore_simulator.Machine.Step.{Ends}
use multicore_simulator.Machine.Turn.{Runs, Lives, Turn, look_for_process-Turn}
-- The end of a round changes the counters of its own block.
use multicore_simulator.Machine.Settle.{end_call-Turn, end_of_round-Turn, park-Turn}

pub end_round-keeps :
    (clock : ℕ) (c : Core)
    → ((end_round clock c).process ≡ c.process)
      × ((q : ℕ) → state_of (end_round clock c).system q ≡ state_of c.system q)
unfolding end_round count_down is_over modify
end_round-keeps clock c = ground arith

finish-others :
    (c : Core) (q : ℕ) → q ≢ c.process → state_of (finish c).system q ≡ state_of c.system q
unfolding finish modify
finish-others c q n = ground (arith, n)

-- Core finishes no process but one of which the end was read.
finish-ended :
    (c : Core) (q : ℕ)
    → state_of c.system q ≢ finished
    → state_of (finish c).system q ≡ finished
    → c.end_program ≡ true
unfolding finish modify
finish-ended c q n e = ground (arith, n, e)

-- The processes that are finished in a machine.
abbrev pub Over : Machine → ℕ → Type 0
Over m q = state_of m.system q ≡ finished

module _ (sorter : Sorter ℕ) where
  run_round-Turn :
      (m m' : Machine) (i : ℕ) (w : Worker) (p before clock : ℕ) (c : Core)
      → AllCoded c.instructions
      → c.process ≡ p
      → state_of m.system p ≢ finished
      → run_round sorter m i w p before clock c ≡ some m'
      → Turn (Ends (executing p before clock c)) (Over m) m i (p ∷ []) m'
  unfolding run_round
  run_round-Turn m m' i w p before clock c all own alive e =
      let shared = record c { system = m.system } in
      let (next, k, paced) = stages-Paced shared all in
      let (here, states) = end_round-keeps (clock + 1) next in
      choose next (end_round-AllCoded (clock + 1) next (paced.coded all))
        (here ∙ paced.process ∙ own) (λ q f. paced.unfinished q (sym (states q) ∙ f))
        (c.counter_for_end == 0) refl
        (ap
            (λ o.
              if c.counter_for_end == 0
              then some (end_call sorter m i w p before (finish shared))
              else (o >>= λ next.
                  some
                    (end_of_round sorter m i w p before (clock + 1) (end_round (clock + 1) next))))
            (sym k)
          ∙ e)
    where
      choose :
          (next : Core)
          → AllCoded (end_round (clock + 1) next).instructions
          → (end_round (clock + 1) next).process ≡ p
          → ((q : ℕ) → state_of (end_round (clock + 1) next).system q ≡ finished → Over m q)
          → (b : Bool) → (c.counter_for_end == 0) ≡ b
          → (if b
              then some (end_call sorter m i w p before (finish (record c { system = m.system })))
              else some
                  (end_of_round sorter m i w p before (clock + 1) (end_round (clock + 1) next)))
            ≡ some m'
          → Turn (Ends (executing p before clock c)) (Over m) m i (p ∷ []) m'
      choose next ok here keep true empty k =
          let shared = record c { system = m.system } in
          let over : state_of (finish shared).system p ≡ finished
              → Ends (executing p before clock c) p =
            λ f. unfold Ends in (refl, ground (arith, empty), finish-ended shared p alive f) in
          subst (Turn (Ends (executing p before clock c)) (Over m) m i (p ∷ [])) (some_inj.0 k) (
            end_call-Turn sorter _ _ m i w p before (finish shared) over
              (λ q n f. sym (finish-others shared q (λ g. n (g ∙ own))) ∙ f))
      choose next ok here keep false empty k =
          subst (Turn (Ends (executing p before clock c)) (Over m) m i (p ∷ [])) (some_inj.0 k)
            (end_of_round-Turn sorter _ _ m i w p before _ _ ok here (λ f. alive (keep p f)) keep)

  pub core_step-Turn :
      (m m' : Machine) (i : ℕ)
      → i < length m.workers
      → let phase = (get_or m.workers i new_worker).phase in
        Runs phase
        → Lives phase m.system
        → core_step sorter m i ≡ some m'
        → Turn (Ends phase) (Over m) m i (holds phase) m'
  unfolding core_step
  core_step-Turn m m' i h ok alive e = choose (get_or m.workers i new_worker).phase refl ok alive e
    where
      choose :
          (phase : Phase)
          → (get_or m.workers i new_worker).phase ≡ phase
          → Runs phase
          → Lives phase m.system
          → step_phase sorter m i (get_or m.workers i new_worker) phase ≡ some m'
          → Turn (Ends phase) (Over m) m i (holds phase) m'
      choose looking l ok alive k =
          unfold step_phase holds in
          subst (Turn (Ends looking) (Over m) m i []) (some_inj.0 k)
            (look_for_process-Turn _ _ m (λ q f. f) i h l)
      choose stopped l ok alive k = unfold step_phase in absurd (ground arith)
      choose (executing p before clock c) l ok alive k =
          unfold step_phase holds Runs Lives in
          run_round-Turn m m' i (get_or m.workers i new_worker) p before clock c ok.0 ok.1 alive k
      choose (parking p) l ok alive k =
          unfold step_phase holds in
          subst (Turn (Ends (parking p)) (Over m) m i (p ∷ [])) (some_inj.0 k)
            (park-Turn sorter _ _ m i (get_or m.workers i new_worker) p (λ q f. f))
