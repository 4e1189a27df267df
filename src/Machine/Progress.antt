-- ===== src/Machine/Progress.antt =====
-- That a worker of src/main.cpp comes back from Core.
use multicore_simulator.Prelude.{
  ℕ, zero, suc, Bool, true, false, List, some, ◌≡◌, ◌≤◌, ◌<◌, ◌+◌, ◌⊎◌, inl, inr, ◌==◌, ==_refl,
  leb, refl, sym, ap, ◌∙◌, subst, arith, length, length-set, get_or, set, replicate, get_or-set,
  get_or-past, if◌then◌else◌, Bool-cases,
}
use multicore_simulator.Prelude.Sorting.{Sorter}
use multicore_simulator.Process.{State, ready, running, blocked, finished}
use multicore_simulator.Memory.Manager.Quantum.{quantum_of}
use multicore_simulator.Scheduler.{is_preemptive}
use multicore_simulator.Control.Core.{Core}
use multicore_simulator.Control.Execute.Keeps.{AllCoded}
use multicore_simulator.Control.Execute.Run.{stages, end_round, finish}
use multicore_simulator.Control.Execute.Run.Termination.{
  stages-Paced, Enough, end_round-Enough, end_round-AllCoded,
}
use multicore_simulator.Loader.{Input}
use multicore_simulator.Machine.{
  Phase, looking, executing, parking, Worker, new_worker, Machine, set_worker, set_processes,
  preempt, settle, end_turn, end_call, end_of_round, run_round, step_phase, core_step,
}
use multicore_simulator.Machine.Turn.{Runs}
use multicore_simulator.Machine.Call.{end_round-keeps}
use multicore_simulator.Machine.Step.{Reach}
use multicore_simulator.Machine.Safety.{Reach-Placed}
use multicore_simulator.Machine.Follow.{follow}

-- The worker looks for its next process, or puts `p` into the blocked list next.
abbrev pub IsBack : Phase → ℕ → Type 0
IsBack phase p = (phase ≡ looking) ⊎ (phase ≡ parking p)

abbrev Leaves : Machine → ℕ → ℕ → Machine → Type 0
Leaves m i p m' = (v : Worker) × (m'.workers ≡ set m.workers i v) × IsBack v.phase p

module _ (sorter : Sorter ℕ) where
  preempt-Leaves :
      (m : Machine) (i : ℕ) (w : Worker) (p : ℕ) (preemptive : Bool)
      → w.phase ≡ looking
      → Leaves m i p (preempt sorter m i w p preemptive)
  unfolding preempt set_worker set_processes
  preempt-Leaves m i w p true l = (w, refl, inl l)
  preempt-Leaves m i w p false l = (w, refl, inl l)

  settle-Leaves :
      (m : Machine) (i : ℕ) (w : Worker) (p : ℕ) (s : State)
      → w.phase ≡ looking
      → Leaves m i p (settle sorter m i w p s)
  unfolding settle set_worker set_processes
  settle-Leaves m i w p ready l = preempt-Leaves m i w p (is_preemptive m.scheduler) l
  settle-Leaves m i w p running l = preempt-Leaves m i w p (is_preemptive m.scheduler) l
  settle-Leaves m i w p blocked l = (record w { phase = parking p }, refl, inr refl)
  settle-Leaves m i w p finished l = (w, refl, inl l)

  end_call-Leaves :
      (m : Machine) (i : ℕ) (w : Worker) (p before : ℕ) (c : Core)
      → Leaves m i p (end_call sorter m i w p before c)
  unfolding end_call end_turn set_processes
  end_call-Leaves m i w p before c = settle-Leaves _ i _ p _ refl

  core_step-executing :
      (m : Machine) (i p before clock : ℕ) (c : Core)
      → (get_or m.workers i new_worker).phase ≡ executing p before clock c
      → core_step sorter m i ≡ run_round sorter m i (get_or m.workers i new_worker) p before clock c
  unfolding core_step step_phase
  core_step-executing m i p before clock c l =
      ap (step_phase sorter m i (get_or m.workers i new_worker)) l

  run_round-over :
      (m : Machine) (i : ℕ) (w : Worker) (p before clock : ℕ) (c : Core)
      → (c.counter_for_end == 0) ≡ true
      → run_round sorter m i w p before clock c
        ≡ some (end_call sorter m i w p before (finish (record c { system = m.system })))
  unfolding run_round
  run_round-over m i w p before clock c h = rw h refl

  run_round-goes_on :
      (m : Machine) (i : ℕ) (w : Worker) (p before clock : ℕ) (c next : Core)
      → (c.counter_for_end == 0) ≡ false
      → stages (record c { system = m.system }) ≡ some next
      → run_round sorter m i w p before clock c
        ≡ some (end_of_round sorter m i w p before (clock + 1) (end_round (clock + 1) next))
  unfolding run_round
  run_round-goes_on m i w p before clock c next h k = rw (h, k) refl

  -- After the worker of core `i` was set.
  set-phase :
      (ws : List Worker) (i : ℕ) (v : Worker)
      → i < length ws
      → (get_or (set ws i v) i new_worker).phase ≡ v.phase
  set-phase ws i v h =
      ap (λ (u : Worker). u.phase) (get_or-set ws i i v new_worker h)
      ∙ ap (λ b. (if b then v else get_or ws i new_worker).phase) (==_refl i)

  -- The steps of the worker until it is back, when it has at most `fuel` rounds to go.
  follow-IsBack :
      (fuel : ℕ) (m : Machine) (i p before clock : ℕ) (c : Core)
      → i < length m.workers
      → (get_or m.workers i new_worker).phase ≡ executing p before clock c
      → AllCoded c.instructions
      → c.process ≡ p
      → Enough fuel clock (record c { system = m.system })
      → (n : ℕ) × (m' : Machine) × (n ≤ fuel)
        × (follow sorter (replicate n i) m ≡ some m')
        × IsBack (get_or m'.workers i new_worker).phase p
  unfolding follow replicate end_of_round set_worker
  follow-IsBack zero m i p before clock c h l all own (inl (ended, few)) =
      absurd (omega (arith, few))
  follow-IsBack zero m i p before clock c h l all own (inr few) = absurd (omega (arith, few))
  follow-IsBack (suc fuel) m i p before clock c h l all own enough =
      let w = get_or m.workers i new_worker in
      let step = core_step-executing m i p before clock c l in
      elim (Bool-cases (c.counter_for_end == 0)) [
        | inl e ↦
            let last = end_call sorter m i w p before (finish (record c { system = m.system })) in
            let done : core_step sorter m i ≡ some last =
              step ∙ run_round-over m i w p before clock c e in
            let (v, workers, back) =
              end_call-Leaves m i w p before (finish (record c { system = m.system })) in
            let here : (get_or last.workers i new_worker).phase ≡ v.phase =
              ap (λ ws. (get_or ws i new_worker).phase) workers ∙ set-phase m.workers i v h in
            (1, last, omega arith, rw done refl, subst (λ phase. IsBack phase p) (sym here) back)
        | inr e ↦
            let shared = record c { system = m.system } in
            let (next, k, paced) = stages-Paced shared all in
            let c' = end_round (clock + 1) next in
            let m1 = end_of_round sorter m i w p before (clock + 1) c' in
            let done : core_step sorter m i ≡ some m1 =
              step ∙ run_round-goes_on m i w p before clock c next e k in
            let rest =
              follow-IsBack fuel m1 i p before (clock + 1) c'
                (subst (λ n. i < n)
                  (sym (
                    length-set m.workers i
                      (record w { phase = executing p before (clock + 1) c' })))
                  h)
                (set-phase m.workers i (record w { phase = executing p before (clock + 1) c' }) h)
                (end_round-AllCoded (clock + 1) next (paced.coded all))
                ((end_round-keeps (clock + 1) next).0 ∙ paced.process ∙ own)
                (end_round-Enough fuel clock shared next paced (λ z. ground (arith, e, z))
                  enough) in
            let (n, m', few, run, back) = rest in (suc n, m', omega (arith, few), rw done run, back)
      ]

-- A worker that runs is one of the workers.
executing-below :
    (ws : List Worker) (i p before clock : ℕ) (c : Core)
    → (get_or ws i new_worker).phase ≡ executing p before clock c
    → i < length ws
executing-below ws i p before clock c l = elim (Bool-cases (leb (length ws) i)) [
  | inr e ↦ ground (arith, e)
  | inl e ↦
      let fresh : looking ≡ executing p before clock c =
        sym (
          ap (λ (v : Worker). v.phase) (get_or-past ws i new_worker (ground (arith, e)))
          ∙ unfold new_worker in refl)
        ∙ l in
      absurd (ground (arith, fresh))
]

-- A worker comes back from Core: in every machine that the threads come to, if a worker is in a call of
-- Core and takes its steps, it throws nothing and is out of the call after at most as many of them as
-- the quantum of its process, the rounds that empty the pipeline, and one; then it looks for its next
-- process, or is about to put this one into the blocked list.
pub Reach-returns :
    (input : Input) (m : Machine) (i p before clock : ℕ) (c : Core)
    → Reach input m
    → (get_or m.workers i new_worker).phase ≡ executing p before clock c
    → (n : ℕ) × (m' : Machine) × (n ≤ quantum_of m.system p + c.counter_for_end + 1)
      × (follow input.sorter (replicate n i) m ≡ some m')
      × IsBack (get_or m'.workers i new_worker).phase p
Reach-returns input m i p before clock c r l =
    let (all, own) : AllCoded c.instructions × (c.process ≡ p) =
      unfold Runs in subst Runs l ((Reach-Placed input m r).runs i) in
    follow-IsBack input.sorter (quantum_of m.system p + c.counter_for_end + 1) m i p before clock c
      (executing-below m.workers i p before clock c l) l all own
      (inr (omega (arith, ap (quantum_of m.system) own)))
