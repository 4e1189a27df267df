-- ===== src/Machine.antt =====
-- src/main.cpp: the workers of the cores, and the worker of the blocked list, over the scheduler, the
-- memory and the I/O manager that they share.
--
-- A step of a worker is one call on a shared object with the local work around it; a call of `Core`
-- takes one step for each round of the pipeline, so that the rounds of the cores interleave. A worker's
-- clock and busy time stand with it.
pub mod Held
pub mod Step
pub mod Turn
pub mod Settle
pub mod Call
pub mod Workers
pub mod Reinsert
pub mod Placed
pub mod Aside
pub mod Safety
pub mod Follow
pub mod Progress
use multicore_simulator.Prelude.{
  ℕ, Bool, true, false, List, [], ◌∷◌, ◌++◌, Option, none, some, ◌+◌, ◌-◌, ◌==◌, ltb, ◌||◌,
  if◌then◌else◌, length, get_or, set, replicate, add64,
}
use multicore_simulator.Prelude.Sorting.{Sorter}
use multicore_simulator.Process.{Pcb, Processes, State, ready, running, blocked, finished, modify}
use multicore_simulator.Memory.Manager.{System}
use multicore_simulator.Scheduler.{
  SchedulingPolicy, Scheduler, new_scheduler, add_process, get_next_process, has_processes,
  is_preemptive, push_front,
}
use multicore_simulator.Loader.{Loaded}
use multicore_simulator.Control.Core.{Core, ◌>>=◌}
use multicore_simulator.Control.Execute.Run.{new_core, stages, end_round, finish}
use multicore_simulator.Io.{
  IoManager, new_io_manager, Draws, register_process_waiting_for_io, ask_devices, queue_request,
  process_request,
}

abbrev pub num_cores : ℕ
num_cores = 4

-- Where `coreWorker` stands: at the head of its `while`, in the call of Core with the process, the
-- cycles before the call and the clock of the call, before the lock of the blocked list, or behind the
-- `while`.
pub data Phase : Type 0 where
  looking stopped : Phase
  executing : ℕ → ℕ → ℕ → Core → Phase
  parking : ℕ → Phase

pub record Worker : Type 0 where
  pub phase : Phase
  pub print_lock : Bool
  pub core_clock : ℕ
  pub core_busy : ℕ

unfoldable pub new_worker : Worker
new_worker = record { phase = looking; print_lock = true; core_clock = 0; core_busy = 0 }

pub record Machine : Type 0 where
  pub scheduler : Scheduler
  pub system : System
  pub io_manager : IoManager
  pub blocked_list : List ℕ
  pub finished_processes : ℕ
  pub total_processes : ℕ
  pub workers : List Worker

unfoldable pub set_worker : Machine → ℕ → Worker → Machine
set_worker m i w = record m { workers = set m.workers i w }

unfoldable pub set_processes : Machine → Processes → Machine
set_processes m ps = record m { system = record m.system { processes = ps } }

-- What follows the call of getNextProcess.
unfoldable pub take_turn : Machine → ℕ → Worker → Scheduler × Processes × Option ℕ → Machine
unfolding set_worker set_processes modify
take_turn m i w (s, ps, none) = record (set_processes m ps) { scheduler = s }
take_turn m i w (s, ps, some p) =
    let ps' = modify p (λ b. record b { state = running }) ps in
    let m' = record (set_processes m ps') { scheduler = s } in
    set_worker m' i (record w {
      phase = executing p (ps' p).pipeline_cycles 0 (new_core m'.system p [] w.print_lock);
    })

-- The head of the `while`.
unfoldable pub look_for_process : Machine → ℕ → Worker → Machine
unfolding take_turn
look_for_process m i w =
    if ltb m.finished_processes m.total_processes || has_processes m.scheduler
    then take_turn m i w (get_next_process m.scheduler m.system.processes w.core_clock)
    else set_worker m i (record w { phase = stopped })

-- The blocked list is locked and gets the process.
unfoldable pub park : Machine → ℕ → Worker → ℕ → Machine
unfolding set_worker
park m i w p =
    set_worker (record m { blocked_list = m.blocked_list ++ p ∷ [] }) i
      (record w { phase = looking })

unfoldable pub is_ready : State → Bool
is_ready ready = true
is_ready _ = false

module _ (sorter : Sorter ℕ) where
  -- The default case of the `switch`, whether or not the policy is preemptive.
  unfoldable pub preempt : Machine → ℕ → Worker → ℕ → Bool → Machine
  unfolding set_worker set_processes modify
  preempt m i w p true =
      let ps = modify p (λ b. record b { state = ready }) m.system.processes in
      let (s, ps') = add_process sorter m.scheduler ps p w.core_clock in
      set_worker (record (set_processes m ps') { scheduler = s }) i w
  preempt m i w p false =
      let ps = modify p (λ b. record b { state = running }) m.system.processes in
      set_worker (record (set_processes m ps) { scheduler = push_front m.scheduler p }) i w

  -- The `switch` on the state; the phase of `w` is `looking`.
  unfoldable pub settle : Machine → ℕ → Worker → ℕ → State → Machine
  unfolding set_worker set_processes modify preempt
  settle m i w p blocked =
      set_worker (record m { io_manager = register_process_waiting_for_io m.io_manager p }) i
        (record w { phase = parking p })
  settle m i w p finished =
      let ps = modify p (λ b. record b { finish_time = w.core_clock }) m.system.processes in
      set_worker (record (set_processes m ps) { finished_processes = m.finished_processes + 1 }) i w
  settle m i w p ready = preempt m i w p (is_preemptive m.scheduler)
  settle m i w p running = preempt m i w p (is_preemptive m.scheduler)

  -- What follows the call of Core; `used` are its cycles.
  unfoldable pub end_turn : Machine → ℕ → Worker → ℕ → ℕ → Bool → Machine
  unfolding set_processes modify settle
  end_turn m i w p used print_lock =
      let ps = modify p (λ b. record b { cpu_time = add64 b.cpu_time used }) m.system.processes in
      let w' : Worker = record {
        phase = looking;
        print_lock = print_lock;
        core_clock = add64 w.core_clock used;
        core_busy = add64 w.core_busy used;
      } in
      settle (set_processes m ps) i w' p (ps p).state

  -- The end of the call of Core, and its cycles.
  unfoldable pub end_call : Machine → ℕ → Worker → ℕ → ℕ → Core → Machine
  unfolding end_turn
  end_call m i w p before c =
      let after = (c.system.processes p).pipeline_cycles in
      let used = if ltb before after then after - before else 0 in
      end_turn (record m { system = c.system }) i w p used c.print_lock

  -- The machine after a round of the `while` in Core.
  unfoldable pub end_of_round : Machine → ℕ → Worker → ℕ → ℕ → ℕ → Core → Machine
  unfolding set_worker
  end_of_round m i w p before clock c =
      set_worker (record m { system = c.system }) i
        (record w { phase = executing p before clock c })

  unfoldable pub run_round : Machine → ℕ → Worker → ℕ → ℕ → ℕ → Core → Option Machine
  unfolding end_call end_of_round
  run_round m i w p before clock c =
      let shared = record c { system = m.system } in
      if c.counter_for_end == 0 then some (end_call m i w p before (finish shared)) else do
        next ← stages shared
        some (end_of_round m i w p before (clock + 1) (end_round (clock + 1) next))

  unfoldable pub step_phase : Machine → ℕ → Worker → Phase → Option Machine
  unfolding look_for_process run_round park
  step_phase m i w looking = some (look_for_process m i w)
  step_phase m i w (executing p before clock c) = run_round m i w p before clock c
  step_phase m i w (parking p) = some (park m i w p)
  step_phase m i w stopped = none

  -- The step of core `i`; `none` if its worker has returned, or if the control unit throws.
  unfoldable pub core_step : Machine → ℕ → Option Machine
  unfolding step_phase
  core_step m i = let w = get_or m.workers i new_worker in step_phase m i w w.phase

  -- The loop over the blocked list.
  unfoldable pub reinsert : Scheduler → Processes → List ℕ → Scheduler × Processes × List ℕ
  unfolding is_ready
  reinsert s ps [] = (s, ps, [])
  reinsert s ps (p ∷ rest) = elim (is_ready (ps p).state) [
    | true ↦ let (s', ps') = add_process sorter s ps p 0 in reinsert s' ps' rest
    | false ↦ let (s', ps', kept) = reinsert s ps rest in (s', ps', p ∷ kept)
  ]

  -- A round of `ioWorker`.
  unfoldable pub io_worker_step : Machine → Machine
  unfolding reinsert set_processes
  io_worker_step m =
      let (s, ps, kept) = reinsert m.scheduler m.system.processes m.blocked_list in
      if ltb m.finished_processes m.total_processes
      then record (set_processes m ps) { scheduler = s; blocked_list = kept }
      else m

-- `run_simulation_with_policy` behind the batch.
unfoldable pub new_machine : Loaded → Machine
new_machine l = record {
  scheduler = l.scheduler;
  system = l.system;
  io_manager = new_io_manager;
  blocked_list = [];
  finished_processes = 0;
  total_processes = length l.process_list;
  workers = replicate num_cores new_worker;
}

-- The stages of the I/O manager's thread.
unfoldable pub ask_step : Draws → Machine → Machine
ask_step d m = record m { io_manager = ask_devices d m.io_manager }

unfoldable pub queue_step : Draws → Machine → Machine
queue_step d m = record m { io_manager = queue_request d m.io_manager }

unfoldable pub process_step : Draws → Machine → Machine
unfolding set_processes
process_step d m =
    let (io, ps) = process_request d m.io_manager m.system.processes in
    record (set_processes m ps) { io_manager = io }
