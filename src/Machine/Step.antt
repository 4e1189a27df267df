-- ===== src/Machine/Step.antt =====
-- The steps of the threads that src/main.cpp starts, in any order.
use multicore_simulator.Prelude.{ℕ, true, some, ◌≡◌, ◌<◌, ◌⊎◌, length, get_or}
use multicore_simulator.Prelude.Sorting.{Sorter}
use multicore_simulator.Io.{Draws}
use multicore_simulator.Loader.{Input, load_all}
use multicore_simulator.Machine.{
  Phase, looking, stopped, executing, parking, new_worker, Machine, core_step, io_worker_step,
  ask_step, queue_step, process_step, new_machine,
}

pub data Step (sorter : Sorter ℕ) (m : Machine) : Machine → Type 0 where
  core :
      (i : ℕ) {m' : Machine}
      → i < length m.workers
      → core_step sorter m i ≡ some m'
      → Step sorter m m'
  io_worker : Step sorter m (io_worker_step sorter m)
  ask : (d : Draws) → Step sorter m (ask_step d m)
  queue : (d : Draws) → Step sorter m (queue_step d m)
  process : (d : Draws) → Step sorter m (process_step d m)

-- The worker is at the end of its call of Core with `p`: the end of the program was read in this call,
-- and the pipeline is empty.
unfoldable pub Ends : Phase → ℕ → Type 0
Ends looking p = ⊥
Ends stopped p = ⊥
Ends (executing q before clock c) p = (q ≡ p) × (c.counter_for_end ≡ 0) × (c.end_program ≡ true)
Ends (parking q) p = ⊥

-- The step is that of a worker which comes back from Core with `p` at the end of its program.
unfoldable pub Ending : {sorter : Sorter ℕ} {m m' : Machine} → Step sorter m m' → ℕ → Type 0
unfolding Ends
Ending {m = m} (Step.core i h e) p = Ends (get_or m.workers i new_worker).phase p
Ending Step.io_worker p = ⊥
Ending (Step.ask d) p = ⊥
Ending (Step.queue d) p = ⊥
Ending (Step.process d) p = ⊥

-- The machines that a run comes to.
pub data Reach (input : Input) : Machine → Type 0 where
  start : Reach input (new_machine (load_all input))
  later : {m m' : Machine} → Reach input m → Step input.sorter m m' → Reach input m'

-- The run has a step in which `p` ended.
unfoldable pub Ended : {input : Input} {m : Machine} → Reach input m → ℕ → Type 0
Ended Reach.start p = ⊥
Ended (Reach.later r s) p = Ended r p ⊎ Ending s p
