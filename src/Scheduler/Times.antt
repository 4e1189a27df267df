-- ===== src/Scheduler/Times.antt =====
-- The times that src/cpu/Scheduler.cpp keeps in a process block.
use multicore_simulator.Prelude.{ℕ, List, ◌∷◌, ◌≡◌}
use multicore_simulator.Prelude.Sorting.{Sorter}
use multicore_simulator.Process.{Processes}
use multicore_simulator.Scheduler.{Scheduler, add_process, get_next_process}

module _ (sorter : Sorter ℕ) where
  -- The blocks after `addProcess` at `enter`, followed by `getNextProcess` at `leave`.
  abbrev pub served : Scheduler → Processes → ℕ → ℕ → ℕ → Processes
  served s ps p enter leave =
      let (s', ps') = add_process sorter s ps p enter in (get_next_process s' ps' leave).1

  -- The process stands first when it is asked for.
  abbrev pub IsNext : Scheduler → Processes → ℕ → ℕ → List ℕ → Type 0
  IsNext s ps p enter rest = (add_process sorter s ps p enter).0.ready_queue ≡ p ∷ rest
