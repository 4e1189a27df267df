-- ===== src/Tests/Scheduling.antt =====
-- The properties of src/cpu/Scheduler.cpp at three processes of different priorities.
use multicore_simulator.Prelude.{ℕ, [], ◌∷◌, ◌≡◌, inl, refl}
use multicore_simulator.Prelude.Int.{pos}
use multicore_simulator.Prelude.Sorting.{Sorter, insertion_sorter}
use multicore_simulator.Process.{Processes, new_pcb}
use multicore_simulator.Scheduler.{
  Scheduler, fcfs, sjn, priority, new_scheduler, add_process, set_policy,
}
use multicore_simulator.Scheduler.Queue.{add_all, drain, drain-add_all}
use multicore_simulator.Scheduler.Order.{IsQueued, add_process-IsQueued}

-- Process p has priority p.
abbrev processes : Processes
processes p = record new_pcb { pid = p; priority = pos p }

abbrev by_priority : Scheduler
by_priority = record { ready_queue = 9 ∷ 4 ∷ 2 ∷ []; policy = priority; time_slice = 5 }

abbrev sorter : Sorter ℕ
sorter = insertion_sorter ℕ

add_process-IsQueued_example :
    let (s', ps') = add_process sorter by_priority processes 7 3 in
    let t = set_policy sorter by_priority processes sjn in
    IsQueued priority ps' (9 ∷ 4 ∷ 2 ∷ 7 ∷ []) s'.ready_queue
    × (s'.policy ≡ priority)
    × IsQueued sjn processes (9 ∷ 4 ∷ 2 ∷ []) t.ready_queue
    × (t.policy ≡ sjn)
add_process-IsQueued_example = add_process-IsQueued sorter by_priority processes 7 3 sjn

drain-add_all_example :
    let (s, ps) = add_all sorter (new_scheduler fcfs 5) processes (4 ∷ 9 ∷ 2 ∷ []) 0 in
    drain 3 s ps 8 ≡ 4 ∷ 9 ∷ 2 ∷ []
drain-add_all_example = drain-add_all sorter fcfs 5 0 8 processes (4 ∷ 9 ∷ 2 ∷ []) (inl refl)

-- Process 4 has waited for 5 cycles and comes to an idle scheduler.
abbrev idle : Scheduler
idle = new_scheduler fcfs 5

abbrev waited : Processes
waited p = record new_pcb { waiting_time = 5 }
