-- ===== src/Tests/Metrics.antt =====
-- print_system_metrics of src/main.cpp, over three processes and the clocks of two cores.
use multicore_simulator.Prelude.{List, [], ◌∷◌, ◌+◌, ◌≡◌, refl, arith, add64, sub64}
use multicore_simulator.Process.{Pcb, new_pcb}
use multicore_simulator.Machine.{Worker, new_worker}
use multicore_simulator.Metrics.{
  count_processes, no_totals, derived_wait, simulation_time, total_core_busy,
}
use multicore_simulator.Metrics.Sums.{sum, stay, count_processes-sums}

abbrev three : List Pcb
three =
    record new_pcb { finish_time = 40; cpu_time = 25; io_cycles = 7 }
    ∷ record new_pcb { finish_time = 90; cpu_time = 30; io_cycles = 1 }
    ∷ record new_pcb { arrival_time = 5; finish_time = 60; cpu_time = 20 }
    ∷ []

abbrev two_workers : List Worker
two_workers =
    record new_worker { core_clock = 40; core_busy = 40 }
    ∷ record new_worker { core_clock = 90; core_busy = 35 }
    ∷ []

waits : (count_processes no_totals three).total_waiting ≡ 101
unfolding count_processes add64 sub64
waits = refl

-- A process that waited for I/O longer than its core's clock ran is reported with no wait.
no_wait : derived_wait (record new_pcb { finish_time = 40; cpu_time = 25; io_cycles = 700 }) ≡ 0
unfolding derived_wait sub64
no_wait = refl

busy : total_core_busy 0 two_workers ≡ 75
unfolding total_core_busy add64
busy = refl

latest : simulation_time three two_workers ≡ 90
unfolding simulation_time add64 sub64
latest = refl

count_processes-sums_example :
    ((count_processes no_totals three).total_turnaround ≡ sum stay three)
    × ((count_processes no_totals three).total_waiting
          + (count_processes no_totals three).total_cpu_time
          + sum (λ p. p.io_cycles) three
        ≡ (count_processes no_totals three).total_turnaround)
unfolding sum
count_processes-sums_example =
    count_processes-sums three
      ((omega arith, omega arith), ((omega arith, omega arith), ((omega arith, omega arith), tt)))
      (omega arith)
