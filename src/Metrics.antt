-- ===== src/Metrics.antt =====
-- src/main.cpp: the numbers of print_system_metrics, before it divides them for the averages. The loop
-- over the processes keeps its running totals as a `Totals`.
pub mod Sums
pub mod Last
use multicore_simulator.Prelude.{ℕ, Bool, List, [], ◌∷◌, ◌==◌, ltb, if◌then◌else◌, add64, sub64}
use multicore_simulator.Process.{Pcb}
use multicore_simulator.Machine.{Worker}

-- A uint64_t read as an int64_t, with 0 for one that is negative so.
unfoldable pub not_negative : ℕ → ℕ
not_negative n = if ltb n 9223372036854775808 then n else 0

unfoldable pub turnaround : Pcb → ℕ
turnaround p = sub64 p.finish_time p.arrival_time

unfoldable pub derived_wait : Pcb → ℕ
unfolding not_negative turnaround
derived_wait p = not_negative (sub64 (sub64 (turnaround p) p.cpu_time) p.io_cycles)

pub record Totals : Type 0 where
  pub total_waiting : ℕ
  pub total_turnaround : ℕ
  pub total_cpu_time : ℕ
  pub max_finish_time : ℕ

abbrev pub no_totals : Totals
no_totals = record {
  total_waiting = 0;
  total_turnaround = 0;
  total_cpu_time = 0;
  max_finish_time = 0;
}

unfoldable pub later : ℕ → ℕ → ℕ
later time other = if ltb time other then other else time

-- One round of the loop over the processes.
unfoldable pub count_process : Totals → Pcb → Totals
unfolding derived_wait turnaround later
count_process t p = record {
  total_waiting = add64 t.total_waiting (derived_wait p);
  total_turnaround = add64 t.total_turnaround (turnaround p);
  total_cpu_time = add64 t.total_cpu_time p.cpu_time;
  max_finish_time = later t.max_finish_time p.finish_time;
}

unfoldable pub count_processes : Totals → List Pcb → Totals
unfolding count_process
count_processes t [] = t
count_processes t (p ∷ ps) = count_processes (count_process t p) ps

unfoldable pub last_clock : ℕ → List Worker → ℕ
unfolding later
last_clock time [] = time
last_clock time (w ∷ ws) = last_clock (later time w.core_clock) ws

-- `max_finish_time` after the second loop.
unfoldable pub simulation_time : List Pcb → List Worker → ℕ
unfolding count_processes last_clock
simulation_time ps ws =
    let time = (count_processes no_totals ps).max_finish_time in
    if time == 0 then last_clock time ws else time

unfoldable pub total_core_busy : ℕ → List Worker → ℕ
total_core_busy busy [] = busy
total_core_busy busy (w ∷ ws) = total_core_busy (add64 busy w.core_busy) ws
