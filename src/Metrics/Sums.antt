-- ===== src/Metrics/Sums.antt =====
-- print_system_metrics of src/main.cpp: the totals against sums without overflow.
use multicore_simulator.Prelude.{
  ℕ, List, [], ◌∷◌, ◌+◌, ◌-◌, ◌≤◌, ◌<◌, ◌≡◌, arith, u64_mod, add64, sub64,
}
use multicore_simulator.Process.{Pcb}
use multicore_simulator.Machine.{Worker}
use multicore_simulator.Metrics.{
  total_core_busy, Totals, no_totals, not_negative, turnaround, derived_wait, count_process,
  count_processes,
}

-- The times of a process fit each other: it arrived, computed and waited for I/O before it finished,
-- at a time that is not negative as an int64_t.
abbrev Timed : Pcb → Type 0
Timed p =
    (p.arrival_time + p.cpu_time + p.io_cycles ≤ p.finish_time)
    × (p.finish_time < 9223372036854775808)

abbrev pub AllTimed : List Pcb → Type 0
AllTimed [] = Unit
AllTimed (p ∷ ps) = Timed p × AllTimed ps

unfoldable pub sum {ℓ} : {A : Type ℓ} → (A → ℕ) → List A → ℕ
sum f [] = 0
sum f (x ∷ xs) = f x + sum f xs

-- The time from the arrival of a process to its end.
abbrev pub stay : Pcb → ℕ
stay p = p.finish_time - p.arrival_time

turnaround-stay : (p : Pcb) → Timed p → turnaround p ≡ stay p
unfolding turnaround sub64
turnaround-stay p (fits, small) = omega (arith, fits, small)

derived_wait-rest : (p : Pcb) → Timed p → derived_wait p + p.cpu_time + p.io_cycles ≡ stay p
unfolding derived_wait not_negative turnaround sub64
derived_wait-rest p (fits, small) = ground (arith, fits, small)

abbrev Counted : Totals → List Pcb → Totals → Type 0
Counted t ps t' =
    (t'.total_turnaround ≡ t.total_turnaround + sum stay ps)
    × (t'.total_cpu_time ≡ t.total_cpu_time + sum (λ p. p.cpu_time) ps)
    × (t'.total_waiting + sum (λ p. p.cpu_time) ps + sum (λ p. p.io_cycles) ps
        ≡ t.total_waiting + sum stay ps)

-- The totals so far are no more than the turnaround, so that none of them wraps before it.
abbrev Within : Totals → Type 0
Within t = t.total_waiting + t.total_cpu_time ≤ t.total_turnaround

count_process-Counted :
    (t : Totals) (p : Pcb)
    → Timed p
    → Within t
    → t.total_turnaround + stay p < u64_mod
    → Counted t (p ∷ []) (count_process t p) × Within (count_process t p)
unfolding count_process sum add64
count_process-Counted t p fit within small =
    let stays : turnaround p ≡ stay p = turnaround-stay p fit in
    let rest : derived_wait p + p.cpu_time + p.io_cycles ≡ stay p = derived_wait-rest p fit in
    ((omega arith, omega arith, omega arith), omega arith)

count_processes-Counted :
    (t : Totals) (ps : List Pcb)
    → AllTimed ps
    → Within t
    → t.total_turnaround + sum stay ps < u64_mod
    → Counted t ps (count_processes t ps)
unfolding count_processes sum
count_processes-Counted t [] fits within small = (omega arith, omega arith, omega arith)
count_processes-Counted t (p ∷ ps) (fit, fits) within small =
    let ((turn, cpu, wait), within') = count_process-Counted t p fit within (omega arith) in
    let (turns, cpus, waits) =
      count_processes-Counted (count_process t p) ps fits within' (omega (arith, turn)) in
    (omega (arith, turn, turns), omega (arith, cpu, cpus), omega (arith, turn, cpu, wait, waits))

-- The reported times add up: if each process arrived, computed and waited for I/O before it finished, at a
-- time below 2 ^ 63, and the times from arrival to end have a sum below 2 ^ 64, then the total turnaround
-- is that sum, and the total wait, the total CPU time and the I/O times make it up.
pub count_processes-sums :
    (ps : List Pcb)
    → AllTimed ps
    → sum stay ps < u64_mod
    → ((count_processes no_totals ps).total_turnaround ≡ sum stay ps)
      × ((count_processes no_totals ps).total_waiting
            + (count_processes no_totals ps).total_cpu_time
            + sum (λ p. p.io_cycles) ps
          ≡ (count_processes no_totals ps).total_turnaround)
count_processes-sums ps fits small =
    let (turns, cpus, waits) =
      count_processes-Counted no_totals ps fits (omega arith) (omega (arith, small)) in
    (omega (arith, turns), omega (arith, turns, cpus, waits))

total_core_busy-sum :
    (busy : ℕ) (ws : List Worker)
    → busy + sum (λ w. w.core_busy) ws < u64_mod
    → total_core_busy busy ws ≡ busy + sum (λ w. w.core_busy) ws
unfolding total_core_busy sum add64
total_core_busy-sum busy [] small = omega arith
total_core_busy-sum busy (w ∷ ws) small =
    let next : add64 busy w.core_busy ≡ busy + w.core_busy = omega arith in
    omega (arith, next, total_core_busy-sum (add64 busy w.core_busy) ws (omega arith))
