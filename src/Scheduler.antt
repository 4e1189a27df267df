-- ===== src/Scheduler.antt =====
-- src/cpu/Scheduler.hpp and Scheduler.cpp. The queue holds pointers to process blocks; each method
-- holds the mutex throughout, so a call is one step. std::sort is a parameter, by what it promises.
pub mod Queue
pub mod Order
pub mod Times
use multicore_simulator.Prelude.{
  ℕ, Bool, true, false, List, [], ◌∷◌, ◌++◌, Option, none, some, ◌==◌, ltb, if◌then◌else◌, add64,
  sub64,
}
use multicore_simulator.Prelude.Int.{ℤ, ltb_ℤ}
use multicore_simulator.Prelude.Sorting.{Sorter}
use multicore_simulator.Process.{Pcb, Processes, State, ready, modify}

pub data SchedulingPolicy : Type 0 where
  fcfs sjn rr priority : SchedulingPolicy

pub record Scheduler : Type 0 where
  pub ready_queue : List ℕ
  pub policy : SchedulingPolicy
  pub time_slice : ℕ

-- the constructor
unfoldable pub new_scheduler : SchedulingPolicy → ℕ → Scheduler
new_scheduler initial_policy quantum = record {
  ready_queue = [];
  policy = initial_policy;
  time_slice = quantum;
}

-- The comparisons of `sortQueue`.
unfoldable pub higher_priority : Processes → ℕ → ℕ → Bool
higher_priority ps a b = ltb_ℤ (ps b).priority (ps a).priority

unfoldable pub shorter_burst : Processes → ℕ → ℕ → Bool
shorter_burst ps a b = ltb (ps a).burst_time (ps b).burst_time

-- The block of a process that enters the queue.
unfoldable pub mark_ready : ℕ → Pcb → Pcb
mark_ready now p = record p { state = ready; last_ready_in = now }

-- The block of a process that leaves the queue to run.
unfoldable pub mark_start : ℕ → Pcb → Pcb
mark_start now p = record p {
  waiting_time = add64 p.waiting_time (sub64 now p.last_ready_in);
  first_start_time = if p.first_start_time == 0 then now else p.first_start_time;
}

module _ (sorter : Sorter ℕ) where
  unfoldable pub sort_queue : SchedulingPolicy → Processes → List ℕ → List ℕ
  sort_queue priority ps queue = sorter.sort (higher_priority ps) queue
  sort_queue sjn ps queue = sorter.sort (shorter_burst ps) queue
  sort_queue fcfs ps queue = queue
  sort_queue rr ps queue = queue

  unfoldable pub add_process : Scheduler → Processes → ℕ → ℕ → Scheduler × Processes
  unfolding mark_ready
  add_process s ps process now =
      let ps' = modify process (mark_ready now) ps in
      (record s { ready_queue = sort_queue s.policy ps' (s.ready_queue ++ process ∷ []) }, ps')

  unfoldable pub set_policy : Scheduler → Processes → SchedulingPolicy → Scheduler
  set_policy s ps new_policy = record s {
    policy = new_policy;
    ready_queue = sort_queue new_policy ps s.ready_queue;
  }

-- `none` is nullptr.
unfoldable pub take_next : Scheduler → Processes → ℕ → List ℕ → Scheduler × Processes × Option ℕ
unfolding mark_start
take_next s ps now [] = (s, ps, none)
take_next s ps now (next ∷ rest) =
    (record s { ready_queue = rest }, modify next (mark_start now) ps, some next)

unfoldable pub get_next_process : Scheduler → Processes → ℕ → Scheduler × Processes × Option ℕ
unfolding take_next
get_next_process s ps now = take_next s ps now s.ready_queue

unfoldable pub has_processes : Scheduler → Bool
has_processes s = elim s.ready_queue [ [] ↦ false | p ∷ rest ↦ true ]

unfoldable pub is_preemptive : Scheduler → Bool
is_preemptive s = elim s.policy [ rr ↦ true | _ ↦ false ]

unfoldable pub push_front : Scheduler → ℕ → Scheduler
push_front s process = record s { ready_queue = process ∷ s.ready_queue }
