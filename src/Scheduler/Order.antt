-- ===== src/Scheduler/Order.antt =====
-- The order in which src/cpu/Scheduler.cpp keeps the queue under each policy.
use multicore_simulator.Prelude.{ℕ, Bool, false, List, [], ◌∷◌, ◌++◌, ◌≡◌, ◌≤◌, refl, arith}
use multicore_simulator.Prelude.Int.{◌≤ℤ◌}
use multicore_simulator.Prelude.Sorting.{Sorter, IsOrder, IsSorted, NoneBefore}
use mathlib.Core.List.{Perm}
use multicore_simulator.Process.{Processes}
use multicore_simulator.Scheduler.{
  SchedulingPolicy, fcfs, sjn, rr, priority, Scheduler, higher_priority, shorter_burst, sort_queue,
  add_process, set_policy,
}
use multicore_simulator.Scheduler.Queue.{sort_queue-perm}

-- `R` holds between `x` and each process behind it.
abbrev pub AllBehind : (ℕ → ℕ → Type 0) → ℕ → List ℕ → Type 0
AllBehind R x [] = Unit
AllBehind R x (y ∷ ys) = R x y × AllBehind R x ys

-- `R` holds between each process and each behind it.
abbrev pub InOrder : (ℕ → ℕ → Type 0) → List ℕ → Type 0
InOrder R [] = Unit
InOrder R (x ∷ xs) = AllBehind R x xs × InOrder R xs

abbrev pub NotLower : Processes → ℕ → ℕ → Type 0
NotLower ps a b = (ps b).priority ≤ℤ (ps a).priority

abbrev pub NotLonger : Processes → ℕ → ℕ → Type 0
NotLonger ps a b = (ps a).burst_time ≤ (ps b).burst_time

-- What the policy makes of a queue: under Priority nobody stands before a process of higher priority,
-- and under SJN nobody before one of shorter burst; FCFS and RR leave the order of arrival.
abbrev pub IsQueued : SchedulingPolicy → Processes → List ℕ → List ℕ → Type 0
IsQueued priority ps arrival queue = Perm queue arrival × InOrder (NotLower ps) queue
IsQueued sjn ps arrival queue = Perm queue arrival × InOrder (NotLonger ps) queue
IsQueued fcfs ps arrival queue = queue ≡ arrival
IsQueued rr ps arrival queue = queue ≡ arrival

higher_priority-IsOrder : (ps : Processes) → IsOrder (higher_priority ps)
unfolding higher_priority
higher_priority-IsOrder ps = record {
  irrefl = λ a. ground arith;
  trans = λ a b c h k. ground arith;
}

shorter_burst-IsOrder : (ps : Processes) → IsOrder (shorter_burst ps)
unfolding shorter_burst
shorter_burst-IsOrder ps = record { irrefl = λ a. ground arith; trans = λ a b c h k. ground arith }

module _ (before : ℕ → ℕ → Bool) (R : ℕ → ℕ → Type 0)
    (not_before : (a b : ℕ) → before b a ≡ false → R a b) where
  NoneBefore-AllBehind : (x : ℕ) (xs : List ℕ) → NoneBefore before x xs → AllBehind R x xs
  NoneBefore-AllBehind x [] none_before = tt
  NoneBefore-AllBehind x (y ∷ ys) (h, none_before) =
      (not_before x y h, NoneBefore-AllBehind x ys none_before)

  IsSorted-InOrder : (xs : List ℕ) → IsSorted before xs → InOrder R xs
  IsSorted-InOrder [] sorted = tt
  IsSorted-InOrder (x ∷ xs) (first, sorted) =
      (NoneBefore-AllBehind x xs first, IsSorted-InOrder xs sorted)

higher_priority-false :
    (ps : Processes) (a b : ℕ) → higher_priority ps b a ≡ false → NotLower ps a b
unfolding higher_priority
higher_priority-false ps a b h = ground (arith, h)

shorter_burst-false : (ps : Processes) (a b : ℕ) → shorter_burst ps b a ≡ false → NotLonger ps a b
unfolding shorter_burst
shorter_burst-false ps a b h = ground (arith, h)

sort_queue-IsQueued :
    (sorter : Sorter ℕ) (policy : SchedulingPolicy) (ps : Processes) (queue : List ℕ)
    → IsQueued policy ps queue (sort_queue sorter policy ps queue)
sort_queue-IsQueued sorter priority ps queue = (
  sort_queue-perm sorter priority ps queue,
  unfold sort_queue in
      IsSorted-InOrder (higher_priority ps) (NotLower ps) (higher_priority-false ps) _
        (sorter.sort-IsSorted (higher_priority ps) queue (higher_priority-IsOrder ps)),
)
sort_queue-IsQueued sorter sjn ps queue = (
  sort_queue-perm sorter sjn ps queue,
  unfold sort_queue in
      IsSorted-InOrder (shorter_burst ps) (NotLonger ps) (shorter_burst-false ps) _
        (sorter.sort-IsSorted (shorter_burst ps) queue (shorter_burst-IsOrder ps)),
)
sort_queue-IsQueued sorter fcfs ps queue = unfold sort_queue in refl
sort_queue-IsQueued sorter rr ps queue = unfold sort_queue in refl

-- Whatever the queue was, `addProcess` keeps it with the new process and `setPolicy` keeps it as the
-- policy says: under Priority a reordering in which no process stands before one of higher priority,
-- under SJN a reordering in which none stands before one of shorter burst, and under FCFS and RR the
-- queue as it was, a new process behind all others.
pub add_process-IsQueued :
    (sorter : Sorter ℕ) (s : Scheduler) (ps : Processes) (process now : ℕ)
    (policy : SchedulingPolicy)
    → let (s', ps') = add_process sorter s ps process now in
      let t = set_policy sorter s ps policy in
      IsQueued s.policy ps' (s.ready_queue ++ process ∷ []) s'.ready_queue
      × (s'.policy ≡ s.policy)
      × IsQueued policy ps s.ready_queue t.ready_queue
      × (t.policy ≡ policy)
unfolding add_process set_policy
add_process-IsQueued sorter s ps process now policy = (
  sort_queue-IsQueued sorter s.policy _ (s.ready_queue ++ process ∷ []),
  refl,
  sort_queue-IsQueued sorter policy ps s.ready_queue,
  refl,
)
