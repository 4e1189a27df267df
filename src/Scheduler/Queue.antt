-- ===== src/Scheduler/Queue.antt =====
-- What src/cpu/Scheduler.cpp does to the queue: nothing is lost or doubled, and FCFS and RR keep the
-- order of arrival.
use mathlib.Core.List.Perm
use multicore_simulator.Prelude.{
  ℕ, List, [], ◌∷◌, ◌++◌, none, some, ◌≡◌, ◌⊎◌, inl, inr, refl, sym, ap, subst, ◌∙◌, length, zero,
  suc,
}
use mathlib.Core.List.{Perm, append_assoc, append-nil}
use multicore_simulator.Prelude.Sorting.{Sorter}
use multicore_simulator.Process.{Processes, modify}
use multicore_simulator.Scheduler.{
  SchedulingPolicy, fcfs, sjn, rr, priority, Scheduler, new_scheduler, higher_priority,
  shorter_burst, sort_queue, add_process, set_policy, take_next, get_next_process, mark_start,
}

module _ (sorter : Sorter ℕ) where
  pub sort_queue-perm :
      (policy : SchedulingPolicy) (ps : Processes) (queue : List ℕ)
      → Perm (sort_queue sorter policy ps queue) queue
  unfolding sort_queue
  sort_queue-perm priority ps queue = sorter.sort-perm (higher_priority ps) queue
  sort_queue-perm sjn ps queue = sorter.sort-perm (shorter_burst ps) queue
  sort_queue-perm fcfs ps queue = Perm.refl queue
  sort_queue-perm rr ps queue = Perm.refl queue

  -- `addProcess` adds the process to those in the queue, once, and `setPolicy` only reorders them.
  pub add_process-perm :
      (s : Scheduler) (ps : Processes) (process now : ℕ) (policy : SchedulingPolicy)
      → Perm (add_process sorter s ps process now).0.ready_queue (s.ready_queue ++ process ∷ [])
        × Perm (set_policy sorter s ps policy).ready_queue s.ready_queue
  unfolding add_process set_policy
  add_process-perm s ps process now policy = (
    sort_queue-perm s.policy _ (s.ready_queue ++ process ∷ []),
    sort_queue-perm policy ps s.ready_queue,
  )

  -- Under FCFS and RR the process goes behind all others.
  pub add_process-arrival :
      (s : Scheduler) (ps : Processes) (process now : ℕ)
      → (s.policy ≡ fcfs) ⊎ (s.policy ≡ rr)
      → (add_process sorter s ps process now).0
        ≡ record s { ready_queue = s.ready_queue ++ process ∷ [] }
  unfolding add_process sort_queue
  add_process-arrival s ps process now (inl e) = rw (e, sort_queue) refl
  add_process-arrival s ps process now (inr e) = rw (e, sort_queue) refl

  -- Processes that arrive one after the other.
  unfoldable pub add_all : Scheduler → Processes → List ℕ → ℕ → Scheduler × Processes
  add_all s ps [] now = (s, ps)
  add_all s ps (p ∷ rest) now =
      let (s', ps') = add_process sorter s ps p now in add_all s' ps' rest now

-- Calls of `getNextProcess`, and the processes that they gave, as many as there were.
unfoldable pub drain : ℕ → Scheduler → Processes → ℕ → List ℕ
drain zero s ps now = []
drain (suc n) s ps now =
    let (s', ps', next) = get_next_process s ps now in
    let rest = drain n s' ps' now in elim next [ none ↦ [] | some p ↦ p ∷ rest ]

drain-queue :
    (queue : List ℕ) (s : Scheduler) (ps : Processes) (now : ℕ)
    → s.ready_queue ≡ queue
    → drain (length queue) s ps now ≡ queue
unfolding drain get_next_process take_next
drain-queue [] s ps now e = refl
drain-queue (p ∷ queue) s ps now e =
    rw (e, take_next)
      (ap (◌∷◌ p) (
        drain-queue queue (record s { ready_queue = queue }) (modify p (mark_start now) ps) now
          refl))

add_all-queue :
    (sorter : Sorter ℕ) (arrivals : List ℕ) (s : Scheduler) (ps : Processes) (now : ℕ)
    → (s.policy ≡ fcfs) ⊎ (s.policy ≡ rr)
    → (add_all sorter s ps arrivals now).0.ready_queue ≡ s.ready_queue ++ arrivals
unfolding add_all
add_all-queue sorter [] s ps now e = sym (append-nil s.ready_queue)
add_all-queue sorter (p ∷ arrivals) s ps now e =
    let arrived = add_process-arrival sorter s ps p now e in
    let (s', ps') = add_process sorter s ps p now in
    let kept = subst (λ (t : Scheduler). (t.policy ≡ fcfs) ⊎ (t.policy ≡ rr)) (sym arrived) e in
    add_all-queue sorter arrivals s' ps' now kept
    ∙ ap (λ (t : Scheduler). t.ready_queue ++ arrivals) arrived
    ∙ append_assoc s.ready_queue (p ∷ []) arrivals

-- First come, first served: under FCFS and RR the processes that arrive at an idle scheduler are handed
-- out in the order in which they came.
pub drain-add_all :
    (sorter : Sorter ℕ) (policy : SchedulingPolicy) (quantum now later : ℕ) (ps : Processes)
    (arrivals : List ℕ)
    → (policy ≡ fcfs) ⊎ (policy ≡ rr)
    → let (s, ps') = add_all sorter (new_scheduler policy quantum) ps arrivals now in
      drain (length arrivals) s ps' later ≡ arrivals
unfolding new_scheduler
drain-add_all sorter policy quantum now later ps arrivals e =
    drain-queue arrivals _ _ later
      (add_all-queue sorter arrivals (new_scheduler policy quantum) ps now e)
