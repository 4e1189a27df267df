-- ===== src/Machine/Safety.antt =====
-- What holds of every machine that the threads of src/main.cpp come to.
use multicore_simulator.Prelude.{
  ℕ, zero, suc, ◌⊎◌, inl, inr, refl, replicate, [], ◌∷◌, ◌≡◌, ◌≤◌, ◌==◌, ap, arith, length, get_or,
  tally, tally-length, count, no_length, ◌≢◌, if◌then◌else◌, Bool-cases,
}
use multicore_simulator.Io.{new_io_manager}
use multicore_simulator.Loader.{Input, load_all, arrivals}
use multicore_simulator.Loader.Arrivals.{load_all-Arrived}
use multicore_simulator.Machine.{stopped, new_worker, Machine, new_machine}
use multicore_simulator.Machine.Held.{holds, parked, collect, held, tally-held_two}
use multicore_simulator.Machine.Step.{Step, Reach, Ended}
use multicore_simulator.Machine.Placed.{Placed, Once, new_machine-Placed, step-Placed}
use multicore_simulator.Machine.Aside.{requested, Own, Waits}
use multicore_simulator.Machine.Aside.Cores.{core_step-Waits}
use multicore_simulator.Machine.Aside.Requests.{ask_step-Waits, queue_step-Waits}
use multicore_simulator.Machine.Aside.Served.{io_worker_step-Waits, process_step-Waits}

fresh-Own : (n i : ℕ) → Own (get_or (replicate n new_worker) i new_worker).phase
unfolding replicate get_or new_worker Own
fresh-Own zero i = tt
fresh-Own (suc n) zero = tt
fresh-Own (suc n) (suc i) = fresh-Own n i

module _ (input : Input) where
  once : Once (arrivals input)
  once = (load_all-Arrived input).1.once

  -- No process is lost, and none is run twice: in every machine that the threads come to, in whichever
  -- order they take their steps, each process stands as often as it arrived in the ready queue, with a
  -- core, in the blocked list or in a list `done`, which is as long as the count of the finished
  -- processes. Every process of `done` has ended: the run has a step of a worker that came back from Core
  -- with it, in a call that read the end of its program and emptied the pipeline. A worker has only
  -- stopped when as many were counted as arrived, and a process that Core runs is not finished.
  pub Reach-Placed : (m : Machine) (r : Reach input m) → Placed (Ended r) (arrivals input) m
  unfolding Ended
  Reach-Placed m Reach.start = new_machine-Placed (load_all input) (load_all-Arrived input).1.queued
  Reach-Placed m (Reach.later {m = before} r s) =
      step-Placed input.sorter (arrivals input) before m s once (Reach-Placed before r)

  -- When a worker has stopped there is nothing left to do: every process that arrived has ended, by a
  -- step of the run in which a worker came back from Core with it at the end of its program; as many are
  -- counted as arrived; and none is in the ready queue, with any core, or in the blocked list.
  pub Reach-stopped :
      (m : Machine) (i : ℕ) (r : Reach input m)
      → (get_or m.workers i new_worker).phase ≡ stopped
      → (m.finished_processes ≡ length (arrivals input))
        × ((p : ℕ) → (count p (arrivals input) ≡ 0) ⊎ Ended r p)
        × (m.scheduler.ready_queue ≡ [])
        × (held m.workers ≡ [])
        × (m.blocked_list ≡ [])
  Reach-stopped m i r e =
      let k = Reach-Placed m r in
      let enough : m.total_processes ≤ m.finished_processes = k.over i e in
      let all = k.placed (λ x. 1) in
      let (a, b, c, d) : (length m.scheduler.ready_queue ≡ 0)
          × (length (held m.workers) ≡ 0)
          × (length m.blocked_list ≡ 0)
          × (m.finished_processes ≡ length (arrivals input)) =
        ground (
          arith,
          all,
          enough,
          k.counted,
          k.total,
          tally-length m.scheduler.ready_queue,
          tally-length (held m.workers),
          tally-length m.blocked_list,
          tally-length k.done,
          tally-length (arrivals input),
        ) in
      let queue = no_length m.scheduler.ready_queue a in
      let cores = no_length (held m.workers) b in
      let blocked = no_length m.blocked_list c in
      (d, λ p. all_done m p k queue cores blocked, queue, cores, blocked)
    where
      all_done :
          {E : ℕ → Type 0} (m : Machine) (p : ℕ) (k : Placed E (arrivals input) m)
          → m.scheduler.ready_queue ≡ []
          → held m.workers ≡ []
          → m.blocked_list ≡ []
          → (count p (arrivals input) ≡ 0) ⊎ E p
      all_done m p k queue cores blocked = elim (Bool-cases (count p k.done == 0)) [
        | inr some_done ↦ inr (k.ended p (ground (arith, some_done)))
        | inl none_done ↦
            let nobody : count p [] ≡ 0 = unfold tally in refl in
            let everyone = k.placed (λ x. if x == p then 1 else 0) in
            inl (
              ground (
                arith,
                none_done,
                everyone,
                ap (count p) queue,
                ap (count p) cores,
                ap (count p) blocked,
                nobody,
              ))
      ]

  -- Two cores never have the same process at the same time.
  pub Reach-apart :
      (m : Machine) (i j p : ℕ)
      → Reach input m
      → i ≢ j
      → holds (get_or m.workers i new_worker).phase ≡ p ∷ []
      → holds (get_or m.workers j new_worker).phase ≢ p ∷ []
  Reach-apart m i j p r apart e f =
      let is_p : ℕ → ℕ = λ x. if x == p then 1 else 0 in
      let twice = tally-held_two is_p m.workers i j apart in
      omega (
        arith,
        (Reach-Placed m r).placed is_p,
        once p,
        twice,
        ap (tally is_p) e,
        ap (tally is_p) f,
        one_p,
      )
    where
      one_p : count p (p ∷ []) ≡ 1
      one_p = unfold tally in ground arith

  fresh-Waits : Waits (new_machine (load_all input))
  unfolding new_machine new_io_manager replicate new_worker requested collect parked tally
  fresh-Waits = record {
    accounted = λ q. inl (refl, λ few. absurd (omega (arith, few)));
    own = fresh-Own 4;
  }

  -- No process that waits for I/O is forgotten: in every machine that the threads come to, in whichever
  -- order they take their steps, a process that is in the blocked list, or that a worker is about to put
  -- there, is either ready, and the I/O manager does not have it, or blocked, and the I/O manager has it
  -- as often as it is there; and the I/O manager has no other process.
  pub Reach-Waits : (m : Machine) → Reach input m → Waits m
  Reach-Waits m Reach.start = fresh-Waits
  Reach-Waits m (Reach.later {m = before} r s) =
      step-Waits before m s (Reach-Placed before r) (Reach-Waits before r)
    where
      step-Waits :
          {E : ℕ → Type 0} (m m' : Machine)
          → Step input.sorter m m'
          → Placed E (arrivals input) m
          → Waits m
          → Waits m'
      step-Waits m m' (Step.core i h e) placed k =
          core_step-Waits input.sorter (arrivals input) m _ i h once placed k e
      step-Waits m _ Step.io_worker placed k = io_worker_step-Waits input.sorter m k
      step-Waits m _ (Step.ask d) placed k = ask_step-Waits d m k
      step-Waits m _ (Step.queue d) placed k = queue_step-Waits d m k
      step-Waits m _ (Step.process d) placed k =
          process_step-Waits (arrivals input) d m once placed k
