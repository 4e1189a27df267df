-- ===== src/Machine/Aside/Cores.antt =====
-- That every step of `coreWorker` of src/main.cpp keeps account of the processes that are aside.
use multicore_simulator.Prelude.{
  ℕ, Bool, true, false, List, [], ◌∷◌, some, ◌≡◌, ◌≤◌, ◌<◌, inl, inr, ◌==◌, refl, sym, ap, ◌∙◌,
  subst, arith, if◌then◌else◌, length, get_or, tally, tally-one, count, ltb, ◌||◌,
}
use mathlib.Core.Option.{some_inj}
use multicore_simulator.Prelude.Sorting.{Sorter}
use multicore_simulator.Process.{modify}
use multicore_simulator.Scheduler.{mark_start, take_next, get_next_process, has_processes}
use multicore_simulator.Control.Execute.Run.{new_core}
use multicore_simulator.Machine.{
  Phase, looking, stopped, executing, parking, Worker, new_worker, Machine, set_worker,
  set_processes, take_turn, look_for_process, park, step_phase, core_step,
}
use multicore_simulator.Machine.Held.{parked, tally-collect-set, parked-none, executing-holds}
use multicore_simulator.Machine.Turn.{Runs}
use multicore_simulator.Machine.Placed.{Placed, Once}
use multicore_simulator.Machine.Aside.{aside, Own, Waits}
use multicore_simulator.Machine.Aside.Called.{run_round-Called}
use multicore_simulator.Machine.Aside.Quiet.{
  Accounted-same, quiet-queued, quiet-executing, set-Own, Called-Waits,
}

take_turn-Waits :
    {E : ℕ → Type 0} (arrivals : List ℕ) (m : Machine) (i : ℕ) (queue : List ℕ)
    → i < length m.workers
    → Once arrivals
    → Placed E arrivals m
    → Waits m
    → m.scheduler.ready_queue ≡ queue
    → (get_or m.workers i new_worker).phase ≡ looking
    → let w = get_or m.workers i new_worker in
      Waits (take_turn m i w (take_next m.scheduler m.system.processes w.core_clock queue))
unfolding take_turn take_next set_worker set_processes
take_turn-Waits arrivals m i [] h once placed k e l = record {
  accounted = k.accounted;
  own = k.own;
}
take_turn-Waits arrivals m i (p ∷ rest) h once placed k e l =
    let quiet = quiet-queued arrivals m p once placed k (omega (arith, ap (count p) e, some_p)) in
    Called-Waits arrivals m _ i p h k quiet (parked-none _ (inl l)) (record {
      worker = _;
      workers = refl;
      blocked_list = refl;
      requests = refl;
      waiting = λ q. unfold parked tally in omega arith;
      states = λ q n. unfold modify mark_start in ground (arith, n);
      parks = λ q n. unfold parked tally in refl;
      blocks = λ few. unfold parked tally in absurd (omega (arith, few));
      own = unfold Own new_core in refl;
    })
  where
    some_p : 1 ≤ count p (p ∷ rest)
    some_p = unfold tally in ground arith

-- A worker that leaves the rest of the machine alone.
turned-Waits :
    (m : Machine) (i : ℕ) (w : Worker)
    → i < length m.workers
    → Waits m
    → parked w.phase ≡ parked (get_or m.workers i new_worker).phase
    → Own w.phase
    → Waits (set_worker m i w)
unfolding set_worker
turned-Waits m i w h k same own = record {
  accounted = λ q.
      let f : ℕ → ℕ = λ x. if x == q then 1 else 0 in
      Accounted-same _ _ _ _ _ _ refl
        (omega (arith, tally-collect-set f parked m.workers i w h, ap (tally f) same)) refl
        (k.accounted q);
  own = λ j. set-Own m.workers i j w h own (k.own j);
}

look_for_process-Waits :
    {E : ℕ → Type 0} (arrivals : List ℕ) (m : Machine) (i : ℕ)
    → i < length m.workers
    → Once arrivals
    → Placed E arrivals m
    → Waits m
    → (get_or m.workers i new_worker).phase ≡ looking
    → Waits (look_for_process m i (get_or m.workers i new_worker))
unfolding look_for_process get_next_process has_processes
look_for_process-Waits arrivals m i h once placed k l =
    choose (ltb m.finished_processes m.total_processes || has_processes m.scheduler)
  where
    w : Worker
    w = get_or m.workers i new_worker

    choose :
        (b : Bool)
        → Waits (
            if b
            then take_turn m i w (get_next_process m.scheduler m.system.processes w.core_clock)
            else set_worker m i (record w { phase = stopped }))
    choose true = take_turn-Waits arrivals m i m.scheduler.ready_queue h once placed k refl l
    choose false =
        turned-Waits m i (record w { phase = stopped }) h k
          (parked-none stopped (inr refl) ∙ sym (parked-none w.phase (inl l))) (unfold Own in tt)

-- The process goes from the worker to the blocked list.
park-Waits :
    (m : Machine) (i p : ℕ)
    → i < length m.workers
    → Waits m
    → (get_or m.workers i new_worker).phase ≡ parking p
    → Waits (park m i (get_or m.workers i new_worker) p)
unfolding park set_worker parked tally
park-Waits m i p h k l = record {
  accounted = λ q.
      let f : ℕ → ℕ = λ x. if x == q then 1 else 0 in
      let w : Worker = record (get_or m.workers i new_worker) { phase = looking } in
      let moved : aside (park m i (get_or m.workers i new_worker) p) q ≡ aside m q = omega (
        arith,
        tally-collect-set f parked m.workers i w h,
        tally-one f m.blocked_list p,
        ap (λ a. tally f (parked a)) l,
      ) in
      Accounted-same _ _ _ _ _ _ refl moved refl (k.accounted q);
  own = λ j. set-Own m.workers i j _ h (unfold Own in tt) (k.own j);
}

pub core_step-Waits :
    {E : ℕ → Type 0} (sorter : Sorter ℕ) (arrivals : List ℕ) (m m' : Machine) (i : ℕ)
    → i < length m.workers
    → Once arrivals
    → Placed E arrivals m
    → Waits m
    → core_step sorter m i ≡ some m'
    → Waits m'
unfolding core_step
core_step-Waits sorter arrivals m m' i h once placed k e =
    choose (get_or m.workers i new_worker).phase refl (placed.runs i) (k.own i) e
  where
    w : Worker
    w = get_or m.workers i new_worker

    choose :
        (phase : Phase)
        → w.phase ≡ phase
        → Runs phase
        → Own phase
        → step_phase sorter m i w phase ≡ some m'
        → Waits m'
    choose looking l ok own f =
        unfold step_phase in
        subst Waits (some_inj.0 f) (look_for_process-Waits arrivals m i h once placed k l)
    choose stopped l ok own f = unfold step_phase in absurd (ground arith)
    choose (executing p before clock c) l ok own f =
        let (has, unparked) = executing-holds w.phase p before clock c l in
        let quiet = quiet-executing arrivals m i p once placed k has unparked in
        Called-Waits arrivals m m' i p h k quiet unparked (
          unfold step_phase Runs Own in
          run_round-Called sorter m m' i w p before clock c ok.0 own f)
    choose (parking p) l ok own f =
        unfold step_phase in subst Waits (some_inj.0 f) (park-Waits m i p h k l)
