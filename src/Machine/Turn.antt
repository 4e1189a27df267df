-- ===== src/Machine/Turn.antt =====
-- What a step of `coreWorker` of src/main.cpp does with the process that the worker has.
use multicore_simulator.Prelude.{
  ℕ, Bool, true, false, List, [], ◌∷◌, ◌≡◌, ◌≢◌, ◌≤◌, ◌<◌, ◌+◌, ltb, ◌||◌, refl, sym, subst, ap,
  arith, length, get_or, set, tally, count, if◌then◌else◌,
}
use multicore_simulator.Process.{Pcb, Processes, finished, modify}
use multicore_simulator.Memory.Manager.{System}
use multicore_simulator.Memory.Manager.Quantum.{state_of}
use multicore_simulator.Scheduler.{mark_start, take_next, get_next_process, has_processes}
use multicore_simulator.Control.Execute.Coded.{empty_instruction-Coded}
use multicore_simulator.Control.Execute.Keeps.{AllCoded}
use multicore_simulator.Control.Execute.Run.{new_core}
use multicore_simulator.Machine.{
  Phase, looking, stopped, executing, parking, Worker, new_worker, Machine, set_worker,
  set_processes, take_turn, look_for_process,
}
use multicore_simulator.Machine.Held.{holds, set-same}

-- The bit strings of the instructions in the pipeline can be read, and Core is about the process.
unfoldable pub Runs : Phase → Type 0
Runs looking = Unit
Runs stopped = Unit
Runs (executing p before clock c) = AllCoded c.instructions × (c.process ≡ p)
Runs (parking p) = Unit

pub looking-Runs : (w : Worker) → w.phase ≡ looking → Runs w.phase
looking-Runs w e = subst Runs (sym e) (unfold Runs in tt)

-- The process that Core runs is not finished.
unfoldable pub Lives : Phase → System → Type 0
Lives looking s = Unit
Lives stopped s = Unit
Lives (executing p before clock c) s = state_of s p ≢ finished
Lives (parking p) s = Unit

pub looking-Lives : (w : Worker) (s : System) → w.phase ≡ looking → Lives w.phase s
looking-Lives w s e = subst (λ phase. Lives phase s) (sym e) (unfold Lives in tt)

-- A change of a block that does not finish its process.
pub modify-unfinished :
    (p : ℕ) (ps : Processes) (f : Pcb → Pcb) (q : ℕ)
    → ((b : Pcb) → (f b).state ≡ finished → b.state ≡ finished)
    → (modify p f ps q).state ≡ finished
    → (ps q).state ≡ finished
unfolding modify
modify-unfinished p ps f q stays e = ground (arith, e, stays (ps q))

-- The process `had` that the worker of core `i` had goes to the queue, stays with the worker, goes
-- to the blocked list or has finished, as `E` says; or the worker, that had none, takes one from the queue.
-- Of the others, those that are finished were so before, as `F` says.
pub record Turn (E F : ℕ → Type 0) (m : Machine) (i : ℕ) (had : List ℕ) (m' : Machine)
    : Type 0 where
  pub worker : Worker
  pub workers : m'.workers ≡ set m.workers i worker
  pub gone : List ℕ
  pub counted : m'.finished_processes ≡ m.finished_processes + length gone
  pub total : m'.total_processes ≡ m.total_processes
  pub moved :
      (f : ℕ → ℕ)
      → tally f m'.scheduler.ready_queue
          + tally f (holds worker.phase)
          + tally f m'.blocked_list
          + tally f gone
        ≡ tally f m.scheduler.ready_queue + tally f had + tally f m.blocked_list
  pub left : worker.phase ≡ stopped → m.total_processes ≤ m.finished_processes
  pub runs : Runs worker.phase
  pub goes : (q : ℕ) → 1 ≤ count q gone → E q
  pub finishes : (q : ℕ) → count q had ≡ 0 → state_of m'.system q ≡ finished → F q
  pub lives : Lives worker.phase m'.system

module _ (E F : ℕ → Type 0) (m : Machine)
    (keep : (q : ℕ) → state_of m.system q ≡ finished → F q) where
  take_turn-Turn :
      (i : ℕ) (queue : List ℕ)
      → i < length m.workers
      → m.scheduler.ready_queue ≡ queue
      → (get_or m.workers i new_worker).phase ≡ looking
      → let w = get_or m.workers i new_worker in
        Turn E F m i []
          (take_turn m i w (take_next m.scheduler m.system.processes w.core_clock queue))
  unfolding take_turn take_next set_worker set_processes holds tally
  take_turn-Turn i [] h e l = record {
    worker = get_or m.workers i new_worker;
    workers = sym (set-same m.workers i h);
    gone = [];
    counted = omega arith;
    total = refl;
    moved = λ f. omega (arith, ap (tally f) e, ap (λ a. tally f (holds a)) l);
    left = λ k. ground (arith, l);
    runs = looking-Runs (get_or m.workers i new_worker) l;
    goes = λ q few. absurd (omega (arith, few));
    finishes = λ q n. keep q;
    lives = looking-Lives (get_or m.workers i new_worker) m.system l;
  }
  take_turn-Turn i (p ∷ rest) h e l = record {
    worker = _;
    workers = refl;
    gone = [];
    counted = omega arith;
    total = refl;
    moved = λ f. omega (arith, ap (tally f) e);
    left = λ k. ground arith;
    runs = unfold Runs new_core get_or in (λ k. empty_instruction-Coded, refl);
    goes = λ q few. absurd (omega (arith, few));
    finishes = λ q n e. keep q (unfold modify mark_start in ground (arith, e));
    lives = unfold Lives modify in λ e. ground (arith, e);
  }

  pub look_for_process-Turn :
      (i : ℕ)
      → i < length m.workers
      → (get_or m.workers i new_worker).phase ≡ looking
      → Turn E F m i [] (look_for_process m i (get_or m.workers i new_worker))
  unfolding look_for_process get_next_process has_processes set_worker holds tally
  look_for_process-Turn i h l =
      choose (ltb m.finished_processes m.total_processes || has_processes m.scheduler) refl
    where
      w : Worker
      w = get_or m.workers i new_worker

      choose :
          (b : Bool)
          → (ltb m.finished_processes m.total_processes || has_processes m.scheduler) ≡ b
          → Turn E F m i [] (
              if b
              then take_turn m i w (get_next_process m.scheduler m.system.processes w.core_clock)
              else set_worker m i (record w { phase = stopped }))
      choose true e = take_turn-Turn i m.scheduler.ready_queue h refl l
      choose false e = record {
        worker = record w { phase = stopped };
        workers = refl;
        gone = [];
        counted = omega arith;
        total = refl;
        moved = λ f. omega arith;
        left = λ k. ground (arith, e);
        runs = unfold Runs in tt;
        goes = λ q few. absurd (omega (arith, few));
        finishes = λ q n. keep q;
        lives = unfold Lives in tt;
      }

-- The system has no part in it.
pub other_system :
    (E F : ℕ → Type 0) (m : Machine) (system : System) (i : ℕ) (had : List ℕ) (m' : Machine)
    → Turn E F (record m { system = system }) i had m'
    → Turn E F m i had m'
other_system E F m system i had m' t = record {
  worker = t.worker;
  workers = t.workers;
  gone = t.gone;
  counted = t.counted;
  total = t.total;
  moved = t.moved;
  left = t.left;
  runs = t.runs;
  goes = t.goes;
  finishes = t.finishes;
  lives = t.lives;
}
