-- ===== src/Machine/Aside/Called.antt =====
-- What the call of Core in `coreWorker` of src/main.cpp, and what follows it, does to the states of the
-- processes and to the I/O manager.
use multicore_simulator.Prelude.{
  ℕ, Bool, true, false, some, ◌≡◌, ◌≢◌, ◌≤◌, ◌+◌, ◌==◌, refl, sym, ap, ◌∙◌, add64, subst, arith,
  if◌then◌else◌, set, tally, tally-one, count,
}
use mathlib.Core.Option.{some_inj}
use multicore_simulator.Prelude.Sorting.{Sorter}
use multicore_simulator.Process.{State, ready, running, blocked, finished, modify}
use multicore_simulator.Memory.Manager.{System}
use multicore_simulator.Memory.Manager.Quantum.{state_of}
use multicore_simulator.Scheduler.{add_process, mark_ready, is_preemptive, push_front}
use multicore_simulator.Control.Core.{Core, ◌>>=◌}
use multicore_simulator.Control.Execute.Keeps.{AllCoded}
use multicore_simulator.Control.Execute.Run.{count_down, is_over, end_round, finish}
use multicore_simulator.Control.Execute.Run.Termination.{stages-Paced}
use multicore_simulator.Io.{register_process_waiting_for_io}
use multicore_simulator.Machine.{
  looking, executing, parking, Worker, Machine, set_worker, set_processes, preempt, settle,
  end_turn, end_call, end_of_round, run_round,
}
use multicore_simulator.Machine.Held.{parked}
use multicore_simulator.Machine.Aside.{Own}

-- Only the state of the process `p` changes; if it is parked now, then it is blocked, and the I/O
-- manager has got it.
pub record Called (m : Machine) (i p : ℕ) (m' : Machine) : Type 0 where
  pub worker : Worker
  pub workers : m'.workers ≡ set m.workers i worker
  pub blocked_list : m'.blocked_list ≡ m.blocked_list
  pub requests : m'.io_manager.requests ≡ m.io_manager.requests
  pub waiting :
      (q : ℕ)
      → count q m'.io_manager.waiting_processes
        ≡ count q m.io_manager.waiting_processes + count q (parked worker.phase)
  pub states : (q : ℕ) → q ≢ p → state_of m'.system q ≡ state_of m.system q
  pub parks : (q : ℕ) → q ≢ p → count q (parked worker.phase) ≡ 0
  pub blocks : 1 ≤ count p (parked worker.phase) → state_of m'.system p ≡ blocked
  pub own : Own worker.phase

other_system :
    (m : Machine) (system : System) (i p : ℕ) (m' : Machine)
    → ((q : ℕ) → q ≢ p → state_of system q ≡ state_of m.system q)
    → Called (record m { system = system }) i p m'
    → Called m i p m'
other_system m system i p m' same t = record {
  worker = t.worker;
  workers = t.workers;
  blocked_list = t.blocked_list;
  requests = t.requests;
  waiting = t.waiting;
  states = λ q n. t.states q n ∙ same q n;
  parks = t.parks;
  blocks = t.blocks;
  own = t.own;
}

-- The worker goes on without the process.
back :
    (m m' : Machine) (i p : ℕ) (w : Worker)
    → w.phase ≡ looking
    → m'.workers ≡ set m.workers i w
    → m'.blocked_list ≡ m.blocked_list
    → m'.io_manager ≡ m.io_manager
    → ((q : ℕ) → q ≢ p → state_of m'.system q ≡ state_of m.system q)
    → Called m i p m'
unfolding parked tally
back m m' i p w l workers blocked_list io states = record {
  worker = w;
  workers = workers;
  blocked_list = blocked_list;
  requests = ap (λ a. a.requests) io;
  waiting = λ q.
      let none = ap (λ a. count q (parked a)) l in
      omega (arith, none, ap (λ a. count q a.waiting_processes) io);
  states = states;
  parks = λ q n. ap (λ a. count q (parked a)) l;
  blocks = λ few. absurd (omega (arith, few, ap (λ a. count p (parked a)) l));
  own = subst Own (sym l) (unfold Own in tt);
}

module _ (sorter : Sorter ℕ) where
  preempt-Called :
      (m : Machine) (i : ℕ) (w : Worker) (p : ℕ) (preemptive : Bool)
      → w.phase ≡ looking
      → Called m i p (preempt sorter m i w p preemptive)
  unfolding preempt set_worker set_processes add_process modify mark_ready push_front
  preempt-Called m i w p true l = back m _ i p w l refl refl refl (λ q n. ground (arith, n))
  preempt-Called m i w p false l = back m _ i p w l refl refl refl (λ q n. ground (arith, n))

  settle-Called :
      (m : Machine) (i : ℕ) (w : Worker) (p : ℕ) (s : State)
      → w.phase ≡ looking
      → state_of m.system p ≡ s
      → Called m i p (settle sorter m i w p s)
  unfolding settle set_worker set_processes modify register_process_waiting_for_io parked tally
  settle-Called m i w p ready l e = preempt-Called m i w p (is_preemptive m.scheduler) l
  settle-Called m i w p running l e = preempt-Called m i w p (is_preemptive m.scheduler) l
  settle-Called m i w p finished l e = back m _ i p w l refl refl refl (λ q n. ground (arith, n))
  settle-Called m i w p blocked l e = record {
    worker = record w { phase = parking p };
    workers = refl;
    blocked_list = refl;
    requests = refl;
    waiting = λ q.
        omega (arith, tally-one (λ x. if x == q then 1 else 0) m.io_manager.waiting_processes p);
    states = λ q n. refl;
    parks = λ q n. ground (arith, n);
    blocks = λ some. e;
    own = unfold Own in tt;
  }

  end_turn-Called :
      (m : Machine) (i : ℕ) (w : Worker) (p used : ℕ) (print_lock : Bool)
      → Called m i p (end_turn sorter m i w p used print_lock)
  unfolding end_turn set_processes modify
  end_turn-Called m i w p used print_lock =
      let ps = modify p (λ b. record b { cpu_time = add64 b.cpu_time used }) m.system.processes in
      let counted : System = record m.system { processes = ps } in
      other_system m counted i p _ (λ q n. ground (arith, n)) (settle-Called _ i _ p _ refl refl)

  end_call-Called :
      (m : Machine) (i : ℕ) (w : Worker) (p before : ℕ) (c : Core)
      → ((q : ℕ) → q ≢ p → state_of c.system q ≡ state_of m.system q)
      → Called m i p (end_call sorter m i w p before c)
  unfolding end_call
  end_call-Called m i w p before c same =
      other_system m c.system i p _ same (end_turn-Called _ i w p _ _)

  end_of_round-Called :
      (m : Machine) (i : ℕ) (w : Worker) (p before clock : ℕ) (c : Core)
      → ((q : ℕ) → q ≢ p → state_of c.system q ≡ state_of m.system q)
      → c.process ≡ p
      → Called m i p (end_of_round sorter m i w p before clock c)
  unfolding end_of_round set_worker parked tally
  end_of_round-Called m i w p before clock c same e = record {
    worker = record w { phase = executing p before clock c };
    workers = refl;
    blocked_list = refl;
    requests = refl;
    waiting = λ q. omega arith;
    states = same;
    parks = λ q n. refl;
    blocks = λ few. absurd (omega (arith, few));
    own = unfold Own in e;
  }

  -- The end of a round changes the counters of its own block.
  end_round-Called :
      (clock : ℕ) (c : Core)
      → ((end_round clock c).process ≡ c.process)
        × ((q : ℕ) → q ≢ c.process → state_of (end_round clock c).system q ≡ state_of c.system q)
  unfolding end_round count_down is_over modify
  end_round-Called clock c = ground arith

  finish-Called :
      (c : Core) (q : ℕ) → q ≢ c.process → state_of (finish c).system q ≡ state_of c.system q
  unfolding finish modify
  finish-Called c q n = ground (arith, n)

  pub run_round-Called :
      (m m' : Machine) (i : ℕ) (w : Worker) (p before clock : ℕ) (c : Core)
      → AllCoded c.instructions
      → c.process ≡ p
      → run_round sorter m i w p before clock c ≡ some m'
      → Called m i p m'
  unfolding run_round
  run_round-Called m m' i w p before clock c all own e =
      let shared = record c { system = m.system } in
      let (next, k, paced) = stages-Paced shared all in
      let over = end_round-Called (clock + 1) next in
      let here : (end_round (clock + 1) next).process ≡ p = over.0 ∙ paced.process ∙ own in
      choose next here
        (λ q n. over.1 q (λ f. n (f ∙ paced.process ∙ own)) ∙ paced.others q (λ f. n (f ∙ own)))
        (c.counter_for_end == 0)
        (ap
            (λ o.
              if c.counter_for_end == 0
              then some (end_call sorter m i w p before (finish shared))
              else (o >>= λ next.
                  some
                    (end_of_round sorter m i w p before (clock + 1) (end_round (clock + 1) next))))
            (sym k)
          ∙ e)
    where
      choose :
          (next : Core)
          → (end_round (clock + 1) next).process ≡ p
          → ((q : ℕ) → q ≢ p → state_of (end_round (clock + 1) next).system q ≡ state_of m.system q)
          → (b : Bool)
          → (if b
              then some (end_call sorter m i w p before (finish (record c { system = m.system })))
              else some
                  (end_of_round sorter m i w p before (clock + 1) (end_round (clock + 1) next)))
            ≡ some m'
          → Called m i p m'
      choose next here same true k = subst (Called m i p) (some_inj.0 k) (
          end_call-Called m i w p before (finish (record c { system = m.system }))
            (λ q n. finish-Called (record c { system = m.system }) q (λ f. n (f ∙ own))))
      choose next here same false k =
          subst (Called m i p) (some_inj.0 k) (end_of_round-Called m i w p before _ _ same here)
