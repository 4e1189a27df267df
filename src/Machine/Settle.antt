-- ===== src/Machine/Settle.antt =====
-- What follows the call of Core in `coreWorker` of src/main.cpp, with a process that ends as `E` says.
use multicore_simulator.Prelude.{
  ℕ, Bool, true, false, [], ◌∷◌, ◌≡◌, ◌≢◌, ◌≤◌, refl, sym, subst, ap, arith, add64, tally,
  tally-one, count,
}
use multicore_simulator.Prelude.Sorting.{Sorter}
use multicore_simulator.Process.{Pcb, State, ready, running, blocked, finished, modify}
use multicore_simulator.Memory.Manager.Quantum.{state_of}
use multicore_simulator.Scheduler.{add_process, mark_ready, is_preemptive, push_front}
use multicore_simulator.Control.Core.{Core}
use multicore_simulator.Control.Execute.Keeps.{AllCoded}
use multicore_simulator.Loader.Arrivals.{add_process-tally}
use multicore_simulator.Machine.{
  looking, executing, parking, Worker, Machine, set_worker, set_processes, preempt, settle,
  end_turn, end_call, end_of_round, park,
}
use multicore_simulator.Machine.Held.{holds}
use multicore_simulator.Machine.Turn.{
  Runs, looking-Runs, Lives, looking-Lives, modify-unfinished, Turn, other_system,
}

-- The end of a round changes the counters of its own block.

member : (q p : ℕ) → 1 ≤ count q (p ∷ []) → q ≡ p
unfolding tally
member q p few = ground (arith, few)

apart : (q p : ℕ) → count q (p ∷ []) ≡ 0 → q ≢ p
unfolding tally
apart q p none_left e = ground (arith, none_left, e)

-- What the parts of the call promise, for the process `p`.
module _ (sorter : Sorter ℕ) (E F : ℕ → Type 0) where
  preempt-Turn :
      (m : Machine) (i : ℕ) (w : Worker) (p : ℕ) (preemptive : Bool)
      → w.phase ≡ looking
      → ((q : ℕ) → q ≢ p → state_of m.system q ≡ finished → F q)
      → Turn E F m i (p ∷ []) (preempt sorter m i w p preemptive)
  unfolding preempt set_worker set_processes tally holds push_front
  preempt-Turn m i w p true l keep = record {
    worker = w;
    workers = refl;
    gone = [];
    counted = omega arith;
    total = refl;
    moved = λ f. omega (
      arith,
      ap (λ a. tally f (holds a)) l,
      add_process-tally sorter m.scheduler _ p w.core_clock f,
    );
    left = λ k. ground (arith, l);
    runs = looking-Runs w l;
    goes = λ q few. absurd (omega (arith, few));
    finishes = λ q n e.
        let other = apart q p n in
        keep q other (unfold modify add_process mark_ready in ground (arith, e, other));
    lives = looking-Lives w _ l;
  }
  preempt-Turn m i w p false l keep = record {
    worker = w;
    workers = refl;
    gone = [];
    counted = omega arith;
    total = refl;
    moved = λ f. omega (arith, ap (λ a. tally f (holds a)) l);
    left = λ k. ground (arith, l);
    runs = looking-Runs w l;
    goes = λ q few. absurd (omega (arith, few));
    finishes = λ q n e.
        let other = apart q p n in
        keep q other (unfold modify add_process mark_ready in ground (arith, e, other));
    lives = looking-Lives w _ l;
  }

  settle-Turn :
      (m : Machine) (i : ℕ) (w : Worker) (p : ℕ) (s : State)
      → w.phase ≡ looking
      → state_of m.system p ≡ s
      → (s ≡ finished → E p)
      → ((q : ℕ) → q ≢ p → state_of m.system q ≡ finished → F q)
      → Turn E F m i (p ∷ []) (settle sorter m i w p s)
  unfolding settle set_worker set_processes tally holds
  settle-Turn m i w p ready l same over keep =
      preempt-Turn m i w p (is_preemptive m.scheduler) l keep
  settle-Turn m i w p running l same over keep =
      preempt-Turn m i w p (is_preemptive m.scheduler) l keep
  settle-Turn m i w p blocked l same over keep = record {
    worker = record w { phase = parking p };
    workers = refl;
    gone = [];
    counted = omega arith;
    total = refl;
    moved = λ f. omega arith;
    left = λ k. ground arith;
    runs = unfold Runs in tt;
    goes = λ q few. absurd (omega (arith, few));
    finishes = λ q n. keep q (apart q p n);
    lives = unfold Lives in tt;
  }
  settle-Turn m i w p finished l same over keep = record {
    worker = w;
    workers = refl;
    gone = p ∷ [];
    counted = omega arith;
    total = refl;
    moved = λ f. omega (arith, ap (λ a. tally f (holds a)) l);
    left = λ k. ground (arith, l);
    runs = looking-Runs w l;
    goes = λ q few. subst E (sym (member q p few)) (over refl);
    finishes = λ q n e.
        let other = apart q p n in keep q other (unfold modify in ground (arith, e, other));
    lives = looking-Lives w _ l;
  }

  end_turn-Turn :
      (m : Machine) (i : ℕ) (w : Worker) (p used : ℕ) (print_lock : Bool)
      → (state_of m.system p ≡ finished → E p)
      → ((q : ℕ) → q ≢ p → state_of m.system q ≡ finished → F q)
      → Turn E F m i (p ∷ []) (end_turn sorter m i w p used print_lock)
  unfolding end_turn set_processes
  end_turn-Turn m i w p used print_lock over keep =
      let charge : Pcb → Pcb = λ b. record b { cpu_time = add64 b.cpu_time used } in
      let charged = modify-unfinished p m.system.processes charge in
      let w' : Worker = record {
        phase = looking;
        print_lock = print_lock;
        core_clock = add64 w.core_clock used;
        core_busy = add64 w.core_busy used;
      } in
      other_system E F m _ i _ _ (
        settle-Turn _ i w' p _ refl refl (λ e. over (charged p (λ b f. f) e))
          (λ q n e. keep q n (charged q (λ b f. f) e)))

  pub end_call-Turn :
      (m : Machine) (i : ℕ) (w : Worker) (p before : ℕ) (c : Core)
      → (state_of c.system p ≡ finished → E p)
      → ((q : ℕ) → q ≢ p → state_of c.system q ≡ finished → F q)
      → Turn E F m i (p ∷ []) (end_call sorter m i w p before c)
  unfolding end_call
  end_call-Turn m i w p before c over keep =
      other_system E F m c.system i _ _ (end_turn-Turn _ i w p _ _ over keep)

  pub end_of_round-Turn :
      (m : Machine) (i : ℕ) (w : Worker) (p before clock : ℕ) (c : Core)
      → AllCoded c.instructions
      → c.process ≡ p
      → state_of c.system p ≢ finished
      → ((q : ℕ) → state_of c.system q ≡ finished → F q)
      → Turn E F m i (p ∷ []) (end_of_round sorter m i w p before clock c)
  unfolding end_of_round set_worker holds tally
  end_of_round-Turn m i w p before clock c all own alive keep = record {
    worker = record w { phase = executing p before clock c };
    workers = refl;
    gone = [];
    counted = omega arith;
    total = refl;
    moved = λ f. omega arith;
    left = λ k. ground arith;
    runs = unfold Runs in (all, own);
    goes = λ q few. absurd (omega (arith, few));
    finishes = λ q n. keep q;
    lives = unfold Lives in alive;
  }

  pub park-Turn :
      (m : Machine) (i : ℕ) (w : Worker) (p : ℕ)
      → ((q : ℕ) → state_of m.system q ≡ finished → F q)
      → Turn E F m i (p ∷ []) (park m i w p)
  unfolding park set_worker holds tally
  park-Turn m i w p keep = record {
    worker = record w { phase = looking };
    workers = refl;
    gone = [];
    counted = omega arith;
    total = refl;
    moved = λ f. omega (arith, tally-one f m.blocked_list p);
    left = λ k. ground arith;
    runs = unfold Runs in tt;
    goes = λ q few. absurd (omega (arith, few));
    finishes = λ q n. keep q;
    lives = unfold Lives in tt;
  }
