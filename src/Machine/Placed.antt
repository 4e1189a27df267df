-- ===== src/Machine/Placed.antt =====
-- That the threads of src/main.cpp lose no process and run none twice.
use multicore_simulator.Prelude.{
  ℕ, zero, suc, List, [], ◌∷◌, ◌++◌, some, ◌≡◌, ◌≢◌, ◌≤◌, ◌<◌, ◌+◌, ◌⊎◌, inl, inr, ◌==◌, ltb, refl,
  sym, subst, ap, ◌∙◌, arith, length, length-append, get_or, replicate, tally, tally-append, count,
  if◌then◌else◌, Bool-cases,
}
use multicore_simulator.Prelude.Sorting.{Sorter}
use multicore_simulator.Process.{Processes, finished}
use multicore_simulator.Memory.Manager.Quantum.{state_of}
use multicore_simulator.Io.{IoManager, process_request}
use multicore_simulator.Loader.{Loaded}
use multicore_simulator.Machine.{
  looking, stopped, new_worker, Machine, set_processes, io_worker_step, ask_step, queue_step,
  process_step, core_step, new_machine,
}
use multicore_simulator.Machine.Held.{holds, collect, held, tally-collect-set, tally-held_two}
use multicore_simulator.Machine.Turn.{Runs, looking-Runs, Lives, looking-Lives}
use multicore_simulator.Machine.Call.{core_step-Turn}
use multicore_simulator.Machine.Step.{Step, Ends, Ending}
use multicore_simulator.Machine.Workers.{set-Runs, set-stopped, Lives-same, set-Lives}
use multicore_simulator.Machine.Reinsert.{
  reinsert-tally, reinsert-unfinished, process_next-unfinished,
}

-- Each process that arrived is, as often as it arrived, in the ready queue, with a worker, in the blocked
-- list or among those that have finished, as `E` says, of which there are as many as were counted. Every
-- worker that has stopped did so after the last process had finished. A process that Core runs is not
-- finished.
pub record Placed (E : ℕ → Type 0) (arrivals : List ℕ) (m : Machine) : Type 0 where
  pub done : List ℕ
  pub ended : (q : ℕ) → 1 ≤ count q done → E q
  pub counted : length done ≡ m.finished_processes
  pub total : m.total_processes ≡ length arrivals
  pub placed :
      (f : ℕ → ℕ)
      → tally f m.scheduler.ready_queue
          + tally f (held m.workers)
          + tally f m.blocked_list
          + tally f done
        ≡ tally f arrivals
  pub over :
      (i : ℕ)
      → (get_or m.workers i new_worker).phase ≡ stopped
      → m.total_processes ≤ m.finished_processes
  pub runs : (i : ℕ) → Runs (get_or m.workers i new_worker).phase
  pub lives : (i : ℕ) → Lives (get_or m.workers i new_worker).phase m.system

-- No process arrived twice.
abbrev pub Once : List ℕ → Type 0
Once arrivals = (q : ℕ) → count q arrivals ≤ 1

-- A process that one worker has is with no other.
held-apart :
    {E : ℕ → Type 0} (arrivals : List ℕ) (m : Machine) (i j q : ℕ)
    → Once arrivals
    → Placed E arrivals m
    → i ≢ j
    → q ∷ [] ≡ holds (get_or m.workers j new_worker).phase
    → count q (holds (get_or m.workers i new_worker).phase) ≡ 0
held-apart arrivals m i j q once k other e =
    let is_q : ℕ → ℕ = λ x. if x == q then 1 else 0 in
    omega (
      arith,
      once q,
      k.placed is_q,
      tally-held_two is_q m.workers i j other,
      ap (tally is_q) e,
      one_q,
    )
  where
    one_q : count q (q ∷ []) ≡ 1
    one_q = unfold tally in ground arith

core_step-Placed :
    {E : ℕ → Type 0} (sorter : Sorter ℕ) (arrivals : List ℕ) (m m' : Machine) (i : ℕ)
    → i < length m.workers
    → core_step sorter m i ≡ some m'
    → Once arrivals
    → Placed E arrivals m
    → Placed (λ q. E q ⊎ Ends (get_or m.workers i new_worker).phase q) arrivals m'
core_step-Placed {E} sorter arrivals m m' i h e once k =
    let t = core_step-Turn sorter m m' i h (k.runs i) (k.lives i) e in
    record {
      done = t.gone ++ k.done;
      ended = λ q few. pick q (t.goes q) (k.ended q) (split q t.gone k.done few);
      counted = omega (arith, length-append t.gone k.done, t.counted, k.counted);
      total = t.total ∙ k.total;
      placed = λ f. omega (
        arith,
        t.moved f,
        k.placed f,
        tally-append f t.gone k.done,
        ap (λ ws. tally f (held ws)) t.workers,
        tally-collect-set f holds m.workers i t.worker h,
      );
      over = λ j l. ground (
        arith,
        t.counted,
        t.total,
        t.left,
        k.over j,
        set-stopped m.workers i j t.worker h
            (ap (λ ws. (get_or ws j new_worker).phase) (sym t.workers) ∙ l),
      );
      runs = λ j.
          subst (λ ws. Runs (get_or ws j new_worker).phase) (sym t.workers)
            (set-Runs m.workers i j t.worker h t.runs (k.runs j));
      lives = λ j.
          subst (λ ws. Lives (get_or ws j new_worker).phase m'.system) (sym t.workers)
            (set-Lives m.workers i j t.worker m.system m'.system h t.lives
              (λ other q here. t.finishes q (held-apart arrivals m i j q once k other here))
              (k.lives j));
    }
  where
    split : (q : ℕ) (xs ys : List ℕ) → 1 ≤ count q (xs ++ ys) → (1 ≤ count q xs) ⊎ (1 ≤ count q ys)
    split q xs ys few = ground (arith, few, tally-append (λ x. if x == q then 1 else 0) xs ys)

    pick : (q : ℕ) {A B X Y : Type 0} → (A → Y) → (B → X) → A ⊎ B → X ⊎ Y
    pick q f g (inl a) = inr (f a)
    pick q f g (inr b) = inl (g b)

io_worker_step-Placed :
    {E : ℕ → Type 0} (sorter : Sorter ℕ) (arrivals : List ℕ) (m : Machine)
    → Placed E arrivals m
    → Placed E arrivals (io_worker_step sorter m)
unfolding io_worker_step set_processes
io_worker_step-Placed sorter arrivals m k =
    elim (Bool-cases (ltb m.finished_processes m.total_processes)) [
      | inl e ↦ rw e (record {
        done = k.done;
        ended = k.ended;
        counted = k.counted;
        total = k.total;
        placed = λ f. omega (
          arith,
          k.placed f,
          reinsert-tally sorter m.scheduler m.system.processes m.blocked_list f,
        );
        over = k.over;
        runs = k.runs;
        lives = λ i.
            Lives-same (get_or m.workers i new_worker).phase m.system _
              (λ q here. reinsert-unfinished sorter m.scheduler m.system.processes m.blocked_list q)
              (k.lives i);
      })
      | inr e ↦ rw e k
    ]

fresh-looking : (n i : ℕ) → (get_or (replicate n new_worker) i new_worker).phase ≡ looking
unfolding replicate get_or new_worker
fresh-looking zero i = refl
fresh-looking (suc n) zero = refl
fresh-looking (suc n) (suc i) = fresh-looking n i

pub new_machine-Placed :
    {E : ℕ → Type 0} (l : Loaded)
    → ((f : ℕ → ℕ) → tally f l.scheduler.ready_queue ≡ tally f l.process_list)
    → Placed E l.process_list (new_machine l)
unfolding new_machine tally collect replicate holds new_worker get_or
new_machine-Placed l arrived = record {
  done = [];
  ended = λ q few. absurd (omega (arith, few));
  counted = refl;
  total = refl;
  placed = λ f. omega (arith, arrived f);
  over = λ i e. ground (arith, fresh-looking 4 i);
  runs = λ i. looking-Runs (get_or (replicate 4 new_worker) i new_worker) (fresh-looking 4 i);
  lives = λ i.
      looking-Lives (get_or (replicate 4 new_worker) i new_worker) l.system (fresh-looking 4 i);
}

weaken :
    {E : ℕ → Type 0} (G : ℕ → Type 0) (arrivals : List ℕ) (m : Machine)
    → Placed E arrivals m
    → Placed (λ q. E q ⊎ G q) arrivals m
weaken G arrivals m k = record {
  done = k.done;
  ended = λ q few. inl (k.ended q few);
  counted = k.counted;
  total = k.total;
  placed = k.placed;
  over = k.over;
  runs = k.runs;
  lives = k.lives;
}

-- The I/O manager has no part in it, and it finishes no process.
io_manager-Placed :
    {E : ℕ → Type 0} (arrivals : List ℕ) (m : Machine) (io : IoManager) (ps : Processes)
    → ((q : ℕ) → (ps q).state ≡ finished → state_of m.system q ≡ finished)
    → Placed E arrivals m
    → Placed E arrivals (record (set_processes m ps) { io_manager = io })
unfolding set_processes
io_manager-Placed arrivals m io ps back k = record {
  done = k.done;
  ended = k.ended;
  counted = k.counted;
  total = k.total;
  placed = k.placed;
  over = k.over;
  runs = k.runs;
  lives = λ i.
      Lives-same (get_or m.workers i new_worker).phase m.system _ (λ q here. back q) (k.lives i);
}

pub step-Placed :
    {E : ℕ → Type 0} (sorter : Sorter ℕ) (arrivals : List ℕ) (m m' : Machine) (s : Step sorter m m')
    → Once arrivals
    → Placed E arrivals m
    → Placed (λ q. E q ⊎ Ending s q) arrivals m'
unfolding Ending
step-Placed sorter arrivals m m' (Step.core i h e) once k =
    core_step-Placed sorter arrivals m _ i h e once k
step-Placed sorter arrivals m _ Step.io_worker once k =
    weaken (λ q. ⊥) arrivals _ (io_worker_step-Placed sorter arrivals m k)
step-Placed sorter arrivals m _ (Step.ask d) once k =
    unfold ask_step set_processes in
    weaken (λ q. ⊥) arrivals _ (io_manager-Placed arrivals m _ m.system.processes (λ q e. e) k)
step-Placed sorter arrivals m _ (Step.queue d) once k =
    unfold queue_step set_processes in
    weaken (λ q. ⊥) arrivals _ (io_manager-Placed arrivals m _ m.system.processes (λ q e. e) k)
step-Placed sorter arrivals m _ (Step.process d) once k =
    unfold process_step process_request set_processes in
    weaken (λ q. ⊥) arrivals _
      (io_manager-Placed arrivals m _ _
        (process_next-unfinished d m.io_manager m.system.processes m.io_manager.requests) k)
