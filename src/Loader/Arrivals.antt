-- ===== src/Loader/Arrivals.antt =====
-- That each process of the batch in src/main.cpp arrives once.
use multicore_simulator.Prelude.{
  ℕ, List, [], ◌∷◌, String, Option, none, some, ◌≡◌, ◌≤◌, ◌+◌, ◌==◌, ◌&&◌, not, refl, arith,
  if◌then◌else◌, tally, tally-one, tally-Perm, count, inl, inr, Bool-cases, Option-cases,
}
use multicore_simulator.Prelude.Sorting.{Sorter}
use multicore_simulator.Process.{Pcb, Processes, new_pcb}
use multicore_simulator.Memory.Manager.{System}
use multicore_simulator.Scheduler.{Scheduler, new_scheduler, add_process}
use multicore_simulator.Scheduler.Queue.{add_process-perm}
use multicore_simulator.Parser.Text.{is_empty_string}
use multicore_simulator.Parser.Program.{JsonLibrary}
use multicore_simulator.Loader.{
  load_pcb_from_json, Loaded, arrive, admit, load_batch, Input, empty_simulator, load_all,
}

-- The processes in the queue are those in the list, none of which is there twice; they are the first
-- `next` blocks.
pub record Arrived (next : ℕ) (l : Loaded) : Type 0 where
  pub queued : (f : ℕ → ℕ) → tally f l.scheduler.ready_queue ≡ tally f l.process_list
  pub once : (q : ℕ) → count q l.process_list ≤ 1
  pub fresh : (q : ℕ) → next ≤ q → count q l.process_list ≡ 0

pub add_process-tally :
    (sorter : Sorter ℕ) (s : Scheduler) (ps : Processes) (process now : ℕ) (f : ℕ → ℕ)
    → tally f (add_process sorter s ps process now).0.ready_queue
      ≡ tally f s.ready_queue + f process
add_process-tally sorter s ps process now f =
    let (kept, _) = add_process-perm sorter s ps process now s.policy in
    omega (arith, tally-Perm f _ _ kept, tally-one f s.ready_queue process)

module _ {J : Type 0} (json : JsonLibrary J) (open_json : String → Option J)
    (sorter : Sorter ℕ) where
  arrive-Arrived :
      (l : Loaded) (system : System) (next : ℕ) (end : Option ℕ)
      → Arrived next l
      → Arrived (next + 1) (arrive json open_json sorter l system next end).0
  unfolding arrive
  arrive-Arrived l system next none k = record {
    queued = k.queued;
    once = k.once;
    fresh = λ q h. k.fresh q (omega arith);
  }
  arrive-Arrived l system next (some addr) k = record {
    queued = λ f. omega (
      arith,
      k.queued f,
      add_process-tally sorter l.scheduler system.processes next 0 f,
      tally-one f l.process_list next,
    );
    once = λ q.
        ground (
          arith,
          k.once q,
          k.fresh q,
          tally-one (λ x. if x == q then 1 else 0) l.process_list next,
        );
    fresh = λ q h. ground (
      arith,
      k.fresh q (omega arith),
      tally-one (λ x. if x == q then 1 else 0) l.process_list next,
    );
  }

  admit-Arrived :
      (l : Loaded) (next : ℕ) (p : Pcb)
      → Arrived next l
      → Arrived (next + 1) (admit json open_json sorter l next p).0
  unfolding admit
  admit-Arrived l next p k = arrive-Arrived l _ next _ k

  load_batch-Arrived :
      (batch : List J) (next : ℕ) (l : Loaded)
      → Arrived next l
      → (last : ℕ) × Arrived last (load_batch json open_json sorter batch next l)
  unfolding load_batch
  load_batch-Arrived [] next l k = (next, k)
  load_batch-Arrived (file ∷ rest) next l k = elim (Option-cases (json.get_string file)) [
    | inl e ↦ rw (e, load_batch) (next, k)
    | inr (path, e) ↦
        let (p, ok) = load_pcb_from_json json (open_json path) new_pcb in
        let (l', went_on) = admit json open_json sorter l next p in
        let k' : Arrived (next + 1) l' = admit-Arrived l next p k in
        elim (Bool-cases (ok && not (is_empty_string p.program_path))) [
          | inr f ↦ rw (e, f, load_batch) (load_batch-Arrived rest next l k)
          | inl f ↦ elim (Bool-cases went_on) [
            | inr g ↦ rw (e, f, g, load_batch) (next + 1, k')
            | inl g ↦ rw (e, f, g, load_batch) (load_batch-Arrived rest (next + 1) l' k')
          ]
        ]
  ]

-- Whatever the files hold: the ready queue has the processes that were loaded, each of them once, and
-- no block is used for two of them.
pub load_all-Arrived : (input : Input) → (last : ℕ) × Arrived last (load_all input)
unfolding load_all empty_simulator new_scheduler tally
load_all-Arrived input =
    load_batch-Arrived input.json input.open_json input.sorter input.batch 0
      (empty_simulator input.policy)
      (record { queued = λ f. refl; once = λ q. omega arith; fresh = λ q h. refl })
