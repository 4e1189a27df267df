-- ===== src/Machine/Reinsert.antt =====
-- What `ioWorker` of src/main.cpp and the end of a request change of the queue and the states.
use multicore_simulator.Prelude.{
  ℕ, List, [], ◌∷◌, ◌≡◌, ◌+◌, inl, inr, refl, arith, tally, Bool-cases,
}
use multicore_simulator.Prelude.Sorting.{Sorter}
use multicore_simulator.Process.{Processes, finished, modify}
use multicore_simulator.Scheduler.{Scheduler, add_process, mark_ready}
use multicore_simulator.Io.{Draws, Request, IoManager, process_next, count_io}
use multicore_simulator.Loader.Arrivals.{add_process-tally}
use multicore_simulator.Machine.{is_ready, reinsert}

pub add_process-unfinished :
    (sorter : Sorter ℕ) (s : Scheduler) (ps : Processes) (p now q : ℕ)
    → ((add_process sorter s ps p now).1 q).state ≡ finished
    → (ps q).state ≡ finished
unfolding add_process modify mark_ready
add_process-unfinished sorter s ps p now q e = ground (arith, e)

pub reinsert-unfinished :
    (sorter : Sorter ℕ) (s : Scheduler) (ps : Processes) (blocked : List ℕ) (q : ℕ)
    → ((reinsert sorter s ps blocked).1 q).state ≡ finished
    → (ps q).state ≡ finished
unfolding reinsert
reinsert-unfinished sorter s ps [] q = λ e. e
reinsert-unfinished sorter s ps (p ∷ rest) q = elim (Bool-cases (is_ready (ps p).state)) [
  | inl e ↦
      let (s', ps') = add_process sorter s ps p 0 in
      rw (e, reinsert)
        λ f. add_process-unfinished sorter s ps p 0 q (reinsert-unfinished sorter s' ps' rest q f)
  | inr e ↦ rw (e, reinsert) (reinsert-unfinished sorter s ps rest q)
]

pub process_next-unfinished :
    (d : Draws) (io : IoManager) (ps : Processes) (requests : List Request) (q : ℕ)
    → ((process_next d io ps requests).1 q).state ≡ finished
    → (ps q).state ≡ finished
unfolding process_next modify count_io
process_next-unfinished d io ps [] q e = e
process_next-unfinished d io ps (r ∷ rest) q e = ground (arith, e)

pub reinsert-tally :
    (sorter : Sorter ℕ) (s : Scheduler) (ps : Processes) (blocked : List ℕ) (f : ℕ → ℕ)
    → let (s', ps', kept) = reinsert sorter s ps blocked in
      tally f s'.ready_queue + tally f kept ≡ tally f s.ready_queue + tally f blocked
unfolding reinsert tally
reinsert-tally sorter s ps [] f = refl
reinsert-tally sorter s ps (p ∷ rest) f = elim (Bool-cases (is_ready (ps p).state)) [
  | inl e ↦
      let (s', ps') = add_process sorter s ps p 0 in
      rw (e, reinsert, tally)
        (omega (arith, add_process-tally sorter s ps p 0 f, reinsert-tally sorter s' ps' rest f))
  | inr e ↦ rw (e, reinsert, tally) (omega (arith, reinsert-tally sorter s ps rest f))
]
