-- ===== src/Machine/Aside/Served.antt =====
-- That the end of a request, and `ioWorker` of src/main.cpp, keep account of the processes that are aside.
use multicore_simulator.Prelude.{
  ℕ, true, List, [], ◌∷◌, ◌≡◌, ◌≢◌, ◌+◌, ◌⊎◌, ◌↔◌, inl, inr, ◌==◌, ==_iff, refl, sym, ap, ◌∙◌,
  arith, if◌then◌else◌, tally, count, Bool-cases, ltb,
}
use multicore_simulator.Prelude.Sorting.{Sorter}
use multicore_simulator.Process.{Processes, State, ready, running, blocked, finished, modify}
use multicore_simulator.Memory.Manager.Quantum.{state_of}
use multicore_simulator.Scheduler.{Scheduler, add_process, mark_ready}
use multicore_simulator.Io.{Draws, Request, count_io, process_next, process_request}
use multicore_simulator.Machine.{
  Machine, set_processes, is_ready, reinsert, io_worker_step, process_step,
}
use multicore_simulator.Machine.Held.{parked-held}
use multicore_simulator.Machine.Placed.{Placed, Once}
use multicore_simulator.Machine.Aside.{requested, at_io, aside, Accounted, Waits}
use multicore_simulator.Machine.Aside.Quiet.{Accounted-same}

-- The process of the first request is ready, and the I/O manager has it no longer.
process_next-Waits :
    {E : ℕ → Type 0} (arrivals : List ℕ) (d : Draws) (m : Machine) (rs : List Request)
    → Once arrivals
    → Placed E arrivals m
    → Waits m
    → m.io_manager.requests ≡ rs
    → let (io, ps) = process_next d m.io_manager m.system.processes rs in
      Waits (record (set_processes m ps) { io_manager = io })
unfolding process_next set_processes
process_next-Waits arrivals d m [] once placed k e = record { accounted = k.accounted; own = k.own }
process_next-Waits arrivals d m (r ∷ rs) once placed k e = record {
  accounted = λ q. elim (Bool-cases (q == r.process)) [
    | inl f ↦ inr (
      served q ((==_iff q r.process).0 f) (k.accounted q),
      unfold modify count_io in ground (arith, f),
    )
    | inr f ↦
        let apart : r.process ≢ q = λ g. ground (arith, f, g) in
        let same : count q m.io_manager.waiting_processes + count q (requested rs) ≡ at_io m q =
          omega (arith, ap (λ a. count q (requested a)) e, others q apart) in
        Accounted-same _ _ _ _ _ _ same refl (states q apart) (k.accounted q)
  ];
  own = k.own;
}
  where
    states :
        (q : ℕ)
        → r.process ≢ q
        → (modify r.process (count_io d.duration) m.system.processes q).state ≡ state_of m.system q
    states q n = unfold modify in ground (arith, n)

    others : (q : ℕ) → r.process ≢ q → count q (requested (r ∷ rs)) ≡ count q (requested rs)
    others q n = unfold requested tally in ground (arith, n)

    head : (q : ℕ) → q ≡ r.process → count q (requested (r ∷ rs)) ≡ 1 + count q (requested rs)
    head q f = unfold requested tally in ground (arith, f)

    served :
        (q : ℕ)
        → q ≡ r.process
        → Accounted (at_io m q) (aside m q) (state_of m.system q)
        → count q m.io_manager.waiting_processes + count q (requested rs) ≡ 0
    served q f (inl (same, _)) =
        let g : ℕ → ℕ = λ x. if x == q then 1 else 0 in
        omega (
          arith,
          same,
          once q,
          placed.placed g,
          parked-held g m.workers,
          ap (λ a. count q (requested a)) e,
          head q f,
        )
    served q f (inr (none_left, _)) =
        omega (arith, none_left, ap (λ a. count q (requested a)) e, head q f)

is_ready_iff : (s : State) → (is_ready s ≡ true) ↔ (s ≡ ready)
unfolding is_ready
is_ready_iff ready = (λ e. refl, λ e. refl)
is_ready_iff running = (λ e. cc, λ e. cc)
is_ready_iff blocked = (λ e. cc, λ e. cc)
is_ready_iff finished = (λ e. cc, λ e. cc)

add_process-state :
    (sorter : Sorter ℕ) (s : Scheduler) (ps : Processes) (p q : ℕ)
    → (ps p).state ≡ ready
    → ((add_process sorter s ps p 0).1 q).state ≡ (ps q).state
unfolding add_process modify mark_ready
add_process-state sorter s ps p q e =
    ground (arith, e, ==_iff q p, λ (f : q ≡ p). ap (λ x. (ps x).state) f)

reinsert-states :
    (sorter : Sorter ℕ) (s : Scheduler) (ps : Processes) (xs : List ℕ) (q : ℕ)
    → let (s', ps', kept) = reinsert sorter s ps xs in
      ((ps' q).state ≡ (ps q).state)
      × (((ps q).state ≢ ready) → count q kept ≡ count q xs)
      × (((ps q).state ≡ ready) → count q kept ≡ 0)
unfolding reinsert tally
reinsert-states sorter s ps [] q = (refl, λ n. refl, λ n. refl)
reinsert-states sorter s ps (p ∷ rest) q = elim (Bool-cases (is_ready (ps p).state)) [
  | inl e ↦
      let (s', ps') = add_process sorter s ps p 0 in
      let ready_p = (is_ready_iff (ps p).state).0 e in
      let same = add_process-state sorter s ps p q ready_p in
      let after = reinsert-states sorter s' ps' rest q in
      rw (e, reinsert, tally)
        (
          after.0 ∙ same,
          λ n.
              let counted = after.1 (λ k. n (sym same ∙ k)) in
              let apart : p ≢ q = λ f. n (ap (λ x. (ps x).state) (sym f) ∙ ready_p) in
              ground (arith, counted, apart),
          λ k. after.2 (same ∙ k),
        )
  | inr e ↦
      let after = reinsert-states sorter s ps rest q in
      let unready : (ps p).state ≢ ready =
        λ k. ground (arith, e, (is_ready_iff (ps p).state).1 k) in
      rw (e, reinsert, tally)
        (
          after.0,
          λ n. omega (arith, after.1 n),
          λ k.
              let apart : p ≢ q = λ f. unready (ap (λ x. (ps x).state) f ∙ k) in
              ground (arith, after.2 k, apart),
        )
]

is_ready-cases : (s : State) → (s ≡ ready) ⊎ (s ≢ ready)
is_ready-cases s = elim (Bool-cases (is_ready s)) [
  | inl e ↦ inl ((is_ready_iff s).0 e)
  | inr e ↦ inr (λ k. ground (arith, e, (is_ready_iff s).1 k))
]

-- A process that is ready leaves the blocked list, and the others stay.
reinserted :
    (io blocked_before blocked_after parked_ : ℕ) (s s' : State)
    → s' ≡ s
    → (s ≢ ready → blocked_after ≡ blocked_before)
    → (s ≡ ready → blocked_after ≡ 0)
    → Accounted io (blocked_before + parked_) s
    → Accounted io (blocked_after + parked_) s'
reinserted io b b' p s s' e stay leave acc = decide (is_ready-cases s) acc
  where
    decide : (s ≡ ready) ⊎ (s ≢ ready) → Accounted io (b + p) s → Accounted io (b' + p) s'
    decide (inl k) (inr (none_left, _)) = inr (none_left, e ∙ k)
    decide (inl k) (inl (same, held_back)) = inr (ground (arith, k, held_back), e ∙ k)
    decide (inr n) (inr (_, k)) = absurd (n k)
    decide (inr n) (inl (same, held_back)) =
        let kept = stay n in
        inl (omega (arith, same, kept), λ few. e ∙ held_back (omega (arith, few, kept)))

pub io_worker_step-Waits :
    (sorter : Sorter ℕ) (m : Machine) → Waits m → Waits (io_worker_step sorter m)
unfolding io_worker_step set_processes
io_worker_step-Waits sorter m k = elim (Bool-cases (ltb m.finished_processes m.total_processes)) [
  | inl e ↦ rw e (record {
    accounted = λ q.
        let (same, stay, leave) =
          reinsert-states sorter m.scheduler m.system.processes m.blocked_list q in
        reinserted _ _ _ _ _ _ same stay leave (k.accounted q);
    own = k.own;
  })
  | inr e ↦ rw e k
]

pub process_step-Waits :
    {E : ℕ → Type 0} (arrivals : List ℕ) (d : Draws) (m : Machine)
    → Once arrivals
    → Placed E arrivals m
    → Waits m
    → Waits (process_step d m)
unfolding process_step process_request
process_step-Waits arrivals d m once placed k =
    process_next-Waits arrivals d m m.io_manager.requests once placed k refl
