-- ===== src/Machine/Aside/Quiet.antt =====
-- Which processes of src/main.cpp are not aside, and what the call of Core changes of that.
use multicore_simulator.Prelude.{
  ℕ, Bool, true, false, List, [], ◌∷◌, ◌≡◌, ◌≢◌, ◌≤◌, ◌<◌, ◌+◌, inl, inr, ◌==◌, sym, ap, ◌∙◌, subst,
  arith, if◌then◌else◌, length, get_or, set, get_or-set, tally, count, ==_iff, Bool-cases,
}
use multicore_simulator.Process.{State}
use multicore_simulator.Memory.Manager.Quantum.{state_of}
use multicore_simulator.Machine.{Worker, new_worker, Machine}
use multicore_simulator.Machine.Held.{
  holds, parked, collect, tally-collect-set, parked-held, running-held,
}
use multicore_simulator.Machine.Placed.{Placed, Once}
use multicore_simulator.Machine.Aside.{requested, at_io, aside, Accounted, Own, Waits}
use multicore_simulator.Machine.Aside.Called.{Called}

nothing_at_io : (io here : ℕ) (s : State) → here ≡ 0 → Accounted io here s → io ≡ 0
nothing_at_io io here s e (inl (f, _)) = f ∙ e
nothing_at_io io here s e (inr (f, _)) = f

pub Accounted-same :
    (io io' here here' : ℕ) (s s' : State)
    → io' ≡ io
    → here' ≡ here
    → s' ≡ s
    → Accounted io here s
    → Accounted io' here' s'
Accounted-same io io' here here' s s' e f g (inl (a, b)) =
    inl (e ∙ a ∙ sym f, λ few. g ∙ b (omega (arith, f, few)))
Accounted-same io io' here here' s s' e f g (inr (a, b)) = inr (e ∙ a, g ∙ b)

-- A process in the queue, or that a worker has and does not park, is not aside, and the I/O manager
-- does not have it.
pub quiet-queued :
    {E : ℕ → Type 0} (arrivals : List ℕ) (m : Machine) (q : ℕ)
    → Once arrivals
    → Placed E arrivals m
    → Waits m
    → 1 ≤ count q m.scheduler.ready_queue
    → (aside m q ≡ 0) × (at_io m q ≡ 0)
quiet-queued arrivals m q once k h few =
    let f : ℕ → ℕ = λ x. if x == q then 1 else 0 in
    let absent : aside m q ≡ 0 = omega (arith, few, once q, k.placed f, parked-held f m.workers) in
    (absent, nothing_at_io _ _ _ absent (h.accounted q))

pub quiet-executing :
    {E : ℕ → Type 0} (arrivals : List ℕ) (m : Machine) (i p : ℕ)
    → Once arrivals
    → Placed E arrivals m
    → Waits m
    → holds (get_or m.workers i new_worker).phase ≡ p ∷ []
    → parked (get_or m.workers i new_worker).phase ≡ []
    → (aside m p ≡ 0) × (at_io m p ≡ 0)
unfolding tally
quiet-executing arrivals m i p once k h e f =
    let g : ℕ → ℕ = λ x. if x == p then 1 else 0 in
    let absent : aside m p ≡ 0 = omega (
      arith,
      once p,
      k.placed g,
      running-held g m.workers i,
      ap (tally g) e,
      ap (tally g) f,
      one_p,
    ) in
    (absent, nothing_at_io _ _ _ absent (h.accounted p))
  where
    one_p : count p (p ∷ []) ≡ 1
    one_p = ground arith

pub set-Own :
    (ws : List Worker) (i j : ℕ) (w : Worker)
    → i < length ws
    → Own w.phase
    → Own (get_or ws j new_worker).phase
    → Own (get_or (set ws i w) j new_worker).phase
set-Own ws i j w h new old =
    subst (λ (v : Worker). Own v.phase) (sym (get_or-set ws i j w new_worker h)) (pick (i == j))
  where
    pick : (b : Bool) → Own (if b then w else get_or ws j new_worker).phase
    pick true = new
    pick false = old

pub Called-Waits :
    (arrivals : List ℕ) (m m' : Machine) (i p : ℕ)
    → i < length m.workers
    → Waits m
    → (aside m p ≡ 0) × (at_io m p ≡ 0)
    → parked (get_or m.workers i new_worker).phase ≡ []
    → Called m i p m'
    → Waits m'
unfolding tally
Called-Waits arrivals m m' i p h k quiet unparked t = record {
  accounted = λ q. elim (Bool-cases (q == p)) [
    | inl e ↦
        subst (λ r. Accounted (at_io m' r) (aside m' r) (state_of m'.system r))
          (sym ((==_iff q p).0 e)) here
    | inr e ↦
        let apart : q ≢ p = λ k. ground (arith, e, k) in
        Accounted-same _ _ _ _ _ _ (omega (arith, io q, t.parks q apart))
          (omega (arith, moved q, t.parks q apart)) (t.states q apart) (k.accounted q)
  ];
  own = λ j.
      subst (λ ws. Own (get_or ws j new_worker).phase) (sym t.workers)
        (set-Own m.workers i j t.worker h t.own (k.own j));
}
  where
    io : (q : ℕ) → at_io m' q ≡ at_io m q + count q (parked t.worker.phase)
    io q = omega (arith, t.waiting q, ap (λ rs. count q (requested rs)) t.requests)

    moved : (q : ℕ) → aside m' q ≡ aside m q + count q (parked t.worker.phase)
    moved q =
        let f : ℕ → ℕ = λ x. if x == q then 1 else 0 in
        omega (
          arith,
          ap (count q) t.blocked_list,
          ap (λ ws. tally f (collect parked ws)) t.workers,
          tally-collect-set f parked m.workers i t.worker h,
          ap (tally f) unparked,
        )

    here : Accounted (at_io m' p) (aside m' p) (state_of m'.system p)
    here =
        inl (
          omega (arith, io p, moved p, quiet),
          λ few. t.blocks (omega (arith, few, moved p, quiet)),
        )
