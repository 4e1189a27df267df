-- ===== src/Io/Service.antt =====
-- That the I/O manager of src/IO/IOManager.cpp serves every process that waits, in the order in which
-- they came.
use multicore_simulator.Prelude.{
  ℕ, Bool, true, false, List, [], ◌∷◌, ◌++◌, ◌≡◌, ◌⊎◌, inl, inr, ◌≤◌, ◌+◌, ◌%◌, ◌==◌, ◌||◌, refl,
  sym, subst, ap, ◌∙◌, arith, if◌then◌else◌, length, length-append, no_length,
}
use mathlib.Core.List.{append-nil}
use multicore_simulator.Prelude.Assoc.{nat_eq, contains}
use multicore_simulator.Process.{Processes, ready, modify}
use multicore_simulator.Io.{IoManager, Draws, count_io, manager_loop}
use multicore_simulator.Io.Spec.{
  Devices, view, serve, spec_round, spec_loop, Idle, manager_loop-refines,
}

-- The rounds in which a device asks for a process.
unfoldable pub asks : List Draws → ℕ
asks [] = 0
asks (d ∷ ds) = (if (d.printer % 100 == 0) || (d.disk % 50 == 0) then 1 else 0) + asks ds

-- What a round does: nothing, if no device asks or nobody waits, or it serves the first.
abbrev Round : Draws → Devices → Processes → Devices → Processes → Type 0
Round d v ps v' ps' =
    ((v'.queue ≡ v.queue) × (ps' ≡ ps) × ((asks (d ∷ []) ≡ 0) ⊎ (v.queue ≡ [])))
    ⊎ ((p : ℕ) × (v.queue ≡ p ∷ v'.queue) × (ps' ≡ modify p (count_io d.duration) ps))

serve-Round :
    (d : Draws) (v w : Devices) (queue : List ℕ) (ps : Processes)
    → w.queue ≡ queue
    → v.queue ≡ queue
    → ((asks (d ∷ []) ≡ 0) ⊎ ((w.printer || w.disk) ≡ true))
    → let (v', ps') = serve d.duration w queue ps in Round d v ps v' ps'
unfolding serve
serve-Round d v w [] ps e f h = inl (e ∙ sym f, refl, inr f)
serve-Round d v w (p ∷ rest) ps e f h = choose w.printer w.disk refl refl
  where
    choose :
        (a b : Bool)
        → w.printer ≡ a
        → w.disk ≡ b
        → let (v', ps') = serve d.duration w (p ∷ rest) ps in Round d v ps v' ps'
    choose true b i j = rw i (inr (p, f, refl))
    choose false true i j = rw (i, j) (inr (p, f, refl))
    choose false false i j = rw (i, j) (inl (e ∙ sym f, refl, inl (none i j h)))
      where
        none :
            w.printer ≡ false
            → w.disk ≡ false
            → (asks (d ∷ []) ≡ 0) ⊎ ((w.printer || w.disk) ≡ true)
            → asks (d ∷ []) ≡ 0
        none i j (inl k) = k
        none i j (inr k) = ground arith

spec_round-Round :
    (d : Draws) (v : Devices) (ps : Processes)
    → let (v', ps') = spec_round d v ps in Round d v ps v' ps'
unfolding spec_round
spec_round-Round d v ps =
    serve-Round d v _ v.queue ps refl refl
      (choose (d.printer % 100 == 0) (d.disk % 50 == 0) refl refl)
  where
    choose :
        (a b : Bool)
        → (d.printer % 100 == 0) ≡ a
        → (d.disk % 50 == 0) ≡ b
        → (asks (d ∷ []) ≡ 0)
          ⊎ (((v.printer || (d.printer % 100 == 0)) || (v.disk || (d.disk % 50 == 0))) ≡ true)
    choose a b e f = unfold asks in ground arith

-- What the rounds have done: the processes that were served, and no others, are ready, and there are as
-- many of them as rounds in which a device asked, unless nobody waits any more.
abbrev pub Serves : List Draws → Devices → Processes → Devices → Processes → Type 0
Serves ds v ps v' ps' =
    (served : List ℕ) × (v.queue ≡ served ++ v'.queue)
    × ((p : ℕ) → contains p served ≡ true → (ps' p).state ≡ ready)
    × ((p : ℕ) → contains p served ≡ false → ps' p ≡ ps p)
    × ((asks ds ≤ length served) ⊎ (v'.queue ≡ []))

append-empty : (xs ys : List ℕ) → [] ≡ xs ++ ys → ys ≡ []
append-empty [] ys e = sym e
append-empty (x ∷ xs) ys e = cc

spec_loop-Serves :
    (ds : List Draws) (v : Devices) (ps : Processes)
    → let (v', ps') = spec_loop ds v ps in Serves ds v ps v' ps'
unfolding spec_loop contains asks modify count_io
spec_loop-Serves [] v ps = ([], refl, λ p e. cc, λ p e. refl, inl (omega arith))
spec_loop-Serves (d ∷ ds) v ps =
    let (v1, ps1) = spec_round d v ps in
    let (v2, ps2) = spec_loop ds v1 ps1 in
    let rest : Serves ds v1 ps1 v2 ps2 = spec_loop-Serves ds v1 ps1 in
    join v1 ps1 v2 ps2 (spec_round-Round d v ps) rest
  where
    join :
        (v1 : Devices) (ps1 : Processes) (v2 : Devices) (ps2 : Processes)
        → Round d v ps v1 ps1
        → Serves ds v1 ps1 v2 ps2
        → Serves (d ∷ ds) v ps v2 ps2
    join v1 ps1 v2 ps2 (inl (e, f, none)) (served, g, done, kept, enough) = (
      served,
      sym e ∙ g,
      done,
      λ p k. kept p k ∙ ap (λ (qs : Processes). qs p) f,
      more none enough,
    )
      where
        more :
            ((asks (d ∷ []) ≡ 0) ⊎ (v.queue ≡ []))
            → ((asks ds ≤ length served) ⊎ (v2.queue ≡ []))
            → (asks (d ∷ ds) ≤ length served) ⊎ (v2.queue ≡ [])
        more none (inr k) = inr k
        more (inl k) (inl enough) = inl (ground arith)
        more (inr k) (inl enough) = inr (append-empty served v2.queue (sym k ∙ sym e ∙ g))
    join v1 ps1 v2 ps2 (inr (p, e, f)) (served, g, done, kept, enough) =
        let now : (q : ℕ) → ps1 q ≡ modify p (count_io d.duration) ps q =
          λ q. ap (λ (qs : Processes). qs q) f in
        (
          p ∷ served,
          e ∙ ap (◌∷◌ p) g,
          λ q k. ground (arith, done q, kept q, now q),
          λ q k. ground (arith, kept q, now q),
          ground arith,
        )

-- Every process that waits for I/O is served. Between two rounds of the manager that is not shut down
-- no request is left over; if from there as many rounds have a device that asks as processes wait, then
-- after them nobody waits, each process that waited is ready, and no other block has changed.
pub manager_loop-serves :
    (ds : List Draws) (m : IoManager) (ps : Processes)
    → Idle m
    → length m.waiting_processes ≤ asks ds
    → let (m', ps') = manager_loop ds m ps in
      (m'.waiting_processes ≡ [])
      × ((p : ℕ) → contains p m.waiting_processes ≡ true → (ps' p).state ≡ ready)
      × ((p : ℕ) → contains p m.waiting_processes ≡ false → ps' p ≡ ps p)
manager_loop-serves ds m ps h enough =
    let (idle, e) = manager_loop-refines ds m ps h in
    let (m', ps') = manager_loop ds m ps in
    all m' ps' (
      subst (λ (r : Devices × Processes). Serves ds (view m) ps r.0 r.1) (sym e)
        (spec_loop-Serves ds (view m) ps))
  where
    all :
        (m' : IoManager) (ps' : Processes)
        → Serves ds (view m) ps (view m') ps'
        → (m'.waiting_processes ≡ [])
          × ((p : ℕ) → contains p m.waiting_processes ≡ true → (ps' p).state ≡ ready)
          × ((p : ℕ) → contains p m.waiting_processes ≡ false → ps' p ≡ ps p)
    all m' ps' (served, g, done, kept, full) =
        let empty : m'.waiting_processes ≡ [] = none_left full in
        let same : m.waiting_processes ≡ served = g ∙ ap (◌++◌ served) empty ∙ append-nil served in
        (
          empty,
          λ p k. done p (ap (contains p) (sym same) ∙ k),
          λ p k. kept p (ap (contains p) (sym same) ∙ k),
        )
      where
        none_left :
            ((asks ds ≤ length served) ⊎ (m'.waiting_processes ≡ [])) → m'.waiting_processes ≡ []
        none_left (inr k) = k
        none_left (inl k) =
            no_length m'.waiting_processes
              (omega (arith, enough, k, ap length g, length-append served m'.waiting_processes))
