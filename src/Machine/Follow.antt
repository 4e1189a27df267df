-- ===== src/Machine/Follow.antt =====
-- A run of the cores of src/main.cpp by a schedule, the cores whose turn it is.
use multicore_simulator.Prelude.{
  ℕ, List, [], ◌∷◌, Option, none, some, ◌≡◌, ◌<◌, ◌∙◌, sym, ap, subst, refl, arith, length,
  length-set,
}
use mathlib.Core.Option.{some_inj}
use multicore_simulator.Prelude.Sorting.{Sorter}
use multicore_simulator.Control.Core.{◌>>=◌}
use multicore_simulator.Loader.{Input}
use multicore_simulator.Machine.{Worker, Machine, core_step}
use multicore_simulator.Machine.Call.{core_step-Turn}
use multicore_simulator.Machine.Step
use multicore_simulator.Machine.Step.{Reach}
use multicore_simulator.Machine.Safety.{Reach-Placed}

unfoldable pub follow : Sorter ℕ → List ℕ → Machine → Option Machine
follow sorter [] m = some m
follow sorter (i ∷ rest) m = core_step sorter m i >>= follow sorter rest

-- The schedule names workers only.
abbrev pub AllBelow : ℕ → List ℕ → Type 0
AllBelow n [] = Unit
AllBelow n (i ∷ rest) = (i < n) × AllBelow n rest

pub follow-Reach :
    (input : Input) (schedule : List ℕ) (m m' : Machine)
    → Reach input m
    → AllBelow (length m.workers) schedule
    → follow input.sorter schedule m ≡ some m'
    → Reach input m'
unfolding follow
follow-Reach input [] m m' r h e = subst (Reach input) (some_inj.0 e) r
follow-Reach input (i ∷ rest) m m' r h e =
    go (core_step input.sorter m i) refl e (λ next. follow-Reach input rest next m')
  where
    go :
        (o : Option Machine)
        → core_step input.sorter m i ≡ o
        → (o >>= follow input.sorter rest) ≡ some m'
        → ((next : Machine)
            → Reach input next
            → AllBelow (length next.workers) rest
            → follow input.sorter rest next ≡ some m'
            → Reach input m')
        → Reach input m'
    go none k f go_on = absurd (ground arith)
    go (some next) k f go_on =
        let placed = Reach-Placed input m r in
        let t = core_step-Turn input.sorter m next i h.0 (placed.runs i) (placed.lives i) k in
        let same : length m.workers ≡ length next.workers =
          sym (ap (λ (ws : List Worker). length ws) t.workers ∙ length-set m.workers i t.worker) in
        go_on next (Reach.later r (Step.core i h.0 k)) (subst (λ n. AllBelow n rest) same h.1) f
