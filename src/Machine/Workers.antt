-- ===== src/Machine/Workers.antt =====
-- How the workers of src/main.cpp stand after a step of one of them.
use multicore_simulator.Prelude.{
  ℕ, Bool, true, false, List, [], ◌∷◌, ◌≡◌, ◌≢◌, ◌<◌, ◌⊎◌, inl, inr, ◌==◌, refl, sym, subst, ap,
  ◌∙◌, arith, length, get_or, set, get_or-set, if◌then◌else◌,
}
use multicore_simulator.Process.{finished}
use multicore_simulator.Memory.Manager.{System}
use multicore_simulator.Memory.Manager.Quantum.{state_of}
use multicore_simulator.Machine.{Phase, looking, stopped, executing, parking, Worker, new_worker}
use multicore_simulator.Machine.Held.{holds}
use multicore_simulator.Machine.Turn.{Runs, Lives}

pub set-Runs :
    (ws : List Worker) (i j : ℕ) (w : Worker)
    → i < length ws
    → Runs w.phase
    → Runs (get_or ws j new_worker).phase
    → Runs (get_or (set ws i w) j new_worker).phase
set-Runs ws i j w h new old =
    subst (λ (v : Worker). Runs v.phase) (sym (get_or-set ws i j w new_worker h)) (pick (i == j))
  where
    pick : (b : Bool) → Runs (if b then w else get_or ws j new_worker).phase
    pick true = new
    pick false = old

pub set-stopped :
    (ws : List Worker) (i j : ℕ) (w : Worker)
    → i < length ws
    → (get_or (set ws i w) j new_worker).phase ≡ stopped
    → (w.phase ≡ stopped) ⊎ ((get_or ws j new_worker).phase ≡ stopped)
set-stopped ws i j w h e =
    pick (i == j) (ap (λ (v : Worker). v.phase) (sym (get_or-set ws i j w new_worker h)) ∙ e)
  where
    pick :
        (b : Bool)
        → (if b then w else get_or ws j new_worker).phase ≡ stopped
        → (w.phase ≡ stopped) ⊎ ((get_or ws j new_worker).phase ≡ stopped)
    pick true k = inl k
    pick false k = inr k

pub Lives-same :
    (phase : Phase) (s s' : System)
    → ((q : ℕ) → q ∷ [] ≡ holds phase → state_of s' q ≡ finished → state_of s q ≡ finished)
    → Lives phase s
    → Lives phase s'
unfolding Lives holds
Lives-same looking s s' back alive = tt
Lives-same stopped s s' back alive = tt
Lives-same (executing p before clock c) s s' back alive = λ e. alive (back p refl e)
Lives-same (parking p) s s' back alive = tt

-- The worker of core `i` has a new phase, and the states of the processes of the others are kept.
pub set-Lives :
    (ws : List Worker) (i j : ℕ) (w : Worker) (s s' : System)
    → i < length ws
    → Lives w.phase s'
    → (i ≢ j
        → (q : ℕ) → q ∷ [] ≡ holds (get_or ws j new_worker).phase
        → state_of s' q ≡ finished
        → state_of s q ≡ finished)
    → Lives (get_or ws j new_worker).phase s
    → Lives (get_or (set ws i w) j new_worker).phase s'
set-Lives ws i j w s s' h new back old =
    subst (λ (v : Worker). Lives v.phase s') (sym (get_or-set ws i j w new_worker h))
      (pick (i == j) refl)
  where
    pick : (b : Bool) → (i == j) ≡ b → Lives (if b then w else get_or ws j new_worker).phase s'
    pick true e = new
    pick false e =
        Lives-same (get_or ws j new_worker).phase s s' (back (λ f. ground (arith, e, f))) old
