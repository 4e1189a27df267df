-- ===== src/Machine/Held.antt =====
-- The process that a worker of src/main.cpp has in `current_process`.
use multicore_simulator.Prelude.{
  ℕ, zero, suc, List, [], ◌∷◌, ◌++◌, ◌≡◌, ◌+◌, ◌≤◌, ◌<◌, ◌≢◌, ◌⊎◌, inl, inr, refl, ap, arith,
  length, get_or, set, tally, tally-append,
}
use multicore_simulator.Control.Core.{Core}
use multicore_simulator.Machine.{Phase, looking, stopped, executing, parking, Worker, new_worker}

unfoldable pub holds : Phase → List ℕ
holds looking = []
holds stopped = []
holds (executing p before clock c) = p ∷ []
holds (parking p) = p ∷ []

unfoldable pub parked : Phase → List ℕ
parked looking = []
parked stopped = []
parked (executing p before clock c) = []
parked (parking p) = p ∷ []

pub parked-none : (phase : Phase) → (phase ≡ looking) ⊎ (phase ≡ stopped) → parked phase ≡ []
unfolding parked
parked-none phase (inl e) = rw e refl
parked-none phase (inr e) = rw e refl

pub executing-holds :
    (phase : Phase) (p before clock : ℕ) (c : Core)
    → phase ≡ executing p before clock c
    → (holds phase ≡ p ∷ []) × (parked phase ≡ [])
unfolding holds parked
executing-holds phase p before clock c e = rw e (refl, refl)

-- What all workers have, of what `get` says of each.
unfoldable pub collect : (Phase → List ℕ) → List Worker → List ℕ
collect get [] = []
collect get (w ∷ ws) = get w.phase ++ collect get ws

abbrev pub held : List Worker → List ℕ
held ws = collect holds ws

pub tally-collect-set :
    (f : ℕ → ℕ) (get : Phase → List ℕ) (ws : List Worker) (i : ℕ) (w : Worker)
    → i < length ws
    → tally f (collect get (set ws i w)) + tally f (get (get_or ws i new_worker).phase)
      ≡ tally f (collect get ws) + tally f (get w.phase)
unfolding collect set get_or
tally-collect-set f get [] i w h = absurd (omega arith)
tally-collect-set f get (v ∷ ws) zero w h = omega (
  arith,
  tally-append f (get w.phase) (collect get ws),
  tally-append f (get v.phase) (collect get ws),
)
tally-collect-set f get (v ∷ ws) (suc i) w h = omega (
  arith,
  tally-append f (get v.phase) (collect get ws),
  tally-append f (get v.phase) (collect get (set ws i w)),
  tally-collect-set f get ws i w (omega arith),
)

pub set-same : (ws : List Worker) (i : ℕ) → i < length ws → set ws i (get_or ws i new_worker) ≡ ws
unfolding set get_or
set-same [] i h = refl
set-same (v ∷ ws) zero h = refl
set-same (v ∷ ws) (suc i) h = ap (◌∷◌ v) (set-same ws i (omega arith))

tally-held_one :
    (f : ℕ → ℕ) (ws : List Worker) (i : ℕ)
    → tally f (holds (get_or ws i new_worker).phase) ≤ tally f (held ws)
unfolding collect get_or new_worker holds tally
tally-held_one f [] i = omega arith
tally-held_one f (v ∷ ws) zero = omega (arith, tally-append f (holds v.phase) (held ws))
tally-held_one f (v ∷ ws) (suc i) =
    omega (arith, tally-append f (holds v.phase) (held ws), tally-held_one f ws i)

-- What two workers have counts twice.
pub tally-held_two :
    (f : ℕ → ℕ) (ws : List Worker) (i j : ℕ)
    → i ≢ j
    → tally f (holds (get_or ws i new_worker).phase)
        + tally f (holds (get_or ws j new_worker).phase)
      ≤ tally f (held ws)
unfolding collect get_or new_worker holds tally
tally-held_two f [] i j h = omega arith
tally-held_two f (v ∷ ws) zero zero h = absurd (h refl)
tally-held_two f (v ∷ ws) zero (suc j) h =
    omega (arith, tally-append f (holds v.phase) (held ws), tally-held_one f ws j)
tally-held_two f (v ∷ ws) (suc i) zero h =
    omega (arith, tally-append f (holds v.phase) (held ws), tally-held_one f ws i)
tally-held_two f (v ∷ ws) (suc i) (suc j) h =
    omega
      (arith, tally-append f (holds v.phase) (held ws), tally-held_two f ws i j (λ e. h (ap suc e)))

parked-holds : (f : ℕ → ℕ) (phase : Phase) → tally f (parked phase) ≤ tally f (holds phase)
unfolding parked holds tally
parked-holds f looking = omega arith
parked-holds f stopped = omega arith
parked-holds f (executing p before clock c) = omega arith
parked-holds f (parking p) = omega arith

pub parked-held : (f : ℕ → ℕ) (ws : List Worker) → tally f (collect parked ws) ≤ tally f (held ws)
unfolding collect tally
parked-held f [] = omega arith
parked-held f (v ∷ ws) = omega (
  arith,
  tally-append f (holds v.phase) (held ws),
  tally-append f (parked v.phase) (collect parked ws),
  parked-holds f v.phase,
  parked-held f ws,
)

-- What a worker has and does not park.
pub running-held :
    (f : ℕ → ℕ) (ws : List Worker) (i : ℕ)
    → tally f (collect parked ws) + tally f (holds (get_or ws i new_worker).phase)
      ≤ tally f (held ws) + tally f (parked (get_or ws i new_worker).phase)
unfolding collect get_or tally new_worker holds parked
running-held f [] i = omega arith
running-held f (v ∷ ws) zero = omega (
  arith,
  tally-append f (holds v.phase) (held ws),
  tally-append f (parked v.phase) (collect parked ws),
  parked-held f ws,
)
running-held f (v ∷ ws) (suc i) = omega (
  arith,
  tally-append f (holds v.phase) (held ws),
  tally-append f (parked v.phase) (collect parked ws),
  parked-holds f v.phase,
  running-held f ws i,
)
