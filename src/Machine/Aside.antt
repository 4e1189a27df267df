-- ===== src/Machine/Aside.antt =====
-- The processes that src/main.cpp has set aside for I/O, in the blocked list or on the way to it, and those
-- that the I/O manager has.
pub mod Called
pub mod Quiet
pub mod Cores
pub mod Requests
pub mod Served
use multicore_simulator.Prelude.{ℕ, List, [], ◌∷◌, ◌++◌, ◌≡◌, ◌≤◌, ◌+◌, ◌⊎◌, get_or, count}
use multicore_simulator.Process.{State, ready, blocked}
use multicore_simulator.Memory.Manager.Quantum.{state_of}
use multicore_simulator.Io.{Request}
use multicore_simulator.Machine.{Phase, looking, stopped, executing, parking, new_worker, Machine}
use multicore_simulator.Machine.Held.{parked, collect}

unfoldable pub requested : List Request → List ℕ
requested [] = []
requested (r ∷ rest) = r.process ∷ requested rest

abbrev pub at_io : Machine → ℕ → ℕ
at_io m q = count q m.io_manager.waiting_processes + count q (requested m.io_manager.requests)

abbrev pub aside : Machine → ℕ → ℕ
aside m q = count q m.blocked_list + count q (collect parked m.workers)

-- The I/O manager has a process as often as it is aside, and then it is blocked, or the process is ready
-- and the I/O manager has done with it.
abbrev pub Accounted : ℕ → ℕ → State → Type 0
Accounted io here s = ((io ≡ here) × (1 ≤ here → s ≡ blocked)) ⊎ ((io ≡ 0) × (s ≡ ready))

-- The call of Core is about the worker's process.
unfoldable pub Own : Phase → Type 0
Own looking = Unit
Own stopped = Unit
Own (executing p before clock c) = c.process ≡ p
Own (parking p) = Unit

pub record Waits (m : Machine) : Type 0 where
  pub accounted : (q : ℕ) → Accounted (at_io m q) (aside m q) (state_of m.system q)
  pub own : (i : ℕ) → Own (get_or m.workers i new_worker).phase
