-- ===== src/Tests/Threads.antt =====
-- The properties of src/main.cpp and src/IO/IOManager.cpp at one process, which ends at once, and at
-- two that wait for a device.
use multicore_simulator.Prelude.{
  ℕ, String, if◌then◌else◌, zero, suc, true, false, List, [], ◌∷◌, Option, none, some, ◌≡◌, ◌≢◌,
  ◌≤◌, ◌+◌, refl, ap, arith, length, get_or, replicate, Option-cases, count, ◌⊎◌, inl, inr, set,
}
use multicore_simulator.Prelude.Assoc.{nat_eq, contains}
use multicore_simulator.Prelude.Sorting.{insertion_sorter}
use multicore_simulator.Process.{Processes, ready, new_pcb, contabiliza_cache}
use multicore_simulator.Memory.Manager.{
  new_memory_manager, allocate_frame, charge_cache, charge_primary, count_read, count_write,
  first_free, map_page, own_frame, put_cached, read, read_physical, translate_address,
  translate_miss, translate_page, write_memory, write_physical, write_to_file,
}
use multicore_simulator.Scheduler.{
  rr, add_process, get_next_process, has_processes, new_scheduler, sort_queue,
}
use multicore_simulator.Control.Execute.{decode_at, execute, fetch, memory_acess, write_back}
use multicore_simulator.Io.{IoManager, Draws, new_io_manager, manager_loop}
use multicore_simulator.Io.Spec.{view, spec_loop, Idle, manager_loop-refines}
use multicore_simulator.Io.Service.{asks, manager_loop-serves}
use text.Mathlib.Text.{◌==◌ as str_eq}
use multicore_simulator.Loader.{Input, load_all, arrivals}
use multicore_simulator.Loader.Arrivals.{Arrived, load_all-Arrived}
use multicore_simulator.Tests.Json.{
  Json, string, number, array, object, field, close, item, end, json,
}
use multicore_simulator.Machine.{
  looking, parking, Phase, executing, stopped, Machine, new_machine, new_worker, core_step,
}
use multicore_simulator.Machine.Held.{holds, parked, held}
use multicore_simulator.Machine.Step.{Reach, Ended}
use multicore_simulator.Machine.Placed.{Placed}
use multicore_simulator.Machine.Aside.{Waits}
use multicore_simulator.Machine.Safety.{Reach-Placed, Reach-Waits, Reach-stopped, Reach-apart}
use multicore_simulator.Machine.Progress.{IsBack, Reach-returns}
use multicore_simulator.Machine.Follow.{AllBelow, follow, follow-Reach}
use multicore_simulator.Control.Core.{Core}
use multicore_simulator.Cpu.Registers.{new_register_bank, position}
use multicore_simulator.Memory.Manager.Quantum.{quantum_of}
use multicore_simulator.Memory.Cache.{get, new_cache, put}
use multicore_simulator.Control.Decode.{decode, decode_fields, decoded, hazard, identify, is_idle}
use multicore_simulator.Control.Execute.Run.{new_core, run_core}
use multicore_simulator.Scheduler.Queue.{add_all}

-- The program of the one process is the word that ends it.
abbrev process_file : Json
process_file = object (field "pid" (number 7) (field "program_path" (string "end.json") close))

abbrev program_file : Json
program_file =
    object
      (field "program" (array (item (object (field "instruction" (string "end") close)) end)) close)

abbrev open_json : String → Option Json
open_json path =
    if str_eq path "process.json"
    then some process_file
    else if str_eq path "end.json"
    then some program_file
    else none

abbrev input : Input
input = record {
  J = Json;
  json = json;
  open_json = open_json;
  sorter = insertion_sorter ℕ;
  policy = rr;
  batch = string "missing.json" ∷ string "process.json" ∷ [];
}

abbrev first : Machine
first = new_machine (load_all input)

or_first : Option Machine → Machine
or_first none = first
or_first (some m) = m

abbrev schedule : List ℕ
schedule = replicate 8 0

-- Core 0 has run the process to its end and has stopped.
abbrev last : Machine
last = or_first (follow input.sorter schedule first)

four_cores : (turns : List ℕ) → AllBelow 4 turns → AllBelow (length first.workers) turns
unfolding new_machine replicate
four_cores turns below = below

reached :
    (turns : List ℕ) → AllBelow 4 turns → Reach input (or_first (follow input.sorter turns first))
unfolding or_first
reached turns below = elim (Option-cases (follow input.sorter turns first)) [
  | inl e ↦ rw e Reach.start
  | inr (m, e) ↦ rw e (follow-Reach input turns first m Reach.start (four_cores turns below) e)
]

zeros-AllBelow : (n : ℕ) → AllBelow 4 (replicate n 0)
unfolding replicate
zeros-AllBelow zero = tt
zeros-AllBelow (suc n) = (omega arith, zeros-AllBelow n)

last-Reach : Reach input last
last-Reach = reached schedule (zeros-AllBelow 8)

last-stopped : (get_or last.workers 0 new_worker).phase ≡ stopped
unfolding contabiliza_cache new_scheduler sort_queue get_next_process has_processes position
    multicore_simulator.Cpu.Registers.write new_cache get put new_memory_manager first_free
    own_frame allocate_frame map_page translate_miss translate_page translate_address write_to_file
    put_cached count_read count_write charge_cache charge_primary read_physical read write_memory
    write_physical identify is_idle decode_fields hazard decoded decode execute memory_acess
    write_back fetch decode_at multicore_simulator.Loader.load_all or_first new_worker core_step
    new_machine follow run_core get_or set replicate
last-stopped = refl

Reach-Placed_example : Placed (Ended last-Reach) (arrivals input) last
Reach-Placed_example = Reach-Placed input last last-Reach

Reach-Waits_example : Waits last
Reach-Waits_example = Reach-Waits input last last-Reach

Reach-stopped_example :
    (last.finished_processes ≡ length (arrivals input))
    × ((p : ℕ) → (count p (arrivals input) ≡ 0) ⊎ Ended last-Reach p)
    × (last.scheduler.ready_queue ≡ [])
    × (held last.workers ≡ [])
    × (last.blocked_list ≡ [])
Reach-stopped_example = Reach-stopped input last 0 last-Reach last-stopped

-- After its first step core 0 has the process.
abbrev busy : Machine
busy = or_first (follow input.sorter (0 ∷ []) first)

busy-Reach : Reach input busy
busy-Reach = reached (0 ∷ []) (omega arith, tt)

busy-holds : holds (get_or busy.workers 0 new_worker).phase ≡ 0 ∷ []
unfolding load_all holds or_first new_machine new_worker follow core_step get_or set replicate
    add_all sort_queue add_process get_next_process has_processes new_scheduler
busy-holds = refl

Reach-apart_example : holds (get_or busy.workers 1 new_worker).phase ≢ 0 ∷ []
Reach-apart_example = Reach-apart input busy 0 1 0 busy-Reach (λ e. omega (arith, e)) busy-holds

-- What the call of Core was made with, and where it stands.
before_of : Phase → ℕ
before_of (executing p before clock c) = before
before_of _ = 0

clock_of : Phase → ℕ
clock_of (executing p before clock c) = clock
clock_of _ = 0

core_of : Phase → Core
core_of (executing p before clock c) = c
core_of _ = new_core busy.system 0 [] true

phase-executing :
    (phase : Phase) (p : ℕ)
    → holds phase ≡ p ∷ []
    → parked phase ≡ []
    → phase ≡ executing p (before_of phase) (clock_of phase) (core_of phase)
unfolding holds parked before_of clock_of core_of get_or
phase-executing looking p e f = absurd (omega (arith, ap (λ (xs : List ℕ). length xs) e))
phase-executing stopped p e f = absurd (omega (arith, ap (λ (xs : List ℕ). length xs) e))
phase-executing (parking q) p e f = absurd (omega (arith, ap (λ (xs : List ℕ). length xs) f))
phase-executing (executing q before clock c) p e f =
    ap (λ r. executing r before clock c) (ap (λ (xs : List ℕ). get_or xs 0 0) e)

abbrev busy_phase : Phase
busy_phase = (get_or busy.workers 0 new_worker).phase

busy-parked : parked busy_phase ≡ []
unfolding load_all parked or_first new_machine new_worker follow core_step get_or set replicate
    add_all sort_queue add_process get_next_process has_processes new_scheduler
busy-parked = refl

Reach-returns_example :
    (n : ℕ) × (m' : Machine) × (n
      ≤ quantum_of busy.system 0 + (core_of busy_phase).counter_for_end + 1)
    × (follow input.sorter (replicate n 0) busy ≡ some m')
    × IsBack (get_or m'.workers 0 new_worker).phase 0
Reach-returns_example =
    Reach-returns input busy 0 0 (before_of busy_phase) (clock_of busy_phase) (core_of busy_phase)
      busy-Reach (phase-executing busy_phase 0 busy-holds busy-parked)

abbrev waiting : IoManager
waiting = record new_io_manager { waiting_processes = 5 ∷ 6 ∷ [] }

abbrev processes : Processes
processes p = new_pcb

waiting-Idle : Idle waiting
unfolding new_io_manager
waiting-Idle = record { empty = refl; running = refl }

-- The disk asks in the first round and both devices in the third.
abbrev draws : List Draws
draws =
    (record { printer = 7; disk = 50; cost = 1; duration = 200 })
    ∷ (record { printer = 7; disk = 7; cost = 2; duration = 300 })
    ∷ (record { printer = 100; disk = 0; cost = 0; duration = 100 })
    ∷ []

manager_loop-refines_example :
    let (m, ps) = manager_loop draws waiting processes in
    Idle m × ((view m, ps) ≡ spec_loop draws (view waiting) processes)
manager_loop-refines_example = manager_loop-refines draws waiting processes waiting-Idle

enough : length waiting.waiting_processes ≤ asks draws
unfolding asks new_io_manager
enough = omega arith

manager_loop-serves_example :
    let (m, ps) = manager_loop draws waiting processes in
    (m.waiting_processes ≡ [])
    × ((p : ℕ) → contains p waiting.waiting_processes ≡ true → (ps p).state ≡ ready)
    × ((p : ℕ) → contains p waiting.waiting_processes ≡ false → ps p ≡ processes p)
manager_loop-serves_example = manager_loop-serves draws waiting processes waiting-Idle enough

load_all-Arrived_example : (next : ℕ) × Arrived next (load_all input)
load_all-Arrived_example = load_all-Arrived input
