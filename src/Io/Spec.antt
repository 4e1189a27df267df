-- ===== src/Io/Spec.antt =====
-- What src/IO/IOManager.cpp comes to: one queue, and two devices that ask for a process to serve.
use multicore_simulator.Prelude.{
  ℕ, Bool, false, List, [], ◌∷◌, ◌≡◌, ◌%◌, ◌==◌, ◌||◌, ◌∙◌, ap, subst, sym, if-false, refl, arith,
  if◌then◌else◌,
}
use multicore_simulator.Process.{Processes, modify}
use multicore_simulator.Io.{
  IoManager, Draws, request_printer, request_disk, choose_device, new_request, make_request, add_if,
  add_request, ask_devices, queue_request, process_request, count_io, process_next, manager_round,
  manager_loop,
}

-- The queue and the requests of the devices.
pub record Devices : Type 0 where
  pub queue : List ℕ
  pub printer : Bool
  pub disk : Bool

abbrev pub view : IoManager → Devices
view m = record {
  queue = m.waiting_processes;
  printer = m.printer_requesting;
  disk = m.disk_requesting;
}

-- A round: the devices ask, and one of them, the printer if both ask, serves the first of the queue.
unfoldable pub serve : ℕ → Devices → List ℕ → Processes → Devices × Processes
serve duration v [] ps = (v, ps)
serve duration v (p ∷ rest) ps =
    if v.printer
    then (record v { queue = rest; printer = false }, modify p (count_io duration) ps)
    else if v.disk
    then (record v { queue = rest; disk = false }, modify p (count_io duration) ps)
    else (v, ps)

unfoldable pub spec_round : Draws → Devices → Processes → Devices × Processes
unfolding serve
spec_round d v ps =
    let asked = record v {
      printer = v.printer || (d.printer % 100 == 0);
      disk = v.disk || (d.disk % 50 == 0);
    } in
    serve d.duration asked asked.queue ps

unfoldable pub spec_loop : List Draws → Devices → Processes → Devices × Processes
unfolding spec_round
spec_loop [] v ps = (v, ps)
spec_loop (d ∷ ds) v ps = let (v', ps') = spec_round d v ps in spec_loop ds v' ps'

-- What holds between two rounds: no request is left over.
pub record Idle (m : IoManager) : Type 0 where
  pub empty : m.requests ≡ []
  pub running : m.shutdown_flag ≡ false

-- One round of the manager is one round of the queue.
pub manager_round-refines :
    (d : Draws) (m : IoManager) (ps : Processes)
    → Idle m
    → let (m', ps') = manager_round d m ps in Idle m' × ((view m', ps') ≡ spec_round d (view m) ps)
unfolding manager_round ask_devices queue_request process_request request_printer request_disk
    make_request new_request choose_device add_if add_request process_next spec_round serve
manager_round-refines d m ps h = ground (arith, h.empty, h.running)

manager_loop-running :
    (d : Draws) (ds : List Draws) (m : IoManager) (ps : Processes)
    → m.shutdown_flag ≡ false
    → manager_loop (d ∷ ds) m ps ≡ (let (m', ps') = manager_round d m ps in manager_loop ds m' ps')
unfolding manager_loop
manager_loop-running d ds m ps e = if-false m.shutdown_flag _ _ e

-- Between two rounds of the I/O manager that is not shut down no request is left over. From there its
-- `while` does to the processes, the waiting queue and the two devices what one queue does from which,
-- in each round, a device that asks serves the first process.
pub manager_loop-refines :
    (ds : List Draws) (m : IoManager) (ps : Processes)
    → Idle m
    → let (m', ps') = manager_loop ds m ps in Idle m' × ((view m', ps') ≡ spec_loop ds (view m) ps)
unfolding spec_loop
manager_loop-refines [] m ps h = unfold manager_loop in (h, refl)
manager_loop-refines (d ∷ ds) m ps h =
    let run = manager_loop-running d ds m ps h.running in
    let (idle, e) = manager_round-refines d m ps h in
    let (m', ps') = manager_round d m ps in
    let (idle', e') = manager_loop-refines ds m' ps' idle in
    (
      subst (λ (r : IoManager × Processes). Idle r.0) (sym run) idle',
      ap (λ (r : IoManager × Processes). (view r.0, r.1)) run
          ∙ e'
          ∙ ap (λ (r : Devices × Processes). spec_loop ds r.0 r.1) e,
    )
