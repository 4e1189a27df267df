-- ===== src/Io.antt =====
-- src/IO/IOManager.hpp and IOManager.cpp. `managerLoop` is a list of rounds, each with what it takes from
-- outside: the results of rand, and the time that a sleep took. The two files are their lines.
pub mod Service
pub mod Spec
use multicore_simulator.Prelude.{
  ℕ, Bool, true, false, List, [], ◌∷◌, ◌++◌, String, Option, none, some, ◌+◌, ◌*◌, ◌%◌, ◌==◌,
  if◌then◌else◌, add64,
}
use multicore_simulator.Process.{Pcb, Processes, State, ready, modify}

-- The cost is in milliseconds.
pub record Request : Type 0 where
  pub operation : String
  pub msg : String
  pub process : ℕ
  pub cost_cycles : ℕ

pub record IoManager : Type 0 where
  pub requests : List Request
  pub waiting_processes : List ℕ
  pub printer_requesting : Bool
  pub disk_requesting : Bool
  pub network_requesting : Bool
  pub shutdown_flag : Bool
  -- a line is the process, the operation and the message
  pub result_file : List (ℕ × String × String)
  -- a line is the process, the operation and the time
  pub output_file : List (ℕ × String × ℕ)

unfoldable pub new_io_manager : IoManager
new_io_manager = record {
  requests = [];
  waiting_processes = [];
  printer_requesting = false;
  disk_requesting = false;
  network_requesting = false;
  shutdown_flag = false;
  result_file = [];
  output_file = [];
}

-- What a round takes from outside.
pub record Draws : Type 0 where
  pub printer : ℕ
  pub disk : ℕ
  pub cost : ℕ
  pub duration : ℕ

unfoldable pub register_process_waiting_for_io : IoManager → ℕ → IoManager
register_process_waiting_for_io m process = record m {
  waiting_processes = m.waiting_processes ++ process ∷ [];
}

unfoldable pub add_request : IoManager → Request → IoManager
add_request m request = record m { requests = m.requests ++ request ∷ [] }

-- The first stage of a round.
unfoldable pub request_printer : Draws → IoManager → IoManager
request_printer d m =
    if d.printer % 100 == 0
    then (if m.printer_requesting then m else record m { printer_requesting = true })
    else m

unfoldable pub request_disk : Draws → IoManager → IoManager
request_disk d m =
    if d.disk % 50 == 0
    then (if m.disk_requesting then m else record m { disk_requesting = true })
    else m

-- The second stage: the device that serves the first process, the printer before the disk.
unfoldable pub choose_device : IoManager → Option (String × String × IoManager)
choose_device m =
    if m.printer_requesting
    then some ("print_job", "Imprimindo documento...", record m { printer_requesting = false })
    else if m.disk_requesting
    then some ("read_from_disk", "Lendo dados do disco...", record m { disk_requesting = false })
    else none

unfoldable pub new_request :
    Draws
    → IoManager
    → ℕ
    → List ℕ
    → Option (String × String × IoManager)
    → IoManager × Option Request
new_request d m process rest none = (m, none)
new_request d m process rest (some (operation, msg, m')) = (
  record m' { waiting_processes = rest },
  some (record {
    operation = operation;
    msg = msg;
    process = process;
    cost_cycles = (d.cost % 3 + 1) * 100;
  }),
)

unfoldable pub make_request : Draws → IoManager → List ℕ → IoManager × Option Request
unfolding new_request choose_device
make_request d m [] = (m, none)
make_request d m (process ∷ rest) = new_request d m process rest (choose_device m)

unfoldable pub add_if : IoManager → Option Request → IoManager
add_if m none = m
add_if m (some request) = add_request m request

-- The third stage.
unfoldable pub count_io : ℕ → Pcb → Pcb
count_io duration p = record p { io_cycles = add64 p.io_cycles duration; state = ready }

unfoldable pub process_next : Draws → IoManager → Processes → List Request → IoManager × Processes
unfolding count_io
process_next d m ps [] = (m, ps)
process_next d m ps (request ∷ rest) =
    let pid = (ps request.process).pid in
    (
      record m {
        requests = rest;
        result_file = m.result_file ++ (pid, request.operation, request.msg) ∷ [];
        output_file = m.output_file ++ (pid, request.operation, d.duration) ∷ [];
      },
      modify request.process (count_io d.duration) ps,
    )

-- The three stages.
unfoldable pub ask_devices : Draws → IoManager → IoManager
unfolding request_printer request_disk
ask_devices d m = request_disk d (request_printer d m)

unfoldable pub queue_request : Draws → IoManager → IoManager
unfolding make_request add_if
queue_request d m = let (m', request) = make_request d m m.waiting_processes in add_if m' request

unfoldable pub process_request : Draws → IoManager → Processes → IoManager × Processes
unfolding process_next
process_request d m ps = process_next d m ps m.requests

unfoldable pub manager_round : Draws → IoManager → Processes → IoManager × Processes
unfolding ask_devices queue_request process_request
manager_round d m ps = process_request d (queue_request d (ask_devices d m)) ps

-- The `while`, as many rounds as there are draws.
unfoldable pub manager_loop : List Draws → IoManager → Processes → IoManager × Processes
unfolding manager_round
manager_loop [] m ps = (m, ps)
manager_loop (d ∷ ds) m ps =
    let (m', ps') = manager_round d m ps in
    let rest = manager_loop ds m' ps' in if m.shutdown_flag then (m, ps) else rest
