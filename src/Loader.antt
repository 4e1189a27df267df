-- ===== src/Loader.antt =====
-- src/cpu/pcb_loader.cpp, and the loop over batch.json in run_simulation_with_policy of src/main.cpp.
pub mod Arrivals
use multicore_simulator.Prelude.{
  ℕ, Bool, true, false, List, [], ◌∷◌, ◌++◌, String, Option, none, some, ◌+◌, ◌&&◌, not,
  if◌then◌else◌,
}
use multicore_simulator.Prelude.Sorting.{Sorter}
use multicore_simulator.Process.{Pcb, Processes, MemWeights, new_pcb, modify}
use multicore_simulator.Cpu.Alu.{as_i32}
use multicore_simulator.Memory.Manager.{System, new_memory_manager, on_process}
use multicore_simulator.Scheduler.{SchedulingPolicy, Scheduler, new_scheduler, add_process}
use multicore_simulator.Parser.Text.{is_empty_string}
use multicore_simulator.Parser.Program.{JsonLibrary}
use multicore_simulator.Parser.Assemble.{load_json_program}

abbrev pub system_quantum : ℕ
system_quantum = 20

-- An assignment from a value of the JSON library; `false` is an exception, and then or after one
-- nothing is assigned.
unfoldable pub assign : {A : Type 0} → Option A → (A → Pcb → Pcb) → Pcb × Bool → Pcb × Bool
assign (some a) f (p, true) = (f a p, true)
assign none f (p, ok) = (p, false)
assign (some a) f (p, false) = (p, false)

module _ {J : Type 0} (json : JsonLibrary J) where
  open json use {at, contains, value_int, value_u64, value_string, get_string}

  unfoldable pub set_primary : ℕ → Pcb → Pcb
  set_primary n p = record p { mem_weights = record p.mem_weights { primary = n } }

  unfoldable pub set_secondary : ℕ → Pcb → Pcb
  set_secondary n p = record p { mem_weights = record p.mem_weights { secondary = n } }

  unfoldable pub load_weights : J → Pcb × Bool → Pcb × Bool
  unfolding assign set_primary set_secondary
  load_weights j (p, ok) = elim (at j "mem_weights") [
    | none ↦ (p, false)
    | some mw ↦
        assign (value_u64 mw "secondary" 10) set_secondary
          (assign (value_u64 mw "primary" 1) set_primary (p, ok))
  ]

  unfoldable pub load_fields : J → Pcb → Pcb × Bool
  unfolding assign
  load_fields j p =
      assign (value_string j "program_path" "") (λ path b. record b { program_path = path })
        (assign (value_int j "priority" 0) (λ n b. record b { priority = as_i32 n })
          (assign (value_string j "name" "") (λ name b. record b { name = name })
            (assign (value_int j "pid" 0) (λ n b. record b { pid = n }) (p, true))))

  -- `none` is a file that does not open or is not JSON.
  unfoldable pub load_pcb_from_json : Option J → Pcb → Pcb × Bool
  unfolding load_fields load_weights
  load_pcb_from_json none p = (p, false)
  load_pcb_from_json (some j) p =
      let loaded = load_fields j p in
      if loaded.1 && contains j "mem_weights" then load_weights j loaded else loaded

-- What the loop over the batch has loaded.
pub record Loaded : Type 0 where
  pub scheduler : Scheduler
  pub system : System
  pub process_list : List ℕ

module _ {J : Type 0} (json : JsonLibrary J) (open_json : String → Option J)
    (sorter : Sorter ℕ) where
  -- The process arrives when its program has been parsed; `false` is an exception of the parser.
  unfoldable pub arrive : Loaded → System → ℕ → Option ℕ → Loaded × Bool
  unfolding add_process
  arrive l system process none = (record l { system = system }, false)
  arrive l system process (some addr) =
      let (s, ps) = add_process sorter l.scheduler system.processes process 0 in
      (
        record {
          scheduler = s;
          system = record system { processes = ps };
          process_list = l.process_list ++ process ∷ [];
        },
        true,
      )

  unfoldable pub admit : Loaded → ℕ → Pcb → Loaded × Bool
  unfolding modify load_json_program arrive
  admit l process p =
      let block = record p { quantum = system_quantum; arrival_time = 0 } in
      let (system, end) =
        load_json_program json (open_json p.program_path) (on_process l.system process (λ _. block))
          process 0 in
      arrive l system process end

  -- The loop; a new block is the next one of the store.
  unfoldable pub load_batch : List J → ℕ → Loaded → Loaded
  unfolding load_pcb_from_json admit is_empty_string
  load_batch [] next l = l
  load_batch (file ∷ rest) next l = elim (json.get_string file) [
    | none ↦ l
    | some path ↦
        let (p, ok) = load_pcb_from_json json (open_json path) new_pcb in
        elim (ok && not (is_empty_string p.program_path)) [
          | false ↦ load_batch rest next l
          | true ↦
              let (l', went_on) = admit l next p in
              elim went_on [ false ↦ l' | true ↦ load_batch rest (next + 1) l' ]
        ]
  ]

-- What the program runs on: the JSON library and the files, std::sort, the policy, and the entries of
-- batch.json.
pub record Input : Type 1 where
  pub J : Type 0
  pub json : JsonLibrary J
  pub open_json : String → Option J
  pub sorter : Sorter ℕ
  pub policy : SchedulingPolicy
  pub batch : List J

-- The start of run_simulation_with_policy.
unfoldable pub empty_simulator : SchedulingPolicy → Loaded
empty_simulator policy = record {
  scheduler = new_scheduler policy system_quantum;
  system = record { memory = new_memory_manager 512 8192; processes = λ p. new_pcb };
  process_list = [];
}

unfoldable pub load_all : Input → Loaded
unfolding load_batch empty_simulator
load_all input =
    load_batch input.json input.open_json input.sorter input.batch 0 (empty_simulator input.policy)

abbrev pub arrivals : Input → List ℕ
arrivals input = (load_all input).process_list
