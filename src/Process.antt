-- ===== src/Process.antt =====
-- src/cpu/PCB.hpp: the process control block, and the store in which the simulator's `PCB*` point.
-- An int that is only compared for equality (`pid`, a page) is its 32-bit pattern.
use multicore_simulator.Prelude.{ℕ, Bool, List, [], String, ◌==◌, if◌then◌else◌, add64}
use multicore_simulator.Prelude.Int.{ℤ, pos}
use multicore_simulator.Cpu.Registers.{RegisterBank, new_register_bank}

pub data State : Type 0 where
  ready running blocked finished : State

pub record MemWeights : Type 0 where
  pub cache : ℕ
  pub primary : ℕ
  pub secondary : ℕ

abbrev pub default_weights : MemWeights
default_weights = record { cache = 1; primary = 5; secondary = 10 }

pub record Pcb : Type 0 where
  pub pid : ℕ
  pub name : String
  pub program_path : String
  pub quantum : ℕ
  pub priority : ℤ
  pub burst_time : ℕ
  pub state : State
  pub reg_bank : RegisterBank
  pub page_table : List (ℕ × ℕ)
  pub arrival_time : ℕ
  pub first_start_time : ℕ
  pub finish_time : ℕ
  pub waiting_time : ℕ
  pub last_ready_in : ℕ
  pub cpu_time : ℕ
  pub primary_mem_accesses : ℕ
  pub secondary_mem_accesses : ℕ
  pub memory_cycles : ℕ
  pub mem_accesses_total : ℕ
  pub extra_cycles : ℕ
  pub cache_mem_accesses : ℕ
  pub pipeline_cycles : ℕ
  pub stage_invocations : ℕ
  pub mem_reads : ℕ
  pub mem_writes : ℕ
  pub cache_hits : ℕ
  pub cache_misses : ℕ
  pub io_cycles : ℕ
  pub mem_weights : MemWeights

-- A new block, as its default member initialisers make it.
abbrev pub new_pcb : Pcb
new_pcb = record {
  pid = 0;
  name = "";
  program_path = "";
  quantum = 0;
  priority = pos 0;
  burst_time = 0;
  state = ready;
  reg_bank = new_register_bank;
  page_table = [];
  arrival_time = 0;
  first_start_time = 0;
  finish_time = 0;
  waiting_time = 0;
  last_ready_in = 0;
  cpu_time = 0;
  primary_mem_accesses = 0;
  secondary_mem_accesses = 0;
  memory_cycles = 0;
  mem_accesses_total = 0;
  extra_cycles = 0;
  cache_mem_accesses = 0;
  pipeline_cycles = 0;
  stage_invocations = 0;
  mem_reads = 0;
  mem_writes = 0;
  cache_hits = 0;
  cache_misses = 0;
  io_cycles = 1;
  mem_weights = default_weights;
}

unfoldable pub contabiliza_cache : Pcb → Bool → Pcb
contabiliza_cache pcb hit =
    if hit
    then record pcb { cache_hits = add64 pcb.cache_hits 1 }
    else record pcb { cache_misses = add64 pcb.cache_misses 1 }

-- What each `PCB*` points to; a pointer is a number.
abbrev pub Processes : Type 0
Processes = ℕ → Pcb

-- A change of the block that `p` points to, seen through every copy of the pointer.
unfoldable pub modify : ℕ → (Pcb → Pcb) → Processes → Processes
modify p f ps q = if q == p then f (ps q) else ps q
