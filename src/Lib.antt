-- ===== src/Lib.antt =====
-- The multicore simulator: a MIPS-like machine of several cores with paged memory, a cache and a
-- scheduler. This library models its core and proves what the parts promise. Paths are from the
-- repository's root.
--
-- The parts, and how they interact. A core runs a process: its control unit (src/cpu/CONTROL_UNIT.cpp)
-- fetches words through the memory manager, decodes them, and computes with the ALU
-- (src/cpu/ULA.cpp) over the registers of the process (src/cpu/REGISTER_BANK.cpp), which it names by
-- 5-bit codes (src/cpu/HASH_REGISTER.hpp). The memory manager (src/memory/MemoryManager.cpp)
-- translates the addresses of a process by its page table, moves pages between the main memory
-- (src/memory/MAIN_MEMORY.cpp) and the disk (src/memory/SECONDARY_MEMORY.cpp), and keeps an L1 cache
-- (src/memory/cache.cpp, src/memory/cachePolicy.cpp). The scheduler (src/cpu/Scheduler.cpp) queues the
-- process blocks (src/cpu/PCB.hpp). A worker for each core (src/main.cpp) takes a process from the
-- scheduler, runs it for a quantum, and gives it back, or registers it with the I/O manager
-- (src/IO/IOManager.cpp), whose thread makes it ready again for another worker to put it into the
-- queue. The parser (src/parser_json/parser_json.cpp) writes a program's words into the memory.
--
-- Files.
--   Prelude: shared names, tests on numbers, lists, words, integers, maps as association lists, and
--     what a sort promises.
--   Cpu/Alu: `calculate` and `execute` of the ALU. Cpu/Registers: the bank, with `read_register` and
--     `write_register` for readRegister and writeRegister; a call that throws answers `none`.
--     Cpu/Mapper: RegisterMapper.
--   Process: PCB and contabiliza_cache. A pointer to a block is a number, and `Processes` says what
--     each points to, so that two pointers to one block see the same changes.
--   Memory/Ram, Memory/Disk: the two memories, by word. Memory/Store: what the copying loops use of
--     them. Memory/Cache: Cache and CachePolicy. Memory/Manager: `translate_address`,
--     `allocate_frame`, `swap_out`, `swap_in`, `read` and `write` for the methods of these names; its
--     children hold the paging invariant and what follows from it. Memory/Manager/Coherent has the cache
--     against the main memory, Memory/Manager/Ideal a memory that is only a map from processes and
--     words, Memory/Manager/Lost a word that the cache takes for a miss.
--   Scheduler: the ready queue under the four policies; std::sort is the parameter `Sorter`.
--   Control/Bits, Control/Decode: the bit strings, Identificacao_instrucao and Decode.
--   Control/Core: a `Core`, which is the control unit with its ControlContext. Control/Execute: the
--     stages of the pipeline; Control/Execute/Run: the loop of Core as `run_core`, on fuel, and
--     Control/Execute/Run/Ending the end word.
--   Pipeline: the words of a program performed one after the other. Its children have the pipeline against
--     that, for programs of ADD, SUB, MULT and DIV: the stages (Plain, Back, Front, Fetching), a round
--     (Rounds, Count, Steps), the loop (Loop, Turn) and the memory (Loaded). Pipeline/Calm is about
--     the stages in any program, Pipeline/Stored about SW.
--   Io: the I/O manager. Io/Spec is the one queue that its two queues come to, Io/Service what it
--     promises the processes.
--   Machine: `coreWorker` as `core_step`, `ioWorker` as `io_worker_step`, and the start of
--     run_simulation_with_policy as `new_machine`. Machine/Step: the steps of all threads in any order, and
--     the machines that they reach. Machine/Held, Machine/Turn, Machine/Settle, Machine/Call: what a step
--     of a core does with its process. Machine/Workers, Machine/Reinsert, Machine/Placed: where each
--     process is after a step of any thread, and which have ended in the run. Machine/Aside: the processes
--     in the blocked list against those that the I/O manager has. Machine/Safety: what holds of every
--     machine that is reached. Machine/Follow: a run by a schedule. Machine/Progress: a worker in a call
--     of Core.
--   Loader: load_pcb_from_json and the loop over batch.json, which give the machine its processes.
--   Parser/Encode: the tables of the parser and buildBinaryInstruction. Parser/Text: tolower, stoi, stoul
--     and the parts of a string. Parser/Program: the encoders of one instruction. Parser/Assemble: jumps,
--     parseData, the two passes of parseProgram, and loadJsonProgram; its children are about labels and
--     branches.
--   Metrics: the integers of print_system_metrics. Metrics/Sums has its totals as sums, Metrics/Last the
--     time of the simulation.
--   Tests: small machines and a use of each theorem that has hypotheses.
--
-- Bounds. A uint32_t is a natural number below 2 ^ 32 and its wrap-around is written out, also that of
-- the 64-bit counters; an int32_t result is an integer in range. The counters of the cache class are
-- plain numbers. The loops of the memory, the parser and the bit strings are structural: over a list, or
-- over the number of rounds of the source's loop. The loop of Core has fuel; the quantum of the process
-- and six are enough. A negative quantum acts as 0, which is how the model has it.
--
-- Each method of the memory manager and of the scheduler holds its mutex throughout, so that a call is
-- one step. A worker's step is one such call with the local work around it, or a round of the pipeline,
-- so rounds of two cores interleave but the memory accesses within two rounds do not. A thread may take a
-- step at any time; the sleeps and the waits for a mutex are left out. The I/O manager's stages may
-- come in any order, which allows more runs than the source has. The results of rand and the time
-- that a sleep took are inputs.
--
-- The JSON library (src/nlohmann) is the parameter `JsonLibrary`, with no assumption about it; std::sort
-- is `Sorter`, with what the standard says of it. An int of the parser is its bit pattern, and an address
-- there a plain number. A key that operator[] does not find in a constant value is undefined in the
-- library, and an exception here.
--
-- Not modelled: output to streams (the lines of the I/O manager's two files are), the averages that
-- src/main.cpp prints, which are floating-point quotients of the numbers in Metrics, its menu and its
-- clean-up of directories, and the earlier copies of parts under src/cpu/cache, IO/SO-IO and parser_json.
pub mod Prelude
pub mod Cpu
pub mod Process
pub mod Memory
pub mod Scheduler
pub mod Control
pub mod Io
pub mod Loader
pub mod Machine
pub mod Metrics
pub mod Parser
pub mod Pipeline
mod Tests
