-- ===== src/Control/Execute/Run.antt =====
-- `Core` of src/cpu/CONTROL_UNIT.cpp: the rounds of the pipeline.
pub mod Termination
pub mod Ending
use multicore_simulator.Prelude.{
  ℕ, zero, suc, Bool, true, false, List, [], ◌∷◌, ◌++◌, Option, none, some, ◌+◌, ◌-◌, ◌==◌, leb,
  ltb, if◌then◌else◌, ◌&&◌, ◌||◌, length, add64,
}
use multicore_simulator.Process.{State, finished, modify}
use multicore_simulator.Memory.Manager.{System, on_process}
use multicore_simulator.Control.Decode.{InstructionData, empty_instruction}
use multicore_simulator.Control.Core.{
  ◌>>=◌, Core, IoRequest, instruction_at, on_block, account_pipeline_cycle,
}
use multicore_simulator.Control.Execute.{write_back, memory_acess, execute, decode_at, fetch}

-- The control unit and the context at the start of the call.
unfoldable pub new_core : System → ℕ → List IoRequest → Bool → Core
new_core system process io_requests print_lock = record {
  instructions = [];
  system = system;
  io_requests = io_requests;
  print_lock = print_lock;
  process = process;
  counter = 0;
  counter_for_end = 5;
  end_program = false;
  end_execution = false;
}

-- The five `if`s of a round. A stage does not change the two counters.
unfoldable pub write_back_stage : Core → Option Core
write_back_stage c =
    if leb 4 c.counter && leb 1 c.counter_for_end
    then write_back c (instruction_at c (c.counter - 4))
    else some c

unfoldable pub memory_stage : Core → Option Core
memory_stage c =
    if leb 3 c.counter && leb 2 c.counter_for_end
    then memory_acess c (instruction_at c (c.counter - 3))
    else some c

unfoldable pub execute_stage : Core → Option Core
execute_stage c =
    if leb 2 c.counter && leb 3 c.counter_for_end
    then execute c (instruction_at c (c.counter - 2))
    else some c

unfoldable pub decode_stage : Core → Core
decode_stage c =
    if leb 1 c.counter && leb 4 c.counter_for_end then decode_at c (c.counter - 1) else c

unfoldable pub fetch_stage : Core → Core
fetch_stage c =
    if c.counter_for_end == 5
    then fetch (record c { instructions = c.instructions ++ empty_instruction ∷ [] })
    else c

unfoldable pub stages : Core → Option Core
unfolding write_back_stage memory_stage execute_stage decode_stage fetch_stage
stages c = do
  c1 ← write_back_stage c
  c2 ← memory_stage c1
  c3 ← execute_stage c2
  some (fetch_stage (decode_stage c3))

-- Whether `endExecution` is set at the end of a round. A quantum below 1 acts as 1.
unfoldable pub is_over : ℕ → Core → Bool
is_over clock c =
    c.end_execution || (leb (c.system.processes c.process).quantum clock || c.end_program)

unfoldable pub count_down : Bool → Core → Core
count_down true c = record c { end_execution = true; counter_for_end = c.counter_for_end - 1 }
count_down false c = c

-- The end of a round; `clock` is its value after the increment.
unfoldable pub end_round : ℕ → Core → Core
unfolding is_over count_down
end_round clock c =
    let counted = account_pipeline_cycle (record c { counter = c.counter + 1 }) in
    count_down (is_over clock counted) counted

-- The `while`, with fuel; `none` is an exception, and also fuel that has run out.
unfoldable pub rounds : ℕ → ℕ → Core → Option Core
unfolding stages end_round
rounds zero clock c = none
rounds (suc fuel) clock c =
    let next = stages c >>= λ c'. rounds fuel (clock + 1) (end_round (clock + 1) c') in
    if c.counter_for_end == 0 then some c else next

unfoldable pub finish : Core → Core
finish c = if c.end_program then on_block c (λ p. record p { state = finished }) else c

-- Core, on fuel.
unfoldable pub run_core : ℕ → System → ℕ → List IoRequest → Bool → Option Core
unfolding rounds finish new_core
run_core fuel system process io_requests print_lock = do
  c ← rounds fuel 0 (new_core system process io_requests print_lock)
  some (finish c)
