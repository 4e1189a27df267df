-- ===== src/Tests/Branching.antt =====
-- A branch of src/parser_json/parser_json.cpp to a label, run by src/cpu/CONTROL_UNIT.cpp on a core whose
-- registers all hold 7.
use multicore_simulator.Prelude.{ℕ, true, [], ◌∷◌, some, ◌≡◌, ◌≢◌, ◌⊎◌, not, refl, arith}
use multicore_simulator.Prelude.Assoc.{lookup}
use multicore_simulator.Process.{new_pcb}
use multicore_simulator.Memory.Manager.{System, new_memory_manager}
use multicore_simulator.Cpu.Registers.{find}
use multicore_simulator.Cpu.Mapper.Table.{gpr}
use multicore_simulator.Parser.Text.{to_lower, is_empty_string}
use multicore_simulator.Parser.Program.{
  Symbols, has_name, string_at, register_at, encode_i_type, encode_branch, branch_label,
  branch_target,
}
use multicore_simulator.Parser.Encode.{get_opcode, get_register_code, build_binary_instruction}
use multicore_simulator.Parser.Assemble.{parse_instruction}
use multicore_simulator.Parser.Assemble.Branches.{Outcome, parse_instruction-execute}
use multicore_simulator.Control.Core.{Core, registers}
use multicore_simulator.Control.Decode.{empty_instruction, decoded}
use multicore_simulator.Control.Execute.{execute}
use multicore_simulator.Control.Execute.Run.{new_core}
use multicore_simulator.Tests.Json.{Json, string, object, field, close, json}

abbrev branch : Json
branch = object (
    field "instruction" (string "beq") (
      field "rs" (string "$t0") (field "rt" (string "$t1") (field "label" (string "again") close))))

abbrev symbols : Symbols
symbols = record { data_map = []; label_map = ("again", 4) ∷ [] }

abbrev sevens : System
sevens = record {
  memory = new_memory_manager 64 64;
  processes = λ p. record new_pcb { reg_bank = λ r. 7 };
}

abbrev core : Core
core = record (new_core sevens 3 [] true) { instructions = empty_instruction ∷ [] }

abbrev word : ℕ
word = build_binary_instruction 4 8 9 0 0 0 4 0

assembled : parse_instruction json symbols branch ≡ some word
unfolding parse_instruction string_at has_name find encode_i_type encode_branch register_at
    branch_label branch_target is_empty_string get_opcode to_lower get_register_code lookup
assembled = refl

parse_instruction-execute_example :
    (rs : ℕ) × (rt : ℕ) × (register_at json branch "rs" ≡ some rs)
    × (register_at json branch "rt" ≡ some rt)
    × (((registers core (gpr rs) ≡ registers core (gpr rt))
          × Outcome true core 4 (execute core (decoded word empty_instruction)))
        ⊎ ((registers core (gpr rs) ≢ registers core (gpr rt))
            × Outcome (not true) core 4 (execute core (decoded word empty_instruction))))
unfolding new_core string_at branch_label is_empty_string lookup
parse_instruction-execute_example =
    parse_instruction-execute json true symbols branch word 4 "again" core empty_instruction refl
      refl refl refl (omega arith) (λ i h. omega arith) assembled
