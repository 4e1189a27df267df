-- ===== src/Tests/Assembling.antt =====
-- The properties of src/parser_json/parser_json.cpp at a loop of two instructions.
use mathlib.Core.Option.{some_inj}
use multicore_simulator.Prelude.{true, sym, subst, arith, ℕ, [], ◌∷◌, ◌++◌, String, some, ◌≡◌, refl}
use multicore_simulator.Prelude.Assoc.{lookup, insert}
use multicore_simulator.Process.{new_pcb}
use multicore_simulator.Memory.Manager.{System, new_memory_manager, write}
use multicore_simulator.Parser.Text.{text_eq, to_lower}
use multicore_simulator.Parser.Program.{
  Symbols, has_name, string_at, register_at, immediate_at, parse_immediate, encode_li,
  encode_i_type,
}
use multicore_simulator.Cpu.Registers.{find}
use multicore_simulator.Parser.Encode.{build_binary_instruction, get_opcode, get_register_code}
use multicore_simulator.Parser.Assemble.{
  collect_labels, encode_all, define_label, defines_label, parse_instruction,
}
use multicore_simulator.Parser.Assemble.Labels.{Labelled, Free, collect_labels-encode_all}
use multicore_simulator.Tests.Json.{Json, string, number, object, field, close, json}

abbrev first : Json
first = object (
    field "instruction" (string "li")
      (field "rt" (string "$t0") (field "immediate" (number 3) close)))

-- The loop: `again` is the label of this instruction.
abbrev looped : Json
looped = object (
    field "instruction" (string "add") (
      field "label" (string "again")
        (field "rd" (string "$t1") (field "rs" (string "$t1") (field "rt" (string "$t0") close)))))

abbrev back : Json
back = object (field "instruction" (string "j") (field "label" (string "again") close))

abbrev system : System
system = record { memory = new_memory_manager 64 64; processes = λ p. new_pcb }

abbrev symbols : Symbols
symbols = record { data_map = []; label_map = ("again", 4) ∷ [] }

-- The machine after the first instruction has been encoded.
abbrev encoded : System
encoded = write system 0 (build_binary_instruction 8 0 8 0 0 0 3 0) 3

labelled : Labelled json looped "again"
unfolding string_at defines_label to_lower
labelled = (refl, ("add", refl, refl), refl)

free : Free json "again" (back ∷ [])
unfolding defines_label to_lower string_at
free = ((λ (_, (mnem, i, d), _). jumps mnem (some_inj.0 i) d), tt)
  where
    jumps : (mnem : String) → "j" ≡ mnem → defines_label json back (to_lower mnem) ≡ true → ⊥
    jumps mnem e d =
        let same : defines_label json back (to_lower "j") ≡ true =
          subst (λ (m : String). defines_label json back (to_lower m) ≡ true) (sym e) d in
        ground arith

first_pass :
    collect_labels json ((first ∷ []) ++ looped ∷ back ∷ []) [] 0 ≡ some (("again", 4) ∷ [], 12)
unfolding collect_labels define_label defines_label to_lower string_at insert
first_pass = refl

second_pass : encode_all json (first ∷ []) symbols system 3 0 ≡ (encoded, some 4)
unfolding encode_all parse_instruction string_at has_name find encode_i_type encode_li register_at
    immediate_at get_opcode to_lower get_register_code parse_immediate
second_pass = refl

collect_labels-encode_all_example :
    (lookup {K = String} {V = ℕ} "again" (("again", 4) ∷ []) ≡ some 4)
    × (encode_all json ((first ∷ []) ++ looped ∷ back ∷ []) symbols system 3 0
        ≡ encode_all json (looped ∷ back ∷ []) symbols encoded 3 4)
collect_labels-encode_all_example =
    collect_labels-encode_all json (first ∷ []) (back ∷ []) looped "again" (("again", 4) ∷ []) 0 12
      symbols system encoded 3 4 labelled free first_pass second_pass
