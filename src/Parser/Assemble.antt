-- ===== src/Parser/Assemble.antt =====
-- The rest of src/parser_json/parser_json.cpp: the jumps, the data, the two passes over a program, and
-- loadJsonProgram. An exception leaves what was written to the memory before it.
pub mod Labels
pub mod Branches
use multicore_simulator.Prelude.{
  ℕ, Bool, true, false, List, [], ◌∷◌, String, Option, none, some, ◌+◌, ◌-◌, ◌*◌, ◌/◌, ◌%◌, ◌^◌,
  ◌&&◌, ◌||◌, not, if◌then◌else◌,
}
use multicore_simulator.Prelude.Assoc.{lookup, insert}
use text.Mathlib.Text.{◌==◌ as str_eq}
use multicore_simulator.Process.{Pcb}
use multicore_simulator.Cpu.Registers as Registers
use multicore_simulator.Cpu.Registers.{pc}
use multicore_simulator.Memory.Manager.{System, on_process, write}
use multicore_simulator.Control.Core.{◌>>=◌}
use multicore_simulator.Parser.Text.{text_eq, to_lower, stoul, is_hex, is_empty_string}
use multicore_simulator.Parser.Encode.{funct_map, get_opcode, build_binary_instruction}
use multicore_simulator.Parser.Program.{
  JsonLibrary, Symbols, has_name, string_at, is_branch, encode_r_type, encode_i_type,
}

module _ {J : Type 0} (json : JsonLibrary J) where
  open json use {
    at, contains, is_string, is_array, is_object, get_string, get_int, get_u32, items, elements,
    value_string,
  }

  unfoldable pub jump_label : J → Option String
  unfolding string_at
  jump_label j = if contains j "label1" then string_at json j "label1" else string_at json j "label"

  unfoldable pub jump_address : J → Option ℕ
  unfolding to_lower is_hex stoul
  jump_address j =
      if is_string j
      then (do
        text ← get_string j
        value ← stoul (if is_hex (to_lower text) then 16 else 10) (to_lower text)
        some (value % 2 ^ 32))
      else get_u32 j

  unfoldable pub jump_target : Symbols → J → Option ℕ
  unfolding jump_label jump_address
  jump_target symbols j =
      if contains j "label" || contains j "label1"
      then (do
        label ← jump_label j
        address ← lookup label symbols.label_map
        some (address % 2 ^ 26))
      else if contains j "address"
      then (do value ← at j "address"; address ← jump_address value; some (address % 2 ^ 26))
      else none

  unfoldable pub encode_j_type : Symbols → J → Option ℕ
  unfolding string_at get_opcode to_lower jump_target build_binary_instruction
  encode_j_type symbols j = do
    mnem ← string_at json j "instruction"
    opcode ← get_opcode (to_lower mnem)
    address ← jump_target symbols j
    some (build_binary_instruction opcode 0 0 0 0 0 0 address)

  unfoldable pub parse_instruction : Symbols → J → Option ℕ
  unfolding string_at get_opcode to_lower has_name encode_r_type encode_j_type encode_i_type
  parse_instruction symbols j = do
    mnem ← string_at json j "instruction"
    (if str_eq mnem "end" || str_eq mnem "print"
        then (do opcode ← get_opcode (to_lower mnem); some (opcode * 2 ^ 26 % 2 ^ 32))
        else if has_name mnem funct_map
        then encode_r_type json j
        else if str_eq mnem "j" || str_eq mnem "jal"
        then encode_j_type symbols j
        else encode_i_type json symbols j)

  -- A word of the data.
  unfoldable pub data_word : J → Option ℕ
  unfolding stoul
  data_word j =
      if is_string j
      then (do text ← get_string j; value ← stoul 0 text; some (value % 2 ^ 32))
      else get_int j

  -- Words at successive addresses; the address behind them.
  unfoldable pub write_words : List J → System → ℕ → ℕ → System × Option ℕ
  unfolding data_word write
  write_words [] s process addr = (s, some addr)
  write_words (j ∷ rest) s process addr = elim (data_word j) [
    | none ↦ (s, none)
    | some w ↦ write_words rest (write s addr w process) process (addr + 4)
  ]

  unfoldable pub write_value : J → System → ℕ → ℕ → System × Option ℕ
  unfolding write_words
  write_value j s process addr =
      if is_array j
      then write_words (elements j) s process addr
      else write_words (j ∷ []) s process addr

  unfoldable pub parse_items :
      List (String × J) → Symbols → System → ℕ → ℕ → Symbols × System × Option ℕ
  unfolding write_value
  parse_items [] symbols s process addr = (symbols, s, some addr)
  parse_items ((key, val) ∷ rest) symbols s process addr =
      let named = record symbols { data_map = insert key addr symbols.data_map } in
      let (s', end) = write_value val s process addr in
      elim end [ none ↦ (named, s', none) | some next ↦ parse_items rest named s' process next ]

  unfoldable pub name_data : Symbols → String → ℕ → Symbols
  unfolding is_empty_string
  name_data symbols label addr =
      if not (is_empty_string label)
      then record symbols { data_map = insert label addr symbols.data_map }
      else symbols

  unfoldable pub parse_elements : List J → Symbols → System → ℕ → ℕ → Symbols × System × Option ℕ
  unfolding name_data write_value
  parse_elements [] symbols s process addr = (symbols, s, some addr)
  parse_elements (item ∷ rest) symbols s process addr = elim (value_string item "label" "") [
    | none ↦ (symbols, s, none)
    | some label ↦
        let named = name_data symbols label addr in
        elim (at item "value") [
          | none ↦ (named, s, none)
          | some val ↦
              let (s', end) = write_value val s process addr in
              elim end [
                | none ↦ (named, s', none)
                | some next ↦ parse_elements rest named s' process next
              ]
        ]
  ]

  unfoldable pub parse_data : J → Symbols → System → ℕ → ℕ → Symbols × System × Option ℕ
  unfolding parse_items parse_elements
  parse_data j symbols s process start =
      if is_object j
      then parse_items (items j) symbols s process start
      else if is_array j
      then parse_elements (elements j) symbols s process start
      else (symbols, s, some start)

  -- Whether the `label` of a node names its own address.
  unfoldable pub defines_label : J → String → Bool
  defines_label node mnem =
      contains node "label"
      && (not (str_eq mnem "j" || (str_eq mnem "jal" || is_branch json mnem))
          || contains node "label1")

  unfoldable pub define_label : J → List (String × ℕ) → ℕ → Option (List (String × ℕ))
  unfolding string_at to_lower defines_label
  define_label node labels addr = do
    mnem ← string_at json node "instruction"
    (if defines_label node (to_lower mnem)
        then (do label ← string_at json node "label"; some (insert label addr labels))
        else some labels)

  -- The first pass: the labels, and the address behind the program.
  unfoldable pub collect_labels : List J → List (String × ℕ) → ℕ → Option (List (String × ℕ) × ℕ)
  unfolding define_label
  collect_labels [] labels addr = some (labels, addr)
  collect_labels (node ∷ rest) labels addr =
      let skipped = collect_labels rest labels addr in
      if contains node "instruction"
      then (define_label node labels addr >>= λ labels'. collect_labels rest labels' (addr + 4))
      else skipped

  -- The second pass.
  unfoldable pub encode_all : List J → Symbols → System → ℕ → ℕ → System × Option ℕ
  unfolding parse_instruction write
  encode_all [] symbols s process addr = (s, some addr)
  encode_all (node ∷ rest) symbols s process addr = elim (contains node "instruction") [
    | false ↦ encode_all rest symbols s process addr
    | true ↦ elim (parse_instruction symbols node) [
      | none ↦ (s, none)
      | some w ↦ encode_all rest symbols (write s addr w process) process (addr + 4)
    ]
  ]

  -- The process starts at the label `start`, or at the first instruction.
  unfoldable pub set_start : List (String × ℕ) → ℕ → ℕ → Pcb → Pcb
  set_start labels start end p =
      let first : ℕ = elim (lookup "start" labels) [ none ↦ start | some a ↦ a ] in
      record p { burst_time = (end - start) / 4; reg_bank = Registers.write pc first p.reg_bank }

  unfoldable pub parse_program : J → Symbols → System → ℕ → ℕ → System × Option ℕ
  unfolding collect_labels set_start encode_all
  parse_program j symbols s process start =
      if not (is_array j)
      then (s, some start)
      else elim (collect_labels (elements j) symbols.label_map start) [
        | none ↦ (s, none)
        | some (labels, end) ↦
            encode_all (elements j) (record symbols { label_map = labels })
              (on_process s process (set_start labels start end)) process start
      ]

  -- The data, if there is any, and the program behind it.
  unfoldable pub load_parts : J → System → ℕ → Symbols × System × Option ℕ → System × Option ℕ
  unfolding parse_program
  load_parts j s process (symbols, s', none) = (s', none)
  load_parts j s process (symbols, s', some addr) =
      if contains j "program"
      then elim (at j "program") [
        | none ↦ (s', none)
        | some program ↦ parse_program program symbols s' process addr
      ]
      else (s', some addr)

  -- `none` for the file is the exception of a file that cannot be read.
  unfoldable pub load_json_program : Option J → System → ℕ → ℕ → System × Option ℕ
  unfolding load_parts parse_data
  load_json_program none s process start = (s, none)
  load_json_program (some j) s process start =
      let empty : Symbols = record { data_map = []; label_map = [] } in
      load_parts j s process (
        if contains j "data"
        then elim (at j "data") [
          | none ↦ (empty, s, none)
          | some data_ ↦ parse_data data_ empty s process start
        ]
        else (empty, s, some start))
