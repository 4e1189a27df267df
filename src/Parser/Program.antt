-- ===== src/Parser/Program.antt =====
-- The encoders of src/parser_json/parser_json.cpp for one instruction, but the jumps. What they call of the
-- JSON library is a parameter; `none` is an exception. An address is a plain number.
use multicore_simulator.Prelude.{
  ℕ, Bool, true, false, List, String, Option, none, some, ◌+◌, ◌%◌, ◌||◌, not, if◌then◌else◌,
}
use multicore_simulator.Prelude.Assoc.{lookup}
use text.Mathlib.Text.{◌==◌ as str_eq}
use multicore_simulator.Cpu.Registers.{find}
use multicore_simulator.Control.Core.{◌>>=◌}
use multicore_simulator.Parser.Text.{
  text_eq, to_lower, stoul, stoi, is_hex, is_empty_string, split_at,
}
use multicore_simulator.Parser.Encode.{
  register_map, get_opcode, get_register_code, get_funct, build_binary_instruction,
}

-- nlohmann::json: `at` for at() and operator[], the tests, the conversions by get<>, and value() with its
-- default. An int is its 32-bit pattern.
pub record JsonLibrary (J : Type 0) : Type 0 where
  pub at : J → String → Option J
  pub contains : J → String → Bool
  pub is_string : J → Bool
  pub is_array : J → Bool
  pub is_object : J → Bool
  pub get_string : J → Option String
  pub get_int : J → Option ℕ
  pub get_u32 : J → Option ℕ
  pub items : J → List (String × J)
  pub elements : J → List J
  pub value_string : J → String → String → Option String
  pub value_int : J → String → ℕ → Option ℕ
  pub value_u64 : J → String → ℕ → Option ℕ

-- dataMap and labelMap
pub record Symbols : Type 0 where
  pub data_map : List (String × ℕ)
  pub label_map : List (String × ℕ)

unfoldable pub has_name {ℓ} : {A : Type ℓ} → String → List (String × A) → Bool
unfolding find
has_name key m = elim (find key m) [ none ↦ false | some a ↦ true ]

-- parseOffsetBase
unfoldable pub offset_and_base : String → String → Option (ℕ × ℕ)
unfolding find to_lower stoi is_empty_string
offset_and_base before base = do
  offset ← stoi before
  register ← (if is_empty_string base then none else find (to_lower base) register_map)
  some (offset % 65536, register)

unfoldable pub parse_offset_base : String → Option (ℕ × ℕ)
unfolding split_at offset_and_base
parse_offset_base addr_expr = do
  (before, behind) ← split_at b'(' addr_expr
  (base, rest) ← split_at b')' behind
  elim (split_at b')' before) [ none ↦ offset_and_base before base | some closed ↦ none ]

module _ {J : Type 0} (json : JsonLibrary J) where
  open json use {at, contains, is_string, get_string, get_int, get_u32}

  unfoldable pub string_at : J → String → Option String
  string_at j key = at j key >>= get_string

  unfoldable pub register_at : J → String → Option ℕ
  unfolding string_at to_lower get_register_code
  register_at j key = do name ← string_at j key; get_register_code (to_lower name)

  -- An int16_t, as its bit pattern.
  unfoldable pub parse_immediate : J → Option ℕ
  unfolding to_lower is_hex stoul stoi
  parse_immediate j =
      if is_string j
      then (do
        text ← get_string j
        value ← (if is_hex (to_lower text) then stoul 16 (to_lower text) else stoi (to_lower text))
        some (value % 65536))
      else (do value ← get_int j; some (value % 65536))

  unfoldable pub immediate_at : J → String → Option ℕ
  unfolding parse_immediate
  immediate_at j key = at j key >>= parse_immediate

  unfoldable pub offset_or_zero : J → Option ℕ
  unfolding immediate_at
  offset_or_zero j = if contains j "offset" then immediate_at j "offset" else some 0

  -- The fields of an R-type instruction.
  unfoldable pub encode_registers : J → String → ℕ → ℕ → Option ℕ
  unfolding register_at immediate_at build_binary_instruction
  encode_registers j mnem opcode funct =
      if str_eq mnem "sll" || str_eq mnem "srl"
      then (do
        rd ← register_at j "rd"
        rt ← register_at j "rt"
        shamt ← immediate_at j "shamt"
        some (build_binary_instruction opcode 0 rt rd shamt funct 0 0))
      else if str_eq mnem "jr"
      then (do rs ← register_at j "rs"; some (build_binary_instruction opcode rs 0 0 0 funct 0 0))
      else (do
        rd ← register_at j "rd"
        rs ← register_at j "rs"
        rt ← register_at j "rt"
        some (build_binary_instruction opcode rs rt rd 0 funct 0 0))

  unfoldable pub encode_r_type : J → Option ℕ
  unfolding string_at get_opcode get_funct to_lower encode_registers
  encode_r_type j = do
    mnem ← string_at j "instruction"
    opcode ← get_opcode (to_lower mnem)
    let funct = get_funct (to_lower mnem)
    encode_registers j mnem opcode funct

  -- li is encoded as addi from $zero.
  unfoldable pub encode_li : J → Option ℕ
  unfolding register_at immediate_at get_opcode get_register_code build_binary_instruction
  encode_li j = do
    opcode ← get_opcode "addi"
    rt ← register_at j "rt"
    rs ← get_register_code "$zero"
    imm ← immediate_at j "immediate"
    some (build_binary_instruction opcode rs rt 0 0 0 imm 0)

  -- The base register and the offset of lw and sw.
  unfoldable pub data_address : Symbols → J → Option (ℕ × ℕ)
  unfolding string_at offset_or_zero
  data_address symbols j = do
    rs ← get_register_code "$zero"
    label ← string_at j "base"
    base ← lookup label symbols.data_map
    offset ← offset_or_zero j
    some ((base + offset) % 65536, rs)

  unfoldable pub memory_operand : Symbols → J → Option (ℕ × ℕ)
  unfolding string_at parse_offset_base register_at offset_or_zero data_address
  memory_operand symbols j =
      if contains j "addr"
      then string_at j "addr" >>= parse_offset_base
      else if contains j "baseReg"
      then (do rs ← register_at j "baseReg"; imm ← offset_or_zero j; some (imm, rs))
      else if contains j "base"
      then data_address symbols j
      else none

  unfoldable pub encode_memory : Symbols → J → ℕ → Option ℕ
  unfolding register_at memory_operand build_binary_instruction
  encode_memory symbols j opcode = do
    rt ← register_at j "rt"
    (imm, rs) ← memory_operand symbols j
    some (build_binary_instruction opcode rs rt 0 0 0 imm 0)

  -- The name of the label that a branch goes to; empty if it names none.
  unfoldable pub branch_label : J → Option String
  unfolding string_at
  branch_label j =
      if contains j "label1"
      then string_at j "label1"
      else if contains j "label"
      then string_at j "label"
      else some ""

  unfoldable pub branch_target : Symbols → J → String → Option ℕ
  unfolding immediate_at is_empty_string
  branch_target symbols j label =
      if not (is_empty_string label)
      then (do address ← lookup label symbols.label_map; some (address % 65536))
      else if contains j "offset"
      then immediate_at j "offset"
      else none

  unfoldable pub encode_branch : Symbols → J → ℕ → Option ℕ
  unfolding register_at branch_label branch_target build_binary_instruction
  encode_branch symbols j opcode = do
    rs ← register_at j "rs"
    rt ← register_at j "rt"
    label ← branch_label j
    imm ← branch_target symbols j label
    some (build_binary_instruction opcode rs rt 0 0 0 imm 0)

  unfoldable pub encode_immediate : J → ℕ → Option ℕ
  unfolding register_at immediate_at build_binary_instruction
  encode_immediate j opcode = do
    rt ← register_at j "rt"
    rs ← register_at j "rs"
    imm ← immediate_at j "immediate"
    some (build_binary_instruction opcode rs rt 0 0 0 imm 0)

  abbrev pub is_branch : String → Bool
  is_branch mnem =
      str_eq mnem "beq" || (str_eq mnem "bne" || (str_eq mnem "bgt" || str_eq mnem "blt"))

  unfoldable pub encode_i_type : Symbols → J → Option ℕ
  unfolding string_at get_opcode to_lower encode_li encode_memory encode_branch encode_immediate
  encode_i_type symbols j = do
    mnem ← string_at j "instruction"
    opcode ← get_opcode (to_lower mnem)
    (if str_eq mnem "li"
        then encode_li j
        else if str_eq mnem "lw" || str_eq mnem "sw"
        then encode_memory symbols j opcode
        else if is_branch mnem
        then encode_branch symbols j opcode
        else encode_immediate j opcode)
