-- ===== src/Parser/Encode.antt =====
-- The tables and `buildBinaryInstruction` of src/parser_json/parser_json.cpp. An int is its bit
-- pattern. The masked and shifted fields of a word do not overlap, so `|=` adds them.
pub mod Fields
pub mod Names
use multicore_simulator.Prelude.{
  ℕ, Bool, List, [], ◌∷◌, String, Option, none, some, ◌+◌, ◌*◌, ◌%◌, ◌==◌, ◌||◌, if◌then◌else◌,
}
use multicore_simulator.Cpu.Registers.{find}

abbrev pub instruction_map : List (String × ℕ)
instruction_map =
    ("add", 0)
    ∷ ("sub", 0)
    ∷ ("and", 0)
    ∷ ("or", 0)
    ∷ ("mult", 0)
    ∷ ("div", 0)
    ∷ ("sll", 0)
    ∷ ("srl", 0)
    ∷ ("jr", 0)
    ∷ ("addi", 0b001000)
    ∷ ("andi", 0b001100)
    ∷ ("ori", 0b001101)
    ∷ ("slti", 0b001010)
    ∷ ("lw", 0b100011)
    ∷ ("sw", 0b101011)
    ∷ ("beq", 0b000100)
    ∷ ("bne", 0b000101)
    ∷ ("bgt", 0b000111)
    ∷ ("blt", 0b001001)
    ∷ ("li", 0b001111)
    ∷ ("print", 0b111110)
    ∷ ("end", 0b111111)
    ∷ ("j", 0b000010)
    ∷ ("jal", 0b000011)
    ∷ []

abbrev pub funct_map : List (String × ℕ)
funct_map =
    ("add", 0b100000)
    ∷ ("sub", 0b100010)
    ∷ ("and", 0b100100)
    ∷ ("or", 0b100101)
    ∷ ("mult", 0b011000)
    ∷ ("div", 0b011010)
    ∷ ("sll", 0b000000)
    ∷ ("srl", 0b000010)
    ∷ ("jr", 0b001000)
    ∷ []

abbrev pub register_map : List (String × ℕ)
register_map =
    ("$zero", 0)
    ∷ ("$at", 1)
    ∷ ("$v0", 2)
    ∷ ("$v1", 3)
    ∷ ("$a0", 4)
    ∷ ("$a1", 5)
    ∷ ("$a2", 6)
    ∷ ("$a3", 7)
    ∷ ("$t0", 8)
    ∷ ("$t1", 9)
    ∷ ("$t2", 10)
    ∷ ("$t3", 11)
    ∷ ("$t4", 12)
    ∷ ("$t5", 13)
    ∷ ("$t6", 14)
    ∷ ("$t7", 15)
    ∷ ("$s0", 16)
    ∷ ("$s1", 17)
    ∷ ("$s2", 18)
    ∷ ("$s3", 19)
    ∷ ("$s4", 20)
    ∷ ("$s5", 21)
    ∷ ("$s6", 22)
    ∷ ("$s7", 23)
    ∷ ("$t8", 24)
    ∷ ("$t9", 25)
    ∷ ("$k0", 26)
    ∷ ("$k1", 27)
    ∷ ("$gp", 28)
    ∷ ("$sp", 29)
    ∷ ("$fp", 30)
    ∷ ("$ra", 31)
    ∷ []

-- getOpcode, getRegisterCode and getFunct of a name in lower case; `none` is the runtime_error.
unfoldable pub get_opcode : String → Option ℕ
unfolding find
get_opcode instr = find instr instruction_map

unfoldable pub get_register_code : String → Option ℕ
unfolding find
get_register_code reg = find reg register_map

abbrev pub or_zero : Option ℕ → ℕ
or_zero none = 0
or_zero (some n) = n

unfoldable pub get_funct : String → ℕ
unfolding find
get_funct instr = or_zero (find instr funct_map)

unfoldable pub build_r_type : ℕ → ℕ → ℕ → ℕ → ℕ → ℕ → ℕ
build_r_type opcode rs rt rd shamt funct =
    opcode % 64 * 67108864
    + rs % 32 * 2097152
    + rt % 32 * 65536
    + rd % 32 * 2048
    + shamt % 32 * 64
    + funct % 64

unfoldable pub build_j_type : ℕ → ℕ → ℕ
build_j_type opcode address = opcode % 64 * 67108864 + address % 67108864

unfoldable pub build_i_type : ℕ → ℕ → ℕ → ℕ → ℕ
build_i_type opcode rs rt immediate =
    opcode % 64 * 67108864 + rs % 32 * 2097152 + rt % 32 * 65536 + immediate % 65536

unfoldable pub build_binary_instruction : ℕ → ℕ → ℕ → ℕ → ℕ → ℕ → ℕ → ℕ → ℕ
unfolding build_r_type build_j_type build_i_type
build_binary_instruction opcode rs rt rd shamt funct immediate address =
    if opcode == 0
    then build_r_type opcode rs rt rd shamt funct
    else (if opcode == 0b000010 || opcode == 0b000011
        then build_j_type opcode address
        else build_i_type opcode rs rt immediate)
