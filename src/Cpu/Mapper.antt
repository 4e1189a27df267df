-- ===== src/Cpu/Mapper.antt =====
-- src/cpu/HASH_REGISTER.hpp: register numbers, their 5-bit codes and their names. A code is the list
-- of its characters; a call that throws answers `none`.
pub mod Table
pub mod Codes
use Prim.Native.String
use Prim.Native.Char.{code}
use multicore_simulator.Prelude.{
  ℕ, zero, suc, Bool, true, false, List, [], ◌∷◌, String, Option, none, some, ◌+◌, ◌-◌, ◌*◌, ◌/◌,
  ◌%◌, ◌&&◌, ◌||◌, ◌==◌, ltb, if◌then◌else◌, length, not,
}
use multicore_simulator.Cpu.Registers.{find}
use text.Mathlib.Text.{◌==◌ as str_eq}

-- The characters of a text.
abbrev pub codes : String → List ℕ
codes String.[] = []
codes (String.◌∷◌ c s) = code c ∷ codes s

pub data RegisterType : Type 0 where
  general_purpose special_purpose system_control : RegisterType

pub record RegisterInfo : Type 0 where
  pub name : String
  pub type : RegisterType
  pub is_read_only : Bool
  pub description : String

pub record RegisterMapper : Type 0 where
  pub binary_to_name : List (List ℕ × String)
  pub name_to_binary : List (String × List ℕ)
  pub register_metadata : List (String × RegisterInfo)

unfoldable pub same_code : List ℕ → List ℕ → Bool
same_code [] [] = true
same_code [] (y ∷ ys) = false
same_code (x ∷ xs) [] = false
same_code (x ∷ xs) (y ∷ ys) = x == y && same_code xs ys

unfoldable pub find_code : List ℕ → List (List ℕ × String) → Option String
find_code key [] = none
find_code key ((k, name) ∷ rest) = if same_code k key then some name else find_code key rest

abbrev pub found {ℓ} : {A : Type ℓ} → Option A → Bool
found none = false
found (some _) = true

-- `none` is the invalid_argument of a code of another length, or of a second code or name. New
-- entries go to the front: no key stands twice.
unfoldable pub add_register :
    List ℕ → String → RegisterType → Bool → String → RegisterMapper → Option RegisterMapper
unfolding find_code find same_code
add_register binary name type read_only description m =
    if not (length binary == 5)
      || found (find_code binary m.binary_to_name)
      || found (find name m.name_to_binary)
    then none
    else some (record {
      binary_to_name = (binary, name) ∷ m.binary_to_name;
      name_to_binary = (name, binary) ∷ m.name_to_binary;
      register_metadata =
          (
            name,
            record {
              name = name;
              type = type;
              is_read_only = read_only;
              description = description;
            },
          )
          ∷ m.register_metadata;
    })

-- The calls of `initializeRegisters`, in order.
abbrev pub register_rows : List (String × String × Bool × String)
register_rows =
    ("00000", "zero", true, "Always contains zero")
    ∷ ("00001", "at", false, "Assembler temporary")
    ∷ ("00010", "v0", false, "Function result 0")
    ∷ ("00011", "v1", false, "Function result 1")
    ∷ ("00100", "a0", false, "Function argument 0")
    ∷ ("00101", "a1", false, "Function argument 1")
    ∷ ("00110", "a2", false, "Function argument 2")
    ∷ ("00111", "a3", false, "Function argument 3")
    ∷ ("01000", "t0", false, "Temporary 0")
    ∷ ("01001", "t1", false, "Temporary 1")
    ∷ ("01010", "t2", false, "Temporary 2")
    ∷ ("01011", "t3", false, "Temporary 3")
    ∷ ("01100", "t4", false, "Temporary 4")
    ∷ ("01101", "t5", false, "Temporary 5")
    ∷ ("01110", "t6", false, "Temporary 6")
    ∷ ("01111", "t7", false, "Temporary 7")
    ∷ ("10000", "s0", false, "Saved register 0")
    ∷ ("10001", "s1", false, "Saved register 1")
    ∷ ("10010", "s2", false, "Saved register 2")
    ∷ ("10011", "s3", false, "Saved register 3")
    ∷ ("10100", "s4", false, "Saved register 4")
    ∷ ("10101", "s5", false, "Saved register 5")
    ∷ ("10110", "s6", false, "Saved register 6")
    ∷ ("10111", "s7", false, "Saved register 7")
    ∷ ("11000", "t8", false, "Temporary 8")
    ∷ ("11001", "t9", false, "Temporary 9")
    ∷ ("11010", "k0", false, "Kernel reserved 0")
    ∷ ("11011", "k1", false, "Kernel reserved 1")
    ∷ ("11100", "gp", false, "Global pointer")
    ∷ ("11101", "sp", false, "Stack pointer")
    ∷ ("11110", "fp", false, "Frame pointer")
    ∷ ("11111", "ra", false, "Return address")
    ∷ []

unfoldable pub add_registers :
    List (String × String × Bool × String) → RegisterMapper → Option RegisterMapper
unfolding add_register
add_registers [] m = some m
add_registers ((binary, name, read_only, description) ∷ rest) m =
    elim (add_register (codes binary) name general_purpose read_only description m) [
      | none ↦ none
      | some m' ↦ add_registers rest m'
    ]

-- the constructor
unfoldable pub new_register_mapper : Option RegisterMapper
unfolding add_registers
new_register_mapper =
    add_registers register_rows
      (record { binary_to_name = []; name_to_binary = []; register_metadata = [] })

-- '0' or '1'
abbrev pub digit : ℕ → ℕ
digit bit = 48 + bit

-- The loop of `binFromIndex`, from the last character to the first.
unfoldable pub bin_digits : ℕ → ℕ → List ℕ → List ℕ
bin_digits zero idx result = result
bin_digits (suc rounds) idx result = bin_digits rounds (idx / 2) (digit (idx % 2) ∷ result)

-- `none` is the out_of_range of an index past 31.
unfoldable pub bin_from_index : ℕ → Option (List ℕ)
unfolding bin_digits
bin_from_index idx = if ltb 31 idx then none else some (bin_digits 5 idx [])

-- The loop of `indexFromBinary`.
unfoldable pub index_digits : List ℕ → ℕ → Option ℕ
index_digits [] result = some result
index_digits (bit ∷ rest) result =
    let next = index_digits rest (result * 2 + (bit - 48)) in
    if not (bit == 48) && not (bit == 49) then none else next

unfoldable pub index_from_binary : List ℕ → Option ℕ
unfolding index_digits
index_from_binary binary = if not (length binary == 5) then none else index_digits binary 0

abbrev pub or_unknown : Option String → String
or_unknown none = "UNKNOWN"
or_unknown (some name) = name

-- `getRegisterName` of a code.
unfoldable pub get_register_name_of_code : RegisterMapper → List ℕ → Option String
unfolding find_code same_code
get_register_name_of_code m binary =
    if not (length binary == 5) then none else some (or_unknown (find_code binary m.binary_to_name))

-- `getRegisterName` of an index; an index past 31, or a negative one, has no name.
unfoldable pub get_register_name : RegisterMapper → ℕ → Option String
unfolding get_register_name_of_code bin_from_index
get_register_name m index = elim (bin_from_index index) [
  | none ↦ some "UNKNOWN"
  | some binary ↦ get_register_name_of_code m binary
]

abbrev pub or_empty : Option (List ℕ) → List ℕ
or_empty none = []
or_empty (some binary) = binary

unfoldable pub get_register_binary : RegisterMapper → String → List ℕ
unfolding find
get_register_binary m name = or_empty (find name m.name_to_binary)

unfoldable pub get_register_info : RegisterMapper → String → Option RegisterInfo
unfolding find
get_register_info m name = find name m.register_metadata

unfoldable pub is_read_only : RegisterMapper → String → Bool
unfolding find
is_read_only m name = elim (find name m.register_metadata) [
  | none ↦ false
  | some info ↦ info.is_read_only
]

unfoldable pub is_valid_register : RegisterMapper → String → Bool
unfolding find
is_valid_register m name = found (find name m.name_to_binary)

unfoldable pub is_valid_binary_code : RegisterMapper → List ℕ → Bool
unfolding find_code same_code
is_valid_binary_code m binary = found (find_code binary m.binary_to_name)
