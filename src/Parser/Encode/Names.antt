-- ===== src/Parser/Encode/Names.antt =====
-- Which operation src/cpu/CONTROL_UNIT.cpp sees in the word that src/parser_json/parser_json.cpp
-- builds for an instruction's name.
use multicore_simulator.Prelude.{
  ℕ, List, [], ◌∷◌, String, Option, none, some, ◌/◌, ◌%◌, ◌≡◌, ◌<◌, refl, arith,
}
use multicore_simulator.Parser.Encode.{
  get_opcode, get_funct, build_r_type, build_j_type, build_i_type, build_binary_instruction,
}
use multicore_simulator.Cpu.Registers.{find}
use multicore_simulator.Control.Decode.{
  Op, nop, add, sub, mult, div, j, jal, beq, bne, addi, addiu, andi, slti, lw, sw, end, bgt,
  identify, identify_code, identify_r_type,
}

-- The names that both files give the same operation, and those that they do not.
abbrev pub agreed : List (String × Op)
agreed =
    ("add", add)
    ∷ ("sub", sub)
    ∷ ("mult", mult)
    ∷ ("div", div)
    ∷ ("addi", addi)
    ∷ ("andi", andi)
    ∷ ("slti", slti)
    ∷ ("lw", lw)
    ∷ ("sw", sw)
    ∷ ("beq", beq)
    ∷ ("bne", bne)
    ∷ ("bgt", bgt)
    ∷ ("j", j)
    ∷ ("jal", jal)
    ∷ ("end", end)
    ∷ []

abbrev pub misread : List (String × Op)
misread =
    ("blt", addiu)
    ∷ ("print", nop)
    ∷ ("ori", nop)
    ∷ ("and", nop)
    ∷ ("or", nop)
    ∷ ("sll", nop)
    ∷ ("srl", nop)
    ∷ ("jr", nop)
    ∷ []

-- The operation seen in the word built for a name and the operands.
unfoldable pub seen : ℕ → ℕ → ℕ → ℕ → ℕ → ℕ → String → Option Op
seen rs rt rd shamt immediate address name = elim (get_opcode name) [
  | none ↦ none
  | some opcode ↦
      some (
        identify
          (build_binary_instruction opcode rs rt rd shamt (get_funct name) immediate address))
]

-- Every name of the rows is seen as the operation beside it.
abbrev pub SeenAs : (String → Option Op) → List (String × Op) → Type 0
SeenAs f [] = Unit
SeenAs f (row ∷ rows) = (f row.0 ≡ some row.1) × SeenAs f rows

module _ (rs rt rd shamt immediate address : ℕ) where
  built : ℕ → ℕ → ℕ
  built opcode funct = build_binary_instruction opcode rs rt rd shamt funct immediate address

  -- An opcode that is not 0 alone decides what is seen.
  by_opcode : (opcode funct : ℕ) → opcode < 64 → built opcode funct / 67108864 % 64 ≡ opcode
  unfolding built build_binary_instruction build_r_type build_j_type build_i_type
  by_opcode opcode funct h = ground arith

  other :
      (opcode : ℕ)
      → opcode < 64
      → some (identify (built opcode 0)) ≡ some (identify_code opcode (built opcode 0 % 64))
  unfolding identify
  other opcode h = rw (by_opcode opcode 0 h) refl

  -- Of an R-type word the function code is seen as well.
  r_type : (funct : ℕ) → funct < 64 → some (identify (built 0 funct)) ≡ some (identify_r_type funct)
  unfolding built build_binary_instruction build_r_type identify identify_code
  r_type funct h =
      let code : built 0 funct % 64 ≡ funct = omega arith in
      rw (by_opcode 0 funct (omega arith), code) refl

  -- Whatever its operands, an instruction of one of these names is seen as the operation of its name.
  pub seen-agreed : SeenAs (seen rs rt rd shamt immediate address) agreed
  unfolding seen get_opcode get_funct find built identify_code identify_r_type
  seen-agreed = (
    r_type 0x20 (omega arith),
    (
      r_type 0x22 (omega arith),
      (
        r_type 0x18 (omega arith),
        (
          r_type 0x1a (omega arith),
          (
            other 8 (omega arith),
            (
              other 12 (omega arith),
              (
                other 10 (omega arith),
                (
                  other 35 (omega arith),
                  (
                    other 43 (omega arith),
                    (
                      other 4 (omega arith),
                      (
                        other 5 (omega arith),
                        (
                          other 7 (omega arith),
                          (
                            other 2 (omega arith),
                            (other 3 (omega arith), (other 63 (omega arith), tt)),
                          ),
                        ),
                      ),
                    ),
                  ),
                ),
              ),
            ),
          ),
        ),
      ),
    ),
  )

  -- Whatever its operands, an instruction of one of these names is seen as another operation: `blt`
  -- as ADDIU, and the others as none.
  pub seen-misread : SeenAs (seen rs rt rd shamt immediate address) misread
  unfolding seen get_opcode get_funct find built identify_code identify_r_type
  seen-misread = (
    other 9 (omega arith),
    (
      other 62 (omega arith),
      (
        other 13 (omega arith),
        (
          r_type 36 (omega arith),
          (
            r_type 37 (omega arith),
            (r_type 0 (omega arith), (r_type 2 (omega arith), (r_type 8 (omega arith), tt))),
          ),
        ),
      ),
    ),
  )
