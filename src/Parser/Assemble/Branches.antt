-- ===== src/Parser/Assemble/Branches.antt =====
-- Branches to a label, from src/parser_json/parser_json.cpp to src/cpu/CONTROL_UNIT.cpp.
use multicore_simulator.Prelude.{
  ℕ, Bool, true, false, List, [], ◌∷◌, String, Option, some, ◌≡◌, ◌≢◌, ◌⊎◌, ◌<◌, ◌%◌, inl, inr,
  refl, sym, ◌∙◌, arith, u32_mod, Option-cases, Bool-cases, ltb, ◌&&◌, not,
}
use multicore_simulator.Prelude.Assoc.{lookup}
use mathlib.Core.Option.{some_inj}
use text.Mathlib.Text.{◌==◌ as str_eq}
use multicore_simulator.Cpu.Registers.{find}
use multicore_simulator.Cpu.Mapper.Table.{gpr}
use multicore_simulator.Control.Core.{Core, registers, account_stage}
use multicore_simulator.Control.Decode.{InstructionData, decoded}
use multicore_simulator.Control.Execute.{execute}
use multicore_simulator.Control.Execute.Branches.{Taken, branch_word, execute-branch}
use multicore_simulator.Parser.Text.{text_eq, is_empty_string, to_lower}
use multicore_simulator.Parser.Encode.{register_map, get_register_code, get_opcode}
use multicore_simulator.Parser.Program.{
  JsonLibrary, Symbols, string_at, register_at, branch_label, branch_target, encode_branch,
  encode_i_type, has_name,
}
use multicore_simulator.Parser.Assemble.{parse_instruction}

abbrev all_below : ℕ → List (String × ℕ) → Bool
all_below n [] = true
all_below n (row ∷ rows) = ltb row.1 n && all_below n rows

find-below :
    (n : ℕ) (key : String) (m : List (String × ℕ)) (a : ℕ)
    → all_below n m ≡ true
    → find key m ≡ some a
    → a < n
unfolding find
find-below n key [] a below e = cc
find-below n key (row ∷ rows) a below e = elim (Bool-cases (str_eq row.0 key)) [
  | inl same ↦ ground (arith, below, some_inj.0 (rw same at e))
  | inr other ↦ find-below n key rows a (ground (arith, below)) (rw other at e)
]

-- The two branches on equality, and their opcodes.
abbrev pub mnemonic : Bool → String
mnemonic true = "beq"
mnemonic false = "bne"

abbrev code_of : Bool → ℕ
code_of true = 4
code_of false = 5

-- The branch was taken to the address, or the core has only counted the stage.
abbrev pub Outcome : Bool → Core → ℕ → Option Core → Type 0
Outcome true c address result = Taken result address
Outcome false c address result = result ≡ some (account_stage c)

execute-word :
    (equal : Bool) (rs rt address : ℕ) (c : Core) (d : InstructionData)
    → rs < 32
    → rt < 32
    → registers c (gpr rs) < u32_mod
    → registers c (gpr rt) < u32_mod
    → address < 32768
    → let result = execute c (decoded (branch_word (code_of equal) rs rt address) d) in
      (registers c (gpr rs) ≡ registers c (gpr rt) → Outcome equal c address result)
      × (registers c (gpr rs) ≢ registers c (gpr rt) → Outcome (not equal) c address result)
execute-word true rs rt address c d hs ht ha hb near =
    let (same, apart) = execute-branch c rs rt hs ht d address ha hb near in
    (λ e. (same e).0, λ n. (apart n).0)
execute-word false rs rt address c d hs ht ha hb near =
    let (same, apart) = execute-branch c rs rt hs ht d address ha hb near in
    (λ e. (same e).1, λ n. (apart n).1)

nat_decides : (a b : ℕ) → (a ≡ b) ⊎ (a ≢ b)
nat_decides a b = ground arith

module _ {J : Type 0} (json : JsonLibrary J) where
  register_at-below : (j : J) (key : String) (r : ℕ) → register_at json j key ≡ some r → r < 32
  unfolding register_at get_register_code
  register_at-below j key r e = elim (Option-cases (string_at json j key)) [
    | inl nothing ↦ absurd (cc (rw nothing at e))
    | inr (name, found) ↦ find-below 32 (to_lower name) register_map r refl (rw found at e)
  ]

  encode_branch-word :
      (symbols : Symbols) (j : J) (code w address : ℕ) (label : String)
      → branch_label json j ≡ some label
      → is_empty_string label ≡ false
      → lookup label symbols.label_map ≡ some address
      → encode_branch json symbols j code ≡ some w
      → (rs : ℕ) × (rt : ℕ) × (register_at json j "rs" ≡ some rs)
        × (register_at json j "rt" ≡ some rt)
        × (w ≡ branch_word code rs rt (address % 65536))
  unfolding encode_branch branch_target
  encode_branch-word symbols j code w address label named full found e =
      elim (Option-cases (register_at json j "rs")) [
        | inl no_rs ↦ absurd (cc (rw no_rs at e))
        | inr (rs, es) ↦ elim (Option-cases (register_at json j "rt")) [
          | inl no_rt ↦ absurd (cc (rw (es, no_rt) at e))
          | inr (rt, et) ↦ (rs, rt, es, et, sym (some_inj.0 (rw (es, et, named, full, found) at e)))
        ]
      ]

  parse_instruction-encode_branch :
      (equal : Bool) (symbols : Symbols) (j : J)
      → string_at json j "instruction" ≡ some (mnemonic equal)
      → parse_instruction json symbols j ≡ encode_branch json symbols j (code_of equal)
  unfolding parse_instruction encode_i_type has_name find get_opcode to_lower
  parse_instruction-encode_branch true symbols j e = rw e refl
  parse_instruction-encode_branch false symbols j e = rw e refl

  -- A branch goes where its label stands. If the parser encodes a `beq` or `bne` to a label whose address
  -- is below 2 ^ 15, then its word, decoded and executed by a core whose registers hold 32-bit words, sets the
  -- PC to the address of the label if the two registers that it names are equal (for `bne`, if they
  -- are not), and otherwise counts the stage and nothing else.
  pub parse_instruction-execute :
      (equal : Bool) (symbols : Symbols) (j : J) (w address : ℕ) (label : String) (c : Core)
      (d : InstructionData)
      → string_at json j "instruction" ≡ some (mnemonic equal)
      → branch_label json j ≡ some label
      → is_empty_string label ≡ false
      → lookup label symbols.label_map ≡ some address
      → address < 32768
      → ((i : ℕ) → i < 32 → registers c (gpr i) < u32_mod)
      → parse_instruction json symbols j ≡ some w
      → (rs : ℕ) × (rt : ℕ) × (register_at json j "rs" ≡ some rs)
        × (register_at json j "rt" ≡ some rt)
        × (((registers c (gpr rs) ≡ registers c (gpr rt))
              × Outcome equal c address (execute c (decoded w d)))
            ⊎ ((registers c (gpr rs) ≢ registers c (gpr rt))
                × Outcome (not equal) c address (execute c (decoded w d))))
  parse_instruction-execute equal symbols j w address label c d name named full found near words e =
      let (rs, rt, es, et, form) =
        encode_branch-word symbols j (code_of equal) w address label named full found
          (sym (parse_instruction-encode_branch equal symbols j name) ∙ e) in
      let hs : rs < 32 = register_at-below j "rs" rs es in
      let ht : rt < 32 = register_at-below j "rt" rt et in
      let whole : address % 65536 ≡ address = omega arith in
      let (same, apart) =
        execute-word equal rs rt address c d hs ht (words rs hs) (words rt ht) near in
      (
        rs,
        rt,
        es,
        et,
        elim (nat_decides (registers c (gpr rs)) (registers c (gpr rt))) [
          | inl e' ↦ rw (form, whole) (inl (e', same e'))
          | inr n ↦ rw (form, whole) (inr (n, apart n))
        ],
      )
