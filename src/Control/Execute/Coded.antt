-- ===== src/Control/Execute/Coded.antt =====
-- The bit strings that Decode of src/cpu/CONTROL_UNIT.cpp leaves in an instruction are ones that the
-- later stages can read: no exception is thrown for them.
use multicore_simulator.Prelude.{
  ℕ, Bool, true, false, List, [], some, ◌≡◌, ◌⊎◌, ◌≤◌, ◌<◌, ◌/◌, ◌%◌, ◌^◌, ◌==◌, ◌||◌, inl, inr,
  refl, arith, u32_mod, Bool-cases, if◌then◌else◌,
}
use multicore_simulator.Cpu.Registers.{RegisterBank, ir}
use multicore_simulator.Cpu.Registers.Laws.{
  register_name, read_register_lem, after_write, write_register_lem,
}
use multicore_simulator.Cpu.Mapper.Table.{gpr, gpr-Mapped}
use multicore_simulator.Control.Bits.{
  reg_index_to_bit_string, to_bin_str, binary_string_to_uint, imm_field, get_immediate,
  get_source_register, get_target_register, get_destination_register,
}
use multicore_simulator.Control.Bits.Laws.{binary_string_to_uint-to_bin_str}
use multicore_simulator.Control.Decode.{
  Op, add, sub, mult, div, addi, addiu, li, lw, la, sw, bgti, blti, beq, bne, bgt, blt, slti, lui,
  j, print, InstructionData, empty_instruction, identify, is_idle, decode_registers,
  decode_immediate, decode_jump, decode_print, decode_fields, decoded, decode, bubble, hazard,
  step_back,
}
use multicore_simulator.Control.Core.{
  Core, registers, set_registers, name_of, register_value, assign,
}
use multicore_simulator.Control.Execute.Words.{name_of-register}

-- The empty text, or the code of a register.
abbrev pub IsCode : List ℕ → Type 0
IsCode code = (code ≡ []) ⊎ ((i : ℕ) × (i < 32) × (code ≡ reg_index_to_bit_string i))

-- The bits of a number, at most 32 of them.
abbrev pub IsBits : List ℕ → Type 0
IsBits bits = (v : ℕ) × (width : ℕ) × (2 ^ width ≤ u32_mod) × (bits ≡ to_bin_str v width)

pub record Coded (d : InstructionData) : Type 0 where
  pub source : IsCode d.source_register
  pub target : IsCode d.target_register
  pub destination : IsCode d.destination_register
  pub address : IsBits d.address_ram_result

empty-IsBits : IsBits []
unfolding to_bin_str
empty-IsBits = (0, 0, omega arith, refl)

pub empty_instruction-Coded : Coded empty_instruction
empty_instruction-Coded = record {
  source = inl refl;
  target = inl refl;
  destination = inl refl;
  address = empty-IsBits;
}

field-IsCode : (n : ℕ) → IsCode (reg_index_to_bit_string (n % 32))
field-IsCode n = inr (n % 32, omega arith, refl)

immediate-IsBits : (w : ℕ) → IsBits (get_immediate w)
unfolding get_immediate
immediate-IsBits w = (imm_field w, 16, omega arith, refl)

registers-Coded : (w : ℕ) (d : InstructionData) → Coded d → Coded (decode_registers w d)
unfolding decode_registers get_source_register get_target_register get_destination_register
registers-Coded w d h = record {
  source = field-IsCode (w / 2097152);
  target = field-IsCode (w / 65536);
  destination = field-IsCode (w / 2048);
  address = h.address;
}

immediate-Coded : (w : ℕ) (d : InstructionData) → Coded d → Coded (decode_immediate w d)
unfolding decode_immediate get_source_register get_target_register
immediate-Coded w d h = record {
  source = field-IsCode (w / 2097152);
  target = field-IsCode (w / 65536);
  destination = h.destination;
  address = immediate-IsBits w;
}

print-Coded : (w : ℕ) (d : InstructionData) → Coded d → Coded (decode_print w d)
unfolding decode_print get_target_register
print-Coded w d h = elim (Bool-cases (imm_field w == 0)) [
  | inl e ↦ rw e (record {
    source = h.source;
    target = field-IsCode (w / 65536);
    destination = h.destination;
    address = empty-IsBits;
  })
  | inr e ↦ rw e (record {
    source = h.source;
    target = field-IsCode (w / 65536);
    destination = h.destination;
    address = immediate-IsBits w;
  })
]

jump-Coded : (w : ℕ) (d : InstructionData) → Coded d → Coded (decode_jump w d)
unfolding decode_jump
jump-Coded w d h = record {
  source = h.source;
  target = h.target;
  destination = h.destination;
  address = (w % 67108864, 26, omega arith, refl);
}

decode_fields-Coded :
    (op : Op) (w : ℕ) (d : InstructionData) → Coded d → Coded (decode_fields op w d)
unfolding decode_fields
decode_fields-Coded add w d h = registers-Coded w d h
decode_fields-Coded sub w d h = registers-Coded w d h
decode_fields-Coded mult w d h = registers-Coded w d h
decode_fields-Coded div w d h = registers-Coded w d h
decode_fields-Coded addi w d h = immediate-Coded w d h
decode_fields-Coded addiu w d h = immediate-Coded w d h
decode_fields-Coded li w d h = immediate-Coded w d h
decode_fields-Coded lw w d h = immediate-Coded w d h
decode_fields-Coded la w d h = immediate-Coded w d h
decode_fields-Coded sw w d h = immediate-Coded w d h
decode_fields-Coded bgti w d h = immediate-Coded w d h
decode_fields-Coded blti w d h = immediate-Coded w d h
decode_fields-Coded beq w d h = immediate-Coded w d h
decode_fields-Coded bne w d h = immediate-Coded w d h
decode_fields-Coded bgt w d h = immediate-Coded w d h
decode_fields-Coded blt w d h = immediate-Coded w d h
decode_fields-Coded slti w d h = immediate-Coded w d h
decode_fields-Coded lui w d h = immediate-Coded w d h
decode_fields-Coded j w d h = jump-Coded w d h
decode_fields-Coded print w d h = print-Coded w d h
decode_fields-Coded _ w d h = h

pub decoded-Coded : (w : ℕ) (d : InstructionData) → Coded d → Coded (decoded w d)
unfolding decoded
decoded-Coded w d h =
    let named : Coded (record d { raw_instruction = w; op = identify w }) = record {
      source = h.source;
      target = h.target;
      destination = h.destination;
      address = h.address;
    } in
    elim (Bool-cases (is_idle (identify w))) [
      | inl e ↦ rw e named
      | inr e ↦ rw e (decode_fields-Coded (identify w) w _ named)
    ]

-- Decode leaves strings that can be read, whether or not it makes a bubble.
pub decode-Coded :
    (instructions : List InstructionData) (bank : RegisterBank) (d : InstructionData)
    → Coded d
    → Coded (decode instructions bank d).1
unfolding decode
decode-Coded instructions bank d h =
    let d' = decoded (bank ir) d in
    let h' = decoded-Coded (bank ir) d h in
    elim (Bool-cases (is_idle d'.op)) [
      | inl e ↦ rw e h'
      | inr e ↦ rw e (stalled d' h' (hazard instructions 1 d' || hazard instructions 2 d'))
    ]
  where
    stalled :
        (d' : InstructionData) (h' : Coded d') (b : Bool)
        → let r : RegisterBank × InstructionData =
            if b
            then (step_back bank, record d' { op = bubble; raw_instruction = 0 })
            else (bank, d') in
          Coded (r.1)
    stalled d' h' true = record {
      source = h'.source;
      target = h'.target;
      destination = h'.destination;
      address = h'.address;
    }
    stalled d' h' false = h'

-- A code that can be read leads to a register.
pub name_of-IsCode :
    (code : List ℕ)
    → IsCode code
    → (i : ℕ) × (i < 32) × (name_of code ≡ some (register_name (gpr i)))
unfolding name_of
name_of-IsCode code (inl e) = (0, omega arith, rw e (gpr-Mapped 0 (omega arith)).0)
name_of-IsCode code (inr (i, h, e)) = (i, h, rw e (name_of-register i h))

pub register_value-IsCode :
    (bank : RegisterBank) (code : List ℕ)
    → IsCode code
    → (value : ℕ) × (register_value bank code ≡ some value)
unfolding register_value
register_value-IsCode bank code h =
    let (i, _, e) = name_of-IsCode code h in (bank (gpr i), rw e (read_register_lem bank (gpr i)))

pub assign-IsCode :
    (c : Core) (code : List ℕ) (value : ℕ)
    → IsCode code
    → (bank : RegisterBank) × (assign c code value ≡ some (set_registers bank c))
unfolding assign
assign-IsCode c code value h =
    let (i, _, e) = name_of-IsCode code h in
    (
      after_write (registers c) (gpr i) value,
      rw (e, write_register_lem (registers c) (gpr i) value) refl,
    )

pub address-IsBits :
    (bits : List ℕ) → IsBits bits → (value : ℕ) × (binary_string_to_uint bits ≡ some value)
address-IsBits bits (v, width, h, e) =
    (v % 2 ^ width, rw e (binary_string_to_uint-to_bin_str v width h))
