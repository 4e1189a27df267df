-- ===== src/Pipeline/Stored.antt =====
-- SW ahead of an arithmetic instruction in the pipeline of src/cpu/CONTROL_UNIT.cpp, with the words that
-- src/parser_json/parser_json.cpp builds for them.
use multicore_simulator.Prelude.{
  ℕ, zero, suc, Bool, true, false, List, [], ◌∷◌, some, ◌≡◌, ◌≤◌, ◌<◌, ◌+◌, ◌-◌, ◌/◌, ◌%◌, ◌&&◌,
  not, leb, ◌∙◌, refl, ap, inl, inr, Bool-cases, length, arith, ==_refl, u32_mod, get_or,
}
use multicore_simulator.Cpu.Registers.{Register, RegisterBank, position}
use multicore_simulator.Cpu.Registers.Laws.{after_write, after_write-at, is_zero}
use multicore_simulator.Cpu.Mapper.Table.{gpr}
use multicore_simulator.Memory.Manager.{System, write}
use multicore_simulator.Control.Bits.{
  rs_field, rt_field, imm_field, reg_index_to_bit_string, to_bin_str, sign_extend16, get_immediate,
  get_source_register, get_target_register, binary_string_to_uint,
}
use multicore_simulator.Control.Bits.Laws.{binary_string_to_uint-to_bin_str}
use multicore_simulator.Control.Decode.{
  sw, InstructionData, decoded, decode_fields, decode_immediate, identify, identify_code, is_idle,
}
use multicore_simulator.Control.Core.{Core, registers, account_stage, instruction_at}
use multicore_simulator.Control.Execute.{memory_acess, access, write_back, store_word}
use multicore_simulator.Control.Execute.Keeps.{AllCoded}
use multicore_simulator.Control.Execute.Words.{
  executed, execute-decoded, register_value-register, name_of-register, registers-account_stage,
}
use multicore_simulator.Control.Execute.Run.{
  write_back_stage, memory_stage, execute_stage, decode_stage, fetch_stage, stages, end_round,
}
use multicore_simulator.Parser.Encode.{build_binary_instruction}
use multicore_simulator.Parser.Encode.Fields.{build_i_type-fields}
use multicore_simulator.Pipeline.Back.{registers-set_registers}
use multicore_simulator.Pipeline.Calm.{
  Calm, Calm-trans, Calm-refl, account_stage-Calm, write_back-Calm, decode_stage-Calm,
  fetch_stage-Calm, end_round-Calm,
}

all_nonzero : List Register → Bool
unfolding is_zero
all_nonzero [] = true
all_nonzero (r ∷ rest) = not (is_zero r) && all_nonzero rest

get_or-nonzero :
    (rs : List Register) (i : ℕ) (r : Register)
    → all_nonzero rs ≡ true
    → i < length rs
    → is_zero (get_or rs i r) ≡ false
unfolding all_nonzero get_or
get_or-nonzero [] i r h low = absurd (omega (arith, low))
get_or-nonzero (s ∷ rest) zero r h low = ground (arith, h)
get_or-nonzero (s ∷ rest) (suc i) r h low =
    get_or-nonzero rest i r (ground (arith, h)) (omega (arith, low))

all_but_first : List Register → Bool
unfolding all_nonzero
all_but_first [] = true
all_but_first (r ∷ rest) = all_nonzero rest

get_or-all_but_first :
    (rs : List Register) (i : ℕ) (r : Register)
    → all_but_first rs ≡ true
    → 0 < i
    → i < length rs
    → is_zero (get_or rs i r) ≡ false
unfolding all_but_first get_or
get_or-all_but_first [] i r h positive low = absurd (omega (arith, low))
get_or-all_but_first (s ∷ rest) zero r h positive low = absurd (omega (arith, positive))
get_or-all_but_first (s ∷ rest) (suc i) r h positive low =
    get_or-nonzero rest i r h (omega (arith, low))

gpr-nonzero : (r : ℕ) → 0 < r → r < 32 → is_zero (gpr r) ≡ false
unfolding gpr all_but_first is_zero
gpr-nonzero r positive low = get_or-all_but_first _ r _ refl positive low

-- The register of ADD holds the sum behind Execute.
executed-at :
    (c : Core) (r value : ℕ) → 0 < r → r < 32 → registers (executed c r value) (gpr r) ≡ value
executed-at c r value positive low =
    ap (λ (b : RegisterBank). b (gpr r))
      (registers-set_registers (account_stage c) (after_write (registers c) (gpr r) value))
    ∙ after_write-at (registers c) (gpr r) (gpr r) value
    ∙ rw (gpr-nonzero r positive low, ==_refl (position (gpr r))) refl

write_back_stage-Calm :
    (c : Core)
    → AllCoded c.instructions
    → (c' : Core) × (write_back_stage c ≡ some c') × ((i : ℕ) → Calm c c' i)
unfolding write_back_stage
write_back_stage-Calm c h = elim (Bool-cases (leb 4 c.counter && leb 1 c.counter_for_end)) [
  | inl e ↦ let (c', f, calm) = write_back-Calm c _ (h (c.counter - 4)) in (c', rw e f, calm)
  | inr e ↦ (c, rw e refl, Calm-refl c)
]

-- The word of SW of a register, at an address; and that of ADD.
abbrev pub sw_word : ℕ → ℕ → ℕ → ℕ
sw_word base rt address = build_binary_instruction 43 base rt 0 0 0 address 0

abbrev pub add_word : ℕ → ℕ → ℕ → ℕ
add_word rs rt rd = build_binary_instruction 0 rs rt rd 0 0x20 0 0

abbrev sw_data : ℕ → InstructionData → InstructionData
sw_data w d = record d {
  raw_instruction = w;
  op = sw;
  source_register = reg_index_to_bit_string (rs_field w);
  target_register = reg_index_to_bit_string (rt_field w);
  address_ram_result = to_bin_str (imm_field w) 16;
  immediate = sign_extend16 (imm_field w);
}

decoded-sw : (d : InstructionData) (w : ℕ) → identify w ≡ sw → decoded w d ≡ sw_data w d
unfolding decoded decode_fields decode_immediate get_source_register get_target_register
    get_immediate is_idle
decoded-sw d w e = rw e refl

identify-sw : (w : ℕ) → w / 67108864 % 64 ≡ 43 → identify w ≡ sw
unfolding identify identify_code
identify-sw w e = rw e refl

module _ (base rt address : ℕ) (hb : base < 32) (ht : rt < 32) (near : address < 65536) where
  -- SW in Memory_Acess and in Write_Back.
  sw-form :
      (d : InstructionData)
      → (decoded (sw_word base rt address) d).op ≡ sw
        × ((decoded (sw_word base rt address) d).target_register ≡ reg_index_to_bit_string rt)
        × ((decoded (sw_word base rt address) d).address_ram_result ≡ to_bin_str address 16)
  sw-form d =
      let w : ℕ = sw_word base rt address in
      let (_, opcode, _, target, imm) =
        build_i_type-fields 43 base rt 0 0 0 address 0 (omega arith) (λ e. omega (arith, e))
          (λ e. omega (arith, e)) (λ e. omega (arith, e)) hb ht in
      let whole : imm_field w ≡ address = omega (arith, imm, near) in
      rw (decoded-sw d w (identify-sw w opcode))
        (refl, ap reg_index_to_bit_string target, ap (λ v. to_bin_str v 16) whole)

  memory_acess-sw :
      (c : Core) (d : InstructionData)
      → memory_acess c (decoded (sw_word base rt address) d) ≡ some (account_stage c)
  unfolding memory_acess access is_idle
  memory_acess-sw c d =
      let (op, target, _) = sw-form d in rw (op, target, name_of-register rt ht) refl

  write_back-sw :
      (c : Core) (d : InstructionData)
      → write_back c (decoded (sw_word base rt address) d)
        ≡ some (record (account_stage c) {
          system = write (account_stage c).system address (registers c (gpr rt)) c.process;
        })
  unfolding store_word write_back
  write_back-sw c d =
      let (op, target, bits) = sw-form d in
      let number : binary_string_to_uint (to_bin_str address 16) ≡ some address =
        binary_string_to_uint-to_bin_str address 16 (omega arith) ∙ ap some (omega (arith, near)) in
      rw
        (
          op,
          write_back,
          target,
          bits,
          number,
          register_value-register (registers (account_stage c)) rt ht,
          registers-account_stage c,
        )
        refl

-- The round of SW in Memory_Acess and ADD in Execute, before Decode: the register of both has the sum.
record Summed (c c' : Core) (r sum : ℕ) : Type 0 where
  process : c'.process ≡ c.process
  counter : c'.counter ≡ c.counter
  counter_for_end : c'.counter_for_end ≡ c.counter_for_end
  instruction : instruction_at c' (c.counter - 3) ≡ instruction_at c (c.counter - 3)
  sum_held : registers c' (gpr r) ≡ sum

stages-Summed :
    (c : Core) (base r address rs rt : ℕ) (d d' : InstructionData)
    → base < 32
    → r < 32
    → 0 < r
    → rs < 32
    → rt < 32
    → address < 65536
    → AllCoded c.instructions
    → 3 ≤ c.counter
    → 3 ≤ c.counter_for_end
    → instruction_at c (c.counter - 3) ≡ decoded (sw_word base r address) d
    → instruction_at c (c.counter - 2) ≡ decoded (add_word rs rt r) d'
    → registers c (gpr rs) < u32_mod
    → registers c (gpr rt) < u32_mod
    → (c' : Core) × (stages c ≡ some (fetch_stage (decode_stage c')))
      × Summed c c' r ((registers c (gpr rs) + registers c (gpr rt)) % u32_mod)
unfolding stages memory_stage execute_stage
stages-Summed c base r address rs rt d d' hb hr positive hs ht near coded three early is_sw is_add
      small small' =
    let i : ℕ = c.counter - 3 in
    let (c1, e1, calm) = write_back_stage-Calm c coded in
    let k1 : Calm c c1 i = calm i in
    let sw1 : instruction_at c1 (c1.counter - 3) ≡ decoded (sw_word base r address) d =
      rw k1.counter (k1.instruction ∙ is_sw) in
    let test1 : (leb 3 c1.counter && leb 2 c1.counter_for_end) ≡ true =
      ground (arith, k1.counter, k1.counter_for_end, three, early) in
    let c2 : Core = account_stage c1 in
    let e2 : memory_stage c1 ≡ some c2 =
      rw (test1, sw1) (memory_acess-sw base r address hb hr near c1 d) in
    let k2 : (j : ℕ) → Calm c c2 j = λ j. Calm-trans c c1 c2 j (calm j) (account_stage-Calm c1 j) in
    let add2 : instruction_at c2 (c2.counter - 2) ≡ decoded (add_word rs rt r) d' =
      rw (k2 i).counter ((k2 (c.counter - 2)).instruction ∙ is_add) in
    let test2 : (leb 2 c2.counter && leb 3 c2.counter_for_end) ≡ true =
      ground (arith, (k2 i).counter, (k2 i).counter_for_end, three, early) in
    let sum : ℕ = (registers c2 (gpr rs) + registers c2 (gpr rt)) % u32_mod in
    let c3 : Core = executed c2 r sum in
    let below : registers c2 (gpr rs) < u32_mod = rw ((k2 i).agree rs) small in
    let below' : registers c2 (gpr rt) < u32_mod = rw ((k2 i).agree rt) small' in
    let e3 : execute_stage c2 ≡ some c3 =
      rw (test2, add2) (execute-decoded c2 rs rt r hs ht hr d' 0 below below').0 in
    let whole : stages c ≡ some (fetch_stage (decode_stage c3)) = rw (e1, e2, e3) refl in
    (
      c3,
      whole,
      record {
        process = (k2 i).process;
        counter = (k2 i).counter;
        counter_for_end = (k2 i).counter_for_end;
        instruction = (k2 i).instruction;
        sum_held =
            executed-at c2 r sum positive hr
            ∙ ap (λ v. (v + registers c2 (gpr rt)) % u32_mod) ((k2 i).agree rs)
            ∙ ap (λ v. (registers c (gpr rs) + v) % u32_mod) ((k2 i).agree rt);
      },
    )

-- SW stores what its register holds after the next instruction. Take a round in which SW of a register other
-- than 0 is in Memory_Acess and the instruction behind it, an ADD into the same register, is in Execute; the
-- pipeline is not in its last two rounds, and the operands of ADD are 32-bit words. Write_Back of the next
-- round, which is that of SW, writes the sum to the memory, and not what the register held when SW was
-- ahead of ADD.
pub stages-write_back_stage :
    (c : Core) (clock base r address rs rt : ℕ) (d d' : InstructionData)
    → base < 32
    → r < 32
    → 0 < r
    → rs < 32
    → rt < 32
    → address < 65536
    → AllCoded c.instructions
    → 3 ≤ c.counter
    → 3 ≤ c.counter_for_end
    → instruction_at c (c.counter - 3) ≡ decoded (sw_word base r address) d
    → instruction_at c (c.counter - 2) ≡ decoded (add_word rs rt r) d'
    → registers c (gpr rs) < u32_mod
    → registers c (gpr rt) < u32_mod
    → (c' : Core) × (stages c ≡ some c')
      × ((e : Core) × (s : System) × (write_back_stage (end_round clock c') ≡ some e)
          × (e.system
              ≡ write s address
                  ((registers c (gpr rs) + registers c (gpr rt)) % u32_mod)
                  c.process))
unfolding write_back_stage
stages-write_back_stage c clock base r address rs rt d d' hb hr positive hs ht near coded three
      early is_sw is_add small small' =
    let i : ℕ = c.counter - 3 in
    let sum : ℕ = (registers c (gpr rs) + registers c (gpr rt)) % u32_mod in
    let (c3, whole, k) =
      stages-Summed c base r address rs rt d d' hb hr positive hs ht near coded three early is_sw
        is_add small small' in
    let c4 : Core = decode_stage c3 in
    let c5 : Core = fetch_stage c4 in
    let calm : Calm c3 c5 i =
      Calm-trans c3 c4 c5 i (decode_stage-Calm c3 i (omega (arith, k.counter, three)))
        (fetch_stage-Calm c4 i) in
    let e : Core = end_round clock c5 in
    let (own, counter, left, instruction, kept) = end_round-Calm clock c5 i in
    let at : e.counter - 4 ≡ i = omega (arith, counter, calm.counter, k.counter, three) in
    let is_sw' : instruction_at e (e.counter - 4) ≡ decoded (sw_word base r address) d =
      rw at (instruction ∙ calm.instruction ∙ k.instruction ∙ is_sw) in
    let test : (leb 4 e.counter && leb 1 e.counter_for_end) ≡ true = ground (
      arith, counter, calm.counter, k.counter, three, left, calm.counter_for_end, k.counter_for_end,
      early,
    ) in
    let held : registers e (gpr r) ≡ sum =
      ap (λ (b : RegisterBank). b (gpr r)) kept ∙ calm.agree r ∙ k.sum_held in
    let process : e.process ≡ c.process = own ∙ calm.process ∙ k.process in
    (
      c5,
      whole,
      (
        record (account_stage e) {
          system = write (account_stage e).system address (registers e (gpr r)) e.process;
        },
        (account_stage e).system,
        rw (test, is_sw') (write_back-sw base r address hb hr near e d),
        ap (λ v. write (account_stage e).system address v e.process) held
            ∙ ap (λ p. write (account_stage e).system address sum p) process,
      ),
    )
