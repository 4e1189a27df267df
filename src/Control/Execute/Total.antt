-- ===== src/Control/Execute/Total.antt =====
-- Each stage of src/cpu/CONTROL_UNIT.cpp ends without an exception and leaves the counters of the
-- loop alone.
use multicore_simulator.Prelude.{
  ℕ, true, ◌≡◌, ◌-◌, ◌==◌, inl, inr, refl, sym, ◌∙◌, ltb, leb, ◌&&◌, Bool-cases, length,
}
use multicore_simulator.Cpu.Registers.{pc, mar, ir, write}
use multicore_simulator.Memory.Manager.{System, on_process}
use multicore_simulator.Memory.Manager
use multicore_simulator.Memory.Manager.Quantum.{write-Same}
use multicore_simulator.Control.Decode.{
  Op, add, sub, mult, div, j, beq, bne, addi, addiu, lui, slti, lw, sw, li, la, print, bgt, blt,
  bgti, blti, InstructionData, is_idle, is_empty_text, decode,
}
use multicore_simulator.Control.Core.{Core, registers, set_registers, account_stage, instruction_at}
use multicore_simulator.Control.Execute.{
  execute_immediate_operation, execute_aritmetic_operation, request_print, execute_operation, jumps,
  make_bubble, take_branch, execute_loop_operation, dispatch, execute, load, load_word,
  load_immediate, print_word, access, memory_acess, store_word, write_back, fetched, end_sentinel,
  fetch, decode_at,
}
use multicore_simulator.Control.Execute.Coded.{
  Coded, decode-Coded, name_of-IsCode, register_value-IsCode, address-IsBits,
}
use multicore_simulator.Control.Execute.Keeps.{
  Keeps, Succeeds, Keeps-refl, Keeps-trans, after, set_registers-Keeps, account_stage-Keeps,
  load-Keeps, assign-Succeeds, assign_if-Succeeds, choice-Keeps, request_print-Keeps, set-Keeps,
  with_instructions-Keeps,
}

module _ (c : Core) (d : InstructionData) (h : Coded d) where
  immediate-Succeeds : Succeeds c (execute_immediate_operation c d)
  unfolding execute_immediate_operation
  immediate-Succeeds =
      let (a, e) = register_value-IsCode (registers c) d.source_register h.source in
      let (i, _, k) = name_of-IsCode d.target_register h.target in
      rw (e, k) (assign_if-Succeeds c d.target_register _ h.target)

  aritmetic-Succeeds : Succeeds c (execute_aritmetic_operation c d)
  unfolding execute_aritmetic_operation
  aritmetic-Succeeds =
      let (a, e) = register_value-IsCode (registers c) d.source_register h.source in
      let (b, f) = register_value-IsCode (registers c) d.target_register h.target in
      let (i, _, k) = name_of-IsCode d.destination_register h.destination in
      rw (k, e, f) (assign_if-Succeeds c d.destination_register _ h.destination)

  operation-Succeeds : Succeeds c (execute_operation c d)
  unfolding execute_operation
  operation-Succeeds =
      let (b, f) = register_value-IsCode (registers c) d.target_register h.target in
      elim (Bool-cases (is_empty_text d.target_register)) [
        | inl e ↦ rw e (c, refl, Keeps-refl c)
        | inr e ↦ rw (e, f) (request_print c b, refl, request_print-Keeps c b)
      ]

  take_branch-Keeps : Keeps c (take_branch c d)
  unfolding take_branch make_bubble
  take_branch-Keeps =
      Keeps-trans c _ _
        (with_instructions-Keeps c (leb 1 c.counter && ltb (c.counter - 1) (length c.instructions))
          (c.counter - 1))
        (set_registers-Keeps _ _)

  loop-Succeeds : Succeeds c (execute_loop_operation c d)
  unfolding execute_loop_operation
  loop-Succeeds =
      let (a, e) = register_value-IsCode (registers c) d.source_register h.source in
      let (b, f) = register_value-IsCode (registers c) d.target_register h.target in
      elim (Bool-cases (jumps d.op a b)) [
        | inl k ↦ rw (e, f, k) (take_branch c d, refl, take_branch-Keeps)
        | inr k ↦ rw (e, f, k) (c, refl, Keeps-refl c)
      ]

  dispatch-Succeeds : (op : Op) → Succeeds c (dispatch op c d)
  unfolding dispatch
  dispatch-Succeeds addi = immediate-Succeeds
  dispatch-Succeeds addiu = immediate-Succeeds
  dispatch-Succeeds slti = immediate-Succeeds
  dispatch-Succeeds lui = immediate-Succeeds
  dispatch-Succeeds li = immediate-Succeeds
  dispatch-Succeeds add = aritmetic-Succeeds
  dispatch-Succeeds sub = aritmetic-Succeeds
  dispatch-Succeeds mult = aritmetic-Succeeds
  dispatch-Succeeds div = aritmetic-Succeeds
  dispatch-Succeeds beq = loop-Succeeds
  dispatch-Succeeds j = loop-Succeeds
  dispatch-Succeeds bne = loop-Succeeds
  dispatch-Succeeds bgt = loop-Succeeds
  dispatch-Succeeds bgti = loop-Succeeds
  dispatch-Succeeds blt = loop-Succeeds
  dispatch-Succeeds blti = loop-Succeeds
  dispatch-Succeeds print = operation-Succeeds
  dispatch-Succeeds _ = (c, refl, Keeps-refl c)

  load_word-Succeeds : Succeeds c (load_word c d)
  unfolding load_word
  load_word-Succeeds =
      let (address, e) = address-IsBits d.address_ram_result h.address in
      let (c', value) = load c address in
      rw e
        (after c c' _ (load-Keeps c address) (assign-Succeeds c' d.target_register value h.target))

  load_immediate-Succeeds : Succeeds c (load_immediate c d)
  unfolding load_immediate
  load_immediate-Succeeds =
      let (value, e) = address-IsBits d.address_ram_result h.address in
      rw e (assign-Succeeds c d.target_register value h.target)

  print_word-Succeeds : Succeeds c (print_word c d)
  unfolding print_word
  print_word-Succeeds =
      let (address, e) = address-IsBits d.address_ram_result h.address in
      let (c', value) = load c address in
      elim (Bool-cases (is_empty_text d.target_register)) [
        | inl k ↦
            rw (k, e)
              (
                request_print c' value,
                refl,
                Keeps-trans c c' _ (load-Keeps c address) (request_print-Keeps c' value),
              )
        | inr k ↦ rw k (c, refl, Keeps-refl c)
      ]

  access-Succeeds : (op : Op) → Succeeds c (access op c d)
  unfolding access
  access-Succeeds lw = load_word-Succeeds
  access-Succeeds la = load_immediate-Succeeds
  access-Succeeds li = load_immediate-Succeeds
  access-Succeeds print = print_word-Succeeds
  access-Succeeds _ = (c, refl, Keeps-refl c)

  store_word-Succeeds : Succeeds c (store_word c d)
  unfolding store_word
  store_word-Succeeds =
      let (address, e) = address-IsBits d.address_ram_result h.address in
      let (value, f) = register_value-IsCode (registers c) d.target_register h.target in
      rw (e, f)
        (
          record c { system = Manager.write c.system address value c.process },
          refl,
          record {
            process = refl;
            counter = refl;
            counter_for_end = refl;
            sized = refl;
            quantum = (write-Same c.system address value c.process c.process).0;
            others = λ q n. (write-Same c.system address value c.process q).1;
            unfinished = λ q e. sym (write-Same c.system address value c.process q).1 ∙ e;
            ended = λ x. x;
            finishing = λ x. x;
            coded = λ x. x;
          },
        )

pub execute-Succeeds : (c : Core) (d : InstructionData) → Coded d → Succeeds c (execute c d)
unfolding execute
execute-Succeeds c d h =
    after c (account_stage c) _ (account_stage-Keeps c)
      (dispatch-Succeeds (account_stage c) d h d.op)

pub memory_acess-Succeeds :
    (c : Core) (d : InstructionData) → Coded d → Succeeds c (memory_acess c d)
unfolding memory_acess
memory_acess-Succeeds c d h =
    let (i, _, k) = name_of-IsCode d.target_register h.target in
    elim (Bool-cases (is_idle d.op)) [
      | inl e ↦ rw e (account_stage c, refl, account_stage-Keeps c)
      | inr e ↦
          rw (e, k)
            (after c (account_stage c) _ (account_stage-Keeps c)
              (access-Succeeds (account_stage c) d h d.op))
    ]

pub write_back-Succeeds : (c : Core) (d : InstructionData) → Coded d → Succeeds c (write_back c d)
unfolding write_back
write_back-Succeeds c d h = by_op d.op refl
  where
    by_op : (op : Op) → d.op ≡ op → Succeeds c (write_back c d)
    by_op sw e =
        rw (e, write_back)
          (after c (account_stage c) _ (account_stage-Keeps c)
            (store_word-Succeeds (account_stage c) d h))
    by_op _ e = rw (e, write_back) (account_stage c, refl, account_stage-Keeps c)

-- Decode and Fetch cannot throw at all.
pub decode_at-Keeps : (c : Core) (i : ℕ) → Keeps c (decode_at c i)
unfolding decode_at
decode_at-Keeps c i =
    let counted = account_stage c in
    let (bank, d) = decode c.instructions (registers counted) (instruction_at c i) in
    Keeps-trans c counted _ (account_stage-Keeps c) (
      Keeps-trans counted _ _
        (set-Keeps counted i d
          (λ h. decode-Coded c.instructions (registers counted) (instruction_at c i) (h i)))
        (set_registers-Keeps _ bank))

ending-Keeps : (c : Core) → Keeps c (record c { end_program = true })
ending-Keeps c = record {
  process = refl;
  counter = refl;
  counter_for_end = refl;
  sized = refl;
  quantum = refl;
  others = λ q n. refl;
  unfinished = λ q e. e;
  ended = λ e. e;
  finishing = λ e. refl;
  coded = λ h. h;
}

fetched-Keeps : (c : Core) (instr : ℕ) → Keeps c (fetched c instr)
unfolding fetched
fetched-Keeps c instr =
    choice-Keeps c _ _ (instr == 0 && ltb 10000 (registers c pc)) (ending-Keeps c)
      (choice-Keeps c _ _ (instr == end_sentinel) (ending-Keeps c) (set_registers-Keeps c _))

pub fetch-Keeps : (c : Core) → Keeps c (fetch c)
unfolding fetch
fetch-Keeps c =
    let counted = account_stage c in
    let addressed = set_registers (write mar (registers c pc) (registers c)) counted in
    let (c', instr) = load addressed (registers addressed mar) in
    let filled = set_registers (write ir instr (registers c')) c' in
    Keeps-trans c counted _ (account_stage-Keeps c) (
      Keeps-trans counted addressed _
        (set_registers-Keeps counted (write mar (registers c pc) (registers c)))
        (Keeps-trans addressed c' _ (load-Keeps addressed (registers addressed mar)) (
          Keeps-trans c' filled _ (set_registers-Keeps c' (write ir instr (registers c')))
            (fetched-Keeps filled instr))))
