-- ===== src/Pipeline/Plain.antt =====
-- The stages of src/cpu/CONTROL_UNIT.cpp on an instruction that does not touch the memory and does not
-- branch.
use multicore_simulator.Prelude.{
  ℕ, Bool, true, false, some, ◌≡◌, ◌∙◌, inl, inr, refl, arith, Bool-cases,
}
use multicore_simulator.Cpu.Mapper.Table.{gpr}
use multicore_simulator.Control.Bits.{rs_field, rt_field, rd_field}
use multicore_simulator.Control.Decode.{
  Op, nop, bubble, add, sub, mult, div, end, sw, InstructionData, decoded, identify, is_idle,
  is_arithmetic,
}
use multicore_simulator.Control.Core.{Core, registers, account_stage, set_registers}
use multicore_simulator.Control.Execute.{
  execute, dispatch, memory_acess, access, write_back, arithmetic_result,
}
use multicore_simulator.Control.Execute.Coded.{Coded, name_of-IsCode}
use multicore_simulator.Control.Execute.Words.{
  decoded-arithmetic, dispatch-arithmetic, arithmetic-executed,
}
use multicore_simulator.Pipeline.{perform}

unfoldable pub is_plain : Op → Bool
is_plain nop = true
is_plain bubble = true
is_plain add = true
is_plain sub = true
is_plain mult = true
is_plain div = true
is_plain end = true
is_plain _ = false

pub write_back-plain :
    (c : Core) (d : InstructionData)
    → is_plain d.op ≡ true
    → write_back c d ≡ some (account_stage c)
unfolding is_plain write_back
write_back-plain c d h = by_op d.op refl h
  where
    by_op : (op : Op) → d.op ≡ op → is_plain op ≡ true → write_back c d ≡ some (account_stage c)
    by_op sw e plain = cc plain
    by_op _ e plain = rw (e, write_back) refl

access-plain :
    (op : Op) (c : Core) (d : InstructionData) → is_plain op ≡ true → access op c d ≡ some c
unfolding access is_plain
access-plain nop c d h = refl
access-plain bubble c d h = refl
access-plain add c d h = refl
access-plain sub c d h = refl
access-plain mult c d h = refl
access-plain div c d h = refl
access-plain end c d h = refl
access-plain _ c d h = cc h

pub memory_acess-plain :
    (c : Core) (d : InstructionData)
    → Coded d
    → is_plain d.op ≡ true
    → memory_acess c d ≡ some (account_stage c)
unfolding memory_acess
memory_acess-plain c d coded h =
    let (i, _, k) = name_of-IsCode d.target_register coded.target in
    elim (Bool-cases (is_idle d.op)) [
      | inl e ↦ rw e refl
      | inr e ↦ rw (e, k, access-plain d.op (account_stage c) d h) refl
    ]

dispatch-plain :
    (op : Op) (c : Core) (d : InstructionData)
    → is_plain op ≡ true
    → is_arithmetic op ≡ false
    → dispatch op c d ≡ some c
unfolding dispatch is_plain is_arithmetic
dispatch-plain nop c d h other = refl
dispatch-plain bubble c d h other = refl
dispatch-plain end c d h other = refl
dispatch-plain _ c d h other = cc (h, other)

pub execute-plain :
    (c : Core) (d : InstructionData)
    → is_plain d.op ≡ true
    → is_arithmetic d.op ≡ false
    → execute c d ≡ some (account_stage c)
unfolding execute
execute-plain c d h other = dispatch-plain d.op (account_stage c) d h other

arithmetic_result-some :
    (op : Op) (a b : ℕ)
    → is_arithmetic op ≡ true
    → (value : ℕ) × (arithmetic_result op a b ≡ some value)
unfolding arithmetic_result is_arithmetic
arithmetic_result-some add a b h = (_, refl)
arithmetic_result-some sub a b h = (_, refl)
arithmetic_result-some mult a b h = (_, refl)
arithmetic_result-some div a b h = (_, refl)
arithmetic_result-some _ a b h = cc h

-- Execute performs the word.
pub execute-word :
    (c : Core) (d : InstructionData) (w : ℕ)
    → is_arithmetic (identify w) ≡ true
    → execute c (decoded w d) ≡ some (set_registers (perform w (registers c)) (account_stage c))
unfolding execute perform
execute-word c d w h =
    let (value, e) =
      arithmetic_result-some (identify w) (registers c (gpr (rs_field w)))
        (registers c (gpr (rt_field w))) h in
    rw (decoded-arithmetic d w (identify w) refl h, e)
      (dispatch-arithmetic (identify w) (account_stage c) _ h
        ∙ arithmetic-executed c (rs_field w) (rt_field w) (rd_field w) (omega arith) (omega arith)
            (omega arith) (record d { raw_instruction = w }) (identify w) value e)
