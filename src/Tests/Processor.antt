-- ===== src/Tests/Processor.antt =====
-- The properties of the ALU, the register bank and the register tables in src/cpu at small inputs.
use multicore_simulator.Prelude.{ℕ, some, ◌≡◌, ◌≢◌, arith}
use multicore_simulator.Prelude.Int.{◌+ℤ◌, ◌-ℤ◌, ◌*ℤ◌, ◌≤ℤ◌}
use multicore_simulator.Cpu.Alu.{
  add, sub, mul, div, beq, bne, blt, bgt, bgti, blti, new_alu, as_i32, calculate,
}
use multicore_simulator.Cpu.Alu.Arithmetic.{Computes, calculate-Computes}
use multicore_simulator.Cpu.Alu.Division.{Divides, calculate_div}
use multicore_simulator.Cpu.Alu.Compare.{Decides, run, calculate-Decides}
use multicore_simulator.Cpu.Registers.{
  RegisterBank, new_register_bank, t0, read_register, write_register, position,
}
use multicore_simulator.Cpu.Registers.Laws.{register_name, is_zero, read_register-write_register}
use multicore_simulator.Cpu.Mapper.Table.{Mapped, gpr, gpr-Mapped}

-- 5 and -2
calculate-Computes_example :
    Computes add 5 4294967294 (as_i32 5 +ℤ as_i32 4294967294) 3
    × Computes sub 5 4294967294 (as_i32 5 -ℤ as_i32 4294967294) 7
    × Computes mul 5 4294967294 (as_i32 5 *ℤ as_i32 4294967294) 4294967286
calculate-Computes_example = calculate-Computes 5 4294967294 (omega arith) (omega arith)

calculate_div_example :
    let r = calculate (record new_alu { a = 5; b = 4294967294; op = div }) in
    Divides (as_i32 5) (as_i32 4294967294) r.result r.overflow
calculate_div_example = calculate_div 5 4294967294 new_alu (omega arith)

calculate-Decides_example :
    Decides (◌≡◌ {A = ℕ} 5 4294967294) (run beq 5 4294967294)
    × Decides (◌≢◌ {A = ℕ} 5 4294967294) (run bne 5 4294967294)
    × Decides (¬ (as_i32 4294967294 ≤ℤ as_i32 5)) (run blt 5 4294967294)
    × Decides (¬ (as_i32 4294967294 ≤ℤ as_i32 5)) (run blti 5 4294967294)
    × Decides (¬ (as_i32 5 ≤ℤ as_i32 4294967294)) (run bgt 5 4294967294)
    × Decides (¬ (as_i32 5 ≤ℤ as_i32 4294967294)) (run bgti 5 4294967294)
calculate-Decides_example = calculate-Decides 5 4294967294 (omega arith) (omega arith)

read_register-write_register_example :
    (bank : RegisterBank) × (write_register new_register_bank (register_name t0) 7 ≡ some bank)
    × (read_register bank (register_name t0) ≡ some 7)
unfolding is_zero position
read_register-write_register_example = read_register-write_register new_register_bank t0 t0 7

gpr-Mapped_example : Mapped (gpr 8) 8
gpr-Mapped_example = gpr-Mapped 8 (omega arith)
