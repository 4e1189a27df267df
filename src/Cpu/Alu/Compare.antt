-- ===== src/Cpu/Alu/Compare.antt =====
-- The comparisons of src/cpu/ULA.cpp.
use multicore_simulator.Prelude.{
  ℕ, true, false, ◌≡◌, ◌≢◌, ◌<◌, ◌⊎◌, refl, sym, ap, ◌∙◌, arith, inl, inr, u32_mod, Bool-cases, not,
}
use multicore_simulator.Prelude.Int.{ℤ, pos, ◌≤ℤ◌, ltb_ℤ, eqb_ℤ, eqb_ℤ_iff}
use multicore_simulator.Cpu.Alu.Arithmetic.{to_word-as_i32}
use multicore_simulator.Cpu.Alu.{
  Operation, beq, bne, blt, bgt, bgti, blti, as_i32, to_word, flag, compute, calculate,
}

abbrev pub run : Operation → ℕ → ℕ → ℤ
run op a b = (calculate (record { a = a; b = b; op = op; result = pos 0; overflow = false })).result

-- `result` is 1 where P holds and 0 where it does not.
abbrev pub Decides : Type 0 → ℤ → Type 0
Decides P r = (P × (r ≡ pos 1)) ⊎ (¬ P × (r ≡ pos 0))

as_i32-injective : (a b : ℕ) → a < u32_mod → b < u32_mod → as_i32 a ≡ as_i32 b → a ≡ b
as_i32-injective a b h k e = sym (to_word-as_i32 a h) ∙ ap to_word e ∙ to_word-as_i32 b k

-- BEQ and BNE decide whether two words are equal; BLT and BLTI decide, and BGT and BGTI decide the
-- other way round, whether the first is the smaller as a signed integer.
pub calculate-Decides :
    (a b : ℕ)
    → a < u32_mod
    → b < u32_mod
    → Decides (a ≡ b) (run beq a b)
      × Decides (a ≢ b) (run bne a b)
      × Decides (¬ (as_i32 b ≤ℤ as_i32 a)) (run blt a b)
      × Decides (¬ (as_i32 b ≤ℤ as_i32 a)) (run blti a b)
      × Decides (¬ (as_i32 a ≤ℤ as_i32 b)) (run bgt a b)
      × Decides (¬ (as_i32 a ≤ℤ as_i32 b)) (run bgti a b)
unfolding calculate compute
calculate-Decides a b h k = (
  equal (Bool-cases (eqb_ℤ (as_i32 a) (as_i32 b))),
  different (Bool-cases (eqb_ℤ (as_i32 a) (as_i32 b))),
  smaller (as_i32 a) (as_i32 b),
  smaller (as_i32 a) (as_i32 b),
  smaller (as_i32 b) (as_i32 a),
  smaller (as_i32 b) (as_i32 a),
)
  where
    smaller : (x y : ℤ) → Decides (¬ (y ≤ℤ x)) (flag (ltb_ℤ x y)).0
    smaller x y = elim (Bool-cases (ltb_ℤ x y)) [
      | inl e ↦ rw e (inl (λ le. ground arith, refl))
      | inr e ↦ rw e (inr (λ n. n (ground arith), refl))
    ]

    same : eqb_ℤ (as_i32 a) (as_i32 b) ≡ true → a ≡ b
    same e = as_i32-injective a b h k ((eqb_ℤ_iff _ _).0 e)

    apart : eqb_ℤ (as_i32 a) (as_i32 b) ≡ false → a ≢ b
    apart e s = ground (arith, (eqb_ℤ_iff (as_i32 a) (as_i32 b)).1 (ap as_i32 s))

    equal :
        (eqb_ℤ (as_i32 a) (as_i32 b) ≡ true) ⊎ (eqb_ℤ (as_i32 a) (as_i32 b) ≡ false)
        → Decides (a ≡ b) (flag (eqb_ℤ (as_i32 a) (as_i32 b))).0
    equal (inl e) = rw e (inl (same e, refl))
    equal (inr e) = rw e (inr (apart e, refl))

    different :
        (eqb_ℤ (as_i32 a) (as_i32 b) ≡ true) ⊎ (eqb_ℤ (as_i32 a) (as_i32 b) ≡ false)
        → Decides (a ≢ b) (flag (not (eqb_ℤ (as_i32 a) (as_i32 b)))).0
    different (inl e) = rw e (inr (λ n. n (same e), refl))
    different (inr e) = rw e (inl (apart e, refl))
